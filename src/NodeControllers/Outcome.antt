-- ===== src/NodeControllers/Outcome.antt =====
-- internal/pkg/artifact/compatibility_outcome.go, and the reasons and messages of conditions.go.
use falco_operator.Common.{String, Bool, true, false, append}

abbrev pub reason_programmed : String
reason_programmed = "Programmed"

abbrev pub reason_program_failed : String
reason_program_failed = "ProgramFailed"

abbrev pub message_programmed : String
message_programmed = "All artifacts sources were programmed successfully"

abbrev pub reason_dependencies_satisfied : String
reason_dependencies_satisfied = "DependenciesSatisfied"

abbrev pub message_dependencies_satisfied : String
message_dependencies_satisfied = "All plugin requirements are satisfied"

abbrev pub reason_dependencies_not_satisfied : String
reason_dependencies_not_satisfied = "DependenciesNotSatisfied"

abbrev pub reason_dependencies_unknown : String
reason_dependencies_unknown = "DependenciesUnknown"

abbrev pub reason_installed_anyway : String
reason_installed_anyway = "DependenciesNotSatisfiedInstalledAnyway"

abbrev pub reason_update_rejected : String
reason_update_rejected = "DependenciesNotSatisfiedUpdateRejected"

abbrev pub message_suffix_installed_anyway : String
message_suffix_installed_anyway =
    "; installed anyway because requirement enforcement is disabled (--enforce-requirements=false)"

abbrev pub message_suffix_update_rejected : String
message_suffix_update_rejected =
    "; rejecting this update and keeping the previously installed version"

pub record NotSatisfied : Type 0 where
  pub skip : Bool
  pub reason : String
  pub message : String

unfoldable pub dependencies_not_satisfied_outcome : Bool → Bool → String → NotSatisfied
dependencies_not_satisfied_outcome false already_installed base_msg = record {
  skip = false;
  reason = reason_installed_anyway;
  message = append base_msg message_suffix_installed_anyway;
}
dependencies_not_satisfied_outcome true true base_msg = record {
  skip = true;
  reason = reason_update_rejected;
  message = append base_msg message_suffix_update_rejected;
}
dependencies_not_satisfied_outcome true false base_msg = record {
  skip = true;
  reason = reason_dependencies_not_satisfied;
  message = base_msg;
}
