-- ===== src/NodeControllers/RulesfileNode/Compatibility.antt =====
-- `enforceRulesfileCompatibility` of controllers/artifact/rulesfile/controller.go: the requirements
-- and dependencies of a Rulesfile against what the node's manager knows.
use falco_operator.Common.{
  ℕ, String, Bool, true, false, ◌&&◌, ◌||◌, not, List, [], ◌∷◌, Option, none, some, Result, ok, err,
  ◌>>=◌, append, join_strings, is_some, if◌then◌else◌, Map, map,
}
use falco_operator.Compat.{CompatError, Dependency}
use falco_operator.Artifact.{InstalledArtifact}
use falco_operator.Metadata.{MetaRequirement, ArtifactMeta}
use falco_operator.NodeArtifacts.{Provided}
use falco_operator.NodeArtifacts.Registry.{
  MetaDependency, RequirementCheck, check_requirement, check_dependency,
}
use falco_operator.ControllerHelper.Conditions.{Status, Condition}
use falco_operator.ControllerHelper.Programmed.{
  new_dependencies_satisfied_condition, condition_dependencies_satisfied,
}
use falco_operator.NodeControllers.{Reconciler, ReconcileError, version, RulesfileObject}
use falco_operator.NodeControllers.Outcome.{
  dependencies_not_satisfied_outcome, reason_dependencies_satisfied, message_dependencies_satisfied,
  reason_dependencies_unknown, reason_update_rejected, message_suffix_update_rejected,
}

-- Where a loop over requirements ends: with a return, or having seen whether one is not met.
pub data Checked : Type 0 where
  returns : Result ReconcileError Bool → Checked
  any_unsatisfied : Bool → Checked

abbrev pub not_empty {ℓ} : {A : Type ℓ} → List A → Bool
not_empty [] = false
not_empty (_ ∷ _) = true

abbrev pub at_least_text : String → String → String
at_least_text name required = append name (append " >= " required)

abbrev pub Conditions : Type 0
Conditions = List Condition

abbrev alternative_text : Dependency → String
alternative_text alt = at_least_text alt.name alt.version

abbrev dependency_message : MetaDependency → List Dependency → String
dependency_message dep [] = append (at_least_text dep.name dep.version) " is not satisfied by Falco"
dependency_message dep (a ∷ rest) = append (at_least_text dep.name dep.version) (
    append " not satisfied (checked alternatives: "
      (append (join_strings ", " (map alternative_text (a ∷ rest))) ")"))

abbrev pub declares : ArtifactMeta → Bool
declares meta = not_empty meta.requirements || not_empty meta.dependencies

abbrev pub has_any_source : RulesfileObject → Bool
has_any_source rulesfile =
    is_some rulesfile.oci_artifact
    || (is_some rulesfile.config_map_ref || is_some rulesfile.inline_rules)

module _ (r : Reconciler) where
  abbrev pub set_condition : Status → String → String → ℕ → Conditions → Conditions
  set_condition status reason msg gen conditions =
      r.status_lib.set_status (new_dependencies_satisfied_condition status reason msg gen)
        conditions

  -- The shared end of a requirement that is not met.
  unfoldable pub not_satisfied : Bool → String → ℕ → Conditions → Bool × Conditions
  not_satisfied already_installed base_msg gen conditions =
      let outcome =
        dependencies_not_satisfied_outcome r.enforce_requirements already_installed base_msg in
      (
        outcome.skip,
        set_condition Status.status_false outcome.reason outcome.message gen conditions,
      )

  abbrev pub compare_message : String → CompatError → String
  compare_message name e =
      append "Unable to compare " (append name (append " versions: " (r.text_of (version name e))))

  abbrev pub requirement_message : MetaRequirement → RequirementCheck → String
  requirement_message req c = append "requires " (
      append (at_least_text req.name req.version) (
        if c.found
        then append " but Falco reports " c.provided_version
        else " but Falco does not report this capability"))

  -- `checkEngineRequirement` and what the loop does with its result: `skip` returns.
  unfoldable pub check_engine_requirement :
      Map String Provided
      → Bool
      → MetaRequirement
      → ℕ
      → Conditions
      → Result ReconcileError (Bool × Bool) × Conditions
  unfolding not_satisfied
  check_engine_requirement provides already_installed req gen conditions =
      let c = check_requirement r.env.versions provides req.name req.version in
      elim c.error [
        | some e ↦ (
          err (version req.name e),
          set_condition Status.status_unknown reason_dependencies_unknown
              (compare_message req.name e) gen conditions,
        )
        | none ↦
            if c.found && c.satisfied
            then (ok (false, true), conditions)
            else (let (skip, after) =
                  not_satisfied already_installed (requirement_message req c) gen conditions in
                (ok (skip, false), after))
      ]

  abbrev pub go_on :
      Bool
      → Result ReconcileError (Bool × Bool) × Conditions
      → (Bool → Conditions → Checked × Conditions)
      → Checked × Conditions
  go_on any (err e, conditions) next = (returns (err e), conditions)
  go_on any (ok (skip, satisfied), conditions) next =
      if skip then (returns (ok true), conditions) else next (any || not satisfied) conditions

  unfoldable pub check_requirements :
      Map String Provided
      → Bool
      → ℕ
      → List MetaRequirement
      → Bool
      → Conditions
      → Checked × Conditions
  unfolding check_engine_requirement
  check_requirements provides already_installed gen [] any conditions =
      (any_unsatisfied any, conditions)
  check_requirements provides already_installed gen (req ∷ rest) any conditions =
      go_on any (check_engine_requirement provides already_installed req gen conditions)
        (check_requirements provides already_installed gen rest)

  -- `none` where the dependency is satisfied, else why it is not.
  unfoldable pub check_rulesfile_dependency :
      Map String Provided → MetaDependency → Result ReconcileError (Option String)
  check_rulesfile_dependency provides dep =
      let m =
        check_dependency r.env.versions provides (record { name = dep.name; version = dep.version })
          dep.alternatives in
      elim m.error [
        | some e ↦ err (version dep.name e)
        | none ↦ ok (if m.satisfied then none else some (dependency_message dep dep.alternatives))
      ]

  abbrev pub with_message : Option String → List String → List String
  with_message none unsatisfied = unsatisfied
  with_message (some msg) unsatisfied = msg ∷ unsatisfied

  unfoldable pub unsatisfied_dependencies :
      Map String Provided → List MetaDependency → Result ReconcileError (List String)
  unfolding check_rulesfile_dependency
  unsatisfied_dependencies provides [] = ok []
  unsatisfied_dependencies provides (dep ∷ rest) =
      check_rulesfile_dependency provides dep >>= λ msg.
      unsatisfied_dependencies provides rest >>= λ later. ok (with_message msg later)

  abbrev pub all_satisfied : ℕ → Conditions → Conditions
  all_satisfied gen conditions =
      set_condition Status.status_true reason_dependencies_satisfied message_dependencies_satisfied
        gen conditions

  -- The part after the requirements.
  unfoldable pub check_dependencies :
      Map String Provided
      → Bool
      → ℕ
      → List MetaDependency
      → Checked × Conditions
      → Result ReconcileError Bool × Conditions
  unfolding not_satisfied unsatisfied_dependencies
  check_dependencies provides already_installed gen deps (returns result, conditions) =
      (result, conditions)
  check_dependencies provides already_installed gen deps (any_unsatisfied any, conditions) =
      elim (unsatisfied_dependencies provides deps) [
        | err e ↦ (
          err e,
          set_condition Status.status_unknown reason_dependencies_unknown
              (append "Unable to compare plugin versions: " (r.text_of e)) gen conditions,
        )
        | ok (m ∷ ms) ↦
            let (skip, after) =
              not_satisfied already_installed (join_strings "; " (m ∷ ms)) gen conditions in
            (ok skip, after)
        | ok [] ↦ (ok false, if any then conditions else all_satisfied gen conditions)
      ]

  abbrev pub empty_message : Bool → String
  empty_message has_oci =
      if has_oci
      then "OCI artifact metadata not yet available; instance operator has not fetched it"
      else "artifact declares no requirements; installation blocked in enforce mode"

  -- Nothing to check: enforce mode waits, advise mode goes on.
  abbrev pub nothing_declared :
      String → String → ℕ → Conditions → Result ReconcileError Bool × Conditions
  nothing_declared reason msg gen conditions =
      if r.enforce_requirements
      then (ok true, set_condition Status.status_unknown reason msg gen conditions)
      else (ok false, all_satisfied gen conditions)

  abbrev pub base_message : String
  base_message = "artifact metadata declares no requirements; installation blocked in enforce mode"

  abbrev check_rulesfile_meta :
      Map String Provided
      → Bool
      → ℕ
      → ArtifactMeta
      → Conditions
      → Result ReconcileError Bool × Conditions
  check_rulesfile_meta provides already_installed gen meta conditions =
      if declares meta
      then check_dependencies provides already_installed gen meta.dependencies
          (check_requirements provides already_installed gen meta.requirements false conditions)
      else if already_installed
      then nothing_declared reason_update_rejected
          (append base_message message_suffix_update_rejected) gen conditions
      else nothing_declared reason_dependencies_unknown base_message gen conditions

  unfoldable pub enforce_rulesfile_compatibility :
      Map String Provided
      → List InstalledArtifact
      → RulesfileObject
      → Conditions
      → Result ReconcileError Bool × Conditions
  unfolding check_requirements check_dependencies
  enforce_rulesfile_compatibility provides installed rulesfile conditions =
      if has_any_source rulesfile
      then elim rulesfile.meta.artifact_meta [
        | none ↦
            nothing_declared reason_dependencies_unknown
              (empty_message (is_some rulesfile.oci_artifact)) rulesfile.meta.generation conditions
        | some meta ↦
            check_rulesfile_meta provides (not_empty installed) rulesfile.meta.generation meta
              conditions
      ]
      else (ok false, r.status_lib.remove_status condition_dependencies_satisfied conditions)
