-- ===== src/ControllerHelper/Programmed.antt =====
-- internal/pkg/common/conditions.go: the conditions of a node object and the gate that derives
-- `Programmed` from them. The list functions of `apimeta` are an argument, `StatusLib`.
use falco_operator.Common.{
  ℕ, suc, String, Bool, true, false, ◌&&◌, ◌||◌, not, List, [], ◌∷◌, Option, none, some, ◌==◌,
  string_eq, if◌then◌else◌, append, ◌≡◌, arith, eq_iff, is_some, ltb,
}
use falco_operator.ControllerHelper.Conditions.{Status, Condition, find_condition}

-- `apimeta.SetStatusCondition` and `RemoveStatusCondition`: a list holds a type once.
pub record StatusLib : Type 0 where
  pub set_status : Condition → List Condition → List Condition
  pub remove_status : String → List Condition → List Condition
  pub find-set_status :
      (type : String) (c : Condition) (list : List Condition)
      → find_condition type (set_status c list)
        ≡ (if c.type == type then some c else find_condition type list)
  pub find-remove_status :
      (type removed : String) (list : List Condition)
      → find_condition type (remove_status removed list)
        ≡ (if removed == type then none else find_condition type list)

abbrev pub condition_programmed : String
condition_programmed = "Programmed"

abbrev pub condition_resolved_refs : String
condition_resolved_refs = "ResolvedRefs"

abbrev pub condition_dependencies_satisfied : String
condition_dependencies_satisfied = "DependenciesSatisfied"

abbrev pub condition_oci_artifact_programmed : String
condition_oci_artifact_programmed = "OCIArtifactProgrammed"

abbrev pub condition_inline_artifact_programmed : String
condition_inline_artifact_programmed = "InlineArtifactProgrammed"

abbrev pub condition_config_map_artifact_programmed : String
condition_config_map_artifact_programmed = "ConfigMapArtifactProgrammed"

abbrev pub condition_config_programmed : String
condition_config_programmed = "ConfigProgrammed"

abbrev pub condition_deletion_blocked : String
condition_deletion_blocked = "DeletionBlocked"

abbrev pub new_condition : String → Status → String → String → ℕ → Condition
new_condition type status reason message generation = record {
  type = type;
  status = status;
  reason = reason;
  message = message;
  observed_generation = generation;
}

abbrev pub new_programmed_condition : Status → String → String → ℕ → Condition
new_programmed_condition = new_condition condition_programmed

abbrev pub new_resolved_refs_condition : Status → String → String → ℕ → Condition
new_resolved_refs_condition = new_condition condition_resolved_refs

abbrev pub new_dependencies_satisfied_condition : Status → String → String → ℕ → Condition
new_dependencies_satisfied_condition = new_condition condition_dependencies_satisfied

abbrev pub new_oci_artifact_programmed_condition : Status → String → String → ℕ → Condition
new_oci_artifact_programmed_condition = new_condition condition_oci_artifact_programmed

abbrev pub new_inline_artifact_programmed_condition : Status → String → String → ℕ → Condition
new_inline_artifact_programmed_condition = new_condition condition_inline_artifact_programmed

abbrev pub new_config_map_artifact_programmed_condition : Status → String → String → ℕ → Condition
new_config_map_artifact_programmed_condition =
    new_condition condition_config_map_artifact_programmed

abbrev pub new_config_programmed_condition : Status → String → String → ℕ → Condition
new_config_programmed_condition = new_condition condition_config_programmed

abbrev pub new_deletion_blocked_condition : Status → String → String → ℕ → Condition
new_deletion_blocked_condition = new_condition condition_deletion_blocked

abbrev pub is_true : Status → Bool
is_true Status.status_true = true
is_true Status.status_unknown = false
is_true Status.status_false = false

abbrev pub is_not_true : Option Condition → Bool
is_not_true none = false
is_not_true (some c) = not (is_true c.status)

-- The list has a condition of the type, and it is not True.
abbrev pub withholds : String → List Condition → Bool
withholds type conditions = is_not_true (find_condition type conditions)

abbrev status_text : Status → String
status_text Status.status_true = "True"
status_text Status.status_unknown = "Unknown"
status_text Status.status_false = "False"

module _ (skip : String → Bool) where
  abbrev pub passes_over : Condition → Bool
  passes_over c = c.type == condition_programmed || skip c.type

  -- One round of the loop, on the count and the first condition that blocks.
  abbrev gate_step : Condition → ℕ × Option Condition → ℕ × Option Condition
  gate_step c (n, blocking) =
      if passes_over c
      then (n, blocking)
      else if not (is_true c.status) && not (is_some blocking)
      then (suc n, some c)
      else (suc n, blocking)

  unfoldable pub gate_loop : List Condition → ℕ × Option Condition → ℕ × Option Condition
  gate_loop [] seen = seen
  gate_loop (c ∷ rest) seen = gate_loop rest (gate_step c seen)

  abbrev blocked_message : Option Condition → String
  blocked_message none = "no conditions to gate on"
  blocked_message (some c) =
      append "blocked by "
        (append c.type (append " (" (append (status_text c.status) (append "): " c.message))))

  unfoldable pub compute_programmed_condition :
      List Condition → String → String → String → ℕ → Condition
  unfolding gate_loop
  compute_programmed_condition conditions true_reason true_message false_reason generation =
      let (n, blocking) = gate_loop conditions (0, none) in
      if ltb 0 n && not (is_some blocking)
      then new_programmed_condition Status.status_true true_reason true_message generation
      else new_programmed_condition Status.status_false false_reason (blocked_message blocking)
          generation

  -- The gate's own view of a list: a condition that counts, and no counted one that is not True.
  abbrev pub some_counts : List Condition → Bool
  some_counts [] = false
  some_counts (c ∷ rest) = not (passes_over c) || some_counts rest

  abbrev pub all_true : List Condition → Bool
  all_true [] = true
  all_true (c ∷ rest) = (passes_over c || is_true c.status) && all_true rest

  gate_loop_blocking :
      (list : List Condition) (n : ℕ) (b : Option Condition)
      → is_some (gate_loop list (n, b)).1 ≡ (is_some b || not (all_true list))
  unfolding gate_loop
  gate_loop_blocking [] n b = ground arith
  gate_loop_blocking (c ∷ rest) n b = ground (
    arith,
    gate_loop_blocking rest n b,
    gate_loop_blocking rest (suc n) b,
    gate_loop_blocking rest (suc n) (some c),
  )

  gate_loop_count :
      (list : List Condition) (n : ℕ) (b : Option Condition)
      → ltb 0 (gate_loop list (n, b)).0 ≡ (ltb 0 n || some_counts list)
  unfolding gate_loop
  gate_loop_count [] n b = ground arith
  gate_loop_count (c ∷ rest) n b = ground (
    arith,
    gate_loop_count rest n b,
    gate_loop_count rest (suc n) b,
    gate_loop_count rest (suc n) (some c),
  )

  -- `Programmed` is True exactly if some condition counts and each one that counts is True.
  pub compute_programmed_condition-is_true :
      (conditions : List Condition) (r t f : String) (g : ℕ)
      → is_true (compute_programmed_condition conditions r t f g).status
        ≡ (some_counts conditions && all_true conditions)
  unfolding compute_programmed_condition
  compute_programmed_condition-is_true conditions r t f g =
      ground (arith, gate_loop_blocking conditions 0 none, gate_loop_count conditions 0 none)

  pub compute_programmed_condition-type :
      (conditions : List Condition) (r t f : String) (g : ℕ)
      → (compute_programmed_condition conditions r t f g).type ≡ condition_programmed
  unfolding compute_programmed_condition
  compute_programmed_condition-type conditions r t f g = ground arith

  -- One condition that counts and is not True closes the gate.
  pub all_true-withholds :
      (type : String) (conditions : List Condition)
      → withholds type conditions ≡ true
      → (type == condition_programmed || skip type) ≡ false
      → all_true conditions ≡ false
  unfolding find_condition
  all_true-withholds type [] h k = ground arith
  all_true-withholds type (d ∷ rest) h k =
      ground (arith, all_true-withholds type rest, eq_iff d.type type)

pub withholds-set_status :
    (lib : StatusLib) (type : String) (c : Condition) (list : List Condition)
    → withholds type (lib.set_status c list)
      ≡ (if c.type == type then not (is_true c.status) else withholds type list)
withholds-set_status lib type c list = ground (arith, lib.find-set_status type c list)

pub withholds-remove_status :
    (lib : StatusLib) (type removed : String) (list : List Condition)
    → withholds type (lib.remove_status removed list)
      ≡ (if removed == type then false else withholds type list)
withholds-remove_status lib type removed list =
    ground (arith, lib.find-remove_status type removed list)
