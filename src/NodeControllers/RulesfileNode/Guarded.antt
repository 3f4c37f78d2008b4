-- ===== src/NodeControllers/RulesfileNode/Guarded.antt =====
-- What a round of the Rulesfile controller may touch on the node, and what it then reports.
use falco_operator.Common.{
  ℕ, String, Bool, true, false, ◌&&◌, ◌||◌, Option, none, some, ◌≡◌, refl, arith, Result-cases,
  Option-cases, inl, inr, ◌==◌, string_eq, eq_iff, ◌⊎◌,
}
use falco_operator.ControllerHelper.Conditions.{Status, Condition, find_condition}
use falco_operator.ControllerHelper.Programmed.{
  withholds, withholds-set_status, all_true-withholds, compute_programmed_condition,
  compute_programmed_condition-is_true, compute_programmed_condition-type, condition_programmed,
  condition_dependencies_satisfied, condition_resolved_refs, new_oci_artifact_programmed_condition,
  new_inline_artifact_programmed_condition, new_config_map_artifact_programmed_condition,
}
use falco_operator.NodeControllers.Outcome.{
  reason_programmed, message_programmed, reason_program_failed,
}
use falco_operator.NodeControllers.{Reconciler, Local, RulesfileObject}
use falco_operator.NodeControllers.Sources.{D, enforce_reference_resolution}
use falco_operator.NodeControllers.Sources.Kept.{
  Untouched, references-Untouched, references-withhold,
}
use falco_operator.NodeControllers.Reconcile.{
  reason_and_message, set_programmed, skip_dependencies_satisfied,
}
use falco_operator.NodeControllers.RulesfileNode.Compatibility.{
  enforce_rulesfile_compatibility, has_any_source,
}
use falco_operator.NodeControllers.RulesfileNode.Marked.{enforce_rulesfile_compatibility-withholds}
use falco_operator.NodeControllers.RulesfileNode.Decided.{
  may_install, enforce_rulesfile_compatibility-decides,
}
use falco_operator.NodeControllers.RulesfileNode.Reconcile.{
  program, references, set_if_some, mark_blocked, is_current,
}

module _ (r : Reconciler) where
  -- What enforce mode lets a round do on the node.
  abbrev pub is_cleared : RulesfileObject → Local (D r) → Bool
  is_cleared rulesfile s =
      is_current rulesfile && may_install r.env.versions s.manager.provides rulesfile

  mark_blocked-Untouched :
      (rulesfile : RulesfileObject) (s : Local (D r)) → Untouched r s (mark_blocked r rulesfile s)
  unfolding mark_blocked
  mark_blocked-Untouched rulesfile s = elim (Option-cases rulesfile.config_map_ref) [
    | inl a ↦ ground arith
    | inr (x, a) ↦ ground arith
  ]

  -- With enforcement, a Rulesfile that is not cleared leaves the node as it is.
  pub program-guarded :
      (server : r.server.State) (rulesfile : RulesfileObject) (s : Local (D r))
      → r.enforce_requirements ≡ true
      → is_cleared rulesfile s ≡ false
      → Untouched r s (program r server rulesfile s).1
  unfolding program
  program-guarded server rulesfile s e h =
      let refs = references r server rulesfile in
      let step = enforce_reference_resolution r rulesfile.meta.generation refs s in
      let u = references-Untouched r rulesfile.meta.generation refs s in
      elim (Result-cases step.0) [
        | inr (x, q) ↦ ground arith
        | inl (x, q) ↦
            let checked =
              enforce_rulesfile_compatibility r step.1.manager.provides step.1.installed rulesfile
                step.1.conditions in
            let decides =
              enforce_rulesfile_compatibility-decides r step.1.manager.provides step.1.installed
                rulesfile step.1.conditions in
            elim (Result-cases checked.0) [
              | inr (y, z) ↦ ground arith
              | inl (true, z) ↦ ground (
                arith,
                mark_blocked-Untouched rulesfile (record step.1 { conditions = checked.1 }),
              )
              | inl (false, z) ↦ ground (arith, decides false z)
            ]
      ]

  set_if_some-withholds :
      {A : Type 0} (o : Option A) (c : Condition) (s : Local (D r))
      → (c.type == condition_dependencies_satisfied) ≡ false
      → withholds condition_dependencies_satisfied (set_if_some r o c s).conditions
        ≡ withholds condition_dependencies_satisfied s.conditions
  set_if_some-withholds none c s h = refl
  set_if_some-withholds (some a) c s h =
      ground
        (arith, withholds-set_status r.status_lib condition_dependencies_satisfied c s.conditions)

  -- The conditions of single sources leave the others alone.
  mark_blocked-withholds :
      (rulesfile : RulesfileObject) (s : Local (D r))
      → withholds condition_dependencies_satisfied (mark_blocked r rulesfile s).conditions
        ≡ withholds condition_dependencies_satisfied s.conditions
  unfolding mark_blocked
  mark_blocked-withholds rulesfile s =
      let gen = rulesfile.meta.generation in
      let c = find_condition condition_dependencies_satisfied s.conditions in
      let (reason, msg) = reason_and_message c in
      let no = Status.status_false in
      let oci = new_oci_artifact_programmed_condition no reason msg gen in
      let inline = new_inline_artifact_programmed_condition no reason msg gen in
      let cm = new_config_map_artifact_programmed_condition no reason msg gen in
      let s1 = set_if_some r rulesfile.oci_artifact oci s in
      let s2 = set_if_some r rulesfile.inline_rules inline s1 in
      ground (
        arith,
        set_if_some-withholds rulesfile.oci_artifact oci s refl,
        set_if_some-withholds rulesfile.inline_rules inline s1 refl,
        set_if_some-withholds rulesfile.config_map_ref cm s2 refl,
      )

  set_programmed-closed :
      (skip : String → Bool) (gen : ℕ) (s : Local (D r)) (type : String)
      → withholds type s.conditions ≡ true
      → (type == condition_programmed || skip type) ≡ false
      → withholds condition_programmed (set_programmed r skip gen s).conditions ≡ true
  unfolding set_programmed
  set_programmed-closed skip gen s type h k =
      let c =
        compute_programmed_condition skip s.conditions reason_programmed message_programmed
          reason_program_failed gen in
      ground (
        arith,
        eq_iff c.type condition_programmed,
        all_true-withholds skip type s.conditions h k,
        compute_programmed_condition-is_true skip s.conditions reason_programmed message_programmed
            reason_program_failed gen,
        withholds-set_status r.status_lib condition_programmed c s.conditions,
        compute_programmed_condition-type skip s.conditions reason_programmed message_programmed
            reason_program_failed gen,
      )

  program-withholds :
      (server : r.server.State) (rulesfile : RulesfileObject) (s : Local (D r))
      → r.enforce_requirements ≡ true
      → has_any_source rulesfile ≡ true
      → may_install r.env.versions s.manager.provides rulesfile ≡ false
      → is_current rulesfile ≡ true
      → (withholds condition_dependencies_satisfied (program r server rulesfile s).1.conditions
          ≡ true)
        ⊎ (withholds condition_resolved_refs (program r server rulesfile s).1.conditions ≡ true)
  unfolding program
  program-withholds server rulesfile s e q h k =
      let refs = references r server rulesfile in
      let step = enforce_reference_resolution r rulesfile.meta.generation refs s in
      let u = references-Untouched r rulesfile.meta.generation refs s in
      elim (Result-cases step.0) [
        | inr (x, z) ↦
            inr (ground (arith, references-withhold r rulesfile.meta.generation refs s x z))
        | inl (x, z) ↦
            let provides = step.1.manager.provides in
            let checked =
              enforce_rulesfile_compatibility r provides step.1.installed rulesfile
                step.1.conditions in
            let w =
              enforce_rulesfile_compatibility-withholds r provides step.1.installed rulesfile
                step.1.conditions q in
            inl (elim (Result-cases checked.0) [
              | inr (y, v) ↦ ground arith
              | inl (true, v) ↦ ground (
                arith,
                mark_blocked-withholds rulesfile (record step.1 { conditions = checked.1 }),
              )
              | inl (false, v) ↦ ground (
                arith,
                enforce_rulesfile_compatibility-decides r provides step.1.installed rulesfile
                    step.1.conditions false v,
              )
            ])
      ]

  -- With enforcement, and once the specification is processed, a Rulesfile with a source that may
  -- not be installed ends its round with the condition `Programmed` set and not True.
  pub program-not_programmed :
      (server : r.server.State) (rulesfile : RulesfileObject) (s : Local (D r)) (gen : ℕ)
      → r.enforce_requirements ≡ true
      → has_any_source rulesfile ≡ true
      → may_install r.env.versions s.manager.provides rulesfile ≡ false
      → is_current rulesfile ≡ true
      → withholds condition_programmed
          (set_programmed r
            (skip_dependencies_satisfied r)
            gen
            (program r server rulesfile s).1).conditions
        ≡ true
  program-not_programmed server rulesfile s gen e q h k =
      let skip = skip_dependencies_satisfied r in
      let t = (program r server rulesfile s).1 in
      elim (program-withholds server rulesfile s e q h k) [
        | inl w ↦ set_programmed-closed skip gen t condition_dependencies_satisfied w (ground arith)
        | inr w ↦ set_programmed-closed skip gen t condition_resolved_refs w (ground arith)
      ]
