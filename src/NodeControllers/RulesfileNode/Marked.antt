-- ===== src/NodeControllers/RulesfileNode/Marked.antt =====
-- The condition `DependenciesSatisfied` that `enforceRulesfileCompatibility` leaves.
use falco_operator.Common.{
  ℕ, String, Bool, true, false, ◌&&◌, ◌||◌, not, List, [], ◌∷◌, Option, none, some, ok, err, ◌≡◌,
  arith, is_some, Map, Option-cases, Result-cases, inl, inr, string_eq, List-cases, join_strings,
  append,
}
use falco_operator.Artifact.{InstalledArtifact}
use falco_operator.Metadata.{MetaRequirement, ArtifactMeta}
use falco_operator.NodeArtifacts.{Provided}
use falco_operator.NodeArtifacts.Registry.{check_requirement}
use falco_operator.ControllerHelper.Conditions.{Status}
use falco_operator.ControllerHelper.Programmed.{
  new_dependencies_satisfied_condition, condition_dependencies_satisfied, is_true, withholds,
  withholds-set_status,
}
use falco_operator.NodeControllers.{Reconciler, ReconcileError, RulesfileObject}
use falco_operator.NodeControllers.Outcome.{
  reason_dependencies_unknown, reason_update_rejected, message_suffix_update_rejected,
  reason_dependencies_satisfied, message_dependencies_satisfied, dependencies_not_satisfied_outcome,
}
use falco_operator.NodeControllers.RulesfileNode.Compatibility.{
  returns, any_unsatisfied, Conditions, not_satisfied, check_engine_requirement, check_requirements,
  unsatisfied_dependencies, check_dependencies, declares, has_any_source, set_condition,
  nothing_declared, empty_message, base_message, requirement_message, compare_message,
  enforce_rulesfile_compatibility, not_empty,
}
use falco_operator.NodeControllers.RulesfileNode.Decided.{
  may_install, all_dependencies_met, all_requirements_met, all_met, met, Checked-cases,
  check_engine_requirement-met, check_requirements-decides, unsatisfied_dependencies-met,
  unsatisfied_dependencies-failed,
}

module _ (r : Reconciler) (provides : Map String Provided) where
  abbrev withheld : Conditions → Bool
  withheld conditions = withholds condition_dependencies_satisfied conditions

  set_condition-withheld :
      (status : Status) (reason msg : String) (gen : ℕ) (conditions : Conditions)
      → withheld (set_condition r status reason msg gen conditions) ≡ not (is_true status)
  set_condition-withheld status reason msg gen conditions =
      withholds-set_status r.status_lib condition_dependencies_satisfied
        (new_dependencies_satisfied_condition status reason msg gen) conditions

  not_satisfied-withheld :
      (already : Bool) (msg : String) (gen : ℕ) (conditions : Conditions)
      → withheld (not_satisfied r already msg gen conditions).1 ≡ true
  unfolding not_satisfied
  not_satisfied-withheld already msg gen conditions =
      let o = dependencies_not_satisfied_outcome r.enforce_requirements already msg in
      set_condition-withheld Status.status_false o.reason o.message gen conditions

  check_engine_requirement-keeps :
      (already : Bool) (req : MetaRequirement) (gen : ℕ) (conditions : Conditions) (s k : Bool)
      → (check_engine_requirement r provides already req gen conditions).0 ≡ ok (s, k)
      → withheld (check_engine_requirement r provides already req gen conditions).1
        ≡ (not k || withheld conditions)
  unfolding check_engine_requirement
  check_engine_requirement-keeps already req gen conditions s k h =
      let c = check_requirement r.env.versions provides req.name req.version in
      elim (Option-cases c.error) [
        | inl e ↦
            ground
              (arith, not_satisfied-withheld already (requirement_message r req c) gen conditions)
        | inr (x, e) ↦ ground arith
      ]

  -- A requirement that is not met leaves its mark through the rest of the loop.
  check_requirements-withheld :
      (already : Bool) (gen : ℕ) (reqs : List MetaRequirement) (any : Bool)
      (conditions : Conditions)
      → (any ≡ true → withheld conditions ≡ true)
      → ((b : Bool)
          → (check_requirements r provides already gen reqs any conditions).0 ≡ any_unsatisfied b
          → b ≡ true
          → withheld (check_requirements r provides already gen reqs any conditions).1 ≡ true)
        × ((skip : Bool)
            → (check_requirements r provides already gen reqs any conditions).0 ≡ returns (ok skip)
            → withheld (check_requirements r provides already gen reqs any conditions).1 ≡ true)
  unfolding check_requirements
  check_requirements-withheld already gen [] any conditions w =
      (λ b h k. ground arith, λ skip h. ground arith)
  check_requirements-withheld already gen (req ∷ rest) any conditions w =
      elim (Result-cases (check_engine_requirement r provides already req gen conditions).0) [
        | inr (x, e) ↦ (λ b h k. ground arith, λ skip h. ground arith)
        | inl ((s, k), e) ↦
            let after = (check_engine_requirement r provides already req gen conditions).1 in
            let one = check_engine_requirement-keeps already req gen conditions s k e in
            let met = check_engine_requirement-met r provides already req gen conditions s k e in
            let later =
              check_requirements-withheld already gen rest (any || not k) after (ground arith) in
            (
              λ b h q. ground (arith, later.0 b, one, met),
              λ skip h. ground (arith, later.1 skip, one, met),
            )
      ]

  check_engine_requirement-failed :
      (already : Bool) (req : MetaRequirement) (gen : ℕ) (conditions : Conditions)
      (x : ReconcileError)
      → (check_engine_requirement r provides already req gen conditions).0 ≡ err x
      → (met r provides req ≡ false)
        × (withheld (check_engine_requirement r provides already req gen conditions).1 ≡ true)
  unfolding check_engine_requirement
  check_engine_requirement-failed already req gen conditions x h =
      let c = check_requirement r.env.versions provides req.name req.version in
      elim (Option-cases c.error) [
        | inl e ↦ ground arith
        | inr (y, e) ↦ ground (
          arith,
          set_condition-withheld Status.status_unknown reason_dependencies_unknown
              (compare_message r req.name y) gen conditions,
        )
      ]

  -- A version that cannot be compared counts as one that is not met.
  check_requirements-failed :
      (already : Bool) (gen : ℕ) (reqs : List MetaRequirement) (any : Bool)
      (conditions : Conditions) (x : ReconcileError)
      → (check_requirements r provides already gen reqs any conditions).0 ≡ returns (err x)
      → (all_met r provides reqs ≡ false)
        × (withheld (check_requirements r provides already gen reqs any conditions).1 ≡ true)
  unfolding check_requirements all_requirements_met
  check_requirements-failed already gen [] any conditions x h = ground arith
  check_requirements-failed already gen (req ∷ rest) any conditions x h =
      elim (Result-cases (check_engine_requirement r provides already req gen conditions).0) [
        | inr (y, e) ↦
            ground (arith, check_engine_requirement-failed already req gen conditions y e)
        | inl ((s, k), e) ↦
            let after = (check_engine_requirement r provides already req gen conditions).1 in
            ground (arith, check_requirements-failed already gen rest (any || not k) after x)
      ]

  check_dependencies-withheld :
      (already : Bool) (gen : ℕ) (meta : ArtifactMeta) (conditions : Conditions)
      → withheld
          (check_dependencies r provides already gen meta.dependencies
            (check_requirements r provides already gen meta.requirements false conditions)).1
        ≡ not (
            all_met r provides meta.requirements
            && all_dependencies_met r.env.versions provides meta.dependencies)
  unfolding check_dependencies
  check_dependencies-withheld already gen meta conditions =
      let loop = check_requirements r provides already gen meta.requirements false conditions in
      let d =
        check_requirements-decides r provides already gen meta.requirements false conditions in
      let w =
        check_requirements-withheld already gen meta.requirements false conditions
          (λ q. ground arith) in
      let f = check_requirements-failed already gen meta.requirements false conditions in
      elim (Checked-cases loop.0) [
        | inl (ok skip, e) ↦ ground (arith, d.1 skip e, w.1 skip e)
        | inl (err x, e) ↦ ground (arith, f x e)
        | inr (b, e) ↦ elim (Result-cases (unsatisfied_dependencies r provides meta.dependencies)) [
          | inr (x, q) ↦ ground (
            arith,
            unsatisfied_dependencies-failed r provides meta.dependencies x q,
            set_condition-withheld Status.status_unknown reason_dependencies_unknown
                (append "Unable to compare plugin versions: " (r.text_of x)) gen loop.1,
          )
          | inl (ms, q) ↦ elim (List-cases ms) [
            | inl z ↦ ground (
              arith,
              d.0 b e,
              w.0 b e,
              unsatisfied_dependencies-met r provides meta.dependencies ms q,
              set_condition-withheld Status.status_true reason_dependencies_satisfied
                  message_dependencies_satisfied gen loop.1,
            )
            | inr (m, rest, z) ↦ ground (
              arith,
              unsatisfied_dependencies-met r provides meta.dependencies ms q,
              not_satisfied-withheld already (join_strings "; " (m ∷ rest)) gen loop.1,
            )
          ]
        ]
      ]

  nothing_declared-withheld :
      (reason msg : String) (gen : ℕ) (conditions : Conditions)
      → withheld (nothing_declared r reason msg gen conditions).1 ≡ r.enforce_requirements
  nothing_declared-withheld reason msg gen conditions = ground (
    arith,
    set_condition-withheld Status.status_unknown reason msg gen conditions,
    set_condition-withheld Status.status_true reason_dependencies_satisfied
        message_dependencies_satisfied gen conditions,
  )

  abbrev declares_something : Option ArtifactMeta → Bool
  declares_something none = false
  declares_something (some meta) = declares meta

  -- For a Rulesfile with a source: the condition `DependenciesSatisfied` is withheld, that is, set
  -- and not True, exactly if something declared is not met, or, in enforce mode, nothing is
  -- declared. A version that cannot be compared is not met. Advise mode reports this too, where it
  -- installs anyway.
  pub enforce_rulesfile_compatibility-withholds :
      (installed : List InstalledArtifact) (rulesfile : RulesfileObject) (conditions : Conditions)
      → has_any_source rulesfile ≡ true
      → withholds condition_dependencies_satisfied
          (enforce_rulesfile_compatibility r provides installed rulesfile conditions).1
        ≡ (not (may_install r.env.versions provides rulesfile)
            && (r.enforce_requirements || declares_something rulesfile.meta.artifact_meta))
  unfolding enforce_rulesfile_compatibility may_install
  enforce_rulesfile_compatibility-withholds installed rulesfile conditions q =
      let gen = rulesfile.meta.generation in
      elim (Option-cases rulesfile.meta.artifact_meta) [
        | inl e ↦ ground (
          arith,
          nothing_declared-withheld reason_dependencies_unknown
              (empty_message r (is_some rulesfile.oci_artifact)) gen conditions,
        )
        | inr (meta, e) ↦ ground (
          arith,
          check_dependencies-withheld (not_empty installed) gen meta conditions,
          nothing_declared-withheld reason_update_rejected
              (append (base_message r) message_suffix_update_rejected) gen conditions,
          nothing_declared-withheld reason_dependencies_unknown (base_message r) gen conditions,
        )
      ]
