-- ===== src/NodeControllers/RulesfileNode/Failed.antt =====
-- Where the check of a Rulesfile fails, and what it answers otherwise.
use falco_operator.Common.{
  ℕ, String, Bool, false, ◌&&◌, ◌||◌, not, List, [], ◌∷◌, ok, err, ◌≡◌, ◌⊎◌, arith, Map,
  Option-cases, Result-cases, inl, inr, string_eq, List-cases,
}
use falco_operator.Artifact.{InstalledArtifact}
use falco_operator.Metadata.{MetaRequirement, ArtifactMeta}
use falco_operator.NodeArtifacts.{Provided}
use falco_operator.NodeArtifacts.Registry.{check_requirement}
use falco_operator.NodeControllers.{Reconciler, ReconcileError, RulesfileObject}
use falco_operator.NodeControllers.Outcome.{dependencies_not_satisfied_outcome}
use falco_operator.NodeControllers.RulesfileNode.Compatibility.{
  returns, Conditions, not_satisfied, check_engine_requirement, check_requirements,
  unsatisfied_dependencies, check_dependencies, enforce_rulesfile_compatibility, not_empty,
}
use falco_operator.NodeControllers.RulesfileNode.Decided.{
  met, all_met, all_requirements_met, all_dependencies_met, may_install, Checked-cases,
  unsatisfied_dependencies-failed, enforce_rulesfile_compatibility-decides,
}

module _ (r : Reconciler) (provides : Map String Provided) where
  check_engine_requirement-failed :
      (already : Bool) (req : MetaRequirement) (gen : ℕ) (conditions : Conditions)
      (x : ReconcileError)
      → (check_engine_requirement r provides already req gen conditions).0 ≡ err x
      → met r provides req ≡ false
  unfolding check_engine_requirement not_satisfied
  check_engine_requirement-failed already req gen conditions x h =
      elim (Option-cases (check_requirement r.env.versions provides req.name req.version).error) [
        | inl e ↦ ground arith
        | inr (y, e) ↦ ground arith
      ]

  check_requirements-failed :
      (already : Bool) (gen : ℕ) (reqs : List MetaRequirement) (any : Bool)
      (conditions : Conditions) (x : ReconcileError)
      → (check_requirements r provides already gen reqs any conditions).0 ≡ returns (err x)
      → all_met r provides reqs ≡ false
  unfolding check_requirements all_requirements_met
  check_requirements-failed already gen [] any conditions x h = ground arith
  check_requirements-failed already gen (req ∷ rest) any conditions x h =
      elim (Result-cases (check_engine_requirement r provides already req gen conditions).0) [
        | inr (y, e) ↦
            ground (arith, check_engine_requirement-failed already req gen conditions y e)
        | inl ((s, k), e) ↦
            let after = (check_engine_requirement r provides already req gen conditions).1 in
            ground (arith, check_requirements-failed already gen rest (any || not k) after x)
      ]

  check_dependencies-failed :
      (already : Bool) (gen : ℕ) (meta : ArtifactMeta) (conditions : Conditions)
      (x : ReconcileError)
      → (check_dependencies r provides already gen meta.dependencies
          (check_requirements r provides already gen meta.requirements false conditions)).0
        ≡ err x
      → (all_met r provides meta.requirements
          && all_dependencies_met r.env.versions provides meta.dependencies)
        ≡ false
  unfolding check_dependencies not_satisfied dependencies_not_satisfied_outcome
  check_dependencies-failed already gen meta conditions x h =
      let loop = check_requirements r provides already gen meta.requirements false conditions in
      elim (Checked-cases loop.0) [
        | inl (y, e) ↦
            ground
              (arith, check_requirements-failed already gen meta.requirements false conditions x)
        | inr (b, e) ↦ elim (Result-cases (unsatisfied_dependencies r provides meta.dependencies)) [
          | inr (y, q) ↦
              ground (arith, unsatisfied_dependencies-failed r provides meta.dependencies y q)
          | inl (ms, q) ↦ elim (List-cases ms) [
            | inl z ↦ ground arith
            | inr (m, rest, z) ↦ ground arith
          ]
        ]
      ]

  enforce_rulesfile_compatibility-failed :
      (installed : List InstalledArtifact) (rulesfile : RulesfileObject) (conditions : Conditions)
      (x : ReconcileError)
      → (enforce_rulesfile_compatibility r provides installed rulesfile conditions).0 ≡ err x
      → may_install r.env.versions provides rulesfile ≡ false
  unfolding enforce_rulesfile_compatibility may_install
  enforce_rulesfile_compatibility-failed installed rulesfile conditions x h =
      elim (Option-cases rulesfile.meta.artifact_meta) [
        | inl e ↦ ground arith
        | inr (meta, e) ↦ ground (
          arith,
          check_dependencies-failed (not_empty installed) rulesfile.meta.generation meta conditions
              x,
        )
      ]

  -- The check of a Rulesfile answers or fails. Where it answers, enforce mode skips exactly the
  -- Rulesfiles that may not be installed, and advise mode skips none. It fails, in either mode, only
  -- on a Rulesfile that may not be installed.
  pub enforce_rulesfile_compatibility-answers :
      (installed : List InstalledArtifact) (rulesfile : RulesfileObject) (conditions : Conditions)
      → ((skip : Bool) × ((enforce_rulesfile_compatibility r provides installed rulesfile
              conditions).0
            ≡ ok skip)
          × (skip
              ≡ (r.enforce_requirements && not (may_install r.env.versions provides rulesfile))))
        ⊎ ((x : ReconcileError) × ((enforce_rulesfile_compatibility r provides installed rulesfile
                conditions).0
              ≡ err x)
            × (may_install r.env.versions provides rulesfile ≡ false))
  enforce_rulesfile_compatibility-answers installed rulesfile conditions =
      elim (Result-cases
        (enforce_rulesfile_compatibility r provides installed rulesfile conditions).0) [
          | inl (skip, e) ↦ inl (
            skip,
            e,
            enforce_rulesfile_compatibility-decides r provides installed rulesfile conditions skip
                e,
          )
          | inr (x, e) ↦
              inr (x, e, enforce_rulesfile_compatibility-failed installed rulesfile conditions x e)
        ]
