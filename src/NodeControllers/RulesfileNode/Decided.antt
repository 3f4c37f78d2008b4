-- ===== src/NodeControllers/RulesfileNode/Decided.antt =====
-- What `enforceRulesfileCompatibility` decides: a description of the Rulesfiles that may be
-- installed, and that the checks agree with it in both modes.
use falco_operator.Common.{
  ℕ, String, Bool, true, false, ◌&&◌, ◌||◌, not, List, [], ◌∷◌, Option, none, some, Result, ok, err,
  ◌≡◌, ◌⊎◌, refl, arith, is_some, Map, Option-cases, Result-cases, inl, inr, string_eq, List-cases,
}
use falco_operator.Compat.{VersionLib}
use falco_operator.Artifact.{InstalledArtifact}
use falco_operator.Metadata.{MetaRequirement, ArtifactMeta}
use falco_operator.NodeArtifacts.{Provided}
use falco_operator.NodeArtifacts.Registry.{
  MetaDependency, RequirementCheck, Match, check_requirement, check_dependency,
}
use falco_operator.NodeControllers.{Reconciler, ReconcileError, RulesfileObject}
use falco_operator.NodeControllers.Outcome.{dependencies_not_satisfied_outcome}
use falco_operator.NodeControllers.RulesfileNode.Compatibility.{
  Checked, returns, any_unsatisfied, Conditions, not_satisfied, check_engine_requirement,
  check_requirements, check_rulesfile_dependency, unsatisfied_dependencies, check_dependencies,
  declares, has_any_source, enforce_rulesfile_compatibility, not_empty,
}

abbrev check_is_met : RequirementCheck → Bool
check_is_met c = not (is_some c.error) && (c.found && c.satisfied)

abbrev match_is_met : Match → Bool
match_is_met m = not (is_some m.error) && m.satisfied

module _ (lib : VersionLib) (provides : Map String Provided) where
  unfoldable pub all_requirements_met : List MetaRequirement → Bool
  all_requirements_met [] = true
  all_requirements_met (req ∷ rest) =
      check_is_met (check_requirement lib provides req.name req.version)
      && all_requirements_met rest

  abbrev match_of : MetaDependency → Match
  match_of dep =
      check_dependency lib provides (record { name = dep.name; version = dep.version })
        dep.alternatives

  abbrev dependency_is_met : MetaDependency → Bool
  dependency_is_met dep = match_is_met (match_of dep)

  unfoldable pub all_dependencies_met : List MetaDependency → Bool
  all_dependencies_met [] = true
  all_dependencies_met (dep ∷ rest) = dependency_is_met dep && all_dependencies_met rest

  abbrev meta_may_install : Option ArtifactMeta → Bool
  meta_may_install none = false
  meta_may_install (some meta) =
      declares meta
      && (all_requirements_met meta.requirements && all_dependencies_met meta.dependencies)

  -- What enforce mode lets through: a Rulesfile without a source, whose files are cleaned up, or
  -- one whose metadata declares something, all of which is met on this node.
  unfoldable pub may_install : RulesfileObject → Bool
  unfolding all_requirements_met all_dependencies_met
  may_install rulesfile =
      not (has_any_source rulesfile) || meta_may_install rulesfile.meta.artifact_meta

pub Checked-cases :
    (c : Checked)
    → ((x : Result ReconcileError Bool) × (c ≡ returns x)) ⊎ ((b : Bool) × (c ≡ any_unsatisfied b))
Checked-cases (returns x) = inl (x, refl)
Checked-cases (any_unsatisfied b) = inr (b, refl)

module _ (r : Reconciler) (provides : Map String Provided) where
  abbrev pub met : MetaRequirement → Bool
  met req = check_is_met (check_requirement r.env.versions provides req.name req.version)

  not_satisfied-skip :
      (already : Bool) (msg : String) (gen : ℕ) (conditions : Conditions)
      → (not_satisfied r already msg gen conditions).0 ≡ r.enforce_requirements
  unfolding not_satisfied dependencies_not_satisfied_outcome
  not_satisfied-skip already msg gen conditions = ground arith

  -- One requirement is met or not, and enforce mode skips where it is not.
  pub check_engine_requirement-met :
      (already : Bool) (req : MetaRequirement) (gen : ℕ) (conditions : Conditions)
      (skip satisfied : Bool)
      → (check_engine_requirement r provides already req gen conditions).0 ≡ ok (skip, satisfied)
      → (satisfied ≡ met req) × (skip ≡ (not satisfied && r.enforce_requirements))
  unfolding check_engine_requirement not_satisfied dependencies_not_satisfied_outcome
  check_engine_requirement-met already req gen conditions skip satisfied h =
      elim (Option-cases (check_requirement r.env.versions provides req.name req.version).error) [
        | inl e ↦ ground arith
        | inr (x, e) ↦ ground arith
      ]

  abbrev pub all_met : List MetaRequirement → Bool
  all_met = all_requirements_met r.env.versions provides

  pub check_requirements-decides :
      (already : Bool) (gen : ℕ) (reqs : List MetaRequirement) (any : Bool)
      (conditions : Conditions)
      → ((b : Bool)
          → (check_requirements r provides already gen reqs any conditions).0 ≡ any_unsatisfied b
          → (b ≡ (any || not (all_met reqs)))
            × (r.enforce_requirements ≡ true → all_met reqs ≡ true))
        × ((skip : Bool)
            → (check_requirements r provides already gen reqs any conditions).0 ≡ returns (ok skip)
            → (skip ≡ true) × (r.enforce_requirements ≡ true) × (all_met reqs ≡ false))
  unfolding check_requirements all_requirements_met
  check_requirements-decides already gen [] any conditions =
      (λ b h. ground arith, λ skip h. ground arith)
  check_requirements-decides already gen (req ∷ rest) any conditions =
      elim (Result-cases (check_engine_requirement r provides already req gen conditions).0) [
        | inr (x, e) ↦ (λ b h. ground arith, λ skip h. ground arith)
        | inl ((s, k), e) ↦
            let after = (check_engine_requirement r provides already req gen conditions).1 in
            let later = check_requirements-decides already gen rest (any || not k) after in
            let one = check_engine_requirement-met already req gen conditions s k e in
            (λ b h. ground (arith, later.0 b, one), λ skip h. ground (arith, later.1 skip, one))
      ]

  dependency-met :
      (dep : MetaDependency) (m : Option String)
      → check_rulesfile_dependency r provides dep ≡ ok m
      → is_some m ≡ not (dependency_is_met r.env.versions provides dep)
  unfolding check_rulesfile_dependency
  dependency-met dep m h = elim (Option-cases (match_of r.env.versions provides dep).error) [
    | inl e ↦ ground arith
    | inr (x, e) ↦ ground arith
  ]

  -- A list of failures is empty exactly if every dependency is met.
  pub unsatisfied_dependencies-met :
      (deps : List MetaDependency) (ms : List String)
      → unsatisfied_dependencies r provides deps ≡ ok ms
      → not_empty ms ≡ not (all_dependencies_met r.env.versions provides deps)
  unfolding unsatisfied_dependencies all_dependencies_met
  unsatisfied_dependencies-met [] ms h = ground arith
  unsatisfied_dependencies-met (dep ∷ rest) ms h =
      elim (Result-cases (check_rulesfile_dependency r provides dep)) [
        | inr (x, e) ↦ ground arith
        | inl (m, e) ↦ elim (Result-cases (unsatisfied_dependencies r provides rest)) [
          | inr (x, q) ↦ ground arith
          | inl (later, q) ↦
              ground (arith, dependency-met dep m e, unsatisfied_dependencies-met rest later q)
        ]
      ]

  pub unsatisfied_dependencies-failed :
      (deps : List MetaDependency) (x : ReconcileError)
      → unsatisfied_dependencies r provides deps ≡ err x
      → all_dependencies_met r.env.versions provides deps ≡ false
  unfolding unsatisfied_dependencies all_dependencies_met check_rulesfile_dependency
  unsatisfied_dependencies-failed [] x h = ground arith
  unsatisfied_dependencies-failed (dep ∷ rest) x h =
      elim (Option-cases (match_of r.env.versions provides dep).error) [
        | inr (y, e) ↦ ground arith
        | inl e ↦ elim (Result-cases (unsatisfied_dependencies r provides rest)) [
          | inr (y, q) ↦ ground (arith, unsatisfied_dependencies-failed rest y q)
          | inl (later, q) ↦ ground arith
        ]
      ]

  check_dependencies-decides :
      (already : Bool) (gen : ℕ) (meta : ArtifactMeta) (conditions : Conditions) (skip : Bool)
      → (check_dependencies r provides already gen meta.dependencies
          (check_requirements r provides already gen meta.requirements false conditions)).0
        ≡ ok skip
      → skip ≡ (
          r.enforce_requirements
          && not (
              all_met meta.requirements
              && all_dependencies_met r.env.versions provides meta.dependencies))
  unfolding check_dependencies not_satisfied dependencies_not_satisfied_outcome
  check_dependencies-decides already gen meta conditions skip h =
      let loop = check_requirements r provides already gen meta.requirements false conditions in
      let d = check_requirements-decides already gen meta.requirements false conditions in
      elim (Checked-cases loop.0) [
        | inl (x, e) ↦ ground (arith, d.1 skip)
        | inr (b, e) ↦ elim (Result-cases (unsatisfied_dependencies r provides meta.dependencies)) [
          | inr (x, q) ↦ ground arith
          | inl (ms, q) ↦ elim (List-cases ms) [
            | inl z ↦ ground (arith, d.0 b e, unsatisfied_dependencies-met meta.dependencies ms q)
            | inr (m, rest, z) ↦
                ground (arith, d.0 b e, unsatisfied_dependencies-met meta.dependencies ms q)
          ]
        ]
      ]

  -- Where the check answers, enforce mode skips exactly the Rulesfiles that may not be installed, and
  -- advise mode skips none.
  pub enforce_rulesfile_compatibility-decides :
      (installed : List InstalledArtifact) (rulesfile : RulesfileObject) (conditions : Conditions)
      (skip : Bool)
      → (enforce_rulesfile_compatibility r provides installed rulesfile conditions).0 ≡ ok skip
      → skip ≡ (r.enforce_requirements && not (may_install r.env.versions provides rulesfile))
  unfolding enforce_rulesfile_compatibility may_install
  enforce_rulesfile_compatibility-decides installed rulesfile conditions skip h =
      elim (Option-cases rulesfile.meta.artifact_meta) [
        | inl e ↦ ground arith
        | inr (meta, e) ↦ ground (
          arith,
          check_dependencies-decides (not_empty installed) rulesfile.meta.generation meta conditions
              skip,
        )
      ]
