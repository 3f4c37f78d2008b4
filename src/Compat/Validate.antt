-- ===== src/Compat/Validate.antt =====
-- `ValidatePluginDependency` accepts exactly the groups with readable versions and distinct names.
use falco_operator.Common.{
  String, ℕ, ◌≡◌, ◌≢◌, ◌↔◌, false, List, [], ◌∷◌, ok, arith, All, contains, string_eq, eq_iff, refl,
}
use falco_operator.Compat.{
  VersionLib, Dependency, parse_plugin_version, validate_from, validate_plugin_dependency,
}

-- The names of a group are pairwise different.
abbrev pub DistinctNames : List Dependency → Type 0
DistinctNames [] = Unit
DistinctNames (c ∷ cs) = All (λ d. d.name ≢ c.name) cs × DistinctNames cs

module _ (lib : VersionLib) where
  abbrev pub IsReadable : Dependency → Type 0
  IsReadable d = (d.name ≢ "") × ((v : ℕ × ℕ × ℕ) × (parse_plugin_version lib d.version ≡ ok v))

  abbrev Unseen : List String → List Dependency → Type 0
  Unseen seen cs = All (λ d. contains seen d.name ≡ false) cs

  Unseen-cons :
      (n : String) (seen : List String) (cs : List Dependency)
      → Unseen seen cs
      → All (λ d. d.name ≢ n) cs
      → Unseen (n ∷ seen) cs
  unfolding contains
  Unseen-cons n seen [] h k = tt
  Unseen-cons n seen (c ∷ cs) h k = (ground (arith, eq_iff n c.name), Unseen-cons n seen cs h.1 k.1)

  Unseen-tail :
      (n : String) (seen : List String) (cs : List Dependency)
      → Unseen (n ∷ seen) cs
      → Unseen seen cs
  unfolding contains
  Unseen-tail n seen [] h = tt
  Unseen-tail n seen (c ∷ cs) h = (ground arith, Unseen-tail n seen cs h.1)

  Unseen-head :
      (n : String) (seen : List String) (cs : List Dependency)
      → Unseen (n ∷ seen) cs
      → All (λ d. d.name ≢ n) cs
  unfolding contains
  Unseen-head n seen [] h = tt
  Unseen-head n seen (c ∷ cs) h = (ground (arith, eq_iff n c.name), Unseen-head n seen cs h.1)

  validate_from_step :
      (seen : List String) (c : Dependency) (cs : List Dependency)
      → validate_from lib seen (c ∷ cs) ≡ ok tt
      → (c.name ≢ "")
        × ((v : ℕ × ℕ × ℕ) × (parse_plugin_version lib c.version ≡ ok v))
        × (contains seen c.name ≡ false)
        × (validate_from lib (c.name ∷ seen) cs ≡ ok tt)
  unfolding validate_from
  validate_from_step seen c cs h = ground (arith, eq_iff c.name "")

  validate_from_sound :
      (seen : List String) (cs : List Dependency)
      → validate_from lib seen cs ≡ ok tt
      → All IsReadable cs × DistinctNames cs × Unseen seen cs
  unfolding validate_from
  validate_from_sound seen [] h = (tt, tt, tt)
  validate_from_sound seen (c ∷ cs) h =
      let (name_ok, (v, read), fresh, rest) = validate_from_step seen c cs h in
      let (r, d, u) = validate_from_sound (c.name ∷ seen) cs rest in
      (
        ((name_ok, (v, read)), r),
        (Unseen-head c.name seen cs u, d),
        (fresh, Unseen-tail c.name seen cs u),
      )

  validate_from_complete :
      (seen : List String) (cs : List Dependency)
      → All IsReadable cs
      → DistinctNames cs
      → Unseen seen cs
      → validate_from lib seen cs ≡ ok tt
  unfolding validate_from
  validate_from_complete seen [] r d u = refl
  validate_from_complete seen (c ∷ cs) r d u = ground (
    arith,
    validate_from_complete (c.name ∷ seen) cs r.1 d.1 (Unseen-cons c.name seen cs u.1 d.0),
    eq_iff c.name "",
    r.0.0,
    r.0.1.1,
  )

  Unseen-nil : (cs : List Dependency) → Unseen [] cs
  unfolding contains
  Unseen-nil [] = tt
  Unseen-nil (c ∷ cs) = (refl, Unseen-nil cs)

  -- A dependency group passes exactly when every candidate has a name and a version that Falco can
  -- read, and no name stands in it twice.
  pub validate_plugin_dependency_iff :
      (cs : List Dependency)
      → (validate_plugin_dependency lib cs ≡ ok tt) ↔ (All IsReadable cs × DistinctNames cs)
  unfolding validate_plugin_dependency
  validate_plugin_dependency_iff cs = (
    λ h. let (r, d, _) = validate_from_sound [] cs h in (r, d),
    λ p. validate_from_complete [] cs p.0 p.1 (Unseen-nil cs),
  )
