-- ===== src/NodeArtifacts/Registry/Removal.antt =====
-- The guard of a removal, `blockedByOthers`, against the registry that the removal leaves.
use falco_operator.Common.{Bool, ◌&&◌, ◌||◌, not, if◌then◌else◌}
use falco_operator.Common.{
  String, true, false, List, [], ◌∷◌, Map, ◌≡◌, ◌⊎◌, refl, arith, insert, string_eq, All, All-map,
  All-always, inl, inr, Bool-cases, lookup,
}
use falco_operator.Compat.{VersionLib}
use falco_operator.NodeArtifacts.{Key, Provided, RequirementGroup}
use falco_operator.NodeArtifacts.Registry.{
  check_dependency_locked, names, loses, any_loses, blocked_by_others, is_satisfied, is_removed,
}
use falco_operator.NodeArtifacts.Registry.Snapshot.{
  removed_mark, check_excluded, check_other, check_marked,
}

module _ (lib : VersionLib) where
  -- The registry after `name` was removed.
  abbrev pub without : Map String Provided → String → Map String Provided
  without provides name = insert name removed_mark provides

  -- What the removal of `name` leaves of a group: one that names it is satisfied by another
  -- candidate, and the check of any other group gives what it gave before.
  abbrev pub Survives : Map String Provided → String → RequirementGroup → Type 0
  Survives provides name g =
      ((names name g ≡ true)
        × (is_satisfied (check_dependency_locked lib (without provides name) g "") ≡ true))
      ⊎ ((names name g ≡ false)
          × (check_dependency_locked lib (without provides name) g ""
              ≡ check_dependency_locked lib provides g ""))

  abbrev pub AllSurvive : Map String Provided → String → Map Key (List RequirementGroup) → Type 0
  AllSurvive provides name requires = All (λ entry. All (Survives provides name) entry.1) requires

  loses-Survives :
      (provides : Map String Provided) (name : String) (g : RequirementGroup)
      → loses lib provides name g ≡ false
      → Survives provides name g
  unfolding loses
  loses-Survives provides name g h = elim (Bool-cases (names name g)) [
    | inl e ↦ inl (e, ground (arith, check_excluded lib provides name g))
    | inr e ↦ inr (e, check_other lib provides name "" removed_mark g e)
  ]

  any_loses-Survives :
      (provides : Map String Provided) (name : String) (gs : List RequirementGroup)
      → any_loses lib provides name gs ≡ false
      → All (Survives provides name) gs
  unfolding any_loses
  any_loses-Survives provides name [] h = tt
  any_loses-Survives provides name (g ∷ gs) h = (
    loses-Survives provides name g (ground arith),
    any_loses-Survives provides name gs (ground arith),
  )

  -- If nothing blocks the removal of a name, then with the name marked removed every registered
  -- group that names it is satisfied, and the check of every other group is unchanged.
  pub blocked_by_others_sound :
      (provides : Map String Provided) (name : String) (requires : Map Key (List RequirementGroup))
      → blocked_by_others lib provides name requires ≡ []
      → AllSurvive provides name requires
  unfolding blocked_by_others
  blocked_by_others_sound provides name [] h = tt
  blocked_by_others_sound provides name ((key, gs) ∷ rest) h = (
    any_loses-Survives provides name gs (ground arith),
    blocked_by_others_sound provides name rest (ground arith),
  )

  -- A group that names the plugin and is not satisfied in the registry that the removal leaves,
  -- whether or not it was satisfied before.
  abbrev pub is_stranded : Map String Provided → String → RequirementGroup → Bool
  is_stranded provides name g =
      names name g && not (is_satisfied (check_dependency_locked lib (without provides name) g ""))

  unfoldable pub any_stranded : Map String Provided → String → List RequirementGroup → Bool
  any_stranded provides name [] = false
  any_stranded provides name (g ∷ gs) = is_stranded provides name g || any_stranded provides name gs

  -- The keys with such a group, in the order of the map.
  unfoldable pub stranded_keys :
      Map String Provided → String → Map Key (List RequirementGroup) → List Key
  unfolding any_stranded
  stranded_keys provides name [] = []
  stranded_keys provides name ((key, gs) ∷ rest) =
      let later = stranded_keys provides name rest in
      if any_stranded provides name gs then key ∷ later else later

  any_loses-stranded :
      (provides : Map String Provided) (name : String) (gs : List RequirementGroup)
      → any_loses lib provides name gs ≡ any_stranded provides name gs
  unfolding any_loses loses any_stranded
  any_loses-stranded provides name [] = refl
  any_loses-stranded provides name (g ∷ gs) =
      ground (arith, check_excluded lib provides name g, any_loses-stranded provides name gs)

  -- What blocks the removal of a name is exactly the keys with a registered group that names it and
  -- is not satisfied in the registry with the name marked removed. A group that was not satisfied
  -- before blocks too.
  pub blocked_by_others-stranded :
      (provides : Map String Provided) (name : String) (requires : Map Key (List RequirementGroup))
      → blocked_by_others lib provides name requires ≡ stranded_keys provides name requires
  unfolding blocked_by_others stranded_keys
  blocked_by_others-stranded provides name [] = refl
  blocked_by_others-stranded provides name ((key, gs) ∷ rest) =
      ground
        (arith, any_loses-stranded provides name gs, blocked_by_others-stranded provides name rest)

  abbrev pub Satisfied : Map String Provided → RequirementGroup → Type 0
  Satisfied provides g = is_satisfied (check_dependency_locked lib provides g "") ≡ true

  -- Every registered group that was satisfied is satisfied in another registry.
  abbrev pub KeepsSatisfied :
      Map String Provided → Map String Provided → Map Key (List RequirementGroup) → Type 0
  KeepsSatisfied before after requires =
      All (λ entry. All (λ g. Satisfied before g → Satisfied after g) entry.1) requires

  Survives-keeps :
      (provides : Map String Provided) (name : String) (g : RequirementGroup)
      → Survives provides name g
      → Satisfied provides g
      → Satisfied (without provides name) g
  Survives-keeps provides name g (inl s) h = s.1
  Survives-keeps provides name g (inr s) h = rw s.1 h

  pub AllSurvive-keeps :
      (provides : Map String Provided) (name : String) (requires : Map Key (List RequirementGroup))
      → AllSurvive provides name requires
      → KeepsSatisfied provides (without provides name) requires
  AllSurvive-keeps provides name requires h =
      All-map requires (λ entry. All-map entry.1 (λ g. Survives-keeps provides name g)) h

  pub marked-keeps :
      (provides : Map String Provided) (name : String) (requires : Map Key (List RequirementGroup))
      → is_removed (lookup name provides) ≡ true
      → KeepsSatisfied provides (without provides name) requires
  marked-keeps provides name requires h =
      All-always requires
        (λ entry. All-always entry.1 (λ g s. rw (check_marked lib provides name g h) s))
