-- ===== src/NodeArtifacts/Registry/Snapshot.antt =====
-- A dependency check reads no more of the registry than the names of its group, and to exclude a
-- name is to look at the registry in which that name is marked removed.
use falco_operator.Common.{
  String, true, false, List, [], ◌∷◌, Map, ◌≡◌, refl, arith, eq_iff, string_eq, lookup, insert,
  lookup-insert, All, inl, inr, Result-cases,
}
use falco_operator.Compat.{VersionLib, validate_plugin_dependency}
use falco_operator.Compat.Validate.{IsReadable, validate_plugin_dependency_iff}
use falco_operator.NodeArtifacts.{Provided, Requirement, RequirementGroup, plugin_config_key}
use falco_operator.NodeArtifacts.Registry.{
  first_observed, check_dependency_locked, names, is_removed,
}

-- The mark that an explicit removal leaves.
abbrev pub removed_mark : Provided
removed_mark = record { key = plugin_config_key; version = ""; removed = true }

module _ (lib : VersionLib) where
  first_observed-excluded :
      (provides : Map String Provided) (name : String) (group : List Requirement)
      → All (IsReadable lib) group
      → first_observed lib (insert name removed_mark provides) "" group
        ≡ first_observed lib provides name group
  unfolding first_observed
  first_observed-excluded provides name [] h = refl
  first_observed-excluded provides name (req ∷ group) h = ground (
    arith,
    h.0.0,
    eq_iff req.name "",
    eq_iff req.name name,
    eq_iff name req.name,
    lookup-insert name req.name removed_mark provides,
    first_observed-excluded provides name group h.1,
  )

  first_observed-other :
      (provides : Map String Provided) (name excluded : String) (p : Provided)
      (group : List Requirement)
      → names name group ≡ false
      → first_observed lib (insert name p provides) excluded group
        ≡ first_observed lib provides excluded group
  unfolding first_observed names
  first_observed-other provides name excluded p [] h = refl
  first_observed-other provides name excluded p (req ∷ group) h = ground (
    arith,
    eq_iff req.name name,
    eq_iff name req.name,
    lookup-insert name req.name p provides,
    first_observed-other provides name excluded p group,
  )

  pub check_excluded :
      (provides : Map String Provided) (name : String) (group : RequirementGroup)
      → check_dependency_locked lib (insert name removed_mark provides) group ""
        ≡ check_dependency_locked lib provides group name
  unfolding check_dependency_locked
  check_excluded provides name group = elim (Result-cases (validate_plugin_dependency lib group)) [
    | inl (u, e) ↦ ground (
      arith,
      e,
      first_observed-excluded provides name group
          ((validate_plugin_dependency_iff lib group).0 e).0,
    )
    | inr (x, e) ↦ ground (arith, e)
  ]

  pub check_other :
      (provides : Map String Provided) (name excluded : String) (p : Provided)
      (group : RequirementGroup)
      → names name group ≡ false
      → check_dependency_locked lib (insert name p provides) group excluded
        ≡ check_dependency_locked lib provides group excluded
  unfolding check_dependency_locked
  check_other provides name excluded p group h =
      ground (arith, first_observed-other provides name excluded p group h)

  first_observed-marked :
      (provides : Map String Provided) (name : String) (group : List Requirement)
      → is_removed (lookup name provides) ≡ true
      → first_observed lib (insert name removed_mark provides) "" group
        ≡ first_observed lib provides "" group
  unfolding first_observed
  first_observed-marked provides name [] h = refl
  first_observed-marked provides name (req ∷ group) h = ground (
    arith,
    eq_iff name req.name,
    lookup-insert name req.name removed_mark provides,
    first_observed-marked provides name group h,
  )

  -- To mark a removed name again changes no check.
  pub check_marked :
      (provides : Map String Provided) (name : String) (group : RequirementGroup)
      → is_removed (lookup name provides) ≡ true
      → check_dependency_locked lib (insert name removed_mark provides) group ""
        ≡ check_dependency_locked lib provides group ""
  unfolding check_dependency_locked
  check_marked provides name group h = ground (arith, first_observed-marked provides name group h)
