-- ===== src/NodeArtifacts/Registry.antt =====
-- The dependency registry of internal/pkg/nodeartifacts/manager.go: what is provided, what is
-- required, and which removals are blocked.
pub mod Snapshot
pub mod Removal
use falco_operator.Common.{
  String, Bool, true, false, ◌||◌, not, List, [], ◌∷◌, map, Option, none, some, Result, ok, err,
  Map, ◌==◌, string_eq, if◌then◌else◌, lookup, insert, delete,
}
use falco_operator.Compat.{
  VersionLib, CompatError, Dependency, validate_plugin_dependency, plugin_version_compatible,
  semver_at_least, semver_major_compatible, capability_plugin_api_version,
}
use falco_operator.NodeArtifacts.{Key, key_eq, Provided, Requirement, RequirementGroup, Manager}

-- `ArtifactMetaDependency` of api/common/v1alpha1; a variant has the fields of a `Dependency`.
pub record MetaDependency : Type 0 where
  pub name : String
  pub version : String
  pub alternatives : List Dependency

unfoldable pub requirement_groups_from_dependencies : List MetaDependency → List RequirementGroup
requirement_groups_from_dependencies deps =
    map (λ (d : MetaDependency). record { name = d.name; version = d.version } ∷ d.alternatives)
      deps

abbrev is_empty : List RequirementGroup → Bool
is_empty [] = true
is_empty (_ ∷ _) = false

unfoldable pub sync : Key → List RequirementGroup → Manager → Manager
sync key requires m =
    if is_empty requires
    then record m { requires = delete key m.requires }
    else record m { requires = insert key requires m.requires }

abbrev pub version_of : Option Provided → String
version_of none = ""
version_of (some p) = p.version

-- The `Removed` mark of what is provided; a missing entry reads as Go's zero value.
abbrev pub is_removed : Option Provided → Bool
is_removed none = false
is_removed (some p) = p.removed

unfoldable pub sync_provides : Key → String → Manager → Manager
sync_provides key name m = record m {
  provides =
      insert name
        (record { key = key; version = version_of (lookup name m.provides); removed = false })
        m.provides;
}

-- What `CheckRequirement` returns.
pub record RequirementCheck : Type 0 where
  pub provided_version : String
  pub found : Bool
  pub satisfied : Bool
  pub error : Option CompatError

-- What `CheckDependency` returns.
pub record Match : Type 0 where
  pub matched_name : String
  pub provided_version : String
  pub satisfied : Bool
  pub error : Option CompatError

abbrev pub no_match : Match
no_match = record { matched_name = ""; provided_version = ""; satisfied = false; error = none }

abbrev pub satisfied_of : Result CompatError Bool → Bool
satisfied_of (ok b) = b
satisfied_of (err e) = false

abbrev pub error_of {ℓ} : {A : Type ℓ} → Result CompatError A → Option CompatError
error_of (ok _) = none
error_of (err e) = some e

abbrev pub is_satisfied : Match → Bool
is_satisfied r = elim r.error [ none ↦ r.satisfied | some _ ↦ false ]

-- `slices.ContainsFunc` on the names of a group.
unfoldable pub names : String → RequirementGroup → Bool
names name [] = false
names name (req ∷ group) = req.name == name || names name group

module _ (lib : VersionLib) where
  unfoldable pub version_satisfies : String → String → String → Result CompatError Bool
  version_satisfies name available required =
      if name == capability_plugin_api_version
      then semver_major_compatible lib available required
      else semver_at_least lib available required

  check_known : String → String → Option Provided → RequirementCheck
  check_known name min_version none = record {
    provided_version = "";
    found = false;
    satisfied = false;
    error = none;
  }
  check_known name min_version (some p) =
      if p.version == ""
      then record { provided_version = ""; found = false; satisfied = false; error = none }
      else (let r = version_satisfies name p.version min_version in
          record {
            provided_version = p.version;
            found = true;
            satisfied = satisfied_of r;
            error = error_of r;
          })

  unfoldable pub check_requirement : Map String Provided → String → String → RequirementCheck
  unfolding check_known
  check_requirement provides name min_version = check_known name min_version (lookup name provides)

  abbrev pub observed_match : Requirement → Provided → Match
  observed_match req p =
      if p.version == ""
      then record {
        matched_name = req.name;
        provided_version = "";
        satisfied = false;
        error = none;
      }
      else (let r = plugin_version_compatible lib p.version req.version in
          record {
            matched_name = req.name;
            provided_version = p.version;
            satisfied = satisfied_of r;
            error = error_of r;
          })

  -- The loop of `checkDependencyLocked`: the first candidate that is provided decides.
  unfoldable pub first_observed : Map String Provided → String → List Requirement → Match
  first_observed provides excluded [] = no_match
  first_observed provides excluded (req ∷ group) =
      let later = first_observed provides excluded group in
      if req.name == excluded then later else elim (lookup req.name provides) [
        | none ↦ later
        | some p ↦ if p.removed then later else observed_match req p
      ]

  unfoldable pub check_dependency_locked : Map String Provided → RequirementGroup → String → Match
  check_dependency_locked provides group excluded = elim (validate_plugin_dependency lib group) [
    | err e ↦ record { matched_name = ""; provided_version = ""; satisfied = false; error = some e }
    | ok _ ↦ first_observed provides excluded group
  ]

  unfoldable pub check_dependency : Map String Provided → Requirement → List Requirement → Match
  check_dependency provides primary alternatives =
      check_dependency_locked provides (primary ∷ alternatives) ""

  -- The group would lose its satisfier with `name`.
  unfoldable pub loses : Map String Provided → String → RequirementGroup → Bool
  unfolding names
  loses provides name group =
      if names name group
      then not (is_satisfied (check_dependency_locked provides group name))
      else false

  unfoldable pub any_loses : Map String Provided → String → List RequirementGroup → Bool
  any_loses provides name [] = false
  any_loses provides name (g ∷ groups) = loses provides name g || any_loses provides name groups

  unfoldable pub blocked_by_others :
      Map String Provided → String → Map Key (List RequirementGroup) → List Key
  blocked_by_others provides name [] = []
  blocked_by_others provides name ((key, groups) ∷ rest) =
      let later = blocked_by_others provides name rest in
      if any_loses provides name groups then key ∷ later else later
