-- ===== src/Metadata.antt =====
-- internal/pkg/artifact/compat.go: the requirements that an artifact declares, merged from its
-- sources. The rest of the metadata of a Rulesfile is in Sources.
pub mod Strictest
pub mod Sources
pub mod Tests
use falco_operator.Common.{
  ℕ, suc, String, Bool, true, false, ◌&&◌, ◌||◌, not, List, [], ◌∷◌, ◌++◌, Option, none, some,
  Result, ok, err, ◌==◌, string_eq, if◌then◌else◌, length, ltb,
}
use falco_operator.Compat.{
  VersionLib, CompatError, Dependency, capability_plugin_api_version, semver_at_least,
  semver_major_compatible,
}
use falco_operator.NodeArtifacts.Registry.{MetaDependency}
use text.Mathlib.Text.{is_lt}
use Prim.Native.String.{compare}

pub record MetaRequirement : Type 0 where
  pub name : String
  pub version : String

pub record ArtifactMeta : Type 0 where
  pub digest : String
  pub spec_hash : String
  pub requirements : List MetaRequirement
  pub dependencies : List MetaDependency

-- What the loop does with a requirement of the same name that it meets.
pub data Decision : Type 0 where
  go_on replace keep : Decision

abbrev decide_api : Result CompatError Bool → Result CompatError Bool → Decision
decide_api (err e) r = Decision.go_on
decide_api (ok b) (err e) = Decision.go_on
decide_api (ok true) (ok b) = Decision.replace
decide_api (ok false) (ok true) = Decision.keep
decide_api (ok false) (ok false) = Decision.go_on

abbrev decide_order : Result CompatError Bool → Decision
decide_order (err e) = Decision.go_on
decide_order (ok true) = Decision.replace
decide_order (ok false) = Decision.keep

abbrev string_ltb : String → String → Bool
string_ltb a b = is_lt (compare a b)

unfoldable pub requirement_less : MetaRequirement → MetaRequirement → Bool
requirement_less a b =
    if a.name == b.name then string_ltb a.version b.version else string_ltb a.name b.name

unfoldable pub insert_requirement : MetaRequirement → List MetaRequirement → List MetaRequirement
insert_requirement r [] = r ∷ []
insert_requirement r (x ∷ rest) =
    let later = insert_requirement r rest in
    if requirement_less x r then x ∷ later else r ∷ x ∷ rest

unfoldable pub sort_requirements : List MetaRequirement → List MetaRequirement
unfolding insert_requirement requirement_less
sort_requirements [] = []
sort_requirements (r ∷ rest) = insert_requirement r (sort_requirements rest)

abbrev pub put_back :
    MetaRequirement → Option (List MetaRequirement) → Option (List MetaRequirement)
put_back c none = none
put_back c (some rest) = some (c ∷ rest)

abbrev pub or_append :
    List MetaRequirement → MetaRequirement → Option (List MetaRequirement) → List MetaRequirement
or_append result req none = result ++ req ∷ []
or_append result req (some merged) = merged

module _ (lib : VersionLib) where
  unfoldable pub decide : MetaRequirement → MetaRequirement → Decision
  decide current req =
      if current.name == req.name
      then if current.version == req.version
        then Decision.keep
        else if req.name == capability_plugin_api_version
        then decide_api (semver_major_compatible lib req.version current.version)
            (semver_major_compatible lib current.version req.version)
        else decide_order (semver_at_least lib req.version current.version)
      else Decision.go_on

  -- The inner loop; `none` where it merged nothing.
  unfoldable pub merge_requirement :
      MetaRequirement → List MetaRequirement → Option (List MetaRequirement)
  unfolding decide
  merge_requirement req [] = none
  merge_requirement req (c ∷ rest) =
      let later = merge_requirement req rest in
      elim (decide c req) [
        | Decision.go_on ↦ put_back c later
        | Decision.replace ↦ some (req ∷ rest)
        | Decision.keep ↦ some (c ∷ rest)
      ]

  unfoldable pub merge_requirements :
      List MetaRequirement → List MetaRequirement → List MetaRequirement
  unfolding merge_requirement
  merge_requirements result [] = result
  merge_requirements result (req ∷ rest) =
      merge_requirements (or_append result req (merge_requirement req result)) rest

  unfoldable pub deduplicate_requirements : List MetaRequirement → List MetaRequirement
  unfolding merge_requirements sort_requirements
  deduplicate_requirements [] = []
  deduplicate_requirements (r ∷ []) = r ∷ []
  deduplicate_requirements (r ∷ s ∷ rest) = sort_requirements (merge_requirements [] (r ∷ s ∷ rest))

abbrev variants_equal : List Dependency → List Dependency → Bool
variants_equal [] [] = true
variants_equal [] (b ∷ ys) = false
variants_equal (a ∷ xs) [] = false
variants_equal (a ∷ xs) (b ∷ ys) =
    a.name == b.name && (a.version == b.version && variants_equal xs ys)

unfoldable pub dependency_equal : MetaDependency → MetaDependency → Bool
dependency_equal a b =
    a.name == b.name && (a.version == b.version && variants_equal a.alternatives b.alternatives)

abbrev variants_less : List Dependency → List Dependency → Bool
variants_less [] [] = false
variants_less [] (b ∷ ys) = true
variants_less (a ∷ xs) [] = false
variants_less (a ∷ xs) (b ∷ ys) =
    let later = variants_less xs ys in
    if a.name == b.name
    then if a.version == b.version then later else string_ltb a.version b.version
    else string_ltb a.name b.name

unfoldable pub dependency_less : MetaDependency → MetaDependency → Bool
dependency_less a b =
    if a.name == b.name
    then if a.version == b.version
      then variants_less a.alternatives b.alternatives
      else string_ltb a.version b.version
    else string_ltb a.name b.name

unfoldable pub holds_dependency : List MetaDependency → MetaDependency → Bool
unfolding dependency_equal
holds_dependency [] d = false
holds_dependency (x ∷ rest) d = dependency_equal d x || holds_dependency rest d

unfoldable pub drop_duplicates : List MetaDependency → List MetaDependency → List MetaDependency
unfolding holds_dependency
drop_duplicates result [] = result
drop_duplicates result (d ∷ rest) =
    drop_duplicates (if holds_dependency result d then result else result ++ d ∷ []) rest

unfoldable pub insert_dependency : MetaDependency → List MetaDependency → List MetaDependency
unfolding dependency_less
insert_dependency d [] = d ∷ []
insert_dependency d (x ∷ rest) =
    let later = insert_dependency d rest in if dependency_less x d then x ∷ later else d ∷ x ∷ rest

unfoldable pub sort_dependencies : List MetaDependency → List MetaDependency
unfolding insert_dependency
sort_dependencies [] = []
sort_dependencies (d ∷ rest) = insert_dependency d (sort_dependencies rest)

unfoldable pub deduplicate_dependencies : List MetaDependency → List MetaDependency
unfolding drop_duplicates sort_dependencies
deduplicate_dependencies deps = sort_dependencies (drop_duplicates [] deps)

unfoldable pub deduplicate_artifact_meta : VersionLib → ArtifactMeta → ArtifactMeta
unfolding deduplicate_requirements deduplicate_dependencies
deduplicate_artifact_meta lib meta = record meta {
  requirements = deduplicate_requirements lib meta.requirements;
  dependencies = deduplicate_dependencies meta.dependencies;
}

unfoldable pub artifact_meta_cache_hit : Option ArtifactMeta → String → Bool
artifact_meta_cache_hit none spec_hash = false
artifact_meta_cache_hit (some cached) spec_hash = cached.spec_hash == spec_hash
