-- ===== src/Metadata/Sources.antt =====
-- controllers/instance/artifact/rulesfile/controller.go: `fetchAndCacheArtifactMeta`, the metadata of
-- a Rulesfile built from all its sources. What the API client, the registry, the hash of the sources
-- and the YAML reader return is an argument.
pub mod Published
pub mod Complete
pub mod Current
use falco_operator.Common.{
  String, Bool, true, ◌&&◌, ◌||◌, List, [], ◌∷◌, ◌++◌, Option, none, some, Result, ok, err, ◌>>=◌,
  Map, lookup, ◌==◌, string_eq, if◌then◌else◌, is_some, ◌≡◌, arith, Bool-cases, inl, inr,
  Result-cases, eq_iff,
}
use falco_operator.Compat.{VersionLib}
use falco_operator.NodeArtifacts.Registry.{MetaDependency}
use falco_operator.Metadata.{
  MetaRequirement, ArtifactMeta, deduplicate_artifact_meta, artifact_meta_cache_hit,
}

-- The text of a source and the requirements that `ParseRulesRequirements` reads in it.
pub record RulesRequirements : Type 0 where
  pub engine_version : String
  pub engine_version_is_int : Bool
  pub plugin_versions : List MetaDependency

pub record MetaSources : Type 0 where
  pub oci_artifact_spec_hash : String
  pub config_map_name : String
  pub config_map_configured : Bool
  pub config_map_rules : String
  pub inline_configured : Bool
  pub inline_rules : String

-- The parts of the spec that the metadata depends on.
pub record RulesfileSpec : Type 0 where
  pub oci_artifact : Option String
  pub config_map_ref : Option String
  pub inline_rules : Option String

pub record RulesfileStatus : Type 0 where
  pub artifact_meta : Option ArtifactMeta
  pub artifact_meta_sources_hash : String

-- `puller.ArtifactConfig`
pub record ArtifactConfig : Type 0 where
  pub requirements : List MetaRequirement
  pub dependencies : List MetaDependency

-- `ComputeOCIArtifactSpecHash`, the client's `Get` of a ConfigMap's data, `hash`, `FetchConfig` with
-- the known digest, `FetchContent` with the resolved one, and `compat.ParseRulesRequirements`.
pub record Reader : Type 0 where
  pub spec_hash : String → Result String String
  pub get_config_map : String → Result String (Map String String)
  pub sources_hash : MetaSources → Result String String
  pub fetch_config : String → String → Result String (Option ArtifactConfig × String)
  pub fetch_content : String → String → Result String String
  pub parse_rules : String → Result String (Option RulesRequirements)

abbrev pub config_map_rules_key : String
config_map_rules_key = "rules.yaml"

module _ (reader : Reader) where
  abbrev pub collect_hash : Option String → Result String String
  collect_hash none = ok ""
  collect_hash (some spec) = reader.spec_hash spec

  abbrev pub rules_in : Option String → Result String String
  rules_in none = err "missing required key"
  rules_in (some content) = ok content

  abbrev pub collect_rules : Option String → Result String String
  collect_rules none = ok ""
  collect_rules (some name) =
      reader.get_config_map name >>= λ data_map. rules_in (lookup config_map_rules_key data_map)

  abbrev pub or_empty : Option String → String
  or_empty none = ""
  or_empty (some s) = s

  unfoldable pub collect_artifact_meta_sources : RulesfileSpec → Result String MetaSources
  collect_artifact_meta_sources spec = do
    hash ← collect_hash spec.oci_artifact
    rules ← collect_rules spec.config_map_ref
    ok (record {
      oci_artifact_spec_hash = hash;
      config_map_name = or_empty spec.config_map_ref;
      config_map_configured = is_some spec.config_map_ref;
      config_map_rules = rules;
      inline_configured = is_some spec.inline_rules;
      inline_rules = or_empty spec.inline_rules;
    })

  unfoldable pub append_config_layer_requirements :
      ArtifactMeta → Option ArtifactConfig → ArtifactMeta
  append_config_layer_requirements meta none = meta
  append_config_layer_requirements meta (some fetched) = record meta {
    requirements = meta.requirements ++ fetched.requirements;
    dependencies = meta.dependencies ++ fetched.dependencies;
  }

  abbrev pub engine_requirement : RulesRequirements → List MetaRequirement
  engine_requirement r =
      if r.engine_version == ""
      then []
      else (record {
        name = if r.engine_version_is_int then "engine_version" else "engine_version_semver";
        version = r.engine_version;
      })
        ∷ []

  abbrev pub append_rules : ArtifactMeta → Option RulesRequirements → ArtifactMeta
  append_rules meta none = meta
  append_rules meta (some r) = record meta {
    requirements = meta.requirements ++ engine_requirement r;
    dependencies = meta.dependencies ++ r.plugin_versions;
  }

  unfoldable pub append_yaml_requirements : ArtifactMeta → String → Result String ArtifactMeta
  append_yaml_requirements meta content =
      reader.parse_rules content >>= λ r. ok (append_rules meta r)

  abbrev pub digest_of : Option ArtifactMeta → String
  digest_of none = ""
  digest_of (some meta) = meta.digest

  -- An unchanged OCI source is read again at the digest that it resolved to before.
  unfoldable pub known_digest : Option ArtifactMeta → String → String
  known_digest cached hash = if artifact_meta_cache_hit cached hash then digest_of cached else ""

  unfoldable pub add_oci :
      Option ArtifactMeta → MetaSources → Option String → ArtifactMeta → Result String ArtifactMeta
  unfolding known_digest append_config_layer_requirements append_yaml_requirements
  add_oci cached sources none meta = ok meta
  add_oci cached sources (some spec) meta = do
    fetched ← reader.fetch_config spec (known_digest cached sources.oci_artifact_spec_hash)
    content ← reader.fetch_content spec fetched.1
    append_yaml_requirements
        (append_config_layer_requirements (record meta { digest = fetched.1 }) fetched.0) content

  unfoldable pub add_yaml : Bool → String → ArtifactMeta → Result String ArtifactMeta
  unfolding append_yaml_requirements
  add_yaml configured content meta =
      if configured then append_yaml_requirements meta content else ok meta

  unfoldable pub build_meta :
      Option ArtifactMeta → RulesfileSpec → MetaSources → Result String ArtifactMeta
  unfolding add_oci add_yaml
  build_meta cached spec sources = do
    first ← add_oci cached sources spec.oci_artifact (record {
      digest = "";
      spec_hash = sources.oci_artifact_spec_hash;
      requirements = [];
      dependencies = [];
    })
    second ← add_yaml sources.config_map_configured sources.config_map_rules first
    add_yaml sources.inline_configured sources.inline_rules second

  abbrev pub has_source : RulesfileSpec → Bool
  has_source spec =
      is_some spec.oci_artifact || (is_some spec.config_map_ref || is_some spec.inline_rules)

  abbrev pub publish :
      VersionLib
      → String
      → RulesfileStatus
      → Result String ArtifactMeta
      → Result String (Unit {0}) × RulesfileStatus
  publish lib hash status (err e) = (err e, status)
  publish lib hash status (ok meta) = (
    ok tt,
    record {
      artifact_meta = some (deduplicate_artifact_meta lib meta);
      artifact_meta_sources_hash = hash;
    },
  )

  abbrev pub rebuild :
      VersionLib
      → RulesfileSpec
      → RulesfileStatus
      → MetaSources
      → Result String String
      → Result String (Unit {0}) × RulesfileStatus
  rebuild lib spec status sources (err e) = (err e, status)
  rebuild lib spec status sources (ok hash) =
      let built = build_meta status.artifact_meta spec sources in
      if is_some status.artifact_meta && status.artifact_meta_sources_hash == hash
      then (ok tt, status)
      else publish lib hash status built

  abbrev pub from_sources :
      VersionLib
      → RulesfileSpec
      → RulesfileStatus
      → Result String MetaSources
      → Result String (Unit {0}) × RulesfileStatus
  from_sources lib spec status (err e) = (err e, status)
  from_sources lib spec status (ok sources) =
      rebuild lib spec status sources (reader.sources_hash sources)

  unfoldable pub fetch_and_cache_artifact_meta :
      VersionLib → RulesfileSpec → RulesfileStatus → Result String (Unit {0}) × RulesfileStatus
  unfolding build_meta collect_artifact_meta_sources
  fetch_and_cache_artifact_meta lib spec status =
      if has_source spec
      then from_sources lib spec status (collect_artifact_meta_sources spec)
      else (ok tt, record { artifact_meta = none; artifact_meta_sources_hash = "" })
