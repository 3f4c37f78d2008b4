-- ===== src/Metadata/Tests.antt =====
-- The metadata theorems on concrete declarations.
use falco_operator.Common.{
  ◌⊎◌, lookup, string_eq, String, true, false, List, [], ◌∷◌, none, some, ok, err, ◌≡◌, ◌↔◌, refl,
}
use falco_operator.Metadata.{
  ArtifactMeta, deduplicate_artifact_meta, MetaRequirement, deduplicate_requirements,
}
use falco_operator.Metadata.Sources.Current.{AreRead, IsComplete, is_current, fetch-IsComplete}
use falco_operator.Compat.Tests.{versions}
use falco_operator.Metadata.Strictest.{AllSatisfied, deduplicate-satisfied}
use falco_operator.Metadata.Sources.{
  Reader, RulesfileSpec, RulesfileStatus, MetaSources, fetch_and_cache_artifact_meta,
}
use falco_operator.Metadata.Sources.Published.{fetched, fetch_fails_clean}

abbrev engine : String → MetaRequirement
engine version = record { name = "engine_version_semver"; version = version }

abbrev declared : List MetaRequirement
declared = engine "1.0.0" ∷ engine "1.2.0" ∷ []

deduplicate-satisfied_example :
    AllSatisfied versions (λ name. "2.0.0") (deduplicate_requirements versions declared)
    ↔ AllSatisfied versions (λ name. "2.0.0") declared
deduplicate-satisfied_example = deduplicate-satisfied versions (λ name. "2.0.0") declared

abbrev reader : Reader
reader = record {
  spec_hash = λ spec. ok "spec";
  get_config_map = λ name. err "not found";
  sources_hash = λ sources. ok "sources";
  fetch_config = λ spec digest. ok (none, "sha256:1");
  fetch_content = λ spec digest. ok "rules";
  parse_rules = λ content. ok (
      some
        (record { engine_version = "1.0.0"; engine_version_is_int = false; plugin_versions = [] }));
}

abbrev inline_spec : RulesfileSpec
inline_spec = record {
  oci_artifact = some "ref";
  config_map_ref = none;
  inline_rules = some "rules";
}

abbrev empty_status : RulesfileStatus
empty_status = record { artifact_meta = none; artifact_meta_sources_hash = "" }

fetch_succeeds : (fetched reader versions inline_spec empty_status).0 ≡ ok tt
unfolding fetch_and_cache_artifact_meta
fetch_succeeds = refl

-- Its ConfigMap cannot be read.
abbrev broken_spec : RulesfileSpec
broken_spec = record { oci_artifact = none; config_map_ref = some "cm"; inline_rules = none }

fetch_fails : (fetched reader versions broken_spec empty_status).0 ≡ err "not found"
unfolding fetch_and_cache_artifact_meta
fetch_fails = refl

fetch_fails_clean_example : (fetched reader versions broken_spec empty_status).1 ≡ empty_status
fetch_fails_clean_example = fetch_fails_clean reader versions broken_spec empty_status fetch_fails

-- An OCI artifact, a ConfigMap and inline rules, each with a text of its own, for a status that holds
-- metadata of other sources.
abbrev full_reader : Reader
full_reader = record reader {
  get_config_map = λ name. ok (("rules.yaml", "from the map") ∷ []);
  parse_rules = λ content. ok (
      some
        (record { engine_version = content; engine_version_is_int = false; plugin_versions = [] }));
}

abbrev full_spec : RulesfileSpec
full_spec = record {
  oci_artifact = some "ref";
  config_map_ref = some "cm";
  inline_rules = some "inline";
}

abbrev old_status : RulesfileStatus
old_status = record {
  artifact_meta =
      some
        (record { digest = "sha256:0"; spec_hash = "old"; requirements = []; dependencies = [] });
  artifact_meta_sources_hash = "before";
}

full_succeeds : (fetched full_reader versions full_spec old_status).0 ≡ ok tt
unfolding fetch_and_cache_artifact_meta lookup
full_succeeds = refl

fetch-IsComplete_example :
    (sources : MetaSources) × (hash : String) × AreRead full_reader full_spec sources
    × (full_reader.sources_hash sources ≡ ok hash)
    × (((is_current full_reader old_status hash ≡ true)
          × ((fetched full_reader versions full_spec old_status).1 ≡ old_status))
        ⊎ ((is_current full_reader old_status hash ≡ false)
            × (meta : ArtifactMeta) × IsComplete full_reader old_status.artifact_meta full_spec
                sources meta
            × ((fetched full_reader versions full_spec old_status).1 ≡ record {
              artifact_meta = some (deduplicate_artifact_meta versions meta);
              artifact_meta_sources_hash = hash;
            })))
fetch-IsComplete_example =
    fetch-IsComplete full_reader versions full_spec old_status refl full_succeeds
