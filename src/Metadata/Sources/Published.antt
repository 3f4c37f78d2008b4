-- ===== src/Metadata/Sources/Published.antt =====
-- What `fetchAndCacheArtifactMeta` publishes, and when.
use falco_operator.Common.{
  String, true, Result, ok, err, string_eq, is_some, ◌≡◌, arith, Bool-cases, inl, inr, Result-cases,
  eq_iff,
}
use falco_operator.Compat.{VersionLib}
use falco_operator.Metadata.Sources.{
  Reader, RulesfileSpec, RulesfileStatus, MetaSources, has_source, collect_artifact_meta_sources,
  fetch_and_cache_artifact_meta,
}

module _ (reader : Reader) where
  module _ (lib : VersionLib) (spec : RulesfileSpec) (status : RulesfileStatus) where
    abbrev pub fetched : Result String (Unit {0}) × RulesfileStatus
    fetched = fetch_and_cache_artifact_meta reader lib spec status

    -- A pass that fails at any source leaves the status as it was.
    pub fetch_fails_clean : {e : String} → fetched.0 ≡ err e → fetched.1 ≡ status
    unfolding fetch_and_cache_artifact_meta
    fetch_fails_clean h = ground arith

    -- After a pass that succeeds on a spec with a source, the status holds metadata, under the
    -- hash of the sources that the pass collected.
    pub fetch-current :
        has_source reader spec ≡ true
        → fetched.0 ≡ ok tt
        → (sources : MetaSources) × (collect_artifact_meta_sources reader spec ≡ ok sources)
          × (reader.sources_hash sources ≡ ok fetched.1.artifact_meta_sources_hash)
          × (is_some fetched.1.artifact_meta ≡ true)
    unfolding fetch_and_cache_artifact_meta
    fetch-current s h = elim (Result-cases (collect_artifact_meta_sources reader spec)) [
      | inr (x, e) ↦ ground (arith, e, s, h)
      | inl (sources, e) ↦ elim (Result-cases (reader.sources_hash sources)) [
        | inr (x, k) ↦ ground (arith, e, s, h, k)
        | inl (hash, k) ↦ (
          sources,
          e,
          ground (arith, e, s, h, k, eq_iff status.artifact_meta_sources_hash hash),
          ground (arith, e, s, h, k),
        )
      ]
    ]

  -- After a pass that succeeds, a second one over the same sources succeeds and changes nothing.
  pub fetch_idem :
      (lib : VersionLib) (spec : RulesfileSpec) (status : RulesfileStatus)
      → (fetched lib spec status).0 ≡ ok tt
      → fetched lib spec (fetched lib spec status).1 ≡ (ok tt, (fetched lib spec status).1)
  unfolding fetch_and_cache_artifact_meta
  fetch_idem lib spec status h = elim (Bool-cases (has_source reader spec)) [
    | inr s ↦ ground (arith, s)
    | inl s ↦
        let (sources, e, k, m) = fetch-current lib spec status s h in
        let now = (fetched lib spec status).1 in
        ground
          (arith, s, e, k, m, eq_iff now.artifact_meta_sources_hash now.artifact_meta_sources_hash)
  ]
