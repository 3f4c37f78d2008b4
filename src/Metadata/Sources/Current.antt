-- ===== src/Metadata/Sources/Current.antt =====
-- What the status holds after a pass of `fetchAndCacheArtifactMeta` that goes through.
use falco_operator.Common.{
  String, Bool, true, false, ◌&&◌, Option, some, ok, ◌==◌, string_eq, is_some, ◌≡◌, ◌⊎◌, subst,
  arith, Bool-cases, inl, inr, Result-cases,
}
use falco_operator.Compat.{VersionLib}
use falco_operator.Metadata.{ArtifactMeta, deduplicate_artifact_meta}
use falco_operator.Metadata.Sources.{
  Reader, RulesfileSpec, RulesfileStatus, MetaSources, has_source, collect_artifact_meta_sources,
  collect_hash, collect_rules, or_empty, build_meta, fetch_and_cache_artifact_meta,
}
use falco_operator.Metadata.Sources.Published.{fetched}
use falco_operator.Metadata.Sources.Complete.{
  Declared, ReadsOci, ReadsYaml, HasText, meta_of, all_of, build_meta-reads, collect_rules-HasText,
}

module _ (reader : Reader) where
  -- The sources that are hashed are those of the spec.
  pub record AreRead (spec : RulesfileSpec) (sources : MetaSources) : Type 0 where
    pub spec_hash : collect_hash reader spec.oci_artifact ≡ ok sources.oci_artifact_spec_hash
    pub config_map_name : sources.config_map_name ≡ or_empty reader spec.config_map_ref
    pub config_map_rules : HasText reader spec.config_map_ref sources.config_map_rules
    pub config_map_configured : sources.config_map_configured ≡ is_some spec.config_map_ref
    pub inline_rules : sources.inline_rules ≡ or_empty reader spec.inline_rules
    pub inline_configured : sources.inline_configured ≡ is_some spec.inline_rules

  -- All that the OCI artifact, the ConfigMap and the inline rules declare.
  abbrev pub IsComplete : Option ArtifactMeta → RulesfileSpec → MetaSources → ArtifactMeta → Type 0
  IsComplete cached spec sources meta =
      (digest : String) × (oci : Declared) × (config_map : Declared) × (inline : Declared)
      × ReadsOci reader cached sources.oci_artifact_spec_hash spec.oci_artifact digest oci
      × ReadsYaml reader (is_some spec.config_map_ref) sources.config_map_rules config_map
      × ReadsYaml reader (is_some spec.inline_rules) sources.inline_rules inline
      × (meta
          ≡ meta_of reader digest sources.oci_artifact_spec_hash
              (all_of reader oci config_map inline))

  abbrev pub is_current : RulesfileStatus → String → Bool
  is_current status hash = is_some status.artifact_meta && status.artifact_meta_sources_hash == hash

  collect-AreRead :
      (spec : RulesfileSpec) (sources : MetaSources)
      → collect_artifact_meta_sources reader spec ≡ ok sources
      → AreRead spec sources
  unfolding collect_artifact_meta_sources
  collect-AreRead spec sources h = elim (Result-cases (collect_hash reader spec.oci_artifact)) [
    | inr (x, e) ↦ absurd (ground (arith, e, h))
    | inl (hash, e) ↦ elim (Result-cases (collect_rules reader spec.config_map_ref)) [
      | inr (x, q) ↦ absurd (ground (arith, e, q, h))
      | inl (text, q) ↦ record {
        spec_hash = ground (arith, e, q, h);
        config_map_name = ground (arith, e, q, h);
        config_map_rules =
            collect_rules-HasText reader spec.config_map_ref sources.config_map_rules
              (ground (arith, e, q, h));
        config_map_configured = ground (arith, e, q, h);
        inline_rules = ground (arith, e, q, h);
        inline_configured = ground (arith, e, q, h);
      }
    ]
  ]

  build_meta-IsComplete :
      (cached : Option ArtifactMeta) (spec : RulesfileSpec) (sources : MetaSources)
      (meta : ArtifactMeta)
      → AreRead spec sources
      → build_meta reader cached spec sources ≡ ok meta
      → IsComplete cached spec sources meta
  build_meta-IsComplete cached spec sources meta a h =
      let (digest, oci, config_map, inline, o, c, i, k) =
        build_meta-reads reader cached spec sources meta h in
      (
        digest,
        oci,
        config_map,
        inline,
        o,
        subst (λ b. ReadsYaml reader b sources.config_map_rules config_map) a.config_map_configured
            c,
        subst (λ b. ReadsYaml reader b sources.inline_rules inline) a.inline_configured i,
        k,
      )

  -- A pass that succeeds on a spec with a source has read every source. If the status holds
  -- metadata under the hash of just these sources, it stays as it is; else it now holds, under that
  -- hash, all that the OCI artifact, the ConfigMap and the inline rules declare, deduplicated.
  pub fetch-IsComplete :
      (lib : VersionLib) (spec : RulesfileSpec) (status : RulesfileStatus)
      → has_source reader spec ≡ true
      → (fetched reader lib spec status).0 ≡ ok tt
      → (sources : MetaSources) × (hash : String) × AreRead spec sources
        × (reader.sources_hash sources ≡ ok hash)
        × (((is_current status hash ≡ true) × ((fetched reader lib spec status).1 ≡ status))
            ⊎ ((is_current status hash ≡ false)
                × (meta : ArtifactMeta) × IsComplete status.artifact_meta spec sources meta
                × ((fetched reader lib spec status).1 ≡ record {
                  artifact_meta = some (deduplicate_artifact_meta lib meta);
                  artifact_meta_sources_hash = hash;
                })))
  unfolding fetch_and_cache_artifact_meta
  fetch-IsComplete lib spec status s h =
      elim (Result-cases (collect_artifact_meta_sources reader spec)) [
        | inr (x, e) ↦ absurd (ground (arith, e, s, h))
        | inl (sources, e) ↦ elim (Result-cases (reader.sources_hash sources)) [
          | inr (x, k) ↦ absurd (ground (arith, e, s, h, k))
          | inl (hash, k) ↦
              let a = collect-AreRead spec sources e in
              elim (Bool-cases (is_current status hash)) [
                | inl c ↦ (sources, hash, a, k, inl (c, ground (arith, e, s, k, c)))
                | inr c ↦
                    elim (Result-cases (build_meta reader status.artifact_meta spec sources)) [
                      | inr (x, b) ↦ absurd (ground (arith, e, s, h, k, c, b))
                      | inl (meta, b) ↦ (
                        sources,
                        hash,
                        a,
                        k,
                        inr (
                          c,
                          meta,
                          build_meta-IsComplete status.artifact_meta spec sources meta a b,
                          ground (arith, e, s, k, c, b),
                        ),
                      )
                    ]
              ]
        ]
      ]
