-- ===== src/Metadata/Sources/Complete.antt =====
-- What each source of a Rulesfile declares, and that a pass of `fetchAndCacheArtifactMeta` publishes
-- all of it.
use falco_operator.Common.{
  String, Bool, true, false, List, [], ◌∷◌, ◌++◌, Option, none, some, ok, Map, lookup, ◌==◌,
  string_eq, if◌then◌else◌, ◌≡◌, refl, ap, arith, inl, inr, Result-cases, Option-cases,
}
use falco_operator.NodeArtifacts.Registry.{MetaDependency}
use falco_operator.Metadata.{MetaRequirement, ArtifactMeta, artifact_meta_cache_hit}
use falco_operator.Metadata.Sources.{
  Reader, RulesfileSpec, MetaSources, RulesRequirements, ArtifactConfig, collect_rules,
  config_map_rules_key, engine_requirement, add_oci, add_yaml, build_meta,
  append_config_layer_requirements, append_yaml_requirements, known_digest,
}

-- What one source declares.
pub record Declared : Type 0 where
  pub requirements : List MetaRequirement
  pub dependencies : List MetaDependency

abbrev pub nothing : Declared
nothing = record { requirements = []; dependencies = [] }

abbrev pub both : Declared → Declared → Declared
both a b = record {
  requirements = a.requirements ++ b.requirements;
  dependencies = a.dependencies ++ b.dependencies;
}

abbrev pub in_config : Option ArtifactConfig → Declared
in_config none = nothing
in_config (some c) = record { requirements = c.requirements; dependencies = c.dependencies }

-- The digest that the same OCI source resolved to before.
abbrev pub digest_before : Option ArtifactMeta → String → String
digest_before none hash = ""
digest_before (some meta) hash = if meta.spec_hash == hash then meta.digest else ""

module _ (reader : Reader) where
  abbrev pub in_rules : Option RulesRequirements → Declared
  in_rules none = nothing
  in_rules (some r) = record {
    requirements = engine_requirement reader r;
    dependencies = r.plugin_versions;
  }

  -- The declarations in a text, if there is one to read.
  abbrev pub ReadsYaml : Bool → String → Declared → Type 0
  ReadsYaml false text d = d ≡ nothing
  ReadsYaml true text d =
      (rules : Option RulesRequirements) × (reader.parse_rules text ≡ ok rules)
      × (d ≡ in_rules rules)

  -- The text under the key of a referenced ConfigMap.
  abbrev pub HasText : Option String → String → Type 0
  HasText none text = text ≡ ""
  HasText (some name) text =
      (data_map : Map String String) × (reader.get_config_map name ≡ ok data_map)
      × (lookup config_map_rules_key data_map ≡ some text)

  -- An OCI artifact declares what is in its config layer and in its content, both read at one
  -- digest.
  abbrev pub ReadsOci : Option ArtifactMeta → String → Option String → String → Declared → Type 0
  ReadsOci cached hash none digest d = (digest ≡ "") × (d ≡ nothing)
  ReadsOci cached hash (some spec) digest d =
      (config : Option ArtifactConfig) × (content : String) × (rules : Option RulesRequirements)
      × (reader.fetch_config spec (digest_before cached hash) ≡ ok (config, digest))
      × (reader.fetch_content spec digest ≡ ok content)
      × (reader.parse_rules content ≡ ok rules)
      × (d ≡ both (in_config config) (in_rules rules))

  abbrev pub meta_of : String → String → Declared → ArtifactMeta
  meta_of digest hash d = record {
    digest = digest;
    spec_hash = hash;
    requirements = d.requirements;
    dependencies = d.dependencies;
  }

  append_nil : {A : Type 0} (xs : List A) → (xs ++ []) ≡ xs
  append_nil [] = refl
  append_nil (x ∷ xs) = ap (λ ys. x ∷ ys) (append_nil xs)

  add_yaml-ReadsYaml :
      (b : Bool) (text digest hash : String) (before : Declared) (meta : ArtifactMeta)
      → add_yaml reader b text (meta_of digest hash before) ≡ ok meta
      → (d : Declared) × ReadsYaml b text d × (meta ≡ meta_of digest hash (both before d))
  unfolding add_yaml append_yaml_requirements
  add_yaml-ReadsYaml false text digest hash before meta h = (
    nothing,
    refl,
    ground (arith, h, append_nil before.requirements, append_nil before.dependencies),
  )
  add_yaml-ReadsYaml true text digest hash before meta h =
      elim (Result-cases (reader.parse_rules text)) [
        | inr (x, e) ↦ absurd (ground (arith, e, h))
        | inl (none, e) ↦ (
          nothing,
          (none, e, refl),
          ground (arith, e, h, append_nil before.requirements, append_nil before.dependencies),
        )
        | inl (some r, e) ↦ (in_rules (some r), (some r, e, refl), ground (arith, e, h))
      ]

  known_digest-before :
      (cached : Option ArtifactMeta) (hash : String)
      → known_digest reader cached hash ≡ digest_before cached hash
  unfolding known_digest artifact_meta_cache_hit
  known_digest-before none hash = ground arith
  known_digest-before (some meta) hash = ground arith

  -- Both layers of an OCI artifact, appended.
  appended :
      (hash content digest : String) (config : Option ArtifactConfig)
      (rules : Option RulesRequirements) (meta : ArtifactMeta)
      → reader.parse_rules content ≡ ok rules
      → append_yaml_requirements reader
          (append_config_layer_requirements reader (meta_of digest hash nothing) config)
          content
        ≡ ok meta
      → meta ≡ meta_of digest hash (both (in_config config) (in_rules rules))
  unfolding append_yaml_requirements append_config_layer_requirements
  appended hash content digest none none meta p h = ground (arith, p, h)
  appended hash content digest none (some r) meta p h = ground (arith, p, h)
  appended hash content digest (some c) none meta p h =
      ground (arith, p, h, append_nil c.requirements, append_nil c.dependencies)
  appended hash content digest (some c) (some r) meta p h = ground (arith, p, h)

  add_oci-ReadsOci :
      (cached : Option ArtifactMeta) (sources : MetaSources) (oci : Option String)
      (meta : ArtifactMeta)
      → add_oci reader cached sources oci (meta_of "" sources.oci_artifact_spec_hash nothing)
        ≡ ok meta
      → (digest : String) × (d : Declared) × ReadsOci cached sources.oci_artifact_spec_hash oci
          digest d
        × (meta ≡ meta_of digest sources.oci_artifact_spec_hash d)
  unfolding add_oci append_yaml_requirements
  add_oci-ReadsOci cached sources none meta h = ("", nothing, (refl, refl), ground (arith, h))
  add_oci-ReadsOci cached sources (some spec) meta h =
      let hash = sources.oci_artifact_spec_hash in
      let known = known_digest-before cached hash in
      elim (Result-cases (reader.fetch_config spec (known_digest reader cached hash))) [
        | inr (x, e) ↦ absurd (ground (arith, e, h))
        | inl ((config, digest), e) ↦ elim (Result-cases (reader.fetch_content spec digest)) [
          | inr (x, q) ↦ absurd (ground (arith, e, q, h))
          | inl (content, q) ↦ elim (Result-cases (reader.parse_rules content)) [
            | inr (x, z) ↦ absurd (ground (arith, e, q, z, h))
            | inl (rules, z) ↦ (
              digest,
              both (in_config config) (in_rules rules),
              (config, content, rules, ground (arith, e, known), q, z, refl),
              appended hash content digest config rules meta z (ground (arith, e, q, h)),
            )
          ]
        ]
      ]

  abbrev pub all_of : Declared → Declared → Declared → Declared
  all_of oci config_map inline = both (both oci config_map) inline

  pub build_meta-reads :
      (cached : Option ArtifactMeta) (spec : RulesfileSpec) (sources : MetaSources)
      (meta : ArtifactMeta)
      → build_meta reader cached spec sources ≡ ok meta
      → (digest : String) × (oci : Declared) × (config_map : Declared) × (inline : Declared)
        × ReadsOci cached sources.oci_artifact_spec_hash spec.oci_artifact digest oci
        × ReadsYaml sources.config_map_configured sources.config_map_rules config_map
        × ReadsYaml sources.inline_configured sources.inline_rules inline
        × (meta ≡ meta_of digest sources.oci_artifact_spec_hash (all_of oci config_map inline))
  unfolding build_meta
  build_meta-reads cached spec sources meta h =
      let hash = sources.oci_artifact_spec_hash in
      elim (Result-cases
        (add_oci reader cached sources spec.oci_artifact (meta_of "" hash nothing))) [
          | inr (x, e) ↦ absurd (ground (arith, e, h))
          | inl (first, e) ↦
              let (digest, oci, o, f) = add_oci-ReadsOci cached sources spec.oci_artifact first e in
              elim (Result-cases (
                add_yaml reader sources.config_map_configured sources.config_map_rules
                  (meta_of digest hash oci))) [
                    | inr (x, q) ↦ absurd (ground (arith, e, f, q, h))
                    | inl (second, q) ↦
                        let (config_map, c, g) =
                          add_yaml-ReadsYaml sources.config_map_configured sources.config_map_rules
                            digest hash oci second q in
                        let (inline, i, k) =
                          add_yaml-ReadsYaml sources.inline_configured sources.inline_rules digest
                            hash (both oci config_map) meta (ground (arith, e, f, q, g, h)) in
                        (digest, oci, config_map, inline, o, c, i, k)
                  ]
        ]

  pub collect_rules-HasText :
      (ref : Option String) (text : String) → collect_rules reader ref ≡ ok text → HasText ref text
  collect_rules-HasText none text h = ground (arith, h)
  collect_rules-HasText (some name) text h = elim (Result-cases (reader.get_config_map name)) [
    | inr (x, e) ↦ absurd (ground (arith, e, h))
    | inl (data_map, e) ↦ elim (Option-cases (lookup config_map_rules_key data_map)) [
      | inl q ↦ absurd (ground (arith, e, q, h))
      | inr (t, q) ↦ (data_map, e, ground (arith, e, q, h))
    ]
  ]
