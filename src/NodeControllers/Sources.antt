-- ===== src/NodeControllers/Sources.antt =====
-- The steps that the node controllers share: a fetched artifact is stored and tracked, and its
-- condition says how it went. From ensureOCIRulesfile, ensureInlineRulesfile and
-- ensureConfigMapRulesfile of controllers/artifact/rulesfile/controller.go, and ensurePlugin of
-- controllers/artifact/plugin/controller.go, which agree on it.
pub mod Stored
pub mod Kept
use falco_operator.Common.{
  ℕ, String, Bool, true, false, not, List, [], ◌∷◌, Option, none, some, Result, ok, err, append,
  ◌==◌, string_eq, if◌then◌else◌,
}
use falco_operator.Artifact.{
  ArtifactType, Bytes, File, FetchResult, InstalledArtifact, Medium, StoreAction, medium_oci,
  medium_inline, medium_config_map,
}
use falco_operator.Artifact.FileSystem.{FsError}
use falco_operator.Artifact.Installed.{
  find_installed, update_installed_status, update_installed_spec_hash, clear_installed,
}
use falco_operator.Metadata.{ArtifactMeta}
use falco_operator.ControllerHelper.Conditions.{Status, Condition}
use falco_operator.ControllerHelper.Finalizers.{ApiError}
use falco_operator.ControllerHelper.Programmed.{
  new_oci_artifact_programmed_condition, new_inline_artifact_programmed_condition,
  new_config_map_artifact_programmed_condition, new_resolved_refs_condition,
  condition_resolved_refs,
}
use falco_operator.NodeControllers.{
  Reconciler, ReconcileError, api, fetch, store, convert, Local, Attempt, Parent, OciArtifact,
}
use falco_operator.NodeControllers.Fetch.{FetchError, fetch_oci, fetch_inline, fetch_config_map}

abbrev pub spec_hash_of : Option ArtifactMeta → String
spec_hash_of none = ""
spec_hash_of (some meta) = meta.spec_hash

abbrev pub expected_digest : Option ArtifactMeta → String
expected_digest none = ""
expected_digest (some meta) = meta.digest

abbrev pub is_intact : Result FsError Bool → Bool
is_intact (ok b) = b
is_intact (err e) = false

-- The conditions that a source ends with: on an error, and on success.
pub record SourceConditions : Type 0 where
  pub on_error : String → ℕ → Condition
  pub on_success : ℕ → Condition

abbrev pub oci_conditions : SourceConditions
oci_conditions = record {
  on_error = λ e gen.
      new_oci_artifact_programmed_condition Status.status_false "OCIArtifactProgramFailed"
        (append "Failed to store OCI artifact: " e) gen;
  on_success = λ gen.
      new_oci_artifact_programmed_condition Status.status_true "OCIArtifactProgrammed"
        "OCI artifact stored successfully" gen;
}

module _ (r : Reconciler) where
  abbrev pub D : Type 0
  D = r.env.store.Disk

  abbrev pub with_condition : Condition → Local D → Local D
  with_condition c s = record s { conditions = r.status_lib.set_status c s.conditions }

  abbrev pub without_condition : String → Local D → Local D
  without_condition type s = record s { conditions = r.status_lib.remove_status type s.conditions }

  -- The error path that every source has.
  abbrev pub source_failed : SourceConditions → ℕ → ReconcileError → Local D → Attempt D (Unit {0})
  source_failed conditions gen e s =
      (err e, with_condition (conditions.on_error (r.text_of e) gen) s)

  abbrev pub programmed : SourceConditions → ℕ → Local D → Attempt D (Unit {0})
  programmed conditions gen s = (ok tt, with_condition (conditions.on_success gen) s)

  abbrev pub track :
      SourceConditions
      → ℕ
      → Medium
      → (List InstalledArtifact → List InstalledArtifact)
      → Local D
      → Result FsError (StoreAction × Option File) × D
      → Attempt D (Unit {0})
  track conditions gen medium finish s (err e, disk) =
      source_failed conditions gen (store e) (record s { disk = disk })
  track conditions gen medium finish s (ok (action, file), disk) =
      programmed conditions gen (record s {
        disk = disk;
        installed = finish (update_installed_status s.installed action medium file);
      })

  -- Store a fetched source, track its file and set its condition.
  unfoldable pub store_source :
      SourceConditions
      → Parent
      → ℕ
      → ArtifactType
      → Medium
      → (List InstalledArtifact → List InstalledArtifact)
      → Local D
      → Result FetchError FetchResult
      → Attempt D (Unit {0})
  store_source conditions parent priority type medium finish s (err e) =
      source_failed conditions parent.generation (fetch e) s
  store_source conditions parent priority type medium finish s (ok result) =
      track conditions parent.generation medium finish s (
        r.env.store.store s.disk (find_installed s.installed medium) parent.name priority type
          medium result)

  -- The fetch is skipped only if the spec is unchanged and the file on disk is intact.
  unfoldable pub need_fetch : D → Option File → String → Bool
  need_fetch disk none spec_hash = true
  need_fetch disk (some f) spec_hash =
      if f.spec_hash == spec_hash then not (is_intact (r.env.store.verify disk (some f))) else true

  unfoldable pub ensure_oci : Parent → ℕ → ArtifactType → Local D → Attempt D (Unit {0})
  unfolding need_fetch store_source
  ensure_oci parent priority type s =
      let spec_hash = spec_hash_of parent.artifact_meta in
      if need_fetch s.disk (find_installed s.installed medium_oci) spec_hash
      then store_source oci_conditions parent priority type medium_oci
          (λ list. update_installed_spec_hash list medium_oci spec_hash) s
          (fetch_oci r.remote parent.namespace parent.name type
            (expected_digest parent.artifact_meta))
      else programmed oci_conditions parent.generation s

  -- `JSONRawToYAML`
  unfoldable pub json_raw_to_yaml : Option String → Result String (Option Bytes)
  json_raw_to_yaml none = ok none
  json_raw_to_yaml (some raw) =
      if raw == ""
      then ok none
      else elim (r.to_yaml raw) [ err e ↦ err e | ok text ↦ ok (some text) ]

  unfoldable pub ensure_inline :
      SourceConditions → Parent → ℕ → ArtifactType → Option String → Local D → Attempt D (Unit {0})
  unfolding json_raw_to_yaml store_source
  ensure_inline conditions parent priority type raw s = elim (json_raw_to_yaml raw) [
    | err e ↦ source_failed conditions parent.generation (convert e) s
    | ok none ↦ programmed conditions parent.generation s
    | ok (some text) ↦
        store_source conditions parent priority type medium_inline (λ list. list) s
          (fetch_inline r.remote text)
  ]

  unfoldable pub ensure_config_map :
      SourceConditions → Parent → ℕ → ArtifactType → String → Local D → Attempt D (Unit {0})
  unfolding store_source
  ensure_config_map conditions parent priority type name s =
      store_source conditions parent priority type medium_config_map (λ list. list) s
        (fetch_config_map r.remote parent.namespace name type)

  abbrev pub stale_entry : File → Medium → InstalledArtifact
  stale_entry f medium = record {
    path = f.path;
    medium = medium;
    priority = 0;
    content_hash = "";
    spec_hash = "";
    config = none;
  }

  abbrev pub cleared : Medium → Local D → Result FsError (Unit {0}) × D → Attempt D (Unit {0})
  cleared medium s (err e, disk) = (err (store e), record s { disk = disk })
  cleared medium s (ok _, disk) =
      (ok tt, record s { disk = disk; installed = clear_installed s.installed medium })

  -- A source that the spec no longer has: its condition goes, and then its file.
  unfoldable pub cleanup_stale_medium : Bool → Medium → String → Local D → Attempt D (Unit {0})
  cleanup_stale_medium true medium type s = (ok tt, s)
  cleanup_stale_medium false medium type s =
      let s' = without_condition type s in
      elim (find_installed s.installed medium) [
        | none ↦ (ok tt, s')
        | some f ↦ cleared medium s' (r.env.store.remove s.disk (stale_entry f medium ∷ []))
      ]

  -- The first reference that does not resolve; each comes with what the API client returns.
  unfoldable pub first_unresolved :
      List (String × Result ApiError (Unit {0})) → Option (String × ApiError)
  first_unresolved [] = none
  first_unresolved ((name, ok _) ∷ rest) = first_unresolved rest
  first_unresolved ((name, err e) ∷ rest) = some (name, e)

  abbrev references_resolved : ℕ → List (String × Result ApiError (Unit {0})) → Local D → Local D
  references_resolved gen [] s = without_condition condition_resolved_refs s
  references_resolved gen (_ ∷ _) s =
      with_condition
        (new_resolved_refs_condition Status.status_true "ReferenceResolved"
          "All references were resolved successfully" gen)
        s

  unfoldable pub enforce_reference_resolution :
      ℕ → List (String × Result ApiError (Unit {0})) → Local D → Attempt D (Unit {0})
  unfolding first_unresolved
  enforce_reference_resolution gen refs s = elim (first_unresolved refs) [
    | none ↦ (ok tt, references_resolved gen refs s)
    | some (name, e) ↦ (
      err (api e),
      with_condition
          (new_resolved_refs_condition Status.status_false "ReferenceResolutionFailed"
            (append "Failed to resolve Reference: " name) gen)
          s,
    )
  ]

  abbrev pub config_map_reference :
      r.server.State → Parent → Option String → List (String × Result ApiError (Unit {0}))
  config_map_reference st parent none = []
  config_map_reference st parent (some name) =
      (name, r.get_config_map st parent.namespace name) ∷ []

  abbrev secret_of : Option OciArtifact → Option String
  secret_of none = none
  secret_of (some oci) = oci.auth_secret

  abbrev pub secret_reference :
      r.server.State → Parent → Option OciArtifact → List (String × Result ApiError (Unit {0}))
  secret_reference st parent oci = elim (secret_of oci) [
    | none ↦ []
    | some name ↦ (name, r.get_secret st parent.namespace name) ∷ []
  ]
