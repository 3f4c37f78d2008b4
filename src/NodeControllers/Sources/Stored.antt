-- ===== src/NodeControllers/Sources/Stored.antt =====
-- What is on disk after a source has been ensured.
use falco_operator.Common.{
  ℕ, String, false, List, none, some, Result, ok, err, ◌≡◌, refl, arith, Result-cases, Option-cases,
  Bool-cases, inl, inr, ◌⊎◌, string_eq, eq_iff,
}
use falco_operator.Artifact.{
  ArtifactType, File, FetchResult, InstalledArtifact, Medium, medium_oci, Bytes,
}
use falco_operator.Artifact.Installed.{find_installed, update_installed_spec_hash}
use falco_operator.NodeControllers.{Reconciler, Local, Parent}
use falco_operator.NodeControllers.Fetch.{FetchError, fetch_oci, artifact_url}
use falco_operator.NodeControllers.Fetch.Confirmed.{Confirmed, fetch_oci-Confirmed}
use falco_operator.NodeControllers.Sources.{
  D, SourceConditions, store_source, need_fetch, ensure_oci, spec_hash_of, expected_digest,
  oci_conditions,
}

module _ (r : Reconciler) where
  -- A source that is stored for the first time is on disk as it was fetched.
  store_source-fresh :
      (conditions : SourceConditions) (parent : Parent) (priority : ℕ) (type : ArtifactType)
      (medium : Medium) (finish : List InstalledArtifact → List InstalledArtifact) (s : Local (D r))
      (fetched : Result FetchError FetchResult)
      → (store_source r conditions parent priority type medium finish s fetched).0 ≡ ok tt
      → (result : FetchResult) × (fetched ≡ ok result)
        × (find_installed s.installed medium ≡ none
            → r.env.store.read
                (store_source r conditions parent priority type medium finish s fetched).1.disk
                (r.env.store.target parent.name priority type medium)
              ≡ ok result.content)
  unfolding store_source
  store_source-fresh conditions parent priority type medium finish s (err e) h = ground arith
  store_source-fresh conditions parent priority type medium finish s (ok result) h =
      elim (Result-cases
        (r.env.store.store s.disk (find_installed s.installed medium) parent.name priority type
          medium result).0) [
            | inr (x, e) ↦ ground arith
            | inl (a, e) ↦ (
              result,
              refl,
              λ q.
                  ground (
                    arith,
                    r.env.store.store-fresh s.disk parent.name priority type medium result a,
                  ),
            )
          ]

  -- The file that the status tracks has the metadata's specification and its own hash on disk.
  abbrev pub Intact : Parent → Local (D r) → Type 0
  Intact parent s =
      (f : File) × (content : Bytes) × (find_installed s.installed medium_oci ≡ some f)
      × (f.spec_hash ≡ spec_hash_of parent.artifact_meta)
      × (r.env.store.read s.disk f.path ≡ ok content)
      × (r.env.store.sha content ≡ f.content_hash)

  need_fetch-Intact :
      (parent : Parent) (s : Local (D r))
      → need_fetch r s.disk
          (find_installed s.installed medium_oci)
          (spec_hash_of parent.artifact_meta)
        ≡ false
      → Intact parent s
  unfolding need_fetch
  need_fetch-Intact parent s h = elim (Option-cases (find_installed s.installed medium_oci)) [
    | inl e ↦ ground arith
    | inr (f, e) ↦
        let v = r.env.store.verify-sound s.disk f (ground arith) in
        (
          f,
          v.0,
          e,
          ground (arith, eq_iff f.spec_hash (spec_hash_of parent.artifact_meta)),
          v.1,
          v.2,
        )
  ]

  -- An OCI source that is ensured was intact on disk already, and the disk is as it was; or it has
  -- been fetched, under the digest of the metadata and from a response that confirms it, and where
  -- no file was tracked the disk now has that content.
  pub ensure_oci-Confirmed :
      (parent : Parent) (priority : ℕ) (type : ArtifactType) (s : Local (D r))
      → (ensure_oci r parent priority type s).0 ≡ ok tt
      → (Intact parent s × ((ensure_oci r parent priority type s).1.disk ≡ s.disk))
        ⊎ ((result : FetchResult) × (raw_url : String) × (artifact_url r.remote parent.namespace
                parent.name type
                (expected_digest parent.artifact_meta)
              ≡ some raw_url)
            × Confirmed r.remote raw_url (expected_digest parent.artifact_meta) result
            × (find_installed s.installed medium_oci ≡ none
                → r.env.store.read
                    (ensure_oci r parent priority type s).1.disk
                    (r.env.store.target parent.name priority type medium_oci)
                  ≡ ok result.content))
  unfolding ensure_oci
  ensure_oci-Confirmed parent priority type s h =
      let hash = spec_hash_of parent.artifact_meta in
      let digest = expected_digest parent.artifact_meta in
      let fetched = fetch_oci r.remote parent.namespace parent.name type digest in
      let finish =
        λ (list : List InstalledArtifact). update_installed_spec_hash list medium_oci hash in
      elim (Bool-cases (need_fetch r s.disk (find_installed s.installed medium_oci) hash)) [
        | inr e ↦ inl (need_fetch-Intact parent s e, ground arith)
        | inl e ↦
            let stored =
              store_source-fresh oci_conditions parent priority type medium_oci finish s fetched
                (ground arith) in
            let c =
              fetch_oci-Confirmed r.remote parent.namespace parent.name type digest stored.0
                stored.1 in
            inr (stored.0, c.0, c.1, c.3, λ q. ground (arith, stored.2 q))
      ]
