-- ===== src/ArtifactCache/Steps/Removed.antt =====
-- The entries that `RemoveAll` of internal/pkg/artifactcache/index.go leaves.
use falco_operator.Common.{
  ℕ, String, Bool, true, List, [], ◌∷◌, none, ok, Map, lookup, ◌==◌, if◌then◌else◌, Bool-cases,
  Result-cases, inl, inr, ◌≡◌, refl, ap, arith,
}
use falco_operator.ArtifactCache.Disk.{BlobDisk, IndexKey, key_eq, key_beq_iff}
use falco_operator.ArtifactCache.{
  Cache, entries_without, blobs_of, remove_entries, remove_found, persist_index_locked, remove_all,
  is_of,
}
use falco_operator.ArtifactCache.Steps.{deref_all-index}

lookup-entries_without :
    (f : IndexKey → Bool) (index : Map IndexKey String) (key : IndexKey)
    → lookup key (entries_without f index) ≡ (if f key then none else lookup key index)
unfolding lookup entries_without
lookup-entries_without f [] key = ground arith
lookup-entries_without f ((i, path) ∷ rest) key = elim (Bool-cases (i == key)) [
  | inl e ↦
      let same = ap f ((key_beq_iff i key).0 e) in
      ground (arith, e, same, lookup-entries_without f rest key)
  | inr e ↦ ground (arith, e, lookup-entries_without f rest key)
]

unblobbed :
    (f : IndexKey → Bool) (index : Map IndexKey String) (key : IndexKey)
    → blobs_of f index ≡ []
    → f key ≡ true
    → lookup key index ≡ none
unfolding lookup blobs_of
unblobbed f [] key b h = refl
unblobbed f ((i, path) ∷ rest) key b h = elim (Bool-cases (i == key)) [
  | inl e ↦ let same = ap f ((key_beq_iff i key).0 e) in ground (arith, e, same, h, b)
  | inr e ↦ elim (Bool-cases (f i)) [
    | inl g ↦ ground (arith, g, b)
    | inr g ↦ ground (arith, e, g, b, unblobbed f rest key, h)
  ]
]

module _ (fs : BlobDisk) where
  found_removed :
      (now : ℕ) (f : IndexKey → Bool) (blobs : List String) (c : Cache) (d : fs.Disk)
      (key : IndexKey)
      → blobs_of f c.index ≡ blobs
      → f key ≡ true
      → (remove_found fs now blobs (entries_without f c.index) c d).0 ≡ ok tt
      → lookup key (remove_found fs now blobs (entries_without f c.index) c d).1.index ≡ none
  unfolding remove_found
  found_removed now f [] c d key b h done = unblobbed f c.index key b h
  found_removed now f (path ∷ rest) c d key b h done =
      let written = persist_index_locked fs d (entries_without f c.index) in
      let c1 = record c { index = entries_without f c.index } in
      elim (Result-cases written.0) [
        | inr (x, e) ↦ ground (arith, e, done)
        | inl (x, e) ↦ ground (
          arith,
          e,
          deref_all-index fs now (path ∷ rest) c1 written.1,
          lookup-entries_without f c.index key,
          h,
        )
      ]

  -- A `RemoveAll` that does not fail leaves no entry of the CR.
  pub remove_all-removes :
      (now : ℕ) (artifact_type namespace name : String) (c : Cache) (d : fs.Disk) (key : IndexKey)
      → is_of artifact_type namespace name key ≡ true
      → (remove_all fs now artifact_type namespace name c d).0 ≡ ok tt
      → lookup key (remove_all fs now artifact_type namespace name c d).1.index ≡ none
  unfolding remove_all remove_entries
  remove_all-removes now artifact_type namespace name c d key =
      let f = is_of artifact_type namespace name in
      found_removed now f (blobs_of f c.index) c d key refl
