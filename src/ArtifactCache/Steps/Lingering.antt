-- ===== src/ArtifactCache/Steps/Lingering.antt =====
-- What `BlobExists` answers after a `Set`: the blob that was replaced is served a while longer.
use falco_operator.Common.{
  ℕ, suc, ◌-◌, ◌<◌, String, true, false, some, ok, lookup, insert, lookup-insert, lookup-delete,
  ◌==◌, string_eq, if◌then◌else◌, ◌≡◌, eq_iff, arith,
}
use falco_operator.ArtifactCache.Disk.{BlobDisk, IndexKey, key_eq}
use falco_operator.ArtifactCache.{
  Cache, count_of, blob_exists, deref_locked, reference, set, persist_index_locked,
}
use falco_operator.ArtifactCache.Counts.{lookup-write_refs}

blob_exists-reference :
    (path q : String) (c : Cache)
    → blob_exists (reference path c) q ≡ (if path == q then true else blob_exists c q)
unfolding blob_exists reference
blob_exists-reference path q c = ground (
  arith,
  eq_iff path q,
  lookup-insert path q (suc (count_of (lookup path c.refs))) c.refs,
  lookup-delete path q c.deref_times,
)

module _ (fs : BlobDisk) where
  blob_exists-deref_locked :
      (now : ℕ) (path : String) (c : Cache) (d : fs.Disk)
      → 0 < c.eviction_grace_period
      → blob_exists (deref_locked fs now path (c, d)).0 path ≡ true
  unfolding blob_exists deref_locked
  blob_exists-deref_locked now path c d g = ground (
    arith,
    g,
    eq_iff path path,
    lookup-insert path path now c.deref_times,
    lookup-write_refs path (count_of (lookup path c.refs) - 1) c.refs path,
  )

  -- With an eviction grace period, after a `Set` that succeeds on a key with another blob, both
  -- the blob that the key had and the one that it has now exist to the cache.
  pub set-blob_exists :
      (now : ℕ) (key : IndexKey) (path old : String) (c : Cache) (d : fs.Disk)
      → 0 < c.eviction_grace_period
      → lookup key c.index ≡ some old
      → (old == path) ≡ false
      → (set fs now key path c d).0 ≡ ok tt
      → (blob_exists (set fs now key path c d).1 old ≡ true)
        × (blob_exists (set fs now key path c d).1 path ≡ true)
  unfolding set
  set-blob_exists now key path old c d g e n h =
      let c1 = record c { index = insert key path c.index } in
      let d1 = (persist_index_locked fs d (insert key path c.index)).1 in
      let c2 = (deref_locked fs now old (c1, d1)).0 in
      (
        ground (
          arith,
          e,
          n,
          h,
          eq_iff old path,
          eq_iff path old,
          blob_exists-reference path old c2,
          blob_exists-deref_locked now old c1 d1 g,
        ),
        ground (arith, e, n, h, eq_iff path path, blob_exists-reference path path c2),
      )
