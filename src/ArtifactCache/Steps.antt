-- ===== src/ArtifactCache/Steps.antt =====
-- The steps of the cache keep its reference counts true.
pub mod Files
pub mod Lingering
pub mod Removed
use falco_operator.Common.{
  ℕ, zero, suc, ◌+◌, ◌-◌, String, Bool, true, false, List, [], ◌∷◌, Option, none, some, Result, ok,
  err, Map, lookup, insert, delete, lookup-insert, lookup-delete, Eq, ◌==◌, string_eq, ltb,
  if◌then◌else◌, is_some, Bool-cases, Option-cases, List-cases, inl, inr, ◌≡◌, refl, eq_iff, arith,
}
use falco_operator.ArtifactCache.Disk.{BlobDisk, CacheError, IndexKey, key_eq}
use falco_operator.ArtifactCache.{
  Cache, count_of, write_refs, new_cache, blob_exists, entries_without, blobs_of, deref_locked,
  deref_all, deref_old, reference, set, finish_set, remove_entries, finish_remove, remove_found,
  remove_blob, persist_index_locked, is_indexed, remove_all, is_of,
}
use falco_operator.ArtifactCache.Counts.{
  one_if, count_entries, count_in, counted, count_entries-insert, count_entries-without,
  lookup-write_refs, count_of-counted, one_if_some,
}

abbrev pub HasCounts : Cache → (String → ℕ) → Type 0
HasCounts c k = (p : String) → lookup p c.refs ≡ counted (k p)

-- A blob that is referenced waits for no eviction.
abbrev pub IsUnpending : Cache → Type 0
IsUnpending c = (p : String) → is_some (lookup p c.refs) ≡ true → lookup p c.deref_times ≡ none

-- The reference count of a blob is the number of index entries that point at it, and a blob with an
-- entry waits for no eviction.
pub record IsConsistent (c : Cache) : Type 0 where
  pub counts : HasCounts c (λ p. count_entries p c.index)
  pub unpending : IsUnpending c

module _ (fs : BlobDisk) where
  pub deref_locked-index :
      (now : ℕ) (path : String) (c : Cache) (d : fs.Disk)
      → (deref_locked fs now path (c, d)).0.index ≡ c.index
  unfolding deref_locked
  deref_locked-index now path c d = ground arith

  pub deref_locked-counts :
      (now : ℕ) (path : String) (c : Cache) (d : fs.Disk) (k : String → ℕ)
      → HasCounts c k
      → HasCounts (deref_locked fs now path (c, d)).0 (λ p. k p - one_if (path == p))
  unfolding deref_locked
  deref_locked-counts now path c d k h p = ground (
    arith,
    h p,
    h path,
    eq_iff path p,
    count_of-counted (k path),
    lookup-write_refs path (count_of (lookup path c.refs) - 1) c.refs p,
  )

  pub deref_locked-IsUnpending :
      (now : ℕ) (path : String) (c : Cache) (d : fs.Disk)
      → IsUnpending c
      → IsUnpending (deref_locked fs now path (c, d)).0
  unfolding deref_locked
  deref_locked-IsUnpending now path c d h p e = ground (
    arith,
    h p,
    eq_iff path p,
    lookup-insert path p now c.deref_times,
    lookup-write_refs path (count_of (lookup path c.refs) - 1) c.refs p,
  )

  pub deref_all-index :
      (now : ℕ) (paths : List String) (c : Cache) (d : fs.Disk)
      → (deref_all fs now paths (c, d)).0.index ≡ c.index
  unfolding deref_all
  deref_all-index now [] c d = refl
  deref_all-index now (path ∷ rest) c d =
      let (c', d') = deref_locked fs now path (c, d) in
      rw (deref_all-index now rest c' d') (deref_locked-index now path c d)

  pub deref_all-counts :
      (now : ℕ) (paths : List String) (c : Cache) (d : fs.Disk) (k : String → ℕ)
      → HasCounts c k
      → HasCounts (deref_all fs now paths (c, d)).0 (λ p. k p - count_in p paths)
  unfolding deref_all count_in
  deref_all-counts now [] c d k h p = ground (arith, h p)
  deref_all-counts now (path ∷ rest) c d k h p =
      let (c', d') = deref_locked fs now path (c, d) in
      ground (
        arith,
        deref_all-counts now rest c' d' (λ q. k q - one_if (path == q))
            (deref_locked-counts now path c d k h) p,
      )

  pub deref_all-IsUnpending :
      (now : ℕ) (paths : List String) (c : Cache) (d : fs.Disk)
      → IsUnpending c
      → IsUnpending (deref_all fs now paths (c, d)).0
  unfolding deref_all
  deref_all-IsUnpending now [] c d h = h
  deref_all-IsUnpending now (path ∷ rest) c d h =
      let (c', d') = deref_locked fs now path (c, d) in
      deref_all-IsUnpending now rest c' d' (deref_locked-IsUnpending now path c d h)

  reference-IsConsistent :
      (path : String) (c : Cache) (k : String → ℕ)
      → HasCounts c k
      → IsUnpending c
      → ((p : String) → k p + one_if (path == p) ≡ count_entries p c.index)
      → IsConsistent (reference path c)
  unfolding reference
  reference-IsConsistent path c k h u e = record {
    counts = λ p. ground (
      arith,
      h p,
      h path,
      e p,
      e path,
      eq_iff path p,
      count_of-counted (k path),
      lookup-insert path p (suc (count_of (lookup path c.refs))) c.refs,
    );
    unpending = λ p s. ground (
      arith,
      u p,
      eq_iff path p,
      lookup-insert path p (suc (count_of (lookup path c.refs))) c.refs,
      lookup-delete path p c.deref_times,
    );
  }

  set_stored :
      (now : ℕ) (key : IndexKey) (path : String) (c : Cache) (old : Option String)
      (r : Result CacheError (Unit {0}) × fs.Disk)
      → lookup key c.index ≡ old
      → is_indexed old path ≡ false
      → IsConsistent c
      → IsConsistent (finish_set fs now old (insert key path c.index) path c r).1
  set_stored now key path c old (err e, d) f n h = h
  set_stored now key path c none (ok r, d) f n h =
      reference-IsConsistent path (record c { index = insert key path c.index })
        (λ p. count_entries p c.index) h.counts h.unpending
        (λ p. ground (arith, f, count_entries-insert p key path c.index))
  set_stored now key path c (some old) (ok r, d) f n h =
      let c1 = record c { index = insert key path c.index } in
      reference-IsConsistent path (deref_locked fs now old (c1, d)).0
        (λ p. count_entries p c.index - one_if (old == p))
        (deref_locked-counts now old c1 d (λ p. count_entries p c.index) h.counts)
        (deref_locked-IsUnpending now old c1 d h.unpending)
        (λ p. ground (
          arith,
          f,
          deref_locked-index now old c1 d,
          eq_iff old p,
          eq_iff path p,
          eq_iff old path,
          count_entries-insert p key path c.index,
        ))

  -- `Set` keeps the reference counts consistent with the index, on every branch: a count is the
  -- number of entries that point at the blob, and a blob with an entry waits for no eviction.
  pub set-IsConsistent :
      (now : ℕ) (key : IndexKey) (path : String) (c : Cache) (d : fs.Disk)
      → IsConsistent c
      → IsConsistent (set fs now key path c d).1
  unfolding set
  set-IsConsistent now key path c d h = elim (Bool-cases (is_indexed (lookup key c.index) path)) [
    | inl e ↦ rw e h
    | inr e ↦ rw e (
        set_stored now key path c (lookup key c.index)
          (persist_index_locked fs d (insert key path c.index)) refl e h)
  ]

  remove_stored :
      (now : ℕ) (f : IndexKey → Bool) (blobs : List String) (c : Cache)
      (r : Result CacheError (Unit {0}) × fs.Disk)
      → blobs_of f c.index ≡ blobs
      → IsConsistent c
      → IsConsistent (finish_remove fs now blobs (entries_without f c.index) c r).1
  remove_stored now f blobs c (err e, d) b h = h
  remove_stored now f blobs c (ok r, d) b h =
      let c1 = record c { index = entries_without f c.index } in
      record {
        counts = λ p. ground (
          arith,
          b,
          deref_all-index now blobs c1 d,
          deref_all-counts now blobs c1 d (λ q. count_entries q c.index) h.counts p,
          count_entries-without p f c.index,
        );
        unpending = deref_all-IsUnpending now blobs c1 d h.unpending;
      }

  remove_found-IsConsistent :
      (now : ℕ) (f : IndexKey → Bool) (blobs : List String) (c : Cache) (d : fs.Disk)
      → blobs_of f c.index ≡ blobs
      → IsConsistent c
      → IsConsistent (remove_found fs now blobs (entries_without f c.index) c d).1
  unfolding remove_found
  remove_found-IsConsistent now f [] c d b h = h
  remove_found-IsConsistent now f (path ∷ rest) c d b h =
      remove_stored now f (path ∷ rest) c (persist_index_locked fs d (entries_without f c.index)) b
        h

  -- `RemoveAll` keeps the reference counts consistent with the index, on every branch.
  pub remove_all-IsConsistent :
      (now : ℕ) (artifact_type namespace name : String) (c : Cache) (d : fs.Disk)
      → IsConsistent c
      → IsConsistent (remove_all fs now artifact_type namespace name c d).1
  unfolding remove_all remove_entries
  remove_all-IsConsistent now artifact_type namespace name c d h =
      let f = is_of artifact_type namespace name in
      remove_found-IsConsistent now f (blobs_of f c.index) c d refl h
