-- ===== src/ArtifactCache/Steps/Files.antt =====
-- What the steps of the cache do to the files of the blobs.
use falco_operator.Common.{
  ℕ, ◌-◌, ◌<◌, String, Bool, true, false, List, [], ◌∷◌, Option, none, some, Result, ok, err, Map,
  lookup, insert, append, lookup-insert, ◌==◌, string_eq, if◌then◌else◌, is_some, Bool-cases,
  Option-cases, inl, inr, ◌≡◌, ◌≢◌, refl, eq_iff, arith, ◌∙◌,
}
use falco_operator.ArtifactCache.Disk.{
  BlobDisk, CacheError, IndexKey, key_eq, key_beq_iff, perm_suffix, index_path, index_tmp_path,
}
use falco_operator.ArtifactCache.{
  Cache, count_of, entries_without, blobs_of, deref_locked, deref_all, reference, set, finish_set,
  remove_found, remove_entries, remove_blob, remove_rest, removed, entries_of, persist_index_locked,
  write_index, finish_rename, is_indexed, remove_all, is_of,
}
use falco_operator.ArtifactCache.Counts.{
  one_if, count_entries, count_in, count_entries-insert, count_entries-without, lookup-write_refs,
}
use falco_operator.ArtifactCache.Steps.{
  HasCounts, IsConsistent, deref_locked-counts, deref_locked-index, deref_all-index,
}

-- A path that is no companion file and not the snapshot's.
pub record IsBlob (q : String) : Type 0 where
  pub not_companion : (p : String) → append p perm_suffix ≢ q
  pub not_index : index_path ≢ q
  pub not_tmp : index_tmp_path ≢ q

module _ (fs : BlobDisk) where
  remove_rest-other :
      (d : fs.Disk) (path q : String) → IsBlob q → fs.read (remove_rest fs d path) q ≡ fs.read d q
  unfolding remove_rest
  remove_rest-other d path q b =
      fs.remove_dir-other (fs.remove d (append path perm_suffix)).1 (fs.dir path) q
      ∙ fs.remove-other d (append path perm_suffix) q (b.not_companion path)

  removed-other :
      (path q : String) (r : Result CacheError (Unit {0})) (d : fs.Disk)
      → IsBlob q
      → fs.read (removed fs path r d).1 q ≡ fs.read d q
  removed-other path q (ok r) d b = remove_rest-other d path q b
  removed-other path q (err CacheError.not_exist) d b = remove_rest-other d path q b
  removed-other path q (err (CacheError.io_error e)) d b = refl

  pub remove_blob-other :
      (d : fs.Disk) (path q : String)
      → IsBlob q
      → path ≢ q
      → fs.read (remove_blob fs d path).1 q ≡ fs.read d q
  unfolding remove_blob
  remove_blob-other d path q b n =
      removed-other path q (fs.remove d path).0 (fs.remove d path).1 b ∙ fs.remove-other d path q n

  -- A dereference leaves the file of every blob that keeps a reference.
  deref_locked-file :
      (now : ℕ) (path q : String) (c : Cache) (d : fs.Disk)
      → IsBlob q
      → is_some (lookup q (deref_locked fs now path (c, d)).0.refs) ≡ true
      → fs.read (deref_locked fs now path (c, d)).1 q ≡ fs.read d q
  unfolding deref_locked
  deref_locked-file now path q c d b h = ground (
    arith,
    eq_iff path q,
    remove_blob-other d path q b,
    lookup-write_refs path (count_of (lookup path c.refs) - 1) c.refs q,
  )

  deref_other-file :
      (now : ℕ) (path q : String) (c : Cache) (d : fs.Disk)
      → IsBlob q
      → path ≢ q
      → fs.read (deref_locked fs now path (c, d)).1 q ≡ fs.read d q
  unfolding deref_locked
  deref_other-file now path q c d b n = ground (arith, remove_blob-other d path q b n)

  deref_all-file :
      (now : ℕ) (paths : List String) (q : String) (c : Cache) (d : fs.Disk) (k : String → ℕ)
      → IsBlob q
      → HasCounts c k
      → count_in q paths < k q
      → fs.read (deref_all fs now paths (c, d)).1 q ≡ fs.read d q
  unfolding deref_all count_in
  deref_all-file now [] q c d k b h l = refl
  deref_all-file now (path ∷ rest) q c d k b h l =
      let (c', d') = deref_locked fs now path (c, d) in
      deref_all-file now rest q c' d' (λ p. k p - one_if (path == p)) b
        (deref_locked-counts fs now path c d k h) (ground arith)
      ∙ deref_locked-file now path q c d b
          (ground (arith, deref_locked-counts fs now path c d k h q))

  rename-file :
      (q : String) (d : fs.Disk)
      → IsBlob q
      → fs.read
          (finish_rename fs
            (fs.rename d index_tmp_path index_path).0
            (fs.rename d index_tmp_path index_path).1).1
          q
        ≡ fs.read d q
  rename-file q d b = ground (
    arith,
    fs.rename-other d index_tmp_path index_path q b.not_tmp b.not_index,
    fs.remove-other (fs.rename d index_tmp_path index_path).1 index_tmp_path q b.not_tmp,
  )

  write_index-file :
      (q : String) (d : fs.Disk) (text : String)
      → IsBlob q
      → fs.read (write_index fs d text).1 q ≡ fs.read d q
  unfolding write_index
  write_index-file q d text b = ground (
    arith,
    rename-file q (fs.write_file d index_tmp_path text).1 b,
    fs.write-other d index_tmp_path q text b.not_tmp,
    fs.remove-other (fs.write_file d index_tmp_path text).1 index_tmp_path q b.not_tmp,
  )

  pub persist_index_locked-file :
      (q : String) (d : fs.Disk) (index : Map IndexKey String)
      → IsBlob q
      → fs.read (persist_index_locked fs d index).1 q ≡ fs.read d q
  unfolding persist_index_locked
  persist_index_locked-file q d index b = elim (Option-cases (fs.marshal (entries_of fs index))) [
    | inl e ↦ ground (arith, e)
    | inr (text, e) ↦ ground (arith, e, write_index-file q d text b)
  ]

  set_stored-file :
      (now : ℕ) (key : IndexKey) (path q : String) (c : Cache) (old : Option String)
      (r : Result CacheError (Unit {0}) × fs.Disk)
      → lookup key c.index ≡ old
      → is_indexed old path ≡ false
      → IsConsistent c
      → IsBlob q
      → 0 < count_entries q (finish_set fs now old (insert key path c.index) path c r).1.index
      → fs.read (finish_set fs now old (insert key path c.index) path c r).2 q ≡ fs.read r.1 q
  unfolding reference
  set_stored-file now key path q c old (err e, d) f n h b l = refl
  set_stored-file now key path q c none (ok r, d) f n h b l = refl
  set_stored-file now key path q c (some old) (ok r, d) f n h b l =
      let c1 = record c { index = insert key path c.index } in
      elim (Bool-cases (old == q)) [
        | inl e ↦ deref_locked-file now old q c1 d b (
            ground (
              arith,
              e,
              l,
              deref_locked-index fs now old c1 d,
              eq_iff old q,
              eq_iff path q,
              eq_iff old path,
              deref_locked-counts fs now old c1 d (λ p. count_entries p c.index) h.counts q,
              count_entries-insert q key path c.index,
            ))
        | inr e ↦ deref_other-file now old q c1 d b (ground (arith, e, eq_iff old q))
      ]

  -- On a cache with consistent counts, a `Set`, successful or not, leaves the file of every blob
  -- that some entry points at afterwards as it was. The path of a blob is none of a companion file
  -- or of the snapshot.
  pub set-keeps_files :
      (now : ℕ) (key : IndexKey) (path q : String) (c : Cache) (d : fs.Disk)
      → IsConsistent c
      → IsBlob q
      → 0 < count_entries q (set fs now key path c d).1.index
      → fs.read (set fs now key path c d).2 q ≡ fs.read d q
  unfolding set
  set-keeps_files now key path q c d h b l =
      elim (Bool-cases (is_indexed (lookup key c.index) path)) [
        | inl e ↦ rw e refl
        | inr e ↦
            let r = persist_index_locked fs d (insert key path c.index) in
            rw e (
              set_stored-file now key path q c (lookup key c.index) r refl e h b (rw e at l)
              ∙ persist_index_locked-file q d (insert key path c.index) b)
      ]

  removed_stored-file :
      (now : ℕ) (f : IndexKey → Bool) (blobs : List String) (q : String) (c : Cache) (d : fs.Disk)
      → blobs_of f c.index ≡ blobs
      → IsConsistent c
      → IsBlob q
      → 0 < count_entries q (remove_found fs now blobs (entries_without f c.index) c d).1.index
      → fs.read (remove_found fs now blobs (entries_without f c.index) c d).2 q ≡ fs.read d q
  unfolding remove_found
  removed_stored-file now f [] q c d e h b l = refl
  removed_stored-file now f (path ∷ rest) q c d e h b l =
      let c1 = record c { index = entries_without f c.index } in
      let d1 = (persist_index_locked fs d (entries_without f c.index)).1 in
      ground (
        arith,
        l,
        e,
        persist_index_locked-file q d (entries_without f c.index) b,
        deref_all-index fs now (path ∷ rest) c1 d1,
        count_entries-without q f c.index,
        deref_all-file now (path ∷ rest) q c1 d1 (λ p. count_entries p c.index) b h.counts,
      )

  -- On a cache with consistent counts, a `RemoveAll`, successful or not, leaves the file of every
  -- blob that some entry points at afterwards as it was. The path of a blob is none of a companion
  -- file or of the snapshot.
  pub remove_all-keeps_files :
      (now : ℕ) (artifact_type namespace name q : String) (c : Cache) (d : fs.Disk)
      → IsConsistent c
      → IsBlob q
      → 0 < count_entries q (remove_all fs now artifact_type namespace name c d).1.index
      → fs.read (remove_all fs now artifact_type namespace name c d).2 q ≡ fs.read d q
  unfolding remove_all remove_entries
  remove_all-keeps_files now artifact_type namespace name q c d h b l =
      let f = is_of artifact_type namespace name in
      removed_stored-file now f (blobs_of f c.index) q c d refl h b l

  -- A `Set` that fails changes nothing in the cache.
  pub set_fails_clean :
      (now : ℕ) (key : IndexKey) (path : String) (c : Cache) (d : fs.Disk) {e : CacheError}
      → (set fs now key path c d).0 ≡ err e
      → (set fs now key path c d).1 ≡ c
  unfolding set
  set_fails_clean now key path c d h = ground arith

  -- After a `Set` that succeeds the key resolves to the blob and every other key resolves as
  -- before.
  pub set-resolves :
      (now : ℕ) (key : IndexKey) (path : String) (c : Cache) (d : fs.Disk) (j : IndexKey)
      → (set fs now key path c d).0 ≡ ok tt
      → lookup j (set fs now key path c d).1.index
        ≡ (if key == j then some path else lookup j c.index)
  unfolding set reference
  set-resolves now key path c d j h =
      let c1 = record c { index = insert key path c.index } in
      let d1 = (persist_index_locked fs d (insert key path c.index)).1 in
      elim (Option-cases (lookup key c.index)) [
        | inl e ↦ ground (arith, h, e, key_beq_iff key j, lookup-insert key j path c.index)
        | inr (old, e) ↦ ground (
          arith,
          h,
          e,
          eq_iff old path,
          key_beq_iff key j,
          lookup-insert key j path c.index,
          deref_locked-index fs now old c1 d1,
        )
      ]
