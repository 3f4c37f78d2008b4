-- ===== src/ArtifactCache/Snapshot.antt =====
-- `Load`: the cache that a restart reads from the snapshot.
use falco_operator.Common.{
  suc, String, true, List, [], ◌∷◌, Option, none, some, Result, ok, err, Map, lookup, insert,
  lookup-insert, Distinct, string_eq, if◌then◌else◌, is_some, Option-cases, inl, inr, ◌≡◌, ◌∙◌,
  refl, ap, eq_iff, arith,
}
use falco_operator.ArtifactCache.Disk.{
  BlobDisk, CacheError, IndexKey, SnapshotEntry, key_eq, key_beq_iff, index_path, index_tmp_path,
}
use falco_operator.ArtifactCache.{
  Cache, count_of, with_path, entries_of, persist_index_locked, write_index,
}
use falco_operator.ArtifactCache.Counts.{count_entries, count_entries-insert, count_of-counted}
use falco_operator.ArtifactCache.Steps.{HasCounts, IsConsistent}

abbrev pub blobs_dir : String
blobs_dir = "blobs"

-- One turn of the loop of `Load`.
unfoldable pub add_entry : IndexKey → String → Cache → Cache
add_entry key path c = record c {
  index = insert key path c.index;
  refs = insert path (suc (count_of (lookup path c.refs))) c.refs;
}

module _ (fs : BlobDisk) where
  unfoldable pub load_path : String → String
  load_path path = if fs.is_abs path then path else fs.join path

  unfoldable pub load_entries : List SnapshotEntry → Cache → Cache
  unfolding load_path add_entry
  load_entries [] c = c
  load_entries (e ∷ rest) c = load_entries rest (add_entry e.key (load_path e.blob_path) c)

  unfoldable pub empty_cache : Cache → Cache
  empty_cache c = record c { index = []; refs = []; deref_times = [] }

  unfoldable pub load_read : Result CacheError String → Cache → Result CacheError (Unit {0}) × Cache
  unfolding load_entries empty_cache
  load_read (err CacheError.not_exist) c = (ok tt, c)
  load_read (err (CacheError.io_error e)) c = (err (CacheError.io_error e), c)
  load_read (ok text) c = elim (fs.unmarshal text) [
    | none ↦ (err (CacheError.io_error "parse snapshot"), c)
    | some entries ↦ (ok tt, load_entries entries (empty_cache c))
  ]

  abbrev pub load_after :
      Result CacheError (Unit {0}) → fs.Disk → Cache → Result CacheError (Unit {0}) × Cache
  load_after (err e) d c = (err e, c)
  load_after (ok r) d c = load_read (fs.read d index_path) c

  unfoldable pub load : Cache → fs.Disk → Result CacheError (Unit {0}) × Cache × fs.Disk
  unfolding load_read
  load c d =
      let (r, d') = fs.make_dir d blobs_dir in let (r', c') = load_after r d' c in (r', c', d')

  -- The blobs of an index are paths that `BlobPath` makes.
  abbrev pub AllClean : Map IndexKey String → Type 0
  AllClean [] = Unit
  AllClean ((key, path) ∷ rest) = (fs.is_clean path ≡ true) × AllClean rest

  load_path-with_path :
      (path : String) (r : Option String)
      → fs.rel path ≡ r
      → fs.is_clean path ≡ true
      → load_path (with_path path r) ≡ path
  unfolding load_path
  load_path-with_path path none e h = ground (arith, fs.clean-is_abs path h)
  load_path-with_path path (some r) e h = ground (arith, fs.rel-join path r h e)

  abbrev loaded : Map IndexKey String → Cache → Cache
  loaded m c = load_entries (entries_of fs m) c

  loaded-cons :
      (key : IndexKey) (path : String) (m : Map IndexKey String) (c : Cache)
      → fs.is_clean path ≡ true
      → loaded ((key, path) ∷ m) c ≡ loaded m (add_entry key path c)
  unfolding load_entries entries_of
  loaded-cons key path m c h =
      ap (λ p. load_entries (entries_of fs m) (add_entry key p c))
        (load_path-with_path path (fs.rel path) refl h)

  abbrev pub either : Option String → Option String → Option String
  either none b = b
  either (some a) b = some a

  lookup-loaded :
      (m : Map IndexKey String) (c : Cache) (j : IndexKey)
      → AllClean m
      → Distinct m
      → lookup j (loaded m c).index ≡ either (lookup j m) (lookup j c.index)
  unfolding lookup add_entry load_entries entries_of
  lookup-loaded [] c j h u = refl
  lookup-loaded ((key, path) ∷ m) c j h u = ground (
    arith,
    u,
    loaded-cons key path m c h.0,
    lookup-loaded m (add_entry key path c) j h.1 u.1,
    lookup-insert key j path c.index,
    key_beq_iff key j,
  )

  -- No key of `m` is one of `index`.
  abbrev AreNew : Map IndexKey String → Map IndexKey String → Type 0
  AreNew m index = (j : IndexKey) → is_some (lookup j m) ≡ true → lookup j index ≡ none

  loaded-counts :
      (m : Map IndexKey String) (c : Cache)
      → AllClean m
      → Distinct m
      → AreNew m c.index
      → HasCounts c (λ p. count_entries p c.index)
      → HasCounts (loaded m c) (λ p. count_entries p (loaded m c).index)
  unfolding lookup add_entry load_entries entries_of
  loaded-counts [] c h u n k p = k p
  loaded-counts ((key, path) ∷ m) c h u n k p = rw (loaded-cons key path m c h.0) (
      loaded-counts m (add_entry key path c) h.1 u.1
        (λ j s. ground (arith, s, u, n j, lookup-insert key j path c.index, key_beq_iff key j))
        (λ q. ground (
          arith,
          k q,
          k path,
          n key,
          key_beq_iff key key,
          eq_iff path q,
          count_of-counted (count_entries path c.index),
          lookup-insert path q (suc (count_of (lookup path c.refs))) c.refs,
          count_entries-insert q key path c.index,
        ))
        p)

  loaded-deref :
      (m : Map IndexKey String) (c : Cache) → AllClean m → (loaded m c).deref_times ≡ c.deref_times
  unfolding load_entries entries_of add_entry
  loaded-deref [] c h = refl
  loaded-deref ((key, path) ∷ m) c h =
      rw (loaded-cons key path m c h.0) (loaded-deref m (add_entry key path c) h.1)

  loaded-IsConsistent :
      (index : Map IndexKey String) (c : Cache)
      → AllClean index
      → Distinct index
      → IsConsistent (loaded index (empty_cache c))
  unfolding empty_cache lookup count_entries
  loaded-IsConsistent index c clean distinct = record {
    counts = loaded-counts index (empty_cache c) clean distinct (λ j s. refl) (λ p. refl);
    unpending = λ p s. ground (arith, loaded-deref index (empty_cache c) clean);
  }

  -- A snapshot that was written is the file's content.
  persist-reads :
      (d : fs.Disk) (index : Map IndexKey String)
      → (persist_index_locked fs d index).0 ≡ ok tt
      → (text : String) × (fs.marshal (entries_of fs index) ≡ some text)
        × (fs.read (persist_index_locked fs d index).1 index_path ≡ ok text)
  unfolding persist_index_locked write_index
  persist-reads d index h = elim (Option-cases (fs.marshal (entries_of fs index))) [
    | inl e ↦ ground (arith, h, e)
    | inr (text, e) ↦
        let d1 = (fs.write_file d index_tmp_path text).1 in
        (
          text,
          e,
          ground (
            arith,
            h,
            e,
            fs.write-reads d index_tmp_path text,
            fs.rename-moves d1 index_tmp_path index_path,
          ),
        )
  ]

  load_read-restores :
      (text : String) (index : Map IndexKey String) (c : Cache)
      → fs.marshal (entries_of fs index) ≡ some text
      → load_read (ok text) c ≡ (ok tt, loaded index (empty_cache c))
  unfolding load_read
  load_read-restores text index c e =
      ground (arith, fs.unmarshal-marshal (entries_of fs index) text e)

  -- After a snapshot of an index was written, and if the blobs directory can be made, `Load`
  -- succeeds and gives the same blob for every key, with consistent reference counts. The paths in
  -- the index are absolute and clean, and no key stands in it twice.
  pub load-restores :
      (index : Map IndexKey String) (c : Cache) (d : fs.Disk)
      → AllClean index
      → Distinct index
      → (persist_index_locked fs d index).0 ≡ ok tt
      → (fs.make_dir (persist_index_locked fs d index).1 blobs_dir).0 ≡ ok tt
      → ((load c (persist_index_locked fs d index).1).0 ≡ ok tt)
        × ((j : IndexKey)
            → lookup j (load c (persist_index_locked fs d index).1).1.index ≡ lookup j index)
        × IsConsistent (load c (persist_index_locked fs d index).1).1
  unfolding load empty_cache lookup
  load-restores index c d clean distinct h made =
      let (text, written, reads) = persist-reads d index h in
      let d1 = (persist_index_locked fs d index).1 in
      let reads_after = fs.make_dir-other d1 blobs_dir index_path ∙ reads in
      rw (made, reads_after, load_read-restores text index c written)
        (
          refl,
          λ j. ground (arith, lookup-loaded index (empty_cache c) j clean distinct),
          loaded-IsConsistent index c clean distinct,
        )
