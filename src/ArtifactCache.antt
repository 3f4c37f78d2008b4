-- ===== src/ArtifactCache.antt =====
-- internal/pkg/artifactcache: the index of cached blobs (index.go). The mutex makes every exported
-- method one atomic step on the cache and the disk. Times are ℕ.
pub mod Disk
pub mod Counts
pub mod Steps
pub mod Snapshot
pub mod Sweep
pub mod Tests
use falco_operator.Common.{
  ℕ, zero, suc, ◌+◌, ◌-◌, String, Bool, true, false, ◌&&◌, not, List, [], ◌∷◌, Option, none, some,
  Result, ok, err, Map, lookup, insert, delete, Eq, ◌==◌, string_eq, nat_eq, ltb, if◌then◌else◌,
  ◌≡◌, ◌↔◌, eq_iff, arith, append,
}
use falco_operator.ArtifactCache.Disk.{
  BlobDisk, CacheError, IndexKey, SnapshotEntry, key_eq, perm_suffix, index_path, index_tmp_path,
}

pub record Cache : Type 0 where
  pub index : Map IndexKey String
  pub refs : Map String ℕ
  pub deref_times : Map String ℕ
  pub eviction_grace_period : ℕ

unfoldable pub new_cache : ℕ → Cache
new_cache grace = record { index = []; refs = []; deref_times = []; eviction_grace_period = grace }

abbrev pub count_of : Option ℕ → ℕ
count_of none = 0
count_of (some n) = n

-- The count that a write of `n` leaves: a count of zero is deleted.
unfoldable pub write_refs : String → ℕ → Map String ℕ → Map String ℕ
write_refs path zero refs = delete path refs
write_refs path (suc n) refs = insert path (suc n) refs

unfoldable pub blob_exists : Cache → String → Bool
blob_exists c path =
    if ltb 0 (count_of (lookup path c.refs))
    then true
    else elim (lookup path c.deref_times) [ none ↦ false | some t ↦ true ]

-- The entries of one CR, and the blobs they point at.
abbrev pub is_of : String → String → String → IndexKey → Bool
is_of artifact_type namespace name key =
    key.artifact_type == artifact_type && (key.namespace == namespace && key.name == name)

unfoldable pub entries_without : (IndexKey → Bool) → Map IndexKey String → Map IndexKey String
entries_without f [] = []
entries_without f ((key, path) ∷ rest) =
    let kept = entries_without f rest in if f key then kept else (key, path) ∷ kept

unfoldable pub blobs_of : (IndexKey → Bool) → Map IndexKey String → List String
blobs_of f [] = []
blobs_of f ((key, path) ∷ rest) =
    let blobs = blobs_of f rest in if f key then path ∷ blobs else blobs

-- `refs[blobPath]++`, and a pending eviction is canceled.
unfoldable pub reference : String → Cache → Cache
reference path c = record c {
  refs = insert path (suc (count_of (lookup path c.refs))) c.refs;
  deref_times = delete path c.deref_times;
}

abbrev pub is_indexed : Option String → String → Bool
is_indexed none path = false
is_indexed (some old) path = old == path

-- `filepath.Rel`, with the path itself where it fails.
abbrev pub with_path : String → Option String → String
with_path path none = path
with_path path (some r) = r

module _ (fs : BlobDisk) where
  -- The companion file and the directory go best-effort.
  unfoldable pub remove_rest : fs.Disk → String → fs.Disk
  remove_rest d path = fs.remove_dir (fs.remove d (append path perm_suffix)).1 (fs.dir path)

  abbrev pub removed : String → Result CacheError (Unit {0}) → fs.Disk → Bool × fs.Disk
  removed path (ok r) d = (true, remove_rest d path)
  removed path (err CacheError.not_exist) d = (true, remove_rest d path)
  removed path (err (CacheError.io_error e)) d = (false, d)

  -- The removal of a blob: a file that is gone already counts as removed.
  unfoldable pub remove_blob : fs.Disk → String → Bool × fs.Disk
  unfolding remove_rest
  remove_blob d path = let (r, d') = fs.remove d path in removed path r d'

  -- `refs` is decremented; Go's `-1` for a missing count falls in the same branch as `0`.
  unfoldable pub deref_locked : ℕ → String → Cache × fs.Disk → Cache × fs.Disk
  unfolding write_refs remove_blob
  deref_locked now path (c, d) =
      let left = count_of (lookup path c.refs) - 1 in
      let c' = record c { refs = write_refs path left c.refs } in
      if ltb 0 left
      then (c', d)
      else if ltb 0 c.eviction_grace_period
      then (record c' { deref_times = insert path now c.deref_times }, d)
      else (c', (remove_blob d path).1)

  unfoldable pub deref_all : ℕ → List String → Cache × fs.Disk → Cache × fs.Disk
  unfolding deref_locked
  deref_all now [] s = s
  deref_all now (path ∷ rest) s = deref_all now rest (deref_locked now path s)

  unfoldable pub entries_of : Map IndexKey String → List SnapshotEntry
  entries_of [] = []
  entries_of ((key, path) ∷ rest) =
      (record { key = key; blob_path = with_path path (fs.rel path) }) ∷ entries_of rest

  abbrev pub finish_rename :
      Result CacheError (Unit {0}) → fs.Disk → Result CacheError (Unit {0}) × fs.Disk
  finish_rename (ok r) d = (ok tt, d)
  finish_rename (err e) d = (err e, (fs.remove d index_tmp_path).1)

  abbrev pub finish_write :
      Result CacheError (Unit {0}) → fs.Disk → Result CacheError (Unit {0}) × fs.Disk
  finish_write (ok r) d =
      let (r', d') = fs.rename d index_tmp_path index_path in finish_rename r' d'
  finish_write (err e) d = (err e, (fs.remove d index_tmp_path).1)

  unfoldable pub write_index : fs.Disk → String → Result CacheError (Unit {0}) × fs.Disk
  write_index d text = let (r, d') = fs.write_file d index_tmp_path text in finish_write r d'

  unfoldable pub persist_index_locked :
      fs.Disk → Map IndexKey String → Result CacheError (Unit {0}) × fs.Disk
  unfolding entries_of write_index
  persist_index_locked d index = elim (fs.marshal (entries_of index)) [
    | none ↦ (err (CacheError.io_error "marshal snapshot"), d)
    | some text ↦ write_index d text
  ]

  abbrev pub Outcome : Type 0
  Outcome = Result CacheError (Unit {0}) × Cache × fs.Disk

  abbrev pub deref_old : ℕ → Option String → Cache × fs.Disk → Cache × fs.Disk
  deref_old now none s = s
  deref_old now (some old) s = deref_locked now old s

  abbrev pub finish_set :
      ℕ
      → Option String
      → Map IndexKey String
      → String
      → Cache
      → Result CacheError (Unit {0}) × fs.Disk
      → Outcome
  finish_set now old next path c (err e, d) = (err e, c, d)
  finish_set now old next path c (ok r, d) =
      let (c', d') = deref_old now old (record c { index = next }, d) in
      (ok tt, reference path c', d')

  unfoldable pub set : ℕ → IndexKey → String → Cache → fs.Disk → Outcome
  unfolding deref_locked reference persist_index_locked
  set now key path c d =
      let old = lookup key c.index in
      let next = insert key path c.index in
      if is_indexed old path
      then (ok tt, c, d)
      else finish_set now old next path c (persist_index_locked d next)

  abbrev pub finish_remove :
      ℕ
      → List String
      → Map IndexKey String
      → Cache
      → Result CacheError (Unit {0}) × fs.Disk
      → Outcome
  finish_remove now blobs next c (err e, d) = (err e, c, d)
  finish_remove now blobs next c (ok r, d) =
      let (c', d') = deref_all now blobs (record c { index = next }, d) in (ok tt, c', d')

  unfoldable pub remove_found : ℕ → List String → Map IndexKey String → Cache → fs.Disk → Outcome
  unfolding persist_index_locked
  remove_found now [] next c d = (ok tt, c, d)
  remove_found now (path ∷ rest) next c d =
      finish_remove now (path ∷ rest) next c (persist_index_locked d next)

  unfoldable pub remove_entries : ℕ → (IndexKey → Bool) → Cache → fs.Disk → Outcome
  unfolding entries_without blobs_of deref_all remove_found
  remove_entries now f c d =
      let next = entries_without f c.index in remove_found now (blobs_of f c.index) next c d

  unfoldable pub remove_all : ℕ → String → String → String → Cache → fs.Disk → Outcome
  unfolding remove_entries
  remove_all now artifact_type namespace name c d =
      remove_entries now (is_of artifact_type namespace name) c d
