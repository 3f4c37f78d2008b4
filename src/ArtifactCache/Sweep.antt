-- ===== src/ArtifactCache/Sweep.antt =====
-- internal/pkg/artifactcache/sweep.go. The walk runs without the lock, so other steps come between
-- it and the removals: `sweep_finish` takes any candidates and the state of that later moment.
use falco_operator.Common.{
  ℕ, ◌+◌, String, Bool, true, false, ◌&&◌, not, List, [], ◌∷◌, Option, none, some, Result, ok, err,
  Map, lookup, Distinct, string_eq, ltb, if◌then◌else◌, is_some, ◌≡◌, ◌<◌, ◌≤◌, refl, eq_iff, arith,
}
use falco_operator.ArtifactCache.Disk.{BlobDisk, CacheError, perm_suffix}
use falco_operator.ArtifactCache.{Cache, count_of, remove_blob}
use falco_operator.ArtifactCache.Counts.{count_entries}
use falco_operator.ArtifactCache.Steps.{IsConsistent}
use falco_operator.ArtifactCache.Steps.Files.{IsBlob, remove_blob-other}

-- 10 minutes, in seconds
abbrev pub sweep_grace_window : ℕ
sweep_grace_window = 600

-- `time.Since(t) < window`
abbrev pub is_fresh : ℕ → ℕ → ℕ → Bool
is_fresh now t window = ltb now (t + window)

abbrev pub is_old : ℕ → Option ℕ → Bool
is_old now none = false
is_old now (some t) = not (is_fresh now t sweep_grace_window)

abbrev pub is_unreferenced : Map String ℕ → Map String ℕ → String → Bool
is_unreferenced refs deref_times path =
    not (ltb 0 (count_of (lookup path refs))) && not (is_some (lookup path deref_times))

module _ (fs : BlobDisk) where
  unfoldable pub orphans_of : ℕ → Map String ℕ → Map String ℕ → fs.Disk → List String → List String
  orphans_of now refs deref_times d [] = []
  orphans_of now refs deref_times d (path ∷ rest) =
      let candidates = orphans_of now refs deref_times d rest in
      if not (fs.has_suffix path perm_suffix)
        && (is_unreferenced refs deref_times path && is_old now (fs.mod_time d path))
      then path ∷ candidates
      else candidates

  unfoldable pub find_orphan_candidates :
      ℕ → Map String ℕ → Map String ℕ → fs.Disk → Result CacheError (List String)
  unfolding orphans_of
  find_orphan_candidates now refs deref_times d = elim (fs.walk d) [
    | err CacheError.not_exist ↦ ok []
    | err (CacheError.io_error e) ↦ err (CacheError.io_error e)
    | ok files ↦ ok (orphans_of now refs deref_times d files)
  ]

  abbrev pub count_one : Bool → ℕ
  count_one true = 1
  count_one false = 0

  unfoldable pub remove_orphans_locked : ℕ → Cache → List String → fs.Disk → ℕ × fs.Disk
  unfolding remove_blob
  remove_orphans_locked now c [] d = (0, d)
  remove_orphans_locked now c (path ∷ rest) d =
      let go = is_unreferenced c.refs c.deref_times path && is_old now (fs.mod_time d path) in
      let (gone, d1) = if go then remove_blob fs d path else (false, d) in
      let (n, d2) = remove_orphans_locked now c rest d1 in (count_one gone + n, d2)

  -- The pending evictions that stay, and the disk after the removal of the others.
  unfoldable pub expire : ℕ → ℕ → Map String ℕ → fs.Disk → ℕ × Map String ℕ × fs.Disk
  unfolding remove_blob
  expire now grace [] d = (0, [], d)
  expire now grace ((path, t) ∷ rest) d =
      let stays = is_fresh now t grace in
      let (gone, d1) = if stays then (false, d) else remove_blob fs d path in
      let (n, kept, d2) = expire now grace rest d1 in
      (count_one gone + n, (if stays then (path, t) ∷ kept else kept), d2)

  unfoldable pub remove_expired_derefs_locked : ℕ → Cache → fs.Disk → ℕ × Cache × fs.Disk
  unfolding expire
  remove_expired_derefs_locked now c d =
      let (n, kept, d') = expire now c.eviction_grace_period c.deref_times d in
      (n, record c { deref_times = kept }, d')

  unfoldable pub sweep_finish : ℕ → List String → Cache → fs.Disk → ℕ × Cache × fs.Disk
  unfolding remove_expired_derefs_locked remove_orphans_locked
  sweep_finish now candidates c d =
      let (n, c1, d1) = remove_expired_derefs_locked now c d in
      let (k, d2) = remove_orphans_locked now c1 candidates d1 in (n + k, c1, d2)

  abbrev pub expires : ℕ → ℕ → Option ℕ → Bool
  expires now grace none = false
  expires now grace (some t) = not (is_fresh now t grace)

  expire-file :
      (now grace : ℕ) (pending : Map String ℕ) (q : String) (d : fs.Disk)
      → Distinct pending
      → IsBlob q
      → expires now grace (lookup q pending) ≡ false
      → fs.read (expire now grace pending d).2 q ≡ fs.read d q
  unfolding expire lookup
  expire-file now grace [] q d u b h = refl
  expire-file now grace ((path, t) ∷ rest) q d u b h =
      let d1 = (if is_fresh now t grace then (false, d) else remove_blob fs d path).1 in
      ground (
        arith,
        u,
        eq_iff path q,
        expire-file now grace rest q d1 u.1 b,
        remove_blob-other fs d path q b,
      )

  lookup-expire :
      (now grace : ℕ) (pending : Map String ℕ) (q : String) (d : fs.Disk)
      → Distinct pending
      → lookup q (expire now grace pending d).1
        ≡ (if expires now grace (lookup q pending) then none else lookup q pending)
  unfolding expire lookup
  lookup-expire now grace [] q d u = refl
  lookup-expire now grace ((path, t) ∷ rest) q d u =
      let d1 = (if is_fresh now t grace then (false, d) else remove_blob fs d path).1 in
      ground (arith, u, eq_iff path q, lookup-expire now grace rest q d1 u.1)

  remove_orphans_locked-file :
      (now : ℕ) (c : Cache) (candidates : List String) (q : String) (d : fs.Disk)
      → IsBlob q
      → is_unreferenced c.refs c.deref_times q ≡ false
      → fs.read (remove_orphans_locked now c candidates d).1 q ≡ fs.read d q
  unfolding remove_orphans_locked
  remove_orphans_locked-file now c [] q d b h = refl
  remove_orphans_locked-file now c (path ∷ rest) q d b h =
      let go = is_unreferenced c.refs c.deref_times path && is_old now (fs.mod_time d path) in
      let d1 = (if go then remove_blob fs d path else (false, d)).1 in
      ground (
        arith,
        eq_iff path q,
        remove_orphans_locked-file now c rest q d1 b h,
        remove_blob-other fs d path q b,
      )

  -- A sweep, with whatever candidates it found before, keeps the counts true.
  pub sweep_finish-IsConsistent :
      (now : ℕ) (candidates : List String) (c : Cache) (d : fs.Disk)
      → Distinct c.deref_times
      → IsConsistent c
      → IsConsistent (sweep_finish now candidates c d).1
  unfolding sweep_finish remove_expired_derefs_locked
  sweep_finish-IsConsistent now candidates c d u h = record {
    counts = h.counts;
    unpending = λ p s.
        ground
          (arith, s, h.unpending p, lookup-expire now c.eviction_grace_period c.deref_times p d u);
  }

  -- On a cache with consistent counts, a sweep leaves the file of every blob that an entry points
  -- at as it was, whatever the candidates are that it found before: an entry made after the walk
  -- protects its blob. The path of a blob is none of a companion file or of the snapshot.
  pub sweep_finish-keeps_files :
      (now : ℕ) (candidates : List String) (c : Cache) (d : fs.Disk) (q : String)
      → Distinct c.deref_times
      → IsConsistent c
      → IsBlob q
      → 0 < count_entries q c.index
      → fs.read (sweep_finish now candidates c d).2 q ≡ fs.read d q
  unfolding sweep_finish remove_expired_derefs_locked
  sweep_finish-keeps_files now candidates c d q u h b l =
      let (n, kept, d1) = expire now c.eviction_grace_period c.deref_times d in
      ground (
        arith,
        l,
        h.counts q,
        h.unpending q,
        expire-file now c.eviction_grace_period c.deref_times q d u b,
        remove_orphans_locked-file now (record c { deref_times = kept }) candidates q d1 b,
      )

  -- A sweep leaves the file of a dereferenced blob as it was, and the blob pending, while its
  -- eviction grace period lasts.
  pub sweep_finish-keeps_pending :
      (now t : ℕ) (candidates : List String) (c : Cache) (d : fs.Disk) (q : String)
      → Distinct c.deref_times
      → IsBlob q
      → lookup q c.deref_times ≡ some t
      → now < t + c.eviction_grace_period
      → (fs.read (sweep_finish now candidates c d).2 q ≡ fs.read d q)
        × (lookup q (sweep_finish now candidates c d).1.deref_times ≡ some t)
  unfolding sweep_finish remove_expired_derefs_locked
  sweep_finish-keeps_pending now t candidates c d q u b e l =
      let (n, kept, d1) = expire now c.eviction_grace_period c.deref_times d in
      let stays = lookup-expire now c.eviction_grace_period c.deref_times q d u in
      (
        ground (
          arith,
          e,
          l,
          stays,
          expire-file now c.eviction_grace_period c.deref_times q d u b,
          remove_orphans_locked-file now (record c { deref_times = kept }) candidates q d1 b,
        ),
        ground (arith, e, l, stays),
      )

  -- A pending eviction whose grace period is over is forgotten by the sweep.
  pub sweep_finish-forgets_expired :
      (now t : ℕ) (candidates : List String) (c : Cache) (d : fs.Disk) (q : String)
      → Distinct c.deref_times
      → lookup q c.deref_times ≡ some t
      → t + c.eviction_grace_period ≤ now
      → lookup q (sweep_finish now candidates c d).1.deref_times ≡ none
  unfolding sweep_finish remove_expired_derefs_locked
  sweep_finish-forgets_expired now t candidates c d q u e l =
      ground (arith, e, l, lookup-expire now c.eviction_grace_period c.deref_times q d u)

  abbrev finish_sweep :
      ℕ → Cache → fs.Disk → Result CacheError (List String) → Result CacheError ℕ × Cache × fs.Disk
  finish_sweep now c d (err e) = (err e, c, d)
  finish_sweep now c d (ok candidates) =
      let (n, c', d') = sweep_finish now candidates c d in (ok n, c', d')

  -- A sweep that no other step comes between.
  unfoldable pub sweep : ℕ → Cache → fs.Disk → Result CacheError ℕ × Cache × fs.Disk
  unfolding sweep_finish find_orphan_candidates
  sweep now c d = finish_sweep now c d (find_orphan_candidates now c.refs c.deref_times d)
