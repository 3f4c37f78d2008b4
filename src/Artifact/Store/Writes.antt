-- ===== src/Artifact/Store/Writes.antt =====
-- What `LocalStore.Store` leaves on disk, on success and on failure.
use falco_operator.Common.{
  ℕ, String, Option, none, some, ok, err, Result, ◌≡◌, ◌≢◌, refl, arith, eq_iff, append, append-ne,
  string_eq,
}
use falco_operator.Artifact.{
  File, FetchResult, StoreAction, ArtifactType, Medium, ArtifactDirs, artifact_path, unchanged,
}
use falco_operator.Artifact.FileSystem.{FileSystem, FsError}
use falco_operator.Artifact.Store.{
  write_atomically, drop_old, store_at, store_tracked, store, tracked,
}

module _ (fs : FileSystem) where
  open fs use {Disk, read_file, write_file, rename, remove}

  tmp-ne : (path : String) → append path ".tmp" ≢ path
  tmp-ne path = append-ne path ".tmp" (ground (arith, eq_iff ".tmp" ""))

  -- After an atomic write the final path reads the content.
  write_atomically-reads :
      (d : Disk) (path : String) (r : FetchResult)
      → (write_atomically fs d path r).0 ≡ ok tt
      → read_file (write_atomically fs d path r).1 path ≡ ok r.content
  unfolding write_atomically
  write_atomically-reads d path r h =
      let tmp = append path ".tmp" in
      let d1 = (write_file d tmp r.content r.perm).1 in
      ground (arith, fs.write-reads d tmp r.content r.perm, fs.rename-moves d1 tmp path)

  -- A failed atomic write leaves the final path as it was.
  write_atomically-fails :
      (d : Disk) (path : String) (r : FetchResult)
      → (write_atomically fs d path r).0 ≢ ok tt
      → read_file (write_atomically fs d path r).1 path ≡ read_file d path
  unfolding write_atomically
  write_atomically-fails d path r h =
      let tmp = append path ".tmp" in
      let d1 = (write_file d tmp r.content r.perm).1 in
      let d2 = (rename d1 tmp path).1 in
      ground (
        arith,
        fs.write-other d tmp path r.content r.perm (tmp-ne path),
        fs.rename-fails d1 tmp path path,
        fs.remove-other d1 tmp path (tmp-ne path),
        fs.remove-other d2 tmp path (tmp-ne path),
      )

  -- Whatever happens, only the final path and its temporary sibling change.
  write_atomically-other :
      (d : Disk) (path q : String) (r : FetchResult)
      → path ≢ q
      → append path ".tmp" ≢ q
      → read_file (write_atomically fs d path r).1 q ≡ read_file d q
  unfolding write_atomically
  write_atomically-other d path q r h k =
      let tmp = append path ".tmp" in
      let d1 = (write_file d tmp r.content r.perm).1 in
      let d2 = (rename d1 tmp path).1 in
      ground (
        arith,
        fs.write-other d tmp q r.content r.perm k,
        fs.rename-other d1 tmp path q k h,
        fs.remove-other d1 tmp q k,
        fs.remove-other d2 tmp q k,
      )

  drop_old-keeps :
      (d : Disk) (current : Option File) (path : String)
      → read_file (drop_old fs d current path) path ≡ read_file d path
  unfolding drop_old
  drop_old-keeps d none path = refl
  drop_old-keeps d (some f) path = ground (arith, eq_iff f.path path, fs.remove-other d f.path path)

  abbrev NotCurrent : Option File → String → Type 0
  NotCurrent none q = Unit
  NotCurrent (some f) q = f.path ≢ q

  drop_old-other :
      (d : Disk) (current : Option File) (path q : String)
      → NotCurrent current q
      → read_file (drop_old fs d current path) q ≡ read_file d q
  unfolding drop_old
  drop_old-other d none path q h = refl
  drop_old-other d (some f) path q h = ground (arith, fs.remove-other d f.path q h)

module _ (fs : FileSystem) (d : fs.Disk) (path : String) (priority : ℕ) (medium : Medium)
    (r : FetchResult) where
  open fs use {read_file}

  store_at-reads :
      (kept : Option File) {a : StoreAction} {f : File}
      → (store_at fs d kept path priority medium r).0 ≡ ok (a, some f)
      → (read_file (store_at fs d kept path priority medium r).1 path ≡ ok r.content)
        × (f.path ≡ path)
        × (f.content_hash ≡ r.content_hash)
  unfolding store_at
  store_at-reads kept h = ground (
    arith,
    write_atomically-reads fs d path r,
    drop_old-keeps fs (write_atomically fs d path r).1 kept path,
  )

  store_tracked-reads :
      (t : Result FsError (Option File)) {a : StoreAction} {f : File}
      → (store_tracked fs d t path priority medium r).0 ≡ ok (a, some f)
      → (read_file (store_tracked fs d t path priority medium r).1 path ≡ ok r.content)
        × (f.path ≡ path)
        × (f.content_hash ≡ r.content_hash)
  unfolding store_tracked
  store_tracked-reads (ok kept) h = store_at-reads kept h
  store_tracked-reads (err e) h = cc

  store_at-fails :
      (kept : Option File) {e : FsError}
      → (store_at fs d kept path priority medium r).0 ≡ err e
      → read_file (store_at fs d kept path priority medium r).1 path ≡ read_file d path
  unfolding store_at
  store_at-fails kept h = ground (arith, write_atomically-fails fs d path r)

  store_tracked-fails :
      (t : Result FsError (Option File)) {e : FsError}
      → (store_tracked fs d t path priority medium r).0 ≡ err e
      → read_file (store_tracked fs d t path priority medium r).1 path ≡ read_file d path
  unfolding store_tracked
  store_tracked-fails (ok kept) h = store_at-fails kept h
  store_tracked-fails (err e) h = refl

  store_at-other :
      (kept : Option File) (q : String)
      → path ≢ q
      → append path ".tmp" ≢ q
      → NotCurrent fs kept q
      → read_file (store_at fs d kept path priority medium r).1 q ≡ read_file d q
  unfolding store_at
  store_at-other kept q h k n = ground (
    arith,
    write_atomically-other fs d path q r h k,
    drop_old-other fs (write_atomically fs d path r).1 kept path q n,
  )

  store_tracked-other :
      (t : Result FsError (Option File)) (q : String)
      → path ≢ q
      → append path ".tmp" ≢ q
      → ((kept : Option File) → t ≡ ok kept → NotCurrent fs kept q)
      → read_file (store_tracked fs d t path priority medium r).1 q ≡ read_file d q
  unfolding store_tracked
  store_tracked-other (ok kept) q h k n = store_at-other kept q h k (n kept refl)
  store_tracked-other (err e) q h k n = refl

  -- The file that a `store` returned, found again on disk, is unchanged.
  store_again :
      (d' : fs.Disk) (f : File)
      → read_file d' path ≡ ok r.content
      → f.path ≡ path
      → f.content_hash ≡ r.content_hash
      → store_tracked fs d' (tracked fs d' (some f)) path priority medium r
        ≡ (ok (unchanged, none), d')
  unfolding tracked store_tracked store_at
  store_again d' f reads here hash = ground (
    arith,
    fs.exists-reads d' path r.content reads,
    eq_iff f.path path,
    eq_iff f.content_hash r.content_hash,
  )

tracked-current :
    (fs : FileSystem) (d : fs.Disk) (current kept : Option File) (q : String)
    → NotCurrent fs current q
    → tracked fs d current ≡ ok kept
    → NotCurrent fs kept q
unfolding tracked
tracked-current fs d none none q n e = tt
tracked-current fs d none (some g) q n e = cc
tracked-current fs d (some f) none q n e = tt
tracked-current fs d (some f) (some g) q n e = ground arith

module _ (fs : FileSystem) (join : String → String → String) (dirs : ArtifactDirs) (d : fs.Disk)
    (current : Option File) (name : String) (priority : ℕ) (type : ArtifactType) (medium : Medium)
    (r : FetchResult) where
  open fs use {read_file}

  abbrev target : String
  target = artifact_path join dirs name priority medium type

  -- When `store` returns a file, the artifact's path reads the fetched content, and the file
  -- records that path and the content's hash.
  pub store-reads :
      {a : StoreAction} {f : File}
      → (store fs join dirs d current name priority type medium r).0 ≡ ok (a, some f)
      → (read_file (store fs join dirs d current name priority type medium r).1 target
          ≡ ok r.content)
        × (f.path ≡ target)
        × (f.content_hash ≡ r.content_hash)
  unfolding store
  store-reads h = store_tracked-reads fs d target priority medium r (tracked fs d current) h

  -- A `store` that fails leaves the artifact's path as it was: never a part of the new content.
  pub store-fails :
      {e : FsError}
      → (store fs join dirs d current name priority type medium r).0 ≡ err e
      → read_file (store fs join dirs d current name priority type medium r).1 target
        ≡ read_file d target
  unfolding store
  store-fails h = store_tracked-fails fs d target priority medium r (tracked fs d current) h

  -- `store` touches three files at most: the artifact's path, its temporary sibling and the file
  -- that was tracked before.
  pub store-other :
      (q : String)
      → target ≢ q
      → append target ".tmp" ≢ q
      → NotCurrent fs current q
      → read_file (store fs join dirs d current name priority type medium r).1 q ≡ read_file d q
  unfolding store
  store-other q h k n =
      store_tracked-other fs d target priority medium r (tracked fs d current) q h k
        (λ kept e. tracked-current fs d current kept q n e)

  -- Storing the same content again, with the file that the first call returned, is `Unchanged` and
  -- leaves the disk as it is.
  pub store_idem :
      {a : StoreAction} {f : File}
      → (store fs join dirs d current name priority type medium r).0 ≡ ok (a, some f)
      → let d' = (store fs join dirs d current name priority type medium r).1 in
        store fs join dirs d' (some f) name priority type medium r ≡ (ok (unchanged, none), d')
  store_idem {a} {f} h =
      let (reads, here, hash) = store-reads h in
      let d' = (store fs join dirs d current name priority type medium r).1 in
      unfold store in store_again fs d target priority medium r d' f reads here hash

pub store-fresh :
    (fs : FileSystem) (join : String → String → String) (dirs : ArtifactDirs) (d : fs.Disk)
    (name : String) (priority : ℕ) (type : ArtifactType) (medium : Medium) (r : FetchResult)
    (result : StoreAction × Option File)
    → (store fs join dirs d none name priority type medium r).0 ≡ ok result
    → fs.read_file
        (store fs join dirs d none name priority type medium r).1
        (artifact_path join dirs name priority medium type)
      ≡ ok r.content
unfolding store tracked store_tracked store_at drop_old
store-fresh fs join dirs d name priority type medium r result h =
    ground
      (arith, write_atomically-reads fs d (artifact_path join dirs name priority medium type) r)
