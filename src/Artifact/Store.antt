-- ===== src/Artifact/Store.antt =====
-- internal/pkg/artifact/store.go: `LocalStore` over the file system. Log lines are left out.
pub mod Removed
pub mod Writes
use falco_operator.Common.{
  ℕ, String, Bool, true, false, ◌&&◌, not, Option, none, some, List, [], ◌∷◌, Result, ok, err,
  ◌>>=◌, ◌==◌, string_eq, if◌then◌else◌, append,
}
use falco_operator.Artifact.{
  File, FetchResult, StoreAction, ArtifactType, Medium, ArtifactDirs, Bytes, InstalledArtifact,
  artifact_path, none_done, added, updated, unchanged, priority_changed,
}
use falco_operator.Artifact.FileSystem.{FileSystem, FsError, not_exist, io_error}

module _ (fs : FileSystem) where
  open fs use {Disk, exists, read_file, write_file, rename, remove}

  -- A file that the status tracks and that is no longer on disk counts as not installed.
  unfoldable pub tracked : Disk → Option File → Result FsError (Option File)
  tracked d none = ok none
  tracked d (some f) = do found ← exists d f.path; ok (if found then some f else none)

  -- Write to a sibling and rename; a failure leaves no temporary file behind, if it can be removed.
  unfoldable pub write_atomically : Disk → String → FetchResult → Result FsError (Unit {0}) × Disk
  write_atomically d path result =
      let tmp = append path ".tmp" in
      let (written, d1) = write_file d tmp result.content result.perm in
      elim written [
        | err e ↦ (err e, (remove d1 tmp).1)
        | ok _ ↦
            (let (renamed, d2) = rename d1 tmp path in
              elim renamed [ err e ↦ (err e, (remove d2 tmp).1) | ok _ ↦ (ok tt, d2) ])
      ]

  -- The old file of a rename; an error is logged and dropped.
  unfoldable pub drop_old : Disk → Option File → String → Disk
  drop_old d none path = d
  drop_old d (some f) path = if f.path == path then d else (remove d f.path).1

  unfoldable pub is_unchanged : Option File → FetchResult → String → Bool
  is_unchanged none result path = false
  is_unchanged (some f) result path = f.content_hash == result.content_hash && f.path == path

  unfoldable pub written_action : Option File → FetchResult → String → StoreAction
  written_action none result path = added
  written_action (some f) result path =
      if f.content_hash == result.content_hash && not (f.path == path)
      then priority_changed
      else updated

  unfoldable pub store_at :
      Disk
      → Option File
      → String
      → ℕ
      → Medium
      → FetchResult
      → Result FsError (StoreAction × Option File) × Disk
  unfolding is_unchanged
  store_at d current path priority medium result =
      if is_unchanged current result path
      then (ok (unchanged, none), d)
      else (let (written, d1) = write_atomically d path result in
          elim written [
            | err e ↦ (err e, d1)
            | ok _ ↦ (
              ok (
                written_action current result path,
                some (record {
                  path = path;
                  medium = medium;
                  priority = priority;
                  content_hash = result.content_hash;
                  spec_hash = "";
                }),
              ),
              drop_old d1 current path,
            )
          ])

  unfoldable pub store_tracked :
      Disk
      → Result FsError (Option File)
      → String
      → ℕ
      → Medium
      → FetchResult
      → Result FsError (StoreAction × Option File) × Disk
  store_tracked d (err e) path priority medium result = (err e, d)
  store_tracked d (ok kept) path priority medium result =
      store_at d kept path priority medium result

  unfoldable pub store :
      (String → String → String)
      → ArtifactDirs
      → Disk
      → Option File
      → String
      → ℕ
      → ArtifactType
      → Medium
      → FetchResult
      → Result FsError (StoreAction × Option File) × Disk
  unfolding store_tracked
  store join dirs d current name priority type medium result =
      store_tracked d (tracked d current) (artifact_path join dirs name priority medium type)
        priority medium result

  -- `sha` is the SHA-256 hex digest.
  unfoldable pub verify : (Bytes → String) → Disk → Option File → Result FsError Bool
  verify sha d none = ok false
  verify sha d (some f) = elim (read_file d f.path) [
    | ok content ↦ ok (sha content == f.content_hash)
    | err not_exist ↦ ok false
    | err (io_error m) ↦ err (io_error m)
  ]

  -- `Remove`: the first error other than a missing file stops the loop.
  unfoldable pub remove_all : Disk → List InstalledArtifact → Result FsError (Unit {0}) × Disk
  remove_all d [] = (ok tt, d)
  remove_all d (a ∷ rest) =
      let (removed, d1) = remove d a.path in
      let others = remove_all d1 rest in
      elim removed [
        | ok _ ↦ others
        | err not_exist ↦ others
        | err (io_error m) ↦ (err (io_error m), d1)
      ]
