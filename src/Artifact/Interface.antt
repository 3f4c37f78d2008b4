-- ===== src/Artifact/Interface.antt =====
-- `ArtifactStore` and `ArtifactFetcher` of internal/pkg/artifact: what the node manager uses of
-- them. `local_store` shows that `LocalStore` meets the laws of the store.
use falco_operator.Common.{
  ℕ, String, Bool, true, Option, none, some, List, Result, ok, err, All, ◌≡◌, string_eq, eq_iff,
  arith, Result-cases, inl, inr,
}
use falco_operator.Artifact.{
  File, FetchResult, StoreAction, ArtifactType, Medium, ArtifactDirs, Bytes, InstalledArtifact,
  artifact_path,
}
use falco_operator.Artifact.FileSystem.{FileSystem, FsError, not_exist}
use falco_operator.Artifact.Store.{store, verify, remove_all}
use falco_operator.Artifact.Store.Removed.{remove_all-removes}
use falco_operator.Artifact.Store.Writes.{store-reads, store-fresh, store-fails}

pub record ArtifactStore : Type 1 where
  pub Disk : Type 0
  pub read : Disk → String → Result FsError Bytes
  pub sha : Bytes → String
  pub target : String → ℕ → ArtifactType → Medium → String
  pub verify : Disk → Option File → Result FsError Bool
  pub store :
      Disk
      → Option File
      → String
      → ℕ
      → ArtifactType
      → Medium
      → FetchResult
      → Result FsError (StoreAction × Option File) × Disk
  pub remove : Disk → List InstalledArtifact → Result FsError (Unit {0}) × Disk
  -- A removal that goes through leaves no file of the artifacts.
  pub remove-removes :
      (d : Disk) (artifacts : List InstalledArtifact)
      → (remove d artifacts).0 ≡ ok tt
      → All
          (λ (a : InstalledArtifact). read (remove d artifacts).1 a.path ≡ err not_exist)
          artifacts
  pub store-stores :
      (d : Disk) (c : Option File) (n : String) (p : ℕ) (t : ArtifactType) (m : Medium)
      (r : FetchResult) (a : StoreAction) (f : File)
      → (store d c n p t m r).0 ≡ ok (a, some f)
      → read (store d c n p t m r).1 (target n p t m) ≡ ok r.content
  -- With no file tracked the content is always written.
  pub store-fresh :
      (d : Disk) (n : String) (p : ℕ) (t : ArtifactType) (m : Medium) (r : FetchResult)
      (result : StoreAction × Option File)
      → (store d none n p t m r).0 ≡ ok result
      → read (store d none n p t m r).1 (target n p t m) ≡ ok r.content
  pub store-fails_clean :
      (d : Disk) (c : Option File) (n : String) (p : ℕ) (t : ArtifactType) (m : Medium)
      (r : FetchResult) (e : FsError)
      → (store d c n p t m r).0 ≡ err e
      → read (store d c n p t m r).1 (target n p t m) ≡ read d (target n p t m)
  pub verify-sound :
      (d : Disk) (f : File)
      → verify d (some f) ≡ ok true
      → (content : Bytes) × (read d f.path ≡ ok content) × (sha content ≡ f.content_hash)

pub verify-reads :
    (fs : FileSystem) (sha : Bytes → String) (d : fs.Disk) (f : File)
    → verify fs sha d (some f) ≡ ok true
    → (content : Bytes) × (fs.read_file d f.path ≡ ok content) × (sha content ≡ f.content_hash)
unfolding verify
verify-reads fs sha d f h = elim (Result-cases (fs.read_file d f.path)) [
  | inl (content, e) ↦ (content, e, ground (arith, eq_iff (sha content) f.content_hash))
  | inr (x, e) ↦ ground arith
]

-- `LocalStore` as an `ArtifactStore`.
abbrev pub local_store :
    FileSystem → (String → String → String) → ArtifactDirs → (Bytes → String) → ArtifactStore
local_store fs join dirs sha = record {
  Disk = fs.Disk;
  read = fs.read_file;
  sha = sha;
  target = λ n p t m. artifact_path join dirs n p m t;
  verify = verify fs sha;
  store = store fs join dirs;
  remove = remove_all fs;
  remove-removes = remove_all-removes fs;
  store-stores = λ d c n p t m r a f h. (store-reads fs join dirs d c n p t m r h).0;
  store-fresh = λ d n p t m r result h. store-fresh fs join dirs d n p t m r result h;
  store-fails_clean = λ d c n p t m r e h. store-fails fs join dirs d c n p t m r h;
  verify-sound = verify-reads fs sha;
}
