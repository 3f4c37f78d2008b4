-- ===== src/Artifact/FileSystem.antt =====
-- internal/pkg/filesystem: the operating system's files, a parameter of the store. An operation
-- may fail; the laws say what a write, a rename and a remove leave to be read.
use falco_operator.Common.{ℕ, String, Bool, true, ◌≡◌, ◌≢◌, Result, ok, err}
use falco_operator.Artifact.{Bytes}

pub data FsError : Type 0 where
  not_exist : FsError
  io_error : String → FsError

pub record FileSystem : Type 1 where
  pub Disk : Type 0
  pub exists : Disk → String → Result FsError Bool
  pub read_file : Disk → String → Result FsError Bytes
  pub write_file : Disk → String → Bytes → ℕ → Result FsError (Unit {0}) × Disk
  pub rename : Disk → String → String → Result FsError (Unit {0}) × Disk
  pub remove : Disk → String → Result FsError (Unit {0}) × Disk
  -- What was written is read back, and a write touches its own file only.
  pub write-reads :
      (d : Disk) (p : String) (c : Bytes) (m : ℕ)
      → (write_file d p c m).0 ≡ ok tt
      → read_file (write_file d p c m).1 p ≡ ok c
  pub write-other :
      (d : Disk) (p q : String) (c : Bytes) (m : ℕ)
      → p ≢ q
      → read_file (write_file d p c m).1 q ≡ read_file d q
  -- A rename moves the file, whole; one that fails moves nothing.
  pub rename-moves :
      (d : Disk) (p q : String)
      → (rename d p q).0 ≡ ok tt
      → read_file (rename d p q).1 q ≡ read_file d p
  pub rename-fails :
      (d : Disk) (p q r : String)
      → (rename d p q).0 ≢ ok tt
      → read_file (rename d p q).1 r ≡ read_file d r
  pub rename-other :
      (d : Disk) (p q r : String) → p ≢ r → q ≢ r → read_file (rename d p q).1 r ≡ read_file d r
  pub remove-removes :
      (d : Disk) (p : String) → (remove d p).0 ≡ ok tt → read_file (remove d p).1 p ≡ err not_exist
  -- A remove that finds no file leaves none.
  pub remove-missing :
      (d : Disk) (p : String)
      → (remove d p).0 ≡ err not_exist
      → read_file (remove d p).1 p ≡ err not_exist
  pub remove-other : (d : Disk) (p q : String) → p ≢ q → read_file (remove d p).1 q ≡ read_file d q
  pub exists-reads :
      (d : Disk) (p : String) (c : Bytes) → read_file d p ≡ ok c → exists d p ≡ ok true
