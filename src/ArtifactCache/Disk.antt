-- ===== src/ArtifactCache/Disk.antt =====
-- The operating system's files and `encoding/json`, as internal/pkg/artifactcache uses them: a
-- parameter of the cache, with what it relies on.
use falco_operator.Common.{
  ℕ, String, Bool, true, false, ◌&&◌, List, Option, some, Result, ok, Eq, ◌==◌, string_eq, ◌≡◌, ◌≢◌,
  ◌↔◌, eq_iff, arith,
}

pub record IndexKey : Type 0 where
  pub artifact_type : String
  pub namespace : String
  pub name : String
  pub platform_key : String

abbrev key_beq : IndexKey → IndexKey → Bool
key_beq a b =
    a.artifact_type == b.artifact_type
    && (a.namespace == b.namespace && (a.name == b.name && a.platform_key == b.platform_key))

pub key_beq_iff : (a b : IndexKey) → (key_beq a b ≡ true) ↔ (a ≡ b)
key_beq_iff a b = ground (
  arith,
  eq_iff a.artifact_type b.artifact_type,
  eq_iff a.namespace b.namespace,
  eq_iff a.name b.name,
  eq_iff a.platform_key b.platform_key,
)

instance abbrev pub key_eq : Eq IndexKey
key_eq = record { beq = key_beq; beq_iff = key_beq_iff }

-- `snapshotEntry`: the key's fields and the path relative to the cache directory.
pub record SnapshotEntry : Type 0 where
  pub key : IndexKey
  pub blob_path : String

pub data CacheError : Type 0 where
  not_exist : CacheError
  io_error : String → CacheError

-- The snapshot file, under the cache directory.
abbrev pub index_path : String
index_path = "index.json"

abbrev pub index_tmp_path : String
index_tmp_path = "index.json.tmp"

abbrev pub perm_suffix : String
perm_suffix = ".perm"

-- A cache directory on a disk. `walk` lists the regular files below its blobs directory. `rel` is `filepath.Rel` from it and `join` the path below it;
-- `is_clean` holds of the absolute paths that `BlobPath` makes.
pub record BlobDisk : Type 1 where
  pub Disk : Type 0
  pub read : Disk → String → Result CacheError String
  pub mod_time : Disk → String → Option ℕ
  pub write_file : Disk → String → String → Result CacheError (Unit {0}) × Disk
  pub rename : Disk → String → String → Result CacheError (Unit {0}) × Disk
  pub remove : Disk → String → Result CacheError (Unit {0}) × Disk
  pub remove_dir : Disk → String → Disk
  pub make_dir : Disk → String → Result CacheError (Unit {0}) × Disk
  pub walk : Disk → Result CacheError (List String)
  pub has_suffix : String → String → Bool
  pub dir : String → String
  pub rel : String → Option String
  pub is_abs : String → Bool
  pub join : String → String
  pub is_clean : String → Bool
  pub marshal : List SnapshotEntry → Option String
  pub unmarshal : String → Option (List SnapshotEntry)
  pub write-reads :
      (d : Disk) (p c : String) → (write_file d p c).0 ≡ ok tt → read (write_file d p c).1 p ≡ ok c
  pub write-other : (d : Disk) (p q c : String) → p ≢ q → read (write_file d p c).1 q ≡ read d q
  pub rename-moves :
      (d : Disk) (p q : String) → (rename d p q).0 ≡ ok tt → read (rename d p q).1 q ≡ read d p
  pub rename-fails :
      (d : Disk) (p q r : String) → (rename d p q).0 ≢ ok tt → read (rename d p q).1 r ≡ read d r
  pub rename-other :
      (d : Disk) (p q r : String) → p ≢ r → q ≢ r → read (rename d p q).1 r ≡ read d r
  pub remove-other : (d : Disk) (p q : String) → p ≢ q → read (remove d p).1 q ≡ read d q
  -- `os.Remove` of a directory fails unless it is empty, so no file goes with it.
  pub remove_dir-other : (d : Disk) (p q : String) → read (remove_dir d p) q ≡ read d q
  pub make_dir-other : (d : Disk) (p q : String) → read (make_dir d p).1 q ≡ read d q
  pub unmarshal-marshal :
      (entries : List SnapshotEntry) (text : String)
      → marshal entries ≡ some text
      → unmarshal text ≡ some entries
  pub rel-join :
      (p r : String) → is_clean p ≡ true → rel p ≡ some r → (is_abs r ≡ false) × (join r ≡ p)
  pub clean-is_abs : (p : String) → is_clean p ≡ true → is_abs p ≡ true
