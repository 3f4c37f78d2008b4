-- ===== src/Artifact/Tests.antt =====
-- The store's theorems on a disk that is an association list.
use falco_operator.Common.{
  String, Bool, true, [], ◌∷◌, Option, none, some, Result, ok, err, Map, lookup, insert, delete,
  lookup-insert, lookup-delete, string_eq, is_some, append, ◌≡◌, ◌≢◌, refl, eq_iff, arith,
}
use falco_operator.Artifact.{
  Bytes, File, FetchResult, StoreAction, ArtifactType, ArtifactDirs, medium_inline, artifact_path,
  none_done, added, unchanged,
}
use falco_operator.Artifact
use falco_operator.Artifact.{InstalledArtifact}
use falco_operator.Artifact.FileSystem.{FileSystem, FsError, not_exist}
use falco_operator.Artifact.Store.{
  store, store_tracked, tracked, store_at, write_atomically, written_action,
}
use falco_operator.Artifact.Store.Writes.{store-reads}

abbrev Files : Type 0
Files = Map String Bytes

abbrev read_of : Option Bytes → Result FsError Bytes
read_of none = err not_exist
read_of (some c) = ok c

abbrev rename_of : Files → String → Option Bytes → Result FsError (Unit {0}) × Files
rename_of d q none = (err not_exist, d)
rename_of d q (some c) = (ok tt, insert q c d)

pub write_reads : (d : Files) (p : String) (c : Bytes) → read_of (lookup p (insert p c d)) ≡ ok c
write_reads d p c = ground (arith, lookup-insert p p c d, eq_iff p p)

pub write_other :
    (d : Files) (p q : String) (c : Bytes)
    → p ≢ q
    → read_of (lookup q (insert p c d)) ≡ read_of (lookup q d)
write_other d p q c n = ground (arith, lookup-insert p q c d, eq_iff p q)

pub rename_of-moves :
    (d : Files) (q : String) (o : Option Bytes)
    → (rename_of d q o).0 ≡ ok tt
    → read_of (lookup q (rename_of d q o).1) ≡ read_of o
rename_of-moves d q none h = ground (arith, h)
rename_of-moves d q (some c) h = write_reads d q c

pub rename_of-fails :
    (d : Files) (q r : String) (o : Option Bytes)
    → (rename_of d q o).0 ≢ ok tt
    → read_of (lookup r (rename_of d q o).1) ≡ read_of (lookup r d)
rename_of-fails d q r none n = refl
rename_of-fails d q r (some c) n = absurd (n refl)

pub rename_of-other :
    (d : Files) (q r : String) (o : Option Bytes)
    → q ≢ r
    → read_of (lookup r (rename_of d q o).1) ≡ read_of (lookup r d)
rename_of-other d q r none n = refl
rename_of-other d q r (some c) n = write_other d q r c n

pub remove_removes : (d : Files) (p : String) → read_of (lookup p (delete p d)) ≡ err not_exist
remove_removes d p = ground (arith, lookup-delete p p d, eq_iff p p)

pub remove_other :
    (d : Files) (p q : String) → p ≢ q → read_of (lookup q (delete p d)) ≡ read_of (lookup q d)
remove_other d p q n = ground (arith, lookup-delete p q d, eq_iff p q)

abbrev exists_of : Option Bytes → Result FsError Bool
exists_of o = ok (is_some o)

pub exists_reads : (o : Option Bytes) (c : Bytes) → read_of o ≡ ok c → exists_of o ≡ ok true
exists_reads none c h = ground (arith, h)
exists_reads (some b) c h = refl

abbrev pub files : FileSystem
files = record {
  Disk = Files;
  exists = λ d p. exists_of (lookup p d);
  read_file = λ d p. read_of (lookup p d);
  write_file = λ d p c m. (ok tt, insert p c d);
  rename = λ d p q. rename_of d q (lookup p d);
  remove = λ d p. (ok tt, delete p d);
  write-reads = λ d p c m h. write_reads d p c;
  write-other = λ d p q c m n. write_other d p q c n;
  rename-moves = λ d p q h. rename_of-moves d q (lookup p d) h;
  rename-fails = λ d p q r n. rename_of-fails d q r (lookup p d) n;
  rename-other = λ d p q r n k. rename_of-other d q r (lookup p d) k;
  remove-removes = λ d p h. remove_removes d p;
  remove-missing = λ d p h. remove_removes d p;
  remove-other = remove_other;
  exists-reads = λ d p c h. exists_reads (lookup p d) c h;
}

abbrev pub join : String → String → String
join a b = append a (append "/" b)

abbrev pub dirs : ArtifactDirs
dirs = record { plugin = "plugins"; rulesfile = "rules"; config = "config" }

abbrev pub sha : Bytes → String
sha content = "hash"

abbrev content : FetchResult
content = record { content = 7 ∷ []; content_hash = "hash"; perm = 384 }

abbrev path : String
path = artifact_path join dirs "rules" 50 medium_inline Artifact.ArtifactType.config

abbrev stored_file : File
stored_file = record {
  path = path;
  medium = medium_inline;
  priority = 50;
  content_hash = "hash";
  spec_hash = "";
}

stored :
    (store files join dirs [] none "rules" 50 Artifact.ArtifactType.config medium_inline content).0
    ≡ ok (added, some stored_file)
unfolding store lookup insert tracked store_tracked store_at write_atomically written_action
    artifact_path
stored = refl

store-reads_example :
    (files.read_file
        (store files join dirs [] none "rules" 50 Artifact.ArtifactType.config medium_inline
          content).1
        path
      ≡ ok (7 ∷ []))
    × (path ≡ path)
    × (stored_file.content_hash ≡ "hash")
store-reads_example =
    store-reads files join dirs [] none "rules" 50 Artifact.ArtifactType.config medium_inline
      content stored
