-- ===== src/ArtifactCache/Tests.antt =====
-- The cache's theorems at a concrete cache, on a disk that is an association list.
use falco_operator.Common.{
  ◌+◌, ◌<◌, String, Bool, false, ◌&&◌, List, [], ◌∷◌, Option, none, some, Result, ok, err, Map,
  lookup, insert, delete, lookup-insert, lookup-delete, Distinct, ◌==◌, string_eq, if◌then◌else◌,
  ◌≡◌, ◌≢◌, refl, ap, eq_iff, arith,
}
use Prim.Native.String.{count}
use text.Mathlib.TextLemmas.{length-append}
use falco_operator.ArtifactCache.Disk.{
  BlobDisk, CacheError, IndexKey, SnapshotEntry, key_eq, key_beq_iff, index_path, index_tmp_path,
  perm_suffix,
}
use falco_operator.ArtifactCache.{Cache, set, remove_all, persist_index_locked}
use falco_operator.ArtifactCache.Counts.{count_entries}
use falco_operator.ArtifactCache.Steps.{IsConsistent, set-IsConsistent}
use falco_operator.ArtifactCache.Steps.Files.{IsBlob, set-keeps_files, remove_all-keeps_files}
use falco_operator.ArtifactCache.Snapshot.{load, load-restores}
use falco_operator.ArtifactCache.Sweep.{
  sweep_finish, sweep_finish-keeps_files, sweep_finish-keeps_pending,
}

abbrev Files : Type 0
Files = Map String String

abbrev read_of : Option String → Result CacheError String
read_of none = err CacheError.not_exist
read_of (some c) = ok c

abbrev rename_of : Files → String → Option String → Result CacheError (Unit {0}) × Files
rename_of d q none = (err CacheError.not_exist, d)
rename_of d q (some c) = (ok tt, insert q c d)

abbrev remove_of : Files → String → Option String → Result CacheError (Unit {0}) × Files
remove_of d p none = (err CacheError.not_exist, d)
remove_of d p (some c) = (ok tt, delete p d)

abbrev key_a : IndexKey
key_a = record { artifact_type = "plugin"; namespace = "ns"; name = "a"; platform_key = "" }

abbrev entry_a : SnapshotEntry
entry_a = record { key = key_a; blob_path = "n" }

abbrev entry_beq : SnapshotEntry → SnapshotEntry → Bool
entry_beq a b = a.key == b.key && a.blob_path == b.blob_path

abbrev marshal_of : List SnapshotEntry → Option String
marshal_of [] = some "[]"
marshal_of (e ∷ []) = if entry_beq e entry_a then some "[a]" else none
marshal_of (e ∷ f ∷ rest) = none

abbrev unmarshal_of : String → Option (List SnapshotEntry)
unmarshal_of text =
    if text == "[]" then some [] else if text == "[a]" then some (entry_a ∷ []) else none

pub unmarshal-marshal_of :
    (entries : List SnapshotEntry) (text : String)
    → marshal_of entries ≡ some text
    → unmarshal_of text ≡ some entries
unmarshal-marshal_of [] text h = ground (arith, h, eq_iff text "[]")
unmarshal-marshal_of (e ∷ []) text h = ground (
  arith,
  h,
  key_beq_iff e.key key_a,
  eq_iff e.blob_path "n",
  eq_iff text "[]",
  eq_iff text "[a]",
  eq_iff "[a]" "[]",
)
unmarshal-marshal_of (e ∷ f ∷ rest) text h = ground (arith, h)

pub rename_of-other :
    (d : Files) (p q r : String) (o : Option String)
    → q ≢ r
    → lookup r (rename_of d q o).1 ≡ lookup r d
rename_of-other d p q r none n = refl
rename_of-other d p q r (some c) n = ground (arith, lookup-insert q r c d, eq_iff q r)

pub rename_of-moves :
    (d : Files) (q : String) (o : Option String)
    → (rename_of d q o).0 ≡ ok tt
    → lookup q (rename_of d q o).1 ≡ o
rename_of-moves d q none h = ground (arith, h)
rename_of-moves d q (some c) h = ground (arith, lookup-insert q q c d, eq_iff q q)

pub remove_of-other :
    (d : Files) (p q : String) (o : Option String)
    → p ≢ q
    → lookup q (remove_of d p o).1 ≡ lookup q d
remove_of-other d p q none n = refl
remove_of-other d p q (some c) n = ground (arith, lookup-delete p q d, eq_iff p q)

pub rename_of-fails :
    (d : Files) (p q r : String) (o : Option String)
    → (rename_of d q o).0 ≢ ok tt
    → read_of (lookup r (rename_of d q o).1) ≡ read_of (lookup r d)
rename_of-fails d p q r none n = refl
rename_of-fails d p q r (some c) n = absurd (n refl)

abbrev pub disk : BlobDisk
disk = record {
  Disk = Files;
  read = λ d p. read_of (lookup p d);
  mod_time = λ d p. none;
  write_file = λ d p c. (ok tt, insert p c d);
  rename = λ d p q. rename_of d q (lookup p d);
  remove = λ d p. remove_of d p (lookup p d);
  remove_dir = λ d p. d;
  make_dir = λ d p. (ok tt, d);
  walk = λ d. ok [];
  has_suffix = λ s t. false;
  dir = λ p. "blobs";
  rel = λ p. if p == "new" then some "n" else none;
  is_abs = λ p. p == "new";
  join = λ p. if p == "n" then "new" else p;
  is_clean = λ p. p == "new";
  marshal = marshal_of;
  unmarshal = unmarshal_of;
  write-reads = λ d p c h. ground (arith, lookup-insert p p c d, eq_iff p p);
  write-other = λ d p q c n. ground (arith, lookup-insert p q c d, eq_iff p q);
  rename-moves = λ d p q h. ground (arith, rename_of-moves d q (lookup p d));
  rename-fails = λ d p q r n. rename_of-fails d p q r (lookup p d) n;
  rename-other = λ d p q r n k. ground (arith, rename_of-other d p q r (lookup p d) k);
  remove-other = λ d p q n. ground (arith, remove_of-other d p q (lookup p d) n);
  remove_dir-other = λ d p q. refl;
  make_dir-other = λ d p q. refl;
  unmarshal-marshal = unmarshal-marshal_of;
  rel-join = λ p r c e.
      ground (
        arith,
        c,
        e,
        eq_iff p "new",
        eq_iff r "n",
        eq_iff "n" "n",
        eq_iff r "new",
        eq_iff "n" "new",
      );
  clean-is_abs = λ p c. c;
}

new-IsBlob : IsBlob "new"
new-IsBlob = record {
  not_companion = λ p e. ground (arith, ap count e, length-append p perm_suffix);
  not_index = λ e. ground (arith, e, eq_iff index_path "new");
  not_tmp = λ e. ground (arith, e, eq_iff index_tmp_path "new");
}

-- `key_a` has moved from the blob "old" to "new".
abbrev before : Cache
before = record {
  index = (key_a, "old") ∷ [];
  refs = ("old", 1) ∷ [];
  deref_times = [];
  eviction_grace_period = 0;
}

abbrev files : Files
files = ("old", "x") ∷ ("new", "y") ∷ []

before-IsConsistent : IsConsistent before
unfolding lookup count_entries
before-IsConsistent = record { counts = λ p. ground arith; unpending = λ p h. refl }

set-IsConsistent_example : IsConsistent (set disk 5 key_a "new" before files).1
set-IsConsistent_example = set-IsConsistent disk 5 key_a "new" before files before-IsConsistent

new_indexed : 0 < count_entries "new" (set disk 5 key_a "new" before files).1.index
unfolding set count_entries lookup insert
new_indexed = ground arith

set-keeps_files_example :
    disk.read (set disk 5 key_a "new" before files).2 "new" ≡ disk.read files "new"
set-keeps_files_example =
    set-keeps_files disk 5 key_a "new" "new" before files before-IsConsistent new-IsBlob new_indexed

abbrev key_b : IndexKey
key_b = record { artifact_type = "plugin"; namespace = "ns"; name = "b"; platform_key = "" }

-- `key_b` goes, and with it the one reference of "old"; `key_a` stays.
abbrev two : Cache
two = record {
  index = (key_b, "old") ∷ (key_a, "new") ∷ [];
  refs = ("old", 1) ∷ ("new", 1) ∷ [];
  deref_times = [];
  eviction_grace_period = 0;
}

two-IsConsistent : IsConsistent two
unfolding lookup count_entries
two-IsConsistent = record {
  counts = λ p. ground (arith, eq_iff "old" p, eq_iff "new" p, eq_iff "old" "new");
  unpending = λ p h. refl;
}

kept_indexed : 0 < count_entries "new" (remove_all disk 5 "plugin" "ns" "b" two files).1.index
unfolding remove_all count_entries
kept_indexed = ground arith

remove_all-keeps_files_example :
    disk.read (remove_all disk 5 "plugin" "ns" "b" two files).2 "new" ≡ disk.read files "new"
remove_all-keeps_files_example =
    remove_all-keeps_files disk 5 "plugin" "ns" "b" "new" two files two-IsConsistent new-IsBlob
      kept_indexed

-- "new" is referenced, "old" waits for its eviction since 3.
abbrev waiting : Cache
waiting = record {
  index = (key_a, "new") ∷ [];
  refs = ("new", 1) ∷ [];
  deref_times = ("old", 3) ∷ [];
  eviction_grace_period = 10;
}

waiting-IsConsistent : IsConsistent waiting
unfolding lookup count_entries
waiting-IsConsistent = record {
  counts = λ p. ground arith;
  unpending = λ p h. ground (arith, h, eq_iff "old" p, eq_iff "new" p, eq_iff "old" "new");
}

waiting_indexed : 0 < count_entries "new" waiting.index
unfolding count_entries
waiting_indexed = ground arith

waiting-Distinct : Distinct waiting.deref_times
unfolding lookup
waiting-Distinct = (refl, tt)

-- The sweep at 20 evicts "old", and the candidate "new" is indexed by then.
sweep_finish-keeps_files_example :
    disk.read (sweep_finish disk 20 ("new" ∷ []) waiting files).2 "new" ≡ disk.read files "new"
sweep_finish-keeps_files_example =
    sweep_finish-keeps_files disk 20 ("new" ∷ []) waiting files "new" waiting-Distinct
      waiting-IsConsistent new-IsBlob waiting_indexed

old-IsBlob : IsBlob "old"
old-IsBlob = record {
  not_companion = λ p e. ground (arith, ap count e, length-append p perm_suffix);
  not_index = λ e. ground (arith, e, eq_iff index_path "old");
  not_tmp = λ e. ground (arith, e, eq_iff index_tmp_path "old");
}

old_waits : lookup "old" waiting.deref_times ≡ some 3
unfolding lookup
old_waits = refl

in_grace : 8 < 3 + waiting.eviction_grace_period
in_grace = ground arith

sweep_finish-keeps_pending_example :
    (disk.read (sweep_finish disk 8 ("old" ∷ []) waiting files).2 "old" ≡ disk.read files "old")
    × (lookup "old" (sweep_finish disk 8 ("old" ∷ []) waiting files).1.deref_times ≡ some 3)
sweep_finish-keeps_pending_example =
    sweep_finish-keeps_pending disk 8 3 ("old" ∷ []) waiting files "old" waiting-Distinct old-IsBlob
      old_waits in_grace

index_clean : Distinct waiting.index
unfolding lookup
index_clean = (refl, tt)

persisted : (persist_index_locked disk files waiting.index).0 ≡ ok tt
unfolding persist_index_locked lookup insert
persisted = refl

load-restores_example :
    ((load disk before (persist_index_locked disk files waiting.index).1).0 ≡ ok tt)
    × ((j : IndexKey)
        → lookup j (load disk before (persist_index_locked disk files waiting.index).1).1.index
          ≡ lookup j waiting.index)
    × IsConsistent (load disk before (persist_index_locked disk files waiting.index).1).1
load-restores_example =
    load-restores disk waiting.index before files (refl, tt) index_clean persisted refl
