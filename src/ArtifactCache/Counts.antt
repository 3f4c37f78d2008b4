-- ===== src/ArtifactCache/Counts.antt =====
-- How many entries of the index point at a blob.
use falco_operator.Common.{
  ℕ, zero, suc, ◌+◌, String, Bool, true, false, List, [], ◌∷◌, Option, none, some, Map, lookup,
  insert, lookup-insert, lookup-delete, ◌==◌, string_eq, if◌then◌else◌, ◌≡◌, refl, arith,
}
use falco_operator.ArtifactCache.Disk.{IndexKey, key_eq}
use falco_operator.ArtifactCache.{count_of, write_refs, entries_without, blobs_of}

abbrev pub one_if : Bool → ℕ
one_if true = 1
one_if false = 0

abbrev pub one_if_some : Option String → String → ℕ
one_if_some none path = 0
one_if_some (some old) path = one_if (old == path)

unfoldable pub count_entries : String → Map IndexKey String → ℕ
count_entries path [] = 0
count_entries path ((key, p) ∷ rest) = one_if (p == path) + count_entries path rest

unfoldable pub count_in : String → List String → ℕ
count_in path [] = 0
count_in path (p ∷ rest) = one_if (p == path) + count_in path rest

-- What the reference counts hold for a blob with `n` entries.
abbrev pub counted : ℕ → Option ℕ
counted zero = none
counted (suc n) = some (suc n)

pub count_entries-insert :
    (path : String) (key : IndexKey) (new : String) (index : Map IndexKey String)
    → count_entries path (insert key new index) + one_if_some (lookup key index) path
      ≡ count_entries path index + one_if (new == path)
unfolding count_entries insert lookup
count_entries-insert path key new [] = ground arith
count_entries-insert path key new ((k, p) ∷ rest) =
    ground (arith, count_entries-insert path key new rest)

pub count_entries-without :
    (path : String) (f : IndexKey → Bool) (index : Map IndexKey String)
    → count_entries path (entries_without f index) + count_in path (blobs_of f index)
      ≡ count_entries path index
unfolding count_entries count_in entries_without blobs_of
count_entries-without path f [] = refl
count_entries-without path f ((k, p) ∷ rest) = ground (arith, count_entries-without path f rest)

pub lookup-write_refs :
    (path : String) (n : ℕ) (refs : Map String ℕ) (q : String)
    → lookup q (write_refs path n refs) ≡ (if path == q then counted n else lookup q refs)
unfolding write_refs
lookup-write_refs path zero refs q = lookup-delete path q refs
lookup-write_refs path (suc n) refs q = lookup-insert path q (suc n) refs

pub count_of-counted : (n : ℕ) → count_of (counted n) ≡ n
count_of-counted zero = refl
count_of-counted (suc n) = refl
