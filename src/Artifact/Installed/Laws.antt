-- ===== src/Artifact/Installed/Laws.antt =====
-- Reads after writes of the installed list, and its one entry to a medium.
use mathlib.Core.Option
use falco_operator.Common.{
  String, none, some, List, [], ◌∷◌, ◌≡◌, ◌≢◌, refl, arith, ◌==◌, string_eq, eq_iff, All,
  if◌then◌else◌, Bool-cases, inl, inr,
}
use falco_operator.Artifact.{InstalledArtifact, File, Medium}
use falco_operator.Artifact.Installed.{
  find_installed, set_installed, clear_installed, remove_by_swap, last_of, but_last,
  update_installed_spec_hash,
}

-- One entry to a medium.
abbrev pub UniqueMedia : List InstalledArtifact → Type 0
UniqueMedia [] = Unit
UniqueMedia (a ∷ rest) = All (λ b. b.medium ≢ a.medium) rest × UniqueMedia rest

-- What is set is found, and the other media keep their entries.
pub find_installed-set_installed :
    (xs : List InstalledArtifact) (f : File) (m : Medium)
    → find_installed (set_installed xs f) m
      ≡ (if f.medium == m then some f else find_installed xs m)
unfolding find_installed set_installed
find_installed-set_installed [] f m = ground (arith, eq_iff f.medium m)
find_installed-set_installed (a ∷ xs) f m = ground (
  arith,
  eq_iff f.medium m,
  eq_iff a.medium m,
  eq_iff a.medium f.medium,
  find_installed-set_installed xs f m,
)

All-ne_set :
    (xs : List InstalledArtifact) (f : File) (n : String)
    → f.medium ≢ n
    → All (λ b. b.medium ≢ n) xs
    → All (λ b. b.medium ≢ n) (set_installed xs f)
unfolding set_installed
All-ne_set [] f n h k = (h, tt)
All-ne_set (a ∷ xs) f n h k = ground (arith, All-ne_set xs f n h k.1)

-- Setting a file keeps one entry to a medium.
pub set_installed-UniqueMedia :
    (xs : List InstalledArtifact) (f : File) → UniqueMedia xs → UniqueMedia (set_installed xs f)
unfolding set_installed
set_installed-UniqueMedia [] f h = (tt, tt)
set_installed-UniqueMedia (a ∷ xs) f h = elim (Bool-cases (a.medium == f.medium)) [
  | inl e ↦ rw e (rw (← (eq_iff a.medium f.medium).0 e) h.0, h.1)
  | inr e ↦ rw e (
    All-ne_set xs f a.medium (λ q. ground (arith, eq_iff a.medium f.medium)) h.0,
    set_installed-UniqueMedia xs f h.1,
  )
]

find_absent :
    (xs : List InstalledArtifact) (m : Medium)
    → All (λ b. b.medium ≢ m) xs
    → find_installed xs m ≡ none
unfolding find_installed
find_absent [] m h = refl
find_absent (a ∷ xs) m h = ground (arith, eq_iff a.medium m, find_absent xs m h.1)

last_ne :
    (c : InstalledArtifact) (xs : List InstalledArtifact) (n : String)
    → All (λ b. b.medium ≢ n) (c ∷ xs)
    → (last_of c xs).medium ≢ n
unfolding last_of
last_ne c [] n h = h.0
last_ne c (d ∷ xs) n h = last_ne d xs n h.1

find_swap :
    (b : InstalledArtifact) (xs : List InstalledArtifact) (m : Medium)
    → UniqueMedia (b ∷ xs)
    → find_installed (last_of b xs ∷ but_last b xs) m ≡ find_installed (b ∷ xs) m
unfolding find_installed last_of but_last
find_swap b [] m h = refl
find_swap b (c ∷ xs) m h = ground (
  arith,
  find_swap c xs m h.1,
  last_ne c xs b.medium h.0,
  eq_iff b.medium m,
  eq_iff (last_of c xs).medium m,
)

find-remove_by_swap :
    (xs : List InstalledArtifact) (m : Medium)
    → UniqueMedia xs
    → find_installed (remove_by_swap xs) m ≡ find_installed xs m
unfolding remove_by_swap
find-remove_by_swap [] m h = refl
find-remove_by_swap (b ∷ xs) m h = find_swap b xs m h

-- After a clear, in a list with no medium twice, the medium is not installed, and every other
-- medium finds what it found before.
pub find_installed-clear_installed :
    (xs : List InstalledArtifact) (k m : Medium)
    → UniqueMedia xs
    → find_installed (clear_installed xs k) m ≡ (if k == m then none else find_installed xs m)
unfolding find_installed clear_installed
find_installed-clear_installed [] k m h = ground arith
find_installed-clear_installed (a ∷ xs) k m h = ground (
  arith,
  eq_iff a.medium k,
  eq_iff a.medium m,
  eq_iff k m,
  find_absent xs a.medium h.0,
  find-remove_by_swap xs m h.1,
  find_installed-clear_installed xs k m h.1,
)

-- Setting the specification's hash changes that hash of its medium's entry and nothing else.
pub find_installed-update_spec_hash :
    (xs : List InstalledArtifact) (k m : Medium) (hash : String)
    → find_installed (update_installed_spec_hash xs k hash) m ≡ (
        if k == m
        then Option.map (λ (f : File). record f { spec_hash = hash }) (find_installed xs m)
        else find_installed xs m)
unfolding find_installed update_installed_spec_hash
find_installed-update_spec_hash [] k m hash = ground arith
find_installed-update_spec_hash (a ∷ xs) k m hash = ground (
  arith,
  eq_iff a.medium k,
  eq_iff a.medium m,
  eq_iff k m,
  find_installed-update_spec_hash xs k m hash,
)
