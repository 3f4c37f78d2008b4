-- ===== src/Common/Maps.antt =====
-- Go maps as association lists: the first entry of a key counts, a write replaces it in place or
-- appends, `delete` drops the key. Iteration goes through the list, whose order is arbitrary.
use mathlib.Core.Path.{◌≡◌, refl}
use mathlib.Core.Option.{Option, none, some}
use mathlib.Core.List.{List, [], ◌∷◌}
use native.Mathlib.Omega.{arith}
use falco_operator.Common.Tests.{if◌then◌else◌}
use falco_operator.Common.Equality.{Eq, ◌==◌}

abbrev pub Map {ℓ κ} : Type ℓ → Type κ → Type (ℓ ⊔ κ)
Map K V = List (K × V)

module _ {ℓ κ} {K : Type ℓ} {V : Type κ} ⦃e : Eq K⦄ where
  unfoldable pub lookup : K → Map K V → Option V
  lookup k [] = none
  lookup k ((i, v) ∷ rest) = if i == k then some v else lookup k rest

  unfoldable pub insert : K → V → Map K V → Map K V
  insert k v [] = (k, v) ∷ []
  insert k v ((i, old) ∷ rest) = if i == k then (k, v) ∷ rest else (i, old) ∷ insert k v rest

  unfoldable pub delete : K → Map K V → Map K V
  delete k [] = []
  delete k ((j, w) ∷ m) = let rest = delete k m in if j == k then rest else (j, w) ∷ rest

  pub lookup-insert :
      (written k : K) (v : V) (m : Map K V)
      → lookup k (insert written v m) ≡ (if written == k then some v else lookup k m)
  unfolding lookup insert
  lookup-insert written k v [] = refl
  lookup-insert written k v ((i, old) ∷ rest) = ground (
    arith,
    e.beq_iff i written,
    e.beq_iff written k,
    e.beq_iff i k,
    lookup-insert written k v rest,
  )

  pub lookup-delete :
      (k j : K) (m : Map K V) → lookup j (delete k m) ≡ (if k == j then none else lookup j m)
  unfolding lookup delete
  lookup-delete k j [] = ground arith
  lookup-delete k j ((i, w) ∷ m) =
      ground (arith, e.beq_iff k j, e.beq_iff i k, e.beq_iff i j, lookup-delete k j m)

  -- A Go map holds a key once.
  abbrev pub Distinct : Map K V → Type κ
  Distinct [] = Unit
  Distinct ((k, v) ∷ m) = (lookup k m ≡ none) × Distinct m

  pub insert-Distinct : (k : K) (v : V) (m : Map K V) → Distinct m → Distinct (insert k v m)
  unfolding lookup insert
  insert-Distinct k v [] h = (refl, tt)
  insert-Distinct k v ((i, w) ∷ m) h =
      ground (arith, e.beq_iff i k, e.beq_iff k i, insert-Distinct k v m h.1, lookup-insert k i v m)

  pub delete-Distinct : (k : K) (m : Map K V) → Distinct m → Distinct (delete k m)
  unfolding lookup delete
  delete-Distinct k [] h = tt
  delete-Distinct k ((i, w) ∷ m) h =
      ground (arith, e.beq_iff i k, delete-Distinct k m h.1, lookup-delete k i m)

  -- A write of the value that the key has changes nothing that a read sees.
  pub lookup-insert_same :
      (k j : K) (v : V) (m : Map K V) → lookup k m ≡ some v → lookup j (insert k v m) ≡ lookup j m
  lookup-insert_same k j v m h = ground (arith, lookup-insert k j v m, e.beq_iff k j)

  -- The entries in iteration order, each rewritten or dropped.
  unfoldable pub rewrite_entries : (K → V → Option V) → Map K V → Map K V
  rewrite_entries f [] = []
  rewrite_entries f ((k, v) ∷ m) =
      let rest = rewrite_entries f m in elim (f k v) [ none ↦ rest | some w ↦ (k, w) ∷ rest ]

  abbrev pub apply_entry : (K → V → Option V) → K → Option V → Option V
  apply_entry f k none = none
  apply_entry f k (some v) = f k v

  pub lookup-rewrite_entries :
      (f : K → V → Option V) (k : K) (m : Map K V)
      → Distinct m
      → lookup k (rewrite_entries f m) ≡ apply_entry f k (lookup k m)
  unfolding lookup rewrite_entries
  lookup-rewrite_entries f k [] h = refl
  lookup-rewrite_entries f k ((i, w) ∷ m) h =
      ground (arith, e.beq_iff i k, lookup-rewrite_entries f k m h.1)

  pub rewrite_entries-Distinct :
      (f : K → V → Option V) (m : Map K V) → Distinct m → Distinct (rewrite_entries f m)
  unfolding rewrite_entries
  rewrite_entries-Distinct f [] h = tt
  rewrite_entries-Distinct f ((i, w) ∷ m) h =
      ground (arith, rewrite_entries-Distinct f m h.1, lookup-rewrite_entries f i m h.1)
