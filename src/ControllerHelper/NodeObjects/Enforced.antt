-- ===== src/ControllerHelper/NodeObjects/Enforced.antt =====
-- What `EnforceNodeObjectMeta` of internal/pkg/controllerhelper/nodeobject.go guarantees.
use falco_operator.Common.{
  String, true, false, List, [], ◌∷◌, ◌++◌, Option, none, some, ◌≡◌, refl, arith, Map, lookup,
  insert, lookup-insert, Distinct, ◌==◌, string_eq, eq_iff, All, Bool-cases, inl, inr, beq_refl,
}
use falco_operator.ControllerHelper.NodeObjects.{
  Owner, NodeMeta, same_owner, has_labels, has_owner, copy_labels, other_kinds,
  enforce_node_object_meta,
}

abbrev or_else : Option String → Option String → Option String
or_else none w = w
or_else (some v) w = some v

-- A label of the copied map wins over the one that was there.
lookup-copy_labels :
    (k : String) (merged labels : Map String String)
    → Distinct labels
    → lookup k (copy_labels merged labels) ≡ or_else (lookup k labels) (lookup k merged)
unfolding copy_labels lookup
lookup-copy_labels k merged [] d = refl
lookup-copy_labels k merged ((j, v) ∷ rest) d = ground (
  arith,
  eq_iff j k,
  lookup-copy_labels k (insert j v merged) rest d.1,
  lookup-insert j k v merged,
)

abbrev Covers : Map String String → Map String String → Type 0
Covers labels desired = (k v : String) → lookup k desired ≡ some v → lookup k labels ≡ some v

Covers-tail :
    (labels rest : Map String String) (j v : String)
    → Distinct ((j, v) ∷ rest)
    → Covers labels ((j, v) ∷ rest)
    → Covers labels rest
unfolding lookup
Covers-tail labels rest j v d c k w h = ground (arith, c k w, eq_iff j k)

has_labels-all :
    (labels desired : Map String String)
    → Distinct desired
    → Covers labels desired
    → has_labels labels desired ≡ true
unfolding has_labels lookup
has_labels-all labels [] d c = refl
has_labels-all labels ((j, v) ∷ rest) d c = ground (
  arith,
  c j v,
  beq_refl j,
  beq_refl v,
  has_labels-all labels rest d.1 (Covers-tail labels rest j v d c),
)

copy_labels-Covers :
    (merged labels : Map String String)
    → Distinct labels
    → Covers (copy_labels merged labels) labels
copy_labels-Covers merged labels d k v h = ground (arith, lookup-copy_labels k merged labels d)

has_owner-append : (owner : Owner) (refs : List Owner) → has_owner owner (refs ++ owner ∷ []) ≡ true
unfolding has_owner
has_owner-append owner [] =
    ground (arith, beq_refl owner.kind, beq_refl owner.name, beq_refl owner.uid)
has_owner-append owner (ref ∷ rest) = ground (arith, has_owner-append owner rest)

-- No other reference of the owner's kind is left.
abbrev pub OnlyOwner : Owner → List Owner → Type 0
OnlyOwner owner refs =
    All (λ (ref : Owner). (ref.kind == owner.kind) ≡ true → same_owner ref owner ≡ true) refs

other_kinds-OnlyOwner :
    (owner : Owner) (refs : List Owner)
    → OnlyOwner owner (other_kinds owner.kind refs ++ owner ∷ [])
unfolding other_kinds
other_kinds-OnlyOwner owner [] = (λ h. ground (arith, beq_refl owner.name, beq_refl owner.uid), tt)
other_kinds-OnlyOwner owner (ref ∷ rest) = elim (Bool-cases (ref.kind == owner.kind)) [
  | inl e ↦ rw e (other_kinds-OnlyOwner owner rest)
  | inr e ↦ rw e (λ h. ground arith, other_kinds-OnlyOwner owner rest)
]

-- A patch that is made is enough: the object needs no second one. Labels that are not among the
-- desired ones keep their values, and where the owner was missing, a stale owner of the same kind
-- is gone.
pub enforce_node_object_meta-settles :
    (desired : Map String String) (owner : Owner) (node patched : NodeMeta)
    → Distinct desired
    → enforce_node_object_meta desired owner node ≡ some patched
    → (enforce_node_object_meta desired owner patched ≡ none)
      × ((k : String) → lookup k desired ≡ none → lookup k patched.labels ≡ lookup k node.labels)
      × (has_owner owner node.owners ≡ false → OnlyOwner owner patched.owners)
unfolding enforce_node_object_meta
enforce_node_object_meta-settles desired owner node patched d h =
    let labels = copy_labels node.labels desired in
    let kept = other_kinds owner.kind node.owners in
    let covered = has_labels-all labels desired d (copy_labels-Covers node.labels desired d) in
    (
      ground (arith, covered, has_owner-append owner kept),
      λ k q. ground (arith, lookup-copy_labels k node.labels desired d),
      λ q.
          let e : patched.owners ≡ (kept ++ owner ∷ []) = ground arith in
          rw e (other_kinds-OnlyOwner owner node.owners),
    )
