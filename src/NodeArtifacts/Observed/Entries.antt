-- ===== src/NodeArtifacts/Observed/Entries.antt =====
-- What an observation makes of each entry of the registry.
use falco_operator.Common.{
  String, [], ◌∷◌, Option, none, some, Map, ◌≡◌, refl, arith, eq_iff, ◌==◌, string_eq, lookup,
  lookup-insert, Distinct, Option-cases, inl, inr, if_both, if◌then◌else◌, lookup-rewrite_entries,
  rewrite_entries-Distinct, insert-Distinct,
}
use falco_operator.NodeArtifacts.{kind_eq, falco, Provided}
use falco_operator.NodeArtifacts.Observed.{
  forget_missing, forget_loop, write_entry, learn_one, learn_loop, learn, observe_provides,
  falco_entry,
}

-- One entry before an observation, what Falco reports for its name, and the entry after it.
abbrev pub reconciled : String → Option Provided → Option String → Option Provided
reconciled name none none = none
reconciled name none (some version) = some (falco_entry name version)
reconciled name (some p) none =
    if p.key.kind == falco then none else some (record p { version = "" })
reconciled name (some p) (some version) =
    if p.removed then some p else some (record p { version = version })

abbrev learned : String → Option Provided → Option String → Option Provided
learned name p none = p
learned name none (some version) = some (falco_entry name version)
learned name (some p) (some version) =
    if p.removed then some p else some (record p { version = version })

lookup-learn_one :
    (name version k : String) (provides : Map String Provided)
    → lookup k (learn_one name version provides) ≡ (
        if name == k then learned name (lookup name provides) (some version) else lookup k provides)
lookup-learn_one name version k provides = elim (Option-cases (lookup name provides)) [
  | inl e ↦
      ground (arith, e, eq_iff name k, lookup-insert name k (falco_entry name version) provides)
  | inr (p, e) ↦ ground (
    arith,
    e,
    eq_iff name k,
    eq_iff p.version version,
    lookup-insert name k (record p { version = version }) provides,
  )
]

lookup-learn_loop :
    (observed : Map String String) (k : String) (provides : Map String Provided)
    → Distinct observed
    → lookup k (learn_loop observed provides) ≡ learned k (lookup k provides) (lookup k observed)
unfolding learn_loop lookup
lookup-learn_loop [] k provides h = refl
lookup-learn_loop ((name, version) ∷ rest) k provides h = ground (
  arith,
  eq_iff name k,
  lookup-learn_loop rest k (learn_one name version provides) h.1,
  lookup-learn_one name version k provides,
)

-- After an observation every entry of the registry is what its former entry and the reported
-- version make of it: a name that Falco no longer reports loses its version, or its entry if Falco
-- alone provided it; a reported name gets the reported version, under its own key; and a name that
-- was explicitly removed stays so. No name stands twice in the registry or in the observation.
pub lookup-observe_provides :
    (observed : Map String String) (provides : Map String Provided) (k : String)
    → Distinct observed
    → Distinct provides
    → lookup k (observe_provides observed provides)
      ≡ reconciled k (lookup k provides) (lookup k observed)
unfolding observe_provides
lookup-observe_provides observed provides k ho hp = ground (
  arith,
  lookup-learn_loop observed k (forget_loop observed provides) ho,
  lookup-rewrite_entries (forget_missing observed) k provides hp,
)

write_entry-Distinct :
    (name : String) (p : Option Provided) (provides : Map String Provided)
    → Distinct provides
    → Distinct (write_entry name p provides)
write_entry-Distinct name none provides h = h
write_entry-Distinct name (some p) provides h = insert-Distinct name p provides h

learn_loop-Distinct :
    (observed : Map String String) (provides : Map String Provided)
    → Distinct provides
    → Distinct (learn_loop observed provides)
unfolding learn_loop
learn_loop-Distinct [] provides h = h
learn_loop-Distinct ((name, version) ∷ rest) provides h =
    let (entry, changed) = learn name version (lookup name provides) in
    learn_loop-Distinct rest (learn_one name version provides)
      (if_both Distinct changed (write_entry-Distinct name entry provides h) h)

-- The registry stays a map.
pub observe_provides-Distinct :
    (observed : Map String String) (provides : Map String Provided)
    → Distinct provides
    → Distinct (observe_provides observed provides)
unfolding observe_provides
observe_provides-Distinct observed provides h =
    learn_loop-Distinct observed (forget_loop observed provides)
      (rewrite_entries-Distinct (forget_missing observed) provides h)
