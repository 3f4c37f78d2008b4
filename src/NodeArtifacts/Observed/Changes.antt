-- ===== src/NodeArtifacts/Observed/Changes.antt =====
-- When an observation notifies: exactly when it changes an entry.
use falco_operator.Common.{
  String, true, false, [], ◌∷◌, Option, none, some, Map, ◌≡◌, ◌≢◌, refl, ◌∙◌, sym, subst, arith,
  eq_iff, string_eq, lookup, Distinct, lookup-rewrite_entries, apply_entry, inl, inr, Bool-cases,
}
use falco_operator.NodeArtifacts.{kind_eq, Provided}
use falco_operator.NodeArtifacts.Observed.{
  forget_missing, forget_loop, forget_changed, forgets, learn_loop, learn_changed, learn,
  observe_provides, observe_changed,
}
use falco_operator.NodeArtifacts.Observed.Entries.{
  reconciled, lookup-observe_provides, observe_provides-Distinct,
}

forget_unchanged :
    (observed : Map String String) (provides : Map String Provided) (k : String)
    → forget_changed observed provides ≡ false
    → apply_entry (forget_missing observed) k (lookup k provides) ≡ lookup k provides
unfolding forget_changed lookup
forget_unchanged observed [] k h = refl
forget_unchanged observed ((name, p) ∷ rest) k h =
    ground (arith, eq_iff name k, eq_iff p.version "", forget_unchanged observed rest k)

forget_changes :
    (observed : Map String String) (provides : Map String Provided)
    → Distinct provides
    → forget_changed observed provides ≡ true
    → (k : String) × (p : Provided) × (lookup k provides ≡ some p) × (forgets observed k p ≡ true)
unfolding forget_changed lookup
forget_changes observed [] d h = cc
forget_changes observed ((name, p) ∷ rest) d h = elim (Bool-cases (forgets observed name p)) [
  | inl e ↦ (name, p, ground (arith, eq_iff name name), e)
  | inr e ↦
      (let (k, q, found, f) = forget_changes observed rest d.1 (ground arith) in
        (k, q, ground (arith, eq_iff name k), f))
]

learn_unchanged :
    (observed : Map String String) (provides : Map String Provided)
    → learn_changed observed provides ≡ false
    → learn_loop observed provides ≡ provides
unfolding learn_changed learn_loop
learn_unchanged [] provides h = refl
learn_unchanged ((name, version) ∷ rest) provides h =
    elim (Bool-cases (learn name version (lookup name provides)).1) [
      | inl e ↦ ground (arith, e)
      | inr e ↦ rw e (learn_unchanged rest provides (rw e at h))
    ]

learn_changes :
    (observed : Map String String) (provides : Map String Provided)
    → Distinct observed
    → learn_changed observed provides ≡ true
    → (k : String) × (v : String) × (lookup k observed ≡ some v)
      × ((learn k v (lookup k provides)).1 ≡ true)
unfolding learn_changed lookup
learn_changes [] provides d h = cc
learn_changes ((name, version) ∷ rest) provides d h =
    elim (Bool-cases (learn name version (lookup name provides)).1) [
      | inl e ↦ (name, version, ground (arith, eq_iff name name), e)
      | inr e ↦
          (let (k, v, found, f) = learn_changes rest provides d.1 (rw e at h) in
            (k, v, ground (arith, d.0, found, eq_iff name k), f))
    ]

-- An observation that notifies nobody changes no entry.
pub observe_unchanged :
    (observed : Map String String) (provides : Map String Provided) (k : String)
    → Distinct provides
    → observe_changed observed provides ≡ false
    → lookup k (observe_provides observed provides) ≡ lookup k provides
unfolding observe_changed observe_provides
observe_unchanged observed provides k d h =
    rw (learn_unchanged observed (forget_loop observed provides) (ground arith)) (
      lookup-rewrite_entries (forget_missing observed) k provides d
      ∙ forget_unchanged observed provides k (ground arith))

forgotten_differs :
    (observed : Map String String) (k : String) (p : Provided)
    → forgets observed k p ≡ true
    → reconciled k (some p) (lookup k observed) ≢ some p
forgotten_differs observed k p h e = ground (arith, eq_iff p.version "")

learned_differs :
    (k v : String) (p : Option Provided) → (learn k v p).1 ≡ true → reconciled k p (some v) ≢ p
learned_differs k v none h e = cc
learned_differs k v (some p) h e = ground (arith, eq_iff p.version v)

learn_before :
    (observed : Map String String) (provides : Map String Provided) (k v : String)
    → Distinct provides
    → lookup k observed ≡ some v
    → lookup k (forget_loop observed provides) ≡ lookup k provides
unfolding forget_loop
learn_before observed provides k v d e =
    lookup-rewrite_entries (forget_missing observed) k provides d ∙ ground (arith, e)

-- The entry that an observation leaves differs from the entry that it found.
abbrev Differs : Map String String → Map String Provided → String → Type 0
Differs observed provides k =
    reconciled k (lookup k provides) (lookup k observed) ≢ lookup k provides

forgets-Differs :
    (observed : Map String String) (provides : Map String Provided) (k : String) (p : Provided)
    → lookup k provides ≡ some p
    → forgets observed k p ≡ true
    → Differs observed provides k
forgets-Differs observed provides k p found f q =
    forgotten_differs observed k p f (subst (λ x. reconciled k x (lookup k observed) ≡ x) found q)

learns-Differs :
    (observed : Map String String) (provides : Map String Provided) (k v : String)
    → lookup k observed ≡ some v
    → (learn k v (lookup k provides)).1 ≡ true
    → Differs observed provides k
learns-Differs observed provides k v found l q =
    learned_differs k v (lookup k provides) l
      (subst (λ x. reconciled k (lookup k provides) x ≡ lookup k provides) found q)

changed-Differs :
    (observed : Map String String) (provides : Map String Provided)
    → Distinct observed
    → Distinct provides
    → observe_changed observed provides ≡ true
    → (k : String) × Differs observed provides k
unfolding observe_changed
changed-Differs observed provides ho hp h = elim (Bool-cases (forget_changed observed provides)) [
  | inl e ↦
      (let (k, p, found, f) = forget_changes observed provides hp e in
        (k, forgets-Differs observed provides k p found f))
  | inr e ↦
      (let (k, v, found, l) =
          learn_changes observed (forget_loop observed provides) ho (rw e at h) in
        (
          k,
          learns-Differs observed provides k v found
              (subst (λ x. (learn k v x).1 ≡ true) (learn_before observed provides k v hp found) l),
        ))
]

-- An observation counts as a change only if some entry of the registry really changes. No name
-- stands twice in the registry or in the observation.
pub observe_changes :
    (observed : Map String String) (provides : Map String Provided)
    → Distinct observed
    → Distinct provides
    → observe_changed observed provides ≡ true
    → (k : String) × (lookup k (observe_provides observed provides) ≢ lookup k provides)
observe_changes observed provides ho hp h =
    let (k, differs) = changed-Differs observed provides ho hp h in
    (k, λ q. differs (sym (lookup-observe_provides observed provides k ho hp) ∙ q))

reconciled_idem :
    (k : String) (p : Option Provided) (o : Option String)
    → reconciled k (reconciled k p o) o ≡ reconciled k p o
reconciled_idem k none none = refl
reconciled_idem k none (some v) = refl
reconciled_idem k (some p) none = ground arith
reconciled_idem k (some p) (some v) = ground arith

-- The same snapshot observed again changes nothing and notifies nobody.
pub observe_again :
    (observed : Map String String) (provides : Map String Provided)
    → Distinct observed
    → Distinct provides
    → observe_changed observed (observe_provides observed provides) ≡ false
observe_again observed provides ho hp =
    elim (Bool-cases (observe_changed observed (observe_provides observed provides))) [
      | inl e ↦
          (let provides' = observe_provides observed provides in
            let (k, differs) =
              changed-Differs observed provides' ho (observe_provides-Distinct observed provides hp)
                e in
            absurd (
              differs (
                rw (lookup-observe_provides observed provides k ho hp)
                  (reconciled_idem k (lookup k provides) (lookup k observed)))))
      | inr e ↦ e
    ]
