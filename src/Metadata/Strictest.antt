-- ===== src/Metadata/Strictest.antt =====
-- The deduplicated requirements demand exactly what the declared ones do.
use falco_operator.Common.{
  String, Bool, true, false, List, [], ◌∷◌, ◌++◌, Option, none, some, ok, string_eq, if◌then◌else◌,
  All, ◌≡◌, ◌↔◌, inl, inr, Option-cases, refl, subst, eq_iff, arith,
}
use falco_operator.Compat.{VersionLib, capability_plugin_api_version, semver_at_least}
use falco_operator.Compat.Order.{semver_at_least_trans, semver_major_compatible_trans}
use falco_operator.NodeArtifacts.Registry.{version_satisfies}
use falco_operator.Metadata.{
  MetaRequirement, Decision, decide, merge_requirement, merge_requirements, or_append,
  insert_requirement, requirement_less, sort_requirements, deduplicate_requirements,
}

module _ (lib : VersionLib) (available : String → String) where
  -- What Falco reports of the requirement's name satisfies it.
  abbrev pub IsSatisfied : MetaRequirement → Type 0
  IsSatisfied r = version_satisfies lib r.name (available r.name) r.version ≡ ok true

  at_least-other :
      (a b c : String)
      → semver_at_least lib b c ≡ ok false
      → semver_at_least lib a c ≡ ok true
      → semver_at_least lib a b ≡ ok true
  unfolding semver_at_least
  at_least-other a b c h k = grind (arith, lib.gte_trans, lib.gte_total)

  replace-IsSatisfied :
      (c r : MetaRequirement) → decide lib c r ≡ Decision.replace → IsSatisfied r → IsSatisfied c
  unfolding decide version_satisfies
  replace-IsSatisfied c r d h = ground (
    arith,
    d,
    h,
    eq_iff c.name r.name,
    eq_iff r.name capability_plugin_api_version,
    semver_at_least_trans lib (available r.name) r.version c.version,
    semver_major_compatible_trans lib (available r.name) r.version c.version,
  )

  keep-IsSatisfied :
      (c r : MetaRequirement) → decide lib c r ≡ Decision.keep → IsSatisfied c → IsSatisfied r
  unfolding decide version_satisfies
  keep-IsSatisfied c r d h = ground (
    arith,
    d,
    h,
    eq_iff c.name r.name,
    eq_iff c.version r.version,
    eq_iff r.name capability_plugin_api_version,
    at_least-other (available r.name) r.version c.version,
    semver_major_compatible_trans lib (available r.name) c.version r.version,
  )

  abbrev pub AllSatisfied : List MetaRequirement → Type 0
  AllSatisfied reqs = All IsSatisfied reqs

  merge_at :
      (d : Decision) (req c : MetaRequirement) (rest merged : List MetaRequirement)
      → decide lib c req ≡ d
      → ((m : List MetaRequirement)
          → merge_requirement lib req rest ≡ some m
          → AllSatisfied m ↔ (AllSatisfied rest × IsSatisfied req))
      → merge_requirement lib req (c ∷ rest) ≡ some merged
      → AllSatisfied merged ↔ (AllSatisfied (c ∷ rest) × IsSatisfied req)
  unfolding merge_requirement
  merge_at Decision.go_on req c rest merged d ih h =
      elim (Option-cases (merge_requirement lib req rest)) [
        | inl e ↦ ground (arith, d, h, e)
        | inr (m, e) ↦
            let merged-eq : c ∷ m ≡ merged = ground (arith, d, h, e) in
            subst (λ x. AllSatisfied x ↔ (AllSatisfied (c ∷ rest) × IsSatisfied req)) merged-eq
              (
                (λ (s, ss). let (t, u) = (ih m e).0 ss in ((s, t), u)),
                (λ ((s, t), u). (s, (ih m e).1 (t, u))),
              )
      ]
  merge_at Decision.replace req c rest merged d ih h =
      let merged-eq : req ∷ rest ≡ merged = ground (arith, d, h) in
      subst (λ x. AllSatisfied x ↔ (AllSatisfied (c ∷ rest) × IsSatisfied req)) merged-eq
        ((λ (s, ss). ((replace-IsSatisfied c req d s, ss), s)), (λ ((s, t), u). (u, t)))
  merge_at Decision.keep req c rest merged d ih h =
      let merged-eq : c ∷ rest ≡ merged = ground (arith, d, h) in
      subst (λ x. AllSatisfied x ↔ (AllSatisfied (c ∷ rest) × IsSatisfied req)) merged-eq
        ((λ (s, ss). ((s, ss), keep-IsSatisfied c req d s)), (λ ((s, t), u). (s, t)))

  merge-IsSatisfied :
      (req : MetaRequirement) (result merged : List MetaRequirement)
      → merge_requirement lib req result ≡ some merged
      → AllSatisfied merged ↔ (AllSatisfied result × IsSatisfied req)
  unfolding merge_requirement
  merge-IsSatisfied req [] merged h = cc
  merge-IsSatisfied req (c ∷ rest) merged h =
      merge_at (decide lib c req) req c rest merged refl (λ m e. merge-IsSatisfied req rest m e) h

  All-append :
      (xs ys : List MetaRequirement) → AllSatisfied (xs ++ ys) ↔ (AllSatisfied xs × AllSatisfied ys)
  All-append [] ys = ((λ h. (tt, h)), (λ (h, k). k))
  All-append (x ∷ xs) ys = (
    (λ (h, hs). let (a, b) = (All-append xs ys).0 hs in ((h, a), b)),
    (λ ((h, a), b). (h, (All-append xs ys).1 (a, b))),
  )

  or_append-IsSatisfied :
      (req : MetaRequirement) (result : List MetaRequirement) (o : Option (List MetaRequirement))
      → merge_requirement lib req result ≡ o
      → AllSatisfied (or_append result req o) ↔ (AllSatisfied result × IsSatisfied req)
  or_append-IsSatisfied req result none e = (
    (λ h. let (a, b) = (All-append result (req ∷ [])).0 h in (a, b.0)),
    (λ (a, b). (All-append result (req ∷ [])).1 (a, (b, tt))),
  )
  or_append-IsSatisfied req result (some merged) e = merge-IsSatisfied req result merged e

  merge_all-satisfied :
      (reqs result : List MetaRequirement)
      → AllSatisfied (merge_requirements lib result reqs)
        ↔ (AllSatisfied result × AllSatisfied reqs)
  unfolding merge_requirements
  merge_all-satisfied [] result = ((λ h. (h, tt)), (λ (h, k). h))
  merge_all-satisfied (req ∷ rest) result =
      let next = or_append result req (merge_requirement lib req result) in
      let step = or_append-IsSatisfied req result (merge_requirement lib req result) refl in
      (
        (λ h.
            let (a, b) = (merge_all-satisfied rest next).0 h in
            let (c, d) = step.0 a in (c, (d, b))),
        (λ (c, (d, b)). (merge_all-satisfied rest next).1 (step.1 (c, d), b)),
      )

  insert_at :
      (b : Bool) (r x : MetaRequirement) (xs : List MetaRequirement)
      → AllSatisfied (insert_requirement r xs) ↔ (IsSatisfied r × AllSatisfied xs)
      → AllSatisfied (if b then x ∷ insert_requirement r xs else r ∷ x ∷ xs)
        ↔ (IsSatisfied r × AllSatisfied (x ∷ xs))
  insert_at true r x xs ih =
      ((λ (a, h). let (b, c) = ih.0 h in (b, (a, c))), (λ (b, (a, c)). (a, ih.1 (b, c))))
  insert_at false r x xs ih = ((λ h. h), (λ h. h))

  insert-IsSatisfied :
      (r : MetaRequirement) (xs : List MetaRequirement)
      → AllSatisfied (insert_requirement r xs) ↔ (IsSatisfied r × AllSatisfied xs)
  unfolding insert_requirement
  insert-IsSatisfied r [] = ((λ h. h), (λ h. h))
  insert-IsSatisfied r (x ∷ xs) = insert_at (requirement_less x r) r x xs (insert-IsSatisfied r xs)

  sort-satisfied :
      (xs : List MetaRequirement) → AllSatisfied (sort_requirements xs) ↔ AllSatisfied xs
  unfolding sort_requirements
  sort-satisfied [] = ((λ h. h), (λ h. h))
  sort-satisfied (x ∷ xs) = (
    (λ h.
        let (a, b) = (insert-IsSatisfied x (sort_requirements xs)).0 h in
        (a, (sort-satisfied xs).0 b)),
    (λ (a, b). (insert-IsSatisfied x (sort_requirements xs)).1 (a, (sort-satisfied xs).1 b)),
  )

  -- For any versions that Falco reports, they satisfy the deduplicated requirements just when they
  -- satisfy all that were declared.
  pub deduplicate-satisfied :
      (reqs : List MetaRequirement)
      → AllSatisfied (deduplicate_requirements lib reqs) ↔ AllSatisfied reqs
  unfolding deduplicate_requirements
  deduplicate-satisfied [] = ((λ h. h), (λ h. h))
  deduplicate-satisfied (r ∷ []) = ((λ h. h), (λ h. h))
  deduplicate-satisfied (r ∷ s ∷ rest) =
      let all = r ∷ s ∷ rest in
      let sorted = sort-satisfied (merge_requirements lib [] all) in
      (
        (λ h. ((merge_all-satisfied all []).0 (sorted.0 h)).1),
        (λ h. sorted.1 ((merge_all-satisfied all []).1 (tt, h))),
      )
