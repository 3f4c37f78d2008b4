-- ===== src/ControllerHelper/Finalizers/Reconciled.antt =====
-- What a reconciled object's finalizers are.
use falco_operator.Common.{
  ℕ, ◌+◌, ◌<◌, String, Bool, true, false, ◌&&◌, ◌||◌, not, List, [], ◌∷◌, ◌++◌, Result, ok, err,
  contains, nat_eq, string_eq, ◌==◌, length, if◌then◌else◌, ◌≡◌, ◌≢◌, refl, eq_iff, arith,
  Bool-cases, Result-cases, inl, inr,
}
use falco_operator.ControllerHelper.Finalizers.{
  ApiError, Server, is_legacy_parent_finalizer, all_in, finalizer_sets_equal, kept_finalizers,
  desired_finalizers, reconcile_in_use_finalizer,
}

-- How many of a list are legacy, or the finalizer itself: what the loop drops.
dropped : String → List String → ℕ
dropped finalizer [] = 0
dropped finalizer (f ∷ rest) =
    (if is_legacy_parent_finalizer f || f == finalizer then 1 else 0) + dropped finalizer rest

-- The finalizers wanted: no legacy one, the in-use one just when the object is referenced, and of
-- the others the same as before.
pub record IsReconciled (finalizer : String) (is_referenced : Bool) (before after : List String)
    : Type 0 where
  pub in_use : contains after finalizer ≡ is_referenced
  pub no_legacy : (f : String) → is_legacy_parent_finalizer f ≡ true → contains after f ≡ false
  pub others_kept :
      (f : String)
      → is_legacy_parent_finalizer f ≡ false
      → (f == finalizer) ≡ false
      → contains after f ≡ contains before f

pub contains-append :
    (xs ys : List String) (f : String) → contains (xs ++ ys) f ≡ (contains xs f || contains ys f)
unfolding contains
contains-append [] ys f = refl
contains-append (x ∷ xs) ys f = ground (arith, contains-append xs ys f)

length-append : (xs ys : List String) → length (xs ++ ys) ≡ length xs + length ys
length-append [] ys = ground arith
length-append (x ∷ xs) ys = ground (arith, length-append xs ys)

contains-kept :
    (finalizer : String) (list : List String) (f : String)
    → contains (kept_finalizers finalizer list) f
      ≡ (not (is_legacy_parent_finalizer f || f == finalizer) && contains list f)
unfolding contains kept_finalizers
contains-kept finalizer [] f = ground arith
contains-kept finalizer (x ∷ rest) f =
    ground
      (arith, eq_iff x f, eq_iff x finalizer, eq_iff f finalizer, contains-kept finalizer rest f)

desired-IsReconciled :
    (finalizer : String) (is_referenced : Bool) (list : List String)
    → is_legacy_parent_finalizer finalizer ≡ false
    → IsReconciled finalizer is_referenced list (desired_finalizers finalizer is_referenced list)
unfolding desired_finalizers contains
desired-IsReconciled finalizer is_referenced list h = record {
  in_use = ground (
    arith,
    h,
    eq_iff finalizer finalizer,
    contains-append (kept_finalizers finalizer list) (if is_referenced then finalizer ∷ [] else [])
        finalizer,
    contains-kept finalizer list finalizer,
  );
  no_legacy = λ f l. ground (
    arith,
    h,
    l,
    eq_iff finalizer f,
    contains-append (kept_finalizers finalizer list) (if is_referenced then finalizer ∷ [] else [])
        f,
    contains-kept finalizer list f,
  );
  others_kept = λ f l n. ground (
    arith,
    l,
    n,
    eq_iff finalizer f,
    eq_iff f finalizer,
    contains-append (kept_finalizers finalizer list) (if is_referenced then finalizer ∷ [] else [])
        f,
    contains-kept finalizer list f,
  );
}

kept-length :
    (finalizer : String) (list : List String)
    → length (kept_finalizers finalizer list) + dropped finalizer list ≡ length list
unfolding kept_finalizers dropped
kept-length finalizer [] = refl
kept-length finalizer (x ∷ rest) = ground (arith, kept-length finalizer rest)

contained-dropped :
    (finalizer : String) (list : List String) (f : String)
    → (is_legacy_parent_finalizer f || f == finalizer) ≡ true
    → contains list f ≡ true
    → 0 < dropped finalizer list
unfolding contains dropped
contained-dropped finalizer [] f l h = ground arith
contained-dropped finalizer (x ∷ rest) f l h =
    ground (arith, l, h, eq_iff x f, contained-dropped finalizer rest f l)

-- Two different ones count twice.
both-dropped :
    (finalizer : String) (list : List String) (f : String)
    → is_legacy_parent_finalizer f ≡ true
    → is_legacy_parent_finalizer finalizer ≡ false
    → contains list f ≡ true
    → contains list finalizer ≡ true
    → 1 < dropped finalizer list
unfolding contains dropped
both-dropped finalizer [] f l n h k = ground arith
both-dropped finalizer (x ∷ rest) f l n h k = ground (
  arith,
  l,
  n,
  h,
  k,
  eq_iff x f,
  eq_iff x finalizer,
  eq_iff finalizer finalizer,
  both-dropped finalizer rest f l n,
  contained-dropped finalizer rest f,
  contained-dropped finalizer rest finalizer,
)

all_in-append : (xs ys b : List String) → all_in (xs ++ ys) b ≡ (all_in xs b && all_in ys b)
unfolding all_in
all_in-append [] ys b = refl
all_in-append (x ∷ xs) ys b = ground (arith, all_in-append xs ys b)

-- The comparison ignores the order, and still is exact: a list that it takes for the desired one is
-- reconciled already.
equal-IsReconciled :
    (finalizer : String) (is_referenced : Bool) (list : List String)
    → is_legacy_parent_finalizer finalizer ≡ false
    → finalizer_sets_equal (desired_finalizers finalizer is_referenced list) list ≡ true
    → IsReconciled finalizer is_referenced list list
unfolding finalizer_sets_equal desired_finalizers all_in
equal-IsReconciled finalizer true list n h = record {
  in_use = ground (arith, h, all_in-append (kept_finalizers finalizer list) (finalizer ∷ []) list);
  no_legacy = λ f l. ground (
    arith,
    h,
    l,
    n,
    length-append (kept_finalizers finalizer list) (finalizer ∷ []),
    all_in-append (kept_finalizers finalizer list) (finalizer ∷ []) list,
    kept-length finalizer list,
    both-dropped finalizer list f l n,
  );
  others_kept = λ f l k. refl;
}
equal-IsReconciled finalizer false list n h = record {
  in_use = ground (
    arith,
    h,
    eq_iff finalizer finalizer,
    length-append (kept_finalizers finalizer list) [],
    kept-length finalizer list,
    contained-dropped finalizer list finalizer,
  );
  no_legacy = λ f l. ground (
    arith,
    h,
    l,
    length-append (kept_finalizers finalizer list) [],
    kept-length finalizer list,
    contained-dropped finalizer list f,
  );
  others_kept = λ f l k. refl;
}

module _ (server : Server) (finalizer : String) (is_referenced : Bool) (s : server.State) where
  abbrev pub reconciliation : Result ApiError (Unit {0}) × server.State
  reconciliation = reconcile_in_use_finalizer server finalizer is_referenced s

  after-cases :
      (before after : List String)
      → server.get s ≡ ok before
      → reconciliation.0 ≡ ok tt
      → server.get reconciliation.1 ≡ ok after
      → (server.patch s (desired_finalizers finalizer is_referenced before)).0
        ≢ err ApiError.not_found
      → after ≡ (
          if finalizer_sets_equal (desired_finalizers finalizer is_referenced before) before
          then before
          else desired_finalizers finalizer is_referenced before)
  unfolding reconcile_in_use_finalizer
  after-cases before after g h k p =
      ground
        (arith, g, h, k, p, server.patch-get s (desired_finalizers finalizer is_referenced before))

  -- A `ReconcileInUseFinalizer` that succeeds on an object that is still there leaves it without a
  -- legacy finalizer, with the in-use one just when it is referenced, and with the finalizers of
  -- others as they were, whether it patched or found nothing to do. The in-use finalizer is no
  -- legacy one, and the patch is not answered by not-found.
  pub reconcile-IsReconciled :
      (before after : List String)
      → is_legacy_parent_finalizer finalizer ≡ false
      → server.get s ≡ ok before
      → reconciliation.0 ≡ ok tt
      → server.get reconciliation.1 ≡ ok after
      → (server.patch s (desired_finalizers finalizer is_referenced before)).0
        ≢ err ApiError.not_found
      → IsReconciled finalizer is_referenced before after
  reconcile-IsReconciled before after n g h k p =
      let desired = desired_finalizers finalizer is_referenced before in
      rw (after-cases before after g h k p)
        (elim (Bool-cases (finalizer_sets_equal desired before)) [
          | inl e ↦ rw e (equal-IsReconciled finalizer is_referenced before n e)
          | inr e ↦ rw e (desired-IsReconciled finalizer is_referenced before n)
        ])

  -- A reconcile that fails leaves the object's finalizers as they were, for the retry.
  pub reconcile_fails_clean :
      {e : ApiError} → reconciliation.0 ≡ err e → server.get reconciliation.1 ≡ server.get s
  unfolding reconcile_in_use_finalizer
  reconcile_fails_clean h = elim (Result-cases (server.get s)) [
    | inr (x, g) ↦ ground (arith, g)
    | inl (current, g) ↦
        ground
          (arith, g, h, server.patch-fails s (desired_finalizers finalizer is_referenced current))
  ]
