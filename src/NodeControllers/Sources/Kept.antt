-- ===== src/NodeControllers/Sources/Kept.antt =====
-- What checking the references leaves alone, and what it shows.
use falco_operator.Common.{
  ℕ, String, List, Result, err, ◌≡◌, arith, Option-cases, inl, inr, List-cases, append, true,
}
use falco_operator.ControllerHelper.Conditions.{Status}
use falco_operator.ControllerHelper.Finalizers.{ApiError}
use falco_operator.ControllerHelper.Programmed.{
  withholds, withholds-set_status, condition_resolved_refs, new_resolved_refs_condition,
}
use falco_operator.NodeControllers.{Reconciler, ReconcileError, Local}
use falco_operator.NodeControllers.Sources.{D, enforce_reference_resolution, first_unresolved}

module _ (r : Reconciler) where
  abbrev pub Untouched : Local (D r) → Local (D r) → Type 0
  Untouched s t = (t.disk ≡ s.disk) × (t.manager ≡ s.manager) × (t.installed ≡ s.installed)

  pub references-Untouched :
      (gen : ℕ) (refs : List (String × Result ApiError (Unit {0}))) (s : Local (D r))
      → Untouched s (enforce_reference_resolution r gen refs s).1
  unfolding enforce_reference_resolution
  references-Untouched gen refs s = elim (Option-cases (first_unresolved r refs)) [
    | inl e ↦ elim (List-cases refs) [ inl q ↦ ground arith | inr (x, xs, q) ↦ ground arith ]
    | inr ((name, x), e) ↦ ground arith
  ]

  pub references-withhold :
      (gen : ℕ) (refs : List (String × Result ApiError (Unit {0}))) (s : Local (D r))
      (e : ReconcileError)
      → (enforce_reference_resolution r gen refs s).0 ≡ err e
      → withholds condition_resolved_refs (enforce_reference_resolution r gen refs s).1.conditions
        ≡ true
  unfolding enforce_reference_resolution
  references-withhold gen refs s e h = elim (Option-cases (first_unresolved r refs)) [
    | inl q ↦ ground arith
    | inr ((name, x), q) ↦ ground (
      arith,
      withholds-set_status r.status_lib condition_resolved_refs
          (new_resolved_refs_condition Status.status_false "ReferenceResolutionFailed"
            (append "Failed to resolve Reference: " name) gen)
          s.conditions,
    )
  ]
