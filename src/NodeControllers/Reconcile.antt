-- ===== src/NodeControllers/Reconcile.antt =====
-- What the three `Reconcile` methods of controllers/artifact share: the object and its parent are
-- read, the finalizer is ensured, and the deferred function derives `Programmed` and patches the
-- status.
pub mod Released
use falco_operator.Common.{
  String, Bool, true, false, not, ◌&&◌, List, [], ◌∷◌, ◌++◌, Option, none, some, Result, ok, err,
  if◌then◌else◌, contains, ◌==◌, string_eq, ℕ,
}
use falco_operator.NodeArtifacts.{Manager}
use falco_operator.Artifact.FileSystem.{FsError}
use falco_operator.ControllerHelper.Finalizers.{
  ApiError, ignore_not_found, ensure_finalizer, patch_finalizer,
}
use falco_operator.ControllerHelper.Programmed.{
  compute_programmed_condition, condition_dependencies_satisfied,
}
use falco_operator.NodeControllers.{
  Reconciler, ReconcileError, api, store, fetch, Local, NodeStatus, NodeObject, Reconciled, done,
  failed,
}
use falco_operator.ControllerHelper.Conditions.{Condition}
use falco_operator.NodeControllers.Fetch.{requeue_delay}
use falco_operator.NodeControllers.Outcome.{
  reason_programmed, message_programmed, reason_program_failed, reason_dependencies_not_satisfied,
}
use falco_operator.NodeControllers.Sources.{D, with_condition}

abbrev pub api_errors : Result ApiError (Unit {0}) → List ReconcileError
api_errors (ok _) = []
api_errors (err e) = api e ∷ []

-- The reason and message of the condition that blocks.
abbrev pub reason_and_message : Option Condition → String × String
reason_and_message none =
    (reason_dependencies_not_satisfied, "dependency requirements not satisfied on this node")
reason_and_message (some c) = (c.reason, c.message)

module _ (r : Reconciler) where
  -- The API server, the node's manager and its disk.
  pub record World : Type 0 where
    pub server : r.server.State
    pub manager : Manager
    pub disk : D r

  abbrev pub local_of : NodeObject → World → Local (D r)
  local_of node w = record {
    conditions = node.status.conditions;
    installed = node.status.installed_artifacts;
    manager = w.manager;
    disk = w.disk;
  }

  abbrev pub status_of : Local (D r) → NodeStatus
  status_of s = record { conditions = s.conditions; installed_artifacts = s.installed }

  -- In advise mode `DependenciesSatisfied` does not count.
  abbrev pub skip_dependencies_satisfied : String → Bool
  skip_dependencies_satisfied type =
      not r.enforce_requirements && type == condition_dependencies_satisfied

  unfoldable pub set_programmed : (String → Bool) → ℕ → Local (D r) → Local (D r)
  set_programmed skip generation s =
      with_condition r
        (compute_programmed_condition skip s.conditions reason_programmed message_programmed
          reason_program_failed generation)
        s

  abbrev joined :
      Reconciled → Local (D r) → Result ApiError (Unit {0}) × r.server.State → Reconciled × World
  joined result s (patched, server) = (
    record result { errors = result.errors ++ api_errors patched },
    record { server = server; manager = s.manager; disk = s.disk },
  )

  -- The deferred function, on the result and state that the body leaves.
  unfoldable pub finish :
      (String → Bool)
      → ℕ
      → NodeStatus
      → r.server.State
      → Reconciled × Local (D r)
      → Reconciled × World
  unfolding set_programmed
  finish skip generation old_status server (result, s) =
      let s' = set_programmed skip generation s in
      joined result s' (
        if r.same_status old_status (status_of s')
        then (ok tt, server)
        else r.patch_status server (status_of s'))

  -- A transient fetch failure asks for another round, and is no error.
  abbrev pub outcome_of : Result ReconcileError (Unit {0}) × Local (D r) → Reconciled × Local (D r)
  outcome_of (ok _, s) = (done, s)
  outcome_of (err (fetch e), s) = elim (requeue_delay r.remote e) [
    | none ↦ (failed (fetch e), s)
    | some delay ↦ (record done { requeue_after = some delay }, s)
  ]
  outcome_of (err e, s) = (failed e, s)

  -- The last part of `handleDeletion`: the files are gone, the finalizer goes.
  abbrev released :
      World → Result ApiError (Unit {0}) × r.server.State → Result ReconcileError Bool × World
  released w (ok _, server) = (ok true, record w { server = server })
  released w (err e, server) = (err (api e), record w { server = server })

  abbrev pub remove_and_release :
      String
      → NodeObject
      → (Manager → Manager)
      → World
      → Result FsError (Unit {0}) × D r
      → Result ReconcileError Bool × World
  remove_and_release finalizer node forget w (err e, disk) =
      (err (store e), record w { disk = disk })
  remove_and_release finalizer node forget w (ok _, disk) =
      released (record w { disk = disk; manager = forget w.manager })
        (patch_finalizer r.server finalizer false node.finalizers w.server)

  -- The files, then what the manager keeps of the artifact, then the finalizer.
  unfoldable pub release :
      String → NodeObject → (Manager → Manager) → World → Result ReconcileError Bool × World
  release finalizer node forget w =
      remove_and_release finalizer node forget w
        (r.env.store.remove w.disk node.status.installed_artifacts)

  -- The start of `handleDeletion`; `clean_up` is the rest of it.
  unfoldable pub when_deleted :
      String
      → NodeObject
      → (World → Result ReconcileError Bool × World)
      → World
      → Result ReconcileError Bool × World
  when_deleted finalizer node clean_up w =
      if not node.is_deleted
      then (ok false, w)
      else if contains node.finalizers finalizer
      then clean_up w
      else (ok true, w)

  -- What `Reconcile` does after a step that may end it.
  abbrev pub unless_handled :
      Result ReconcileError Bool × World → (World → Reconciled × World) → Reconciled × World
  unless_handled (err e, w) next = (failed e, w)
  unless_handled (ok handled, w) next = if handled then (done, w) else next w

  abbrev as_step :
      World → Result ApiError Bool × r.server.State → Result ReconcileError Bool × World
  as_step w (ok b, server) = (ok b, record w { server = server })
  as_step w (err e, server) = (err (api e), record w { server = server })

  -- The finalizer is set before anything else; setting it ends the round.
  unfoldable pub with_finalizer : String → NodeObject → World → Result ReconcileError Bool × World
  with_finalizer finalizer node w =
      as_step w (ensure_finalizer r.server finalizer node.finalizers w.server)

  abbrev pub with_parent :
      {A : Type 0}
      → Result ApiError (Option A)
      → World
      → (A → World → Reconciled × World)
      → Reconciled × World
  with_parent (err e) w next = (failed (api e), w)
  with_parent (ok none) w next = (done, w)
  with_parent (ok (some parent)) w next = next parent w

  abbrev pub with_node_object :
      Result ApiError NodeObject
      → World
      → (NodeObject → World → Reconciled × World)
      → Reconciled × World
  with_node_object (ok node) w next = next node w
  with_node_object (err e) w next =
      (record done { errors = api_errors (ignore_not_found (err e)) }, w)
