-- ===== src/NodeControllers/RulesfileNode/Reconcile.antt =====
-- `Reconcile` and `handleDeletion` of controllers/artifact/rulesfile/controller.go.
use falco_operator.Common.{
  String, Bool, true, false, not, ◌&&◌, List, [], ◌++◌, Option, none, some, Result, ok, err,
  if◌then◌else◌, nat_eq, ◌==◌,
}
use falco_operator.Metadata.{ArtifactMeta}
use falco_operator.NodeArtifacts.{Key, Manager}
use falco_operator.NodeArtifacts
use falco_operator.NodeArtifacts.Registry.{
  MetaDependency, sync, requirement_groups_from_dependencies,
}
use falco_operator.ControllerHelper.Conditions.{Status, Condition, find_condition}
use falco_operator.ControllerHelper.Finalizers.{ApiError}
use falco_operator.ControllerHelper.Programmed.{
  condition_dependencies_satisfied, new_oci_artifact_programmed_condition,
  new_inline_artifact_programmed_condition, new_config_map_artifact_programmed_condition,
}
use falco_operator.NodeControllers.{
  Reconciler, ReconcileError, Local, Reconciled, done, failed, RulesfileObject, NodeObject,
  get_verified_owner, first_owner, kind_rulesfile,
}
use falco_operator.NodeControllers.Sources.{
  D, with_condition, enforce_reference_resolution, config_map_reference, secret_reference,
}
use falco_operator.NodeControllers.Reconcile.{
  World, local_of, finish, skip_dependencies_satisfied, release, when_deleted, with_finalizer,
  outcome_of, reason_and_message, unless_handled, with_parent, with_node_object,
}
use falco_operator.NodeControllers.RulesfileNode.Compatibility.{
  Conditions, enforce_rulesfile_compatibility, not_empty,
}
use falco_operator.NodeControllers.RulesfileNode.Sources.{ensure_rulesfile}

abbrev pub rulesfile_node_finalizer : String
rulesfile_node_finalizer = "rulesfilenode.artifact.falcosecurity.dev/finalizer"

abbrev pub manager_key : String → Key
manager_key name = record { kind = NodeArtifacts.Kind.rulesfile; name = name }

abbrev meta_dependencies : Option ArtifactMeta → List MetaDependency
meta_dependencies none = []
meta_dependencies (some meta) = meta.dependencies

unfoldable pub dependencies_of : RulesfileObject → List MetaDependency
dependencies_of rulesfile = meta_dependencies rulesfile.meta.artifact_meta

abbrev pub is_current : RulesfileObject → Bool
is_current rulesfile = rulesfile.meta.observed_generation == rulesfile.meta.generation

abbrev pub uid_of : RulesfileObject → String
uid_of rulesfile = rulesfile.meta.uid

module _ (r : Reconciler) where
  abbrev pub set_if_some : {A : Type 0} → Option A → Condition → Local (D r) → Local (D r)
  set_if_some none c s = s
  set_if_some (some a) c s = with_condition r c s

  -- A Rulesfile that was never installed here says of each source that it is not programmed.
  unfoldable pub mark_blocked : RulesfileObject → Local (D r) → Local (D r)
  mark_blocked rulesfile s =
      if not_empty s.installed
      then s
      else (let gen = rulesfile.meta.generation in
          let (reason, msg) =
            reason_and_message (find_condition condition_dependencies_satisfied s.conditions) in
          let no = Status.status_false in
          set_if_some rulesfile.config_map_ref
            (new_config_map_artifact_programmed_condition no reason msg gen)
            (set_if_some rulesfile.inline_rules
              (new_inline_artifact_programmed_condition no reason msg gen)
              (set_if_some rulesfile.oci_artifact
                (new_oci_artifact_programmed_condition no reason msg gen) s)))

  unfoldable pub register : RulesfileObject → Local (D r) → Local (D r)
  unfolding dependencies_of
  register rulesfile s = record s {
    manager =
        sync (manager_key rulesfile.meta.name)
          (requirement_groups_from_dependencies (dependencies_of rulesfile)) s.manager;
  }

  abbrev pub after_compatibility :
      RulesfileObject
      → Local (D r)
      → Result ReconcileError Bool × Conditions
      → Reconciled × Local (D r)
  after_compatibility rulesfile s (err e, conditions) =
      (failed e, record s { conditions = conditions })
  after_compatibility rulesfile s (ok true, conditions) =
      (done, mark_blocked rulesfile (record s { conditions = conditions }))
  after_compatibility rulesfile s (ok false, conditions) =
      outcome_of r
        (ensure_rulesfile r rulesfile (register rulesfile (record s { conditions = conditions })))

  abbrev pub after_references :
      RulesfileObject → Result ReconcileError (Unit {0}) × Local (D r) → Reconciled × Local (D r)
  after_references rulesfile (err e, s) = (failed e, s)
  after_references rulesfile (ok _, s) =
      if r.enforce_requirements && not (is_current rulesfile)
      then (done, s)
      else after_compatibility rulesfile s
          (enforce_rulesfile_compatibility r s.manager.provides s.installed rulesfile s.conditions)

  -- The references of the spec, with what the API client returns for each.
  abbrev pub references :
      r.server.State → RulesfileObject → List (String × Result ApiError (Unit {0}))
  references server rulesfile =
      config_map_reference r server rulesfile.meta rulesfile.config_map_ref
      ++ secret_reference r server rulesfile.meta rulesfile.oci_artifact

  -- The body of `Reconcile`, between the read of the parent and the deferred patch.
  unfoldable pub program : r.server.State → RulesfileObject → Local (D r) → Reconciled × Local (D r)
  unfolding mark_blocked register
  program server rulesfile s = after_references rulesfile (
      enforce_reference_resolution r rulesfile.meta.generation
        (config_map_reference r server rulesfile.meta rulesfile.config_map_ref
          ++ secret_reference r server rulesfile.meta rulesfile.oci_artifact)
        s)

  abbrev pub forget : NodeObject → Manager → Manager
  forget node m = elim (first_owner kind_rulesfile node.owner_references) [
    | none ↦ m
    | some ref ↦ sync (manager_key ref.name) [] m
  ]

  unfoldable pub handle_deletion : NodeObject → World r → Result ReconcileError Bool × World r
  handle_deletion node w =
      when_deleted r rulesfile_node_finalizer node
        (release r rulesfile_node_finalizer node (forget node)) w

  abbrev pub program_and_finish : NodeObject → RulesfileObject → World r → Reconciled × World r
  program_and_finish node rulesfile w =
      finish r (skip_dependencies_satisfied r) rulesfile.meta.generation node.status w.server
        (program w.server rulesfile (local_of r node w))

  unfoldable pub reconcile_node : NodeObject → World r → Reconciled × World r
  unfolding handle_deletion
  reconcile_node node w = unless_handled r (handle_deletion node w) (λ w1.
      unless_handled r (with_finalizer r rulesfile_node_finalizer node w1) (λ w2.
        with_parent r
          (get_verified_owner uid_of (r.get_rulesfile w2.server node.namespace) kind_rulesfile
            node.owner_references)
          w2 (program_and_finish node)))

  unfoldable pub reconcile : World r → Reconciled × World r
  unfolding reconcile_node
  reconcile w = with_node_object r (r.get_node w.server) w reconcile_node
