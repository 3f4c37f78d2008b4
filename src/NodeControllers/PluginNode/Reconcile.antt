-- ===== src/NodeControllers/PluginNode/Reconcile.antt =====
-- `Reconcile` and `handleDeletion` of controllers/artifact/plugin/controller.go.
use falco_operator.Common.{
  ℕ, String, Bool, true, false, not, ◌&&◌, Option, none, some, Result, ok, err, if◌then◌else◌,
  nat_eq, ◌==◌, string_eq, is_some, Map,
}
use falco_operator.Artifact.{medium_oci}
use falco_operator.Artifact.Installed.{find_installed}
use falco_operator.NodeArtifacts.{Manager}
use falco_operator.NodeArtifacts.Entries.{resolve_config_name}
use falco_operator.NodeArtifacts.Changes.{
  ChangeError, blocked, marshal_failed, prepare_failed, store_failed, remove_plugin_config_by_name,
}
use falco_operator.ControllerHelper.Conditions.{Status, find_condition}
use falco_operator.ControllerHelper.Finalizers.{ApiError}
use falco_operator.ControllerHelper.Programmed.{
  condition_dependencies_satisfied, new_oci_artifact_programmed_condition,
  new_config_programmed_condition, new_deletion_blocked_condition,
}
use falco_operator.NodeControllers.{
  Reconciler, ReconcileError, api, change, Local, Reconciled, done, failed, PluginObject,
  NodeObject, OwnerRef, get_verified_owner, first_owner, kind_plugin, NodeStatus,
}
use falco_operator.NodeControllers.Sources.{
  D, with_condition, enforce_reference_resolution, secret_reference,
}
use falco_operator.NodeControllers.Reconcile.{
  World, local_of, status_of, finish, skip_dependencies_satisfied, release, when_deleted,
  with_finalizer, outcome_of, reason_and_message, unless_handled, with_parent, with_node_object,
}
use falco_operator.NodeControllers.RulesfileNode.Compatibility.{Conditions}
use falco_operator.NodeControllers.PluginNode.Compatibility.{enforce_plugin_compatibility}
use falco_operator.NodeControllers.PluginNode.Files.{ensure_plugin, ensure_plugin_config}

abbrev pub plugin_node_finalizer : String
plugin_node_finalizer = "pluginnode.artifact.falcosecurity.dev/finalizer"

abbrev pub is_current : PluginObject → Bool
is_current plugin = plugin.meta.observed_generation == plugin.meta.generation

abbrev pub uid_of : PluginObject → String
uid_of plugin = plugin.meta.uid

-- The name of the plugin's config entry and the generation that its condition carries: from the
-- Plugin, or the reference's name where the Plugin is gone.
abbrev pub entry_of : OwnerRef → Result ApiError PluginObject → Result ApiError (String × ℕ)
entry_of ref (ok plugin) = ok (resolve_config_name plugin.spec, plugin.meta.generation)
entry_of ref (err ApiError.not_found) = ok (ref.name, 0)
entry_of ref (err ApiError.conflict) = err ApiError.conflict
entry_of ref (err (ApiError.other e)) = err (ApiError.other e)

module _ (r : Reconciler) where
  -- A Plugin that was never installed here says that neither its config nor its binary is
  -- programmed.
  unfoldable pub mark_blocked : PluginObject → Local (D r) → Local (D r)
  mark_blocked plugin s =
      if is_some (find_installed s.installed medium_oci)
      then s
      else (let gen = plugin.meta.generation in
          let (reason, msg) =
            reason_and_message (find_condition condition_dependencies_satisfied s.conditions) in
          let no = Status.status_false in
          with_condition r (new_oci_artifact_programmed_condition no reason msg gen)
            (with_condition r (new_config_programmed_condition no reason msg gen) s))

  abbrev plain : Result ReconcileError (Unit {0}) × Local (D r) → Reconciled × Local (D r)
  plain (ok _, s) = (done, s)
  plain (err e, s) = (failed e, s)

  -- The config entry follows only if the binary is in place.
  abbrev pub then_config :
      Option (Map String String)
      → PluginObject
      → Result ReconcileError (Unit {0}) × Local (D r)
      → Reconciled × Local (D r)
  then_config observed plugin (ok _, s) = plain (ensure_plugin_config r observed plugin s)
  then_config observed plugin (err e, s) = outcome_of r (err e, s)

  abbrev pub after_compatibility :
      Option (Map String String)
      → PluginObject
      → Local (D r)
      → Result ReconcileError Bool × Conditions
      → Reconciled × Local (D r)
  after_compatibility observed plugin s (err e, conditions) =
      (failed e, record s { conditions = conditions })
  after_compatibility observed plugin s (ok true, conditions) =
      (done, mark_blocked plugin (record s { conditions = conditions }))
  after_compatibility observed plugin s (ok false, conditions) =
      then_config observed plugin (ensure_plugin r plugin (record s { conditions = conditions }))

  abbrev pub after_references :
      Option (Map String String)
      → PluginObject
      → Result ReconcileError (Unit {0}) × Local (D r)
      → Reconciled × Local (D r)
  after_references observed plugin (err e, s) = (failed e, s)
  after_references observed plugin (ok _, s) =
      if r.enforce_requirements && not (is_current plugin)
      then (done, s)
      else after_compatibility observed plugin s
          (enforce_plugin_compatibility r s.manager.provides s.installed plugin s.conditions)

  -- The body of `Reconcile`, between the read of the parent and the deferred patch.
  unfoldable pub program :
      r.server.State
      → Option (Map String String)
      → PluginObject
      → Local (D r)
      → Reconciled × Local (D r)
  unfolding mark_blocked
  program server observed plugin s = after_references observed plugin (
      enforce_reference_resolution r plugin.meta.generation
        (secret_reference r server plugin.meta plugin.oci_artifact) s)

  abbrev status_patched :
      World r → Result ApiError (Unit {0}) × r.server.State → Result ReconcileError Bool × World r
  status_patched w (ok _, server) = (ok true, record w { server = server })
  status_patched w (err e, server) = (err (api e), record w { server = server })

  abbrev pub blocked_status : NodeObject → ℕ → ReconcileError → World r → NodeStatus
  blocked_status node gen e w = status_of r (
      with_condition r
        (new_deletion_blocked_condition Status.status_true "PluginConfigStillRequired" (r.text_of e)
          gen)
        (local_of r node w))

  -- A removal that a Rulesfile blocks is shown on the node object, and ends the round.
  abbrev deletion_blocked :
      NodeObject → ℕ → ReconcileError → World r → Result ReconcileError Bool × World r
  deletion_blocked node gen e w =
      status_patched w (r.patch_status w.server (blocked_status node gen e w))

  abbrev pub after_entry :
      NodeObject
      → ℕ
      → World r
      → Result ChangeError (Unit {0}) × Manager × D r
      → Result ReconcileError Bool × World r
  after_entry node gen w (ok _, m, disk) =
      release r plugin_node_finalizer node (λ m'. m')
        (record { server = w.server; manager = m; disk = disk })
  after_entry node gen w (err (blocked name keys), m, disk) =
      deletion_blocked node gen (change (blocked name keys))
        (record { server = w.server; manager = m; disk = disk })
  after_entry node gen w (err marshal_failed, m, disk) =
      (err (change marshal_failed), record { server = w.server; manager = m; disk = disk })
  after_entry node gen w (err (prepare_failed e), m, disk) =
      (err (change (prepare_failed e)), record { server = w.server; manager = m; disk = disk })
  after_entry node gen w (err (store_failed e), m, disk) =
      (err (change (store_failed e)), record { server = w.server; manager = m; disk = disk })

  abbrev pub remove_entry :
      NodeObject
      → String
      → Result ApiError (String × ℕ)
      → World r
      → Result ReconcileError Bool × World r
  remove_entry node name (err e) w = (err (api e), w)
  remove_entry node name (ok (config_name, gen)) w =
      if name == ""
      then release r plugin_node_finalizer node (λ m. m) w
      else after_entry node gen w
          (remove_plugin_config_by_name r.env w.manager w.disk name config_name)

  -- The entry of the shared file first, then the binary, then the finalizer.
  unfoldable pub clean_up : NodeObject → World r → Result ReconcileError Bool × World r
  clean_up node w = elim (first_owner kind_plugin node.owner_references) [
    | none ↦ release r plugin_node_finalizer node (λ m. m) w
    | some ref ↦
        remove_entry node ref.name (entry_of ref (r.get_plugin w.server node.namespace ref.name)) w
  ]

  unfoldable pub handle_deletion : NodeObject → World r → Result ReconcileError Bool × World r
  unfolding clean_up
  handle_deletion node w = when_deleted r plugin_node_finalizer node (clean_up node) w

  abbrev pub program_and_finish :
      Option (Map String String) → NodeObject → PluginObject → World r → Reconciled × World r
  program_and_finish observed node plugin w =
      finish r (skip_dependencies_satisfied r) plugin.meta.generation node.status w.server
        (program w.server observed plugin (local_of r node w))

  unfoldable pub reconcile_node :
      Option (Map String String) → NodeObject → World r → Reconciled × World r
  unfolding handle_deletion
  reconcile_node observed node w = unless_handled r (handle_deletion node w) (λ w1.
      unless_handled r (with_finalizer r plugin_node_finalizer node w1) (λ w2.
        with_parent r
          (get_verified_owner uid_of (r.get_plugin w2.server node.namespace) kind_plugin
            node.owner_references)
          w2 (program_and_finish observed node)))

  unfoldable pub reconcile : Option (Map String String) → World r → Reconciled × World r
  unfolding reconcile_node
  reconcile observed w = with_node_object r (r.get_node w.server) w (reconcile_node observed)
