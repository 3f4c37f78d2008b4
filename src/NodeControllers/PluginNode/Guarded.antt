-- ===== src/NodeControllers/PluginNode/Guarded.antt =====
-- What a round of the Plugin controller may touch on the node, and what a deletion waits for.
use falco_operator.Common.{
  ℕ, String, Bool, true, false, ◌&&◌, List, ◌∷◌, Option, some, ok, ◌≡◌, ◌≢◌, arith, Result-cases,
  inl, inr, contains, Map, string_eq, eq_iff,
}
use falco_operator.Artifact.{medium_oci}
use falco_operator.Artifact
use falco_operator.NodeArtifacts.{Key}
use falco_operator.NodeArtifacts.Changes.{blocked, remove_blockers, remove_plugin_config_by_name}
use falco_operator.NodeControllers.{
  Reconciler, change, Local, PluginObject, NodeObject, OwnerRef, first_owner, kind_plugin,
}
use falco_operator.NodeControllers.Sources.{D, enforce_reference_resolution, secret_reference}
use falco_operator.NodeControllers.Sources.Kept.{Untouched, references-Untouched}
use falco_operator.NodeControllers.Reconcile.{World, when_deleted}
use falco_operator.NodeControllers.PluginNode.Compatibility.{
  plugin_may_install, enforce_plugin_compatibility, enforce_plugin_compatibility-decides,
}
use falco_operator.NodeControllers.PluginNode.Reconcile.{
  program, mark_blocked, is_current, handle_deletion, clean_up, entry_of, blocked_status,
  plugin_node_finalizer,
}

module _ (r : Reconciler) where
  abbrev pub is_cleared : PluginObject → Local (D r) → Bool
  is_cleared plugin s = is_current plugin && plugin_may_install r s.manager.provides plugin

  -- With enforcement, a Plugin that is not cleared leaves the node as it is: its binary, its entry
  -- in the shared file and what the manager keeps of it.
  pub plugin_program-guarded :
      (server : r.server.State) (observed : Option (Map String String)) (plugin : PluginObject)
      (s : Local (D r))
      → r.enforce_requirements ≡ true
      → is_cleared plugin s ≡ false
      → Untouched r s (program r server observed plugin s).1
  unfolding program mark_blocked
  plugin_program-guarded server observed plugin s e h =
      let refs = secret_reference r server plugin.meta plugin.oci_artifact in
      let step = enforce_reference_resolution r plugin.meta.generation refs s in
      let u = references-Untouched r plugin.meta.generation refs s in
      elim (Result-cases step.0) [
        | inr (x, q) ↦ ground arith
        | inl (x, q) ↦
            let checked =
              enforce_plugin_compatibility r step.1.manager.provides step.1.installed plugin
                step.1.conditions in
            let decides =
              enforce_plugin_compatibility-decides r step.1.manager.provides step.1.installed plugin
                step.1.conditions in
            elim (Result-cases checked.0) [
              | inr (y, z) ↦ ground arith
              | inl (true, z) ↦ ground arith
              | inl (false, z) ↦ ground (arith, decides false z)
            ]
      ]

  -- While a Rulesfile on the node needs the plugin, its deletion touches neither the disk nor the
  -- manager, and the node object keeps its finalizers.
  pub handle_deletion-blocked :
      (node : NodeObject) (w : World r) (ref : OwnerRef) (config_name : String) (gen : ℕ) (k : Key)
      (ks : List Key)
      → node.is_deleted ≡ true
      → contains node.finalizers plugin_node_finalizer ≡ true
      → first_owner kind_plugin node.owner_references ≡ some ref
      → ref.name ≢ ""
      → entry_of ref (r.get_plugin w.server node.namespace ref.name) ≡ ok (config_name, gen)
      → remove_blockers r.env w.manager config_name ≡ k ∷ ks
      → ((handle_deletion r node w).1.disk ≡ w.disk)
        × ((handle_deletion r node w).1.manager ≡ w.manager)
        × (r.server.get (handle_deletion r node w).1.server ≡ r.server.get w.server)
  unfolding handle_deletion when_deleted clean_up remove_plugin_config_by_name
  handle_deletion-blocked node w ref config_name gen k ks d c o n e b =
      let status = blocked_status r node gen (change (blocked config_name (k ∷ ks))) w in
      elim (Result-cases (r.patch_status w.server status).0) [
        | inl (x, q) ↦ ground (arith, eq_iff ref.name "", r.patch_status-get w.server status)
        | inr (x, q) ↦ ground (arith, eq_iff ref.name "", r.patch_status-get w.server status)
      ]
