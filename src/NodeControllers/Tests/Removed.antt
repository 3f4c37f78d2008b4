-- ===== src/NodeControllers/Tests/Removed.antt =====
-- Deletions of a plugin's node object, with and without a Rulesfile that needs the plugin.
use falco_operator.Common.{
  eq_iff, true, [], ◌∷◌, some, ok, ◌≡◌, ◌≢◌, refl, arith, contains, lookup, string_eq,
}
use falco_operator.Compat.{validate_plugin_dependency, plugin_version_compatible}
use falco_operator.Artifact.Store.{store}
use falco_operator.NodeArtifacts.{Manager, key_eq}
use falco_operator.NodeArtifacts.Entries.{resolve_config_name}
use falco_operator.NodeArtifacts.Registry.{
  names, check_dependency_locked, first_observed, blocked_by_others, any_loses, loses,
}
use falco_operator.NodeArtifacts.Changes.{remove_blockers}
use falco_operator.NodeArtifacts.Tests.{env, manager, rules, requirement}
use falco_operator.ControllerHelper.Tests.{server}
use falco_operator.NodeControllers.{Reconciler, NodeObject, OwnerRef, kind_plugin, first_owner}
use falco_operator.NodeControllers.Reconcile.{World}
use falco_operator.NodeControllers.PluginNode.Reconcile.{
  handle_deletion, entry_of, plugin_node_finalizer,
}
use falco_operator.NodeControllers.PluginNode.Guarded.{handle_deletion-blocked}
use falco_operator.NodeControllers.Tests.{reconciler, deleted_node, plugin}

abbrev leaving : NodeObject
leaving = deleted_node plugin_node_finalizer kind_plugin "json-cr" "plugins/json-cr.so"

abbrev the_reconciler : Reconciler
the_reconciler = reconciler leaving "1.0.0"

-- The rules need "json" and nothing stands in for it.
abbrev needed : Manager
needed = record manager { requires = (rules, (requirement "json" ∷ []) ∷ []) ∷ [] }

-- The installed binary is on the disk.
abbrev binary : env.store.Disk
binary = ("plugins/json-cr.so", 7 ∷ []) ∷ []

abbrev world : Manager → World the_reconciler
world m = record { server = plugin_node_finalizer ∷ []; manager = m; disk = binary }

abbrev owner : OwnerRef
owner = record { kind = kind_plugin; name = "json-cr"; uid = "uid-1" }

has_it : contains leaving.finalizers plugin_node_finalizer ≡ true
unfolding contains
has_it = refl

owned : first_owner kind_plugin leaving.owner_references ≡ some owner
unfolding first_owner
owned = refl

named : owner.name ≢ ""
named e = ground (arith, e, eq_iff "json-cr" "")

entry : entry_of owner (ok (plugin "1.0.0")) ≡ ok ("json", 3)
unfolding resolve_config_name
entry = refl

blockers : remove_blockers env needed "json" ≡ rules ∷ []
unfolding remove_blockers blocked_by_others check_dependency_locked validate_plugin_dependency
    plugin_version_compatible lookup contains names any_loses loses first_observed
blockers = refl

handle_deletion-blocked_example :
    ((handle_deletion the_reconciler leaving (world needed)).1.disk ≡ binary)
    × ((handle_deletion the_reconciler leaving (world needed)).1.manager ≡ needed)
    × (server.get (handle_deletion the_reconciler leaving (world needed)).1.server
        ≡ server.get (plugin_node_finalizer ∷ []))
handle_deletion-blocked_example =
    handle_deletion-blocked the_reconciler leaving (world needed) owner "json" 3 rules [] refl
      has_it owned named entry blockers
