-- ===== src/InstanceControllers/Tests.antt =====
-- The assignment and the deletion of a concrete Rulesfile.
use falco_operator.Common.{
  insert, lookup, some, String, true, false, List, [], ◌∷◌, none, Result, ok, err, ◌≡◌, ◌≢◌, refl,
  arith, contains, string_eq, eq_iff,
}
use falco_operator.ArtifactCache.{
  Cache, remove_all, remove_entries, remove_found, blobs_of, entries_without, persist_index_locked,
}
use falco_operator.ArtifactCache.Disk.{IndexKey, key_eq}
use falco_operator.ControllerHelper.Finalizers.{
  reconcile_in_use_finalizer, is_legacy_parent_finalizer, ApiError,
}
use falco_operator.InstanceControllers.{
  release_rulesfile, type_rulesfile, Aggregator, World, cluster, handle_deletion,
  node_objects_in_use_finalizer,
}
use falco_operator.InstanceControllers.Deletion.{handle_deletion-evicts, handle_deletion-waits}
use falco_operator.ControllerHelper.OwnedNodes.{
  delete_node_objects_for_parent_deletion, delete_all, OwnedNode, Pod,
  list_falco_running_node_names, running_pods, delete_stale_node_objects,
}
use falco_operator.ArtifactCache.Tests.{disk}
use falco_operator.ControllerHelper.Tests.{server}
use falco_operator.ControllerHelper.OwnedNodes.Assigned.{
  hosts, list_falco_running_node_names-hosts, stale_of, delete_stale_node_objects-stale,
}

abbrev object : String → OwnedNode
object node = record { name = node; node_name = node; is_deleted = false; has_finalizers = true }

abbrev node_1 : String
node_1 = "node-1"

abbrev pods : String → Result ApiError (List Pod)
pods falco = ok (record { is_running = true; node_name = "node-1" } ∷ [])

-- The finalizers of the Rulesfile are the whole state; one node object is left.
abbrev aggregator : Aggregator
aggregator = record {
  server = server;
  blobs = disk;
  list_owned = λ s. ok (object "node-1" ∷ []);
  list_falcos = λ s. ok ("falco" ∷ []);
  list_pods = λ s falco. pods falco;
  get_kubernetes_node = λ s node. ok tt;
  drop_finalizers = λ s name. (ok tt, s);
  delete_object = λ s name. (ok tt, s);
  get_object = λ s name. err ApiError.not_found;
  create_object = λ s name node meta. (ok tt, s);
  patch_object = λ s name meta. (ok tt, s);
  short_hash = λ s. "01234567";
  drop_finalizers-get = λ s name. refl;
  delete_object-get = λ s name. refl;
}

abbrev world : World aggregator
world = record { server = node_objects_in_use_finalizer ∷ []; cache = none; disk = [] }

handle_deletion-waits_example :
    (server.get (handle_deletion aggregator 0 "falco" "rules" world).1.server
      ≡ server.get world.server)
    × ((handle_deletion aggregator 0 "falco" "rules" world).1.cache ≡ none)
    × ((handle_deletion aggregator 0 "falco" "rules" world).1.disk ≡ world.disk)
handle_deletion-waits_example =
    handle_deletion-waits aggregator 0 "falco" "rules" world (object "node-1") [] refl

node_named : node_1 ≢ ""
node_named e = ground (arith, e, eq_iff node_1 "")

listed : list_falco_running_node_names ("falco" ∷ []) pods ≡ ok ("node-1" ∷ [])
unfolding list_falco_running_node_names running_pods
listed = refl

list_falco_running_node_names-hosts_example :
    contains (node_1 ∷ []) node_1 ≡ hosts node_1 ("falco" ∷ []) pods
list_falco_running_node_names-hosts_example =
    list_falco_running_node_names-hosts node_1 ("falco" ∷ []) pods (node_1 ∷ []) node_named listed

delete_stale_node_objects-stale_example :
    delete_stale_node_objects
      (cluster aggregator)
      (object "node-1" ∷ object "node-2" ∷ [])
      ("node-1" ∷ [])
      ("node-1" ∷ [])
      []
    ≡ delete_stale_node_objects
        (cluster aggregator)
        (stale_of ("node-1" ∷ []) (object "node-1" ∷ object "node-2" ∷ []))
        ("node-1" ∷ [])
        ("node-1" ∷ [])
        []
delete_stale_node_objects-stale_example =
    delete_stale_node_objects-stale (cluster aggregator) (object "node-1" ∷ object "node-2" ∷ [])
      ("node-1" ∷ []) ("node-1" ∷ []) []

-- The last round: no node object is left, and the cache has an entry of the Rulesfile.
abbrev settled : Aggregator
settled = record aggregator { list_owned = λ s. ok [] }

abbrev key : IndexKey
key = record {
  artifact_type = type_rulesfile;
  namespace = "falco";
  name = "rules";
  platform_key = "";
}

abbrev cached : Cache
cached = record {
  index = (key, "blob") ∷ [];
  refs = ("blob", 1) ∷ [];
  deref_times = [];
  eviction_grace_period = 60;
}

abbrev last : World settled
last = record {
  server = node_objects_in_use_finalizer ∷ [];
  cache = some cached;
  disk = ("blob", "rules") ∷ [];
}

-- What the round leaves of the cache.
abbrev emptied : Cache
emptied = (remove_all disk 3 type_rulesfile "falco" "rules" cached last.disk).1

is_unlocked : server.get (handle_deletion settled 3 "falco" "rules" last).1.server ≡ ok []
unfolding handle_deletion release_rulesfile delete_node_objects_for_parent_deletion delete_all
    reconcile_in_use_finalizer is_legacy_parent_finalizer contains remove_all remove_entries
    remove_found blobs_of entries_without persist_index_locked lookup insert
is_unlocked = refl

changed :
    server.get (handle_deletion settled 3 "falco" "rules" last).1.server ≢ server.get last.server
changed e = ground (arith, e, is_unlocked)

leaves : (handle_deletion settled 3 "falco" "rules" last).1.cache ≡ some emptied
unfolding handle_deletion release_rulesfile delete_node_objects_for_parent_deletion delete_all
    reconcile_in_use_finalizer is_legacy_parent_finalizer contains remove_all remove_entries
    remove_found blobs_of entries_without persist_index_locked lookup insert
leaves = refl

handle_deletion-evicts_example : lookup key emptied.index ≡ none
handle_deletion-evicts_example =
    handle_deletion-evicts settled 3 "falco" "rules" last cached emptied key refl refl changed
      leaves
