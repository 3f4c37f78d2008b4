-- ===== src/InstanceControllers.antt =====
-- controllers/instance/artifact/rulesfile/controller.go: the deletion of a Rulesfile by the instance
-- operator, and the node objects it keeps for the nodes that run Falco.
pub mod Deletion
pub mod Tests
use falco_operator.Common.{
  ℕ, String, Bool, true, false, not, List, [], ◌∷◌, Option, none, some, Result, ok, err, ◌≡◌, Map,
}
use falco_operator.ArtifactCache.{Cache, remove_all}
use falco_operator.ArtifactCache.Disk.{BlobDisk, CacheError}
use falco_operator.ControllerHelper.Finalizers.{ApiError, Server, reconcile_in_use_finalizer}
use falco_operator.ControllerHelper.NodeObjects.{
  Owner, NodeMeta, node_object_name, enforce_node_object_meta, node_object_labels,
}
use falco_operator.ControllerHelper.OwnedNodes.{
  OwnedNode, Pod, Cluster, Names, list_falco_running_node_names,
  delete_node_objects_for_parent_deletion,
}

abbrev pub node_objects_in_use_finalizer : String
node_objects_in_use_finalizer = "artifact.falcosecurity.dev/node-objects-in-use"

abbrev pub type_rulesfile : String
type_rulesfile = "rulesfile"

pub data AggregatorError : Type 0 where
  api : ApiError → AggregatorError
  cache : CacheError → AggregatorError
  -- The name of a node object that cannot be cut to its length.
  panic : AggregatorError

-- The API server: the finalizers of the Rulesfile (`server`), its node objects, the Kubernetes nodes
-- and the pods. Node objects are other objects than the Rulesfile, so that their deletion leaves its
-- finalizers alone.
pub record Aggregator : Type 1 where
  pub server : Server
  pub blobs : BlobDisk
  pub list_owned : server.State → Result ApiError (List OwnedNode)
  pub list_falcos : server.State → Result ApiError (List String)
  pub list_pods : server.State → String → Result ApiError (List Pod)
  pub get_kubernetes_node : server.State → String → Result ApiError (Unit {0})
  pub drop_finalizers : server.State → String → Result ApiError (Unit {0}) × server.State
  pub delete_object : server.State → String → Result ApiError (Unit {0}) × server.State
  pub get_object : server.State → String → Result ApiError NodeMeta
  pub create_object :
      server.State → String → String → NodeMeta → Result ApiError (Unit {0}) × server.State
  pub patch_object : server.State → String → NodeMeta → Result ApiError (Unit {0}) × server.State
  pub short_hash : String → String
  pub drop_finalizers-get :
      (s : server.State) (name : String) → server.get (drop_finalizers s name).1 ≡ server.get s
  pub delete_object-get :
      (s : server.State) (name : String) → server.get (delete_object s name).1 ≡ server.get s

module _ (r : Aggregator) where
  abbrev pub cluster : Cluster
  cluster = record {
    State = r.server.State;
    get_kubernetes_node = r.get_kubernetes_node;
    drop_finalizers = r.drop_finalizers;
    delete_object = r.delete_object;
  }

  -- The API server, the blob cache, which may be switched off, and its disk.
  pub record World : Type 0 where
    pub server : r.server.State
    pub cache : Option Cache
    pub disk : r.blobs.Disk

  abbrev pub Outcome : Type 0
  Outcome = Result AggregatorError (Unit {0}) × World

  abbrev of_server : World → Result ApiError (Unit {0}) × r.server.State → Outcome
  of_server w (ok _, s) = (ok tt, record w { server = s })
  of_server w (err e, s) = (err (api e), record w { server = s })

  unfoldable pub release_rulesfile : World → Outcome
  release_rulesfile w =
      of_server w (reconcile_in_use_finalizer r.server node_objects_in_use_finalizer false w.server)

  abbrev evicted : World → Result CacheError (Unit {0}) × Cache × r.blobs.Disk → Outcome
  evicted w (ok _, c, disk) = release_rulesfile (record w { cache = some c; disk = disk })
  evicted w (err e, c, disk) = (err (cache e), record w { cache = some c; disk = disk })

  -- The cache entries go in the last round, before the finalizer.
  abbrev evict_and_release : ℕ → String → String → World → Outcome
  evict_and_release now namespace name w = elim w.cache [
    | none ↦ release_rulesfile w
    | some c ↦ evicted w (remove_all r.blobs now type_rulesfile namespace name c w.disk)
  ]

  abbrev after_nodes : ℕ → String → String → World → Result ApiError Bool × r.server.State → Outcome
  after_nodes now namespace name w (err e, s) = (err (api e), record w { server = s })
  after_nodes now namespace name w (ok true, s) = (ok tt, record w { server = s })
  after_nodes now namespace name w (ok false, s) =
      evict_and_release now namespace name (record w { server = s })

  abbrev running_of : r.server.State → Result ApiError (List String) → Result ApiError Names
  running_of s (ok falcos) = list_falco_running_node_names falcos (r.list_pods s)
  running_of s (err e) = err e

  -- The nodes that run Falco are listed only if there is a node object.
  abbrev running_nodes : List OwnedNode → r.server.State → Result ApiError Names
  running_nodes [] s = ok []
  running_nodes (_ ∷ _) s = running_of s (r.list_falcos s)

  unfoldable pub handle_deletion : ℕ → String → String → World → Outcome
  unfolding release_rulesfile
  handle_deletion now namespace name w = elim (r.list_owned w.server) [
    | err e ↦ (err (api e), w)
    | ok existing ↦ elim (running_nodes existing w.server) [
      | err e ↦ (err (api e), w)
      | ok running ↦
          after_nodes now namespace name w
            (delete_node_objects_for_parent_deletion cluster existing running w.server)
    ]
  ]

  abbrev enforced :
      String → r.server.State → Option NodeMeta → Result ApiError (Unit {0}) × r.server.State
  enforced name s none = (ok tt, s)
  enforced name s (some meta) = r.patch_object s name meta

  abbrev created_or_enforced :
      String
      → String
      → Map String String
      → Owner
      → r.server.State
      → Result ApiError NodeMeta
      → Result ApiError (Unit {0}) × r.server.State
  created_or_enforced name node labels owner s (ok existing) =
      enforced name s (enforce_node_object_meta labels owner existing)
  created_or_enforced name node labels owner s (err ApiError.not_found) =
      r.create_object s name node (record { labels = labels; owners = owner ∷ [] })
  created_or_enforced name node labels owner s (err ApiError.conflict) = (err ApiError.conflict, s)
  created_or_enforced name node labels owner s (err (ApiError.other e)) =
      (err (ApiError.other e), s)

  -- A node object is created where it is missing, and its metadata is enforced where it is not.
  unfoldable pub ensure_node_object : Owner → String → String → World → Outcome
  ensure_node_object owner artifact_kind node w =
      elim (node_object_name r.short_hash artifact_kind owner.name node) [
        | none ↦ (err panic, w)
        | some name ↦ of_server w (
            created_or_enforced name node (node_object_labels artifact_kind owner.name node) owner
              w.server (r.get_object w.server name))
      ]

  abbrev and_then : Outcome → (World → Outcome) → Outcome
  and_then (ok _, w) next = next w
  and_then (err e, w) next = (err e, w)

  unfoldable pub ensure_node_objects : Owner → String → List String → World → Outcome
  unfolding ensure_node_object
  ensure_node_objects owner artifact_kind [] w = (ok tt, w)
  ensure_node_objects owner artifact_kind (node ∷ rest) w =
      and_then (ensure_node_object owner artifact_kind node w)
        (ensure_node_objects owner artifact_kind rest)
