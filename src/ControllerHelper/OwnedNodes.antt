-- ===== src/ControllerHelper/OwnedNodes.antt =====
-- internal/pkg/controllerhelper/ownednodes.go and node.go: which nodes an artifact is assigned to,
-- and the deletion of the node objects of the others.
pub mod Assigned
use falco_operator.Common.{
  ℕ, String, Bool, true, false, ◌&&◌, ◌||◌, not, List, [], ◌∷◌, ◌++◌, Option, none, some, Result,
  ok, err, ◌>>=◌, ◌==◌, string_eq, if◌then◌else◌, contains,
}
use falco_operator.ControllerHelper.Finalizers.{ApiError, ignore_not_found}

-- A node object, as far as its deletion goes.
pub record OwnedNode : Type 0 where
  pub name : String
  pub node_name : String
  pub is_deleted : Bool
  pub has_finalizers : Bool

pub record Pod : Type 0 where
  pub is_running : Bool
  pub node_name : String

-- The API server: its Kubernetes nodes, the patch that drops an object's finalizers, and deletion.
pub record Cluster : Type 1 where
  pub State : Type 0
  pub get_kubernetes_node : State → String → Result ApiError (Unit {0})
  pub drop_finalizers : State → String → Result ApiError (Unit {0}) × State
  pub delete_object : State → String → Result ApiError (Unit {0}) × State

-- `map[string]struct{}` is the list of its names.
abbrev pub Names : Type 0
Names = List String

unfoldable pub filter_nodes_by_name : List String → Names → List String
filter_nodes_by_name [] desired = []
filter_nodes_by_name (node ∷ rest) desired =
    let filtered = filter_nodes_by_name rest desired in
    if contains desired node then node ∷ filtered else filtered

unfoldable pub running_pods : List Pod → Names → Names
running_pods [] running = running
running_pods (pod ∷ rest) running =
    let later = running_pods rest running in
    if pod.is_running && not (pod.node_name == "") then pod.node_name ∷ later else later

-- The Falco instances of the namespace, and the pods of each by its name.
unfoldable pub list_falco_running_node_names :
    List String → (String → Result ApiError (List Pod)) → Result ApiError Names
unfolding running_pods
list_falco_running_node_names [] pods_of = ok []
list_falco_running_node_names (falco ∷ rest) pods_of = pods_of falco >>= λ pods.
    list_falco_running_node_names rest pods_of >>= λ later. ok (running_pods pods later)

-- The node objects whose conditions count: those that are assigned and not on their way out.
unfoldable pub active_nodes : List OwnedNode → Names → List OwnedNode
active_nodes [] desired = []
active_nodes (node ∷ rest) desired =
    let active = active_nodes rest desired in
    if node.is_deleted
    then active
    else if contains desired node.node_name
    then node ∷ active
    else active

unfoldable pub is_being_deleted : Result ApiError Bool → Result ApiError Bool
is_being_deleted (ok deleted) = ok deleted
is_being_deleted (err ApiError.not_found) = ok true
is_being_deleted (err ApiError.conflict) = err ApiError.conflict
is_being_deleted (err (ApiError.other e)) = err (ApiError.other e)

module _ (cluster : Cluster) where
  abbrev Outcome : Type 0
  Outcome = Result ApiError (Unit {0}) × cluster.State

  abbrev ignoring : Outcome → Outcome
  ignoring (result, s) = (ignore_not_found result, s)

  abbrev and_next : Outcome → (cluster.State → Outcome) → Outcome
  and_next (ok _, s) next = next s
  and_next (err e, s) next = (err e, s)

  -- A node that runs Falco keeps its finalizers, unless the Kubernetes node is gone.
  abbrev drop_if_gone : OwnedNode → cluster.State → Result ApiError (Unit {0}) → Outcome
  drop_if_gone object s (ok _) = (ok tt, s)
  drop_if_gone object s (err ApiError.not_found) = ignoring (cluster.drop_finalizers s object.name)
  drop_if_gone object s (err ApiError.conflict) = (err ApiError.conflict, s)
  drop_if_gone object s (err (ApiError.other e)) = (err (ApiError.other e), s)

  unfoldable pub clear_finalizers_if_node_or_pod_gone : Names → OwnedNode → cluster.State → Outcome
  clear_finalizers_if_node_or_pod_gone running object s =
      if object.has_finalizers
      then if contains running object.node_name
        then drop_if_gone object s (cluster.get_kubernetes_node s object.node_name)
        else ignoring (cluster.drop_finalizers s object.name)
      else (ok tt, s)

  unfoldable pub delete_node_object : OwnedNode → cluster.State → Outcome
  delete_node_object object s = ignoring (cluster.delete_object s object.name)

  abbrev pub remove_object : Names → OwnedNode → cluster.State → Outcome
  remove_object running object s =
      and_next (clear_finalizers_if_node_or_pod_gone running object s) (delete_node_object object)

  unfoldable pub delete_stale_node_objects :
      List OwnedNode → Names → Names → cluster.State → Outcome
  unfolding clear_finalizers_if_node_or_pod_gone delete_node_object
  delete_stale_node_objects [] desired running s = (ok tt, s)
  delete_stale_node_objects (object ∷ rest) desired running s =
      and_next
        (if contains desired object.node_name then (ok tt, s) else remove_object running object s)
        (delete_stale_node_objects rest desired running)

  abbrev delete_if_live : OwnedNode → cluster.State → Outcome
  delete_if_live object s = if object.is_deleted then (ok tt, s) else delete_node_object object s

  unfoldable pub delete_all : List OwnedNode → Names → cluster.State → Outcome
  unfolding clear_finalizers_if_node_or_pod_gone delete_node_object
  delete_all [] running s = (ok tt, s)
  delete_all (object ∷ rest) running s =
      and_next
        (and_next (clear_finalizers_if_node_or_pod_gone running object s) (delete_if_live object))
        (delete_all rest running)

  abbrev not_empty : List OwnedNode → Bool
  not_empty [] = false
  not_empty (_ ∷ _) = true

  abbrev remaining : Bool → Outcome → Result ApiError Bool × cluster.State
  remaining any (ok _, s) = (ok any, s)
  remaining any (err e, s) = (err e, s)

  -- Whether a node object was there at the start.
  unfoldable pub delete_node_objects_for_parent_deletion :
      List OwnedNode → Names → cluster.State → Result ApiError Bool × cluster.State
  unfolding delete_all
  delete_node_objects_for_parent_deletion existing running s =
      remaining (not_empty existing) (delete_all existing running s)
