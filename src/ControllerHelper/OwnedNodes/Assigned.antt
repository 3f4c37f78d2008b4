-- ===== src/ControllerHelper/OwnedNodes/Assigned.antt =====
-- What the assignment of node objects guarantees.
use falco_operator.Common.{
  String, Bool, false, ◌&&◌, ◌||◌, List, [], ◌∷◌, Result, ok, err, ◌≡◌, ◌≢◌, refl, arith, ◌==◌,
  string_eq, eq_iff, if◌then◌else◌, contains, Result-cases, inl, inr, Bool-cases,
}
use falco_operator.ControllerHelper.Finalizers.{ApiError}
use falco_operator.ControllerHelper.OwnedNodes.{
  OwnedNode, Pod, Cluster, Names, running_pods, list_falco_running_node_names,
  delete_stale_node_objects, remove_object,
}

-- The node objects on nodes that are not desired.
unfoldable pub stale_of : Names → List OwnedNode → List OwnedNode
stale_of desired [] = []
stale_of desired (object ∷ rest) =
    let stale = stale_of desired rest in
    if contains desired object.node_name then stale else object ∷ stale

-- A pod that runs on the node.
abbrev runs_on : String → List Pod → Bool
runs_on node [] = false
runs_on node (pod ∷ rest) = (pod.is_running && pod.node_name == node) || runs_on node rest

-- Some instance of the list has a running pod on the node.
abbrev pub hosts : String → List String → (String → Result ApiError (List Pod)) → Bool
hosts node [] pods_of = false
hosts node (falco ∷ rest) pods_of =
    elim (pods_of falco) [ ok pods ↦ runs_on node pods | err e ↦ false ] || hosts node rest pods_of

contains-running_pods :
    (node : String) (pods : List Pod) (running : Names)
    → node ≢ ""
    → contains (running_pods pods running) node ≡ (runs_on node pods || contains running node)
unfolding running_pods contains
contains-running_pods node [] running h = refl
contains-running_pods node (pod ∷ rest) running h = ground (
  arith,
  contains-running_pods node rest running h,
  eq_iff pod.node_name node,
  eq_iff pod.node_name "",
)

-- The set of running nodes has a node exactly if a pod of one of the Falco instances runs on it.
pub list_falco_running_node_names-hosts :
    (node : String) (falcos : List String) (pods_of : String → Result ApiError (List Pod))
    (running : Names)
    → node ≢ ""
    → list_falco_running_node_names falcos pods_of ≡ ok running
    → contains running node ≡ hosts node falcos pods_of
unfolding list_falco_running_node_names contains
list_falco_running_node_names-hosts node [] pods_of running h e = ground arith
list_falco_running_node_names-hosts node (falco ∷ rest) pods_of running h e =
    elim (Result-cases (pods_of falco)) [
      | inr (x, q) ↦ ground arith
      | inl (pods, q) ↦ elim (Result-cases (list_falco_running_node_names rest pods_of)) [
        | inr (x, z) ↦ ground arith
        | inl (later, z) ↦ ground (
          arith,
          contains-running_pods node pods later h,
          list_falco_running_node_names-hosts node rest pods_of later h z,
        )
      ]
    ]

module _ (cluster : Cluster) where
  -- Deleting what is stale does to the API server what it would do with the stale objects alone: an
  -- object on a desired node is neither patched nor deleted, and stops nothing.
  pub delete_stale_node_objects-stale :
      (existing : List OwnedNode) (desired running : Names) (s : cluster.State)
      → delete_stale_node_objects cluster existing desired running s
        ≡ delete_stale_node_objects cluster (stale_of desired existing) desired running s
  unfolding delete_stale_node_objects stale_of
  delete_stale_node_objects-stale [] desired running s = refl
  delete_stale_node_objects-stale (object ∷ rest) desired running s =
      elim (Bool-cases (contains desired object.node_name)) [
        | inl e ↦ rw e (delete_stale_node_objects-stale rest desired running s)
        | inr e ↦
            let removed = remove_object cluster running object s in
            elim (Result-cases removed.0) [
              | inl (x, q) ↦
                  ground (arith, delete_stale_node_objects-stale rest desired running removed.1)
              | inr (x, q) ↦ ground arith
            ]
      ]
