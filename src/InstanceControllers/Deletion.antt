-- ===== src/InstanceControllers/Deletion.antt =====
-- What the deletion of a Rulesfile waits for.
use falco_operator.Common.{
  true, List, [], ◌∷◌, none, ok, ◌≡◌, arith, Result-cases, inl, inr, some, ◌≢◌, lookup, ℕ, String,
  refl, string_eq,
}
use falco_operator.ArtifactCache.{remove_all, Cache, is_of}
use falco_operator.InstanceControllers.{
  type_rulesfile, release_rulesfile, evict_and_release, Aggregator, World, cluster, handle_deletion,
  running_nodes,
}
use falco_operator.ArtifactCache.Disk.{IndexKey, key_eq}
use falco_operator.ArtifactCache.Steps.Removed.{remove_all-removes}
use falco_operator.ControllerHelper.Finalizers.{ApiError}
use falco_operator.ControllerHelper.OwnedNodes.{
  OwnedNode, Names, clear_finalizers_if_node_or_pod_gone, delete_node_object, delete_all,
  delete_node_objects_for_parent_deletion,
}

module _ (r : Aggregator) where
  clear-get :
      (running : Names) (object : OwnedNode) (s : r.server.State)
      → r.server.get (clear_finalizers_if_node_or_pod_gone (cluster r) running object s).1
        ≡ r.server.get s
  unfolding clear_finalizers_if_node_or_pod_gone
  clear-get running object s = elim (Result-cases (r.get_kubernetes_node s object.node_name)) [
    | inl (x, e) ↦ ground (arith, r.drop_finalizers-get s object.name)
    | inr (ApiError.not_found, e) ↦ ground (arith, r.drop_finalizers-get s object.name)
    | inr (ApiError.conflict, e) ↦ ground (arith, r.drop_finalizers-get s object.name)
    | inr (ApiError.other x, e) ↦ ground (arith, r.drop_finalizers-get s object.name)
  ]

  delete-get :
      (object : OwnedNode) (s : r.server.State)
      → r.server.get (delete_node_object (cluster r) object s).1 ≡ r.server.get s
  unfolding delete_node_object
  delete-get object s = r.delete_object-get s object.name

  delete_all-get :
      (existing : List OwnedNode) (running : Names) (s : r.server.State)
      → r.server.get (delete_all (cluster r) existing running s).1 ≡ r.server.get s
  unfolding delete_all
  delete_all-get [] running s = refl
  delete_all-get (object ∷ rest) running s =
      let cleared = clear_finalizers_if_node_or_pod_gone (cluster r) running object s in
      elim (Result-cases cleared.0) [
        | inr (x, e) ↦ ground (arith, clear-get running object s)
        | inl (x, e) ↦
            let deleted = delete_node_object (cluster r) object cleared.1 in
            elim (Result-cases deleted.0) [
              | inr (y, q) ↦ ground (
                arith,
                clear-get running object s,
                delete-get object cleared.1,
                delete_all-get rest running cleared.1,
              )
              | inl (y, q) ↦ ground (
                arith,
                clear-get running object s,
                delete-get object cleared.1,
                delete_all-get rest running cleared.1,
                delete_all-get rest running deleted.1,
              )
            ]
      ]

  -- While a node object of the Rulesfile is left, its deletion keeps the finalizers of the Rulesfile
  -- and the entries of the blob cache, whatever goes wrong.
  pub handle_deletion-waits :
      (now : ℕ) (namespace name : String) (w : World r) (object : OwnedNode) (rest : List OwnedNode)
      → r.list_owned w.server ≡ ok (object ∷ rest)
      → (r.server.get (handle_deletion r now namespace name w).1.server ≡ r.server.get w.server)
        × ((handle_deletion r now namespace name w).1.cache ≡ w.cache)
        × ((handle_deletion r now namespace name w).1.disk ≡ w.disk)
  unfolding handle_deletion delete_node_objects_for_parent_deletion
  handle_deletion-waits now namespace name w object rest h =
      elim (Result-cases (running_nodes r (object ∷ rest) w.server)) [
        | inr (x, e) ↦ ground arith
        | inl (running, e) ↦
            let deleted = delete_all (cluster r) (object ∷ rest) running w.server in
            elim (Result-cases deleted.0) [
              | inr (x, q) ↦ ground (arith, delete_all-get (object ∷ rest) running w.server)
              | inl (x, q) ↦ ground (arith, delete_all-get (object ∷ rest) running w.server)
            ]
      ]

  released_after :
      (now : ℕ) (namespace name : String) (w : World r) (c gone : Cache) (key : IndexKey)
      → w.cache ≡ some c
      → is_of type_rulesfile namespace name key ≡ true
      → r.server.get (evict_and_release r now namespace name w).1.server ≢ r.server.get w.server
      → (evict_and_release r now namespace name w).1.cache ≡ some gone
      → lookup key gone.index ≡ none
  unfolding release_rulesfile
  released_after now namespace name w c gone key h k changed after =
      let removed = remove_all r.blobs now type_rulesfile namespace name c w.disk in
      elim (Result-cases removed.0) [
        | inr (x, e) ↦ ground (arith, h, e, changed)
        | inl (x, e) ↦ ground (
          arith,
          h,
          e,
          after,
          remove_all-removes r.blobs now type_rulesfile namespace name c w.disk key k,
        )
      ]

  -- Where the blob cache is on, a round of the deletion that changes the finalizers of the Rulesfile
  -- leaves no entry of the Rulesfile in the cache.
  pub handle_deletion-evicts :
      (now : ℕ) (namespace name : String) (w : World r) (c gone : Cache) (key : IndexKey)
      → w.cache ≡ some c
      → is_of type_rulesfile namespace name key ≡ true
      → r.server.get (handle_deletion r now namespace name w).1.server ≢ r.server.get w.server
      → (handle_deletion r now namespace name w).1.cache ≡ some gone
      → lookup key gone.index ≡ none
  unfolding handle_deletion delete_node_objects_for_parent_deletion delete_all
  handle_deletion-evicts now namespace name w c gone key h k changed after =
      elim (Result-cases (r.list_owned w.server)) [
        | inr (x, e) ↦ ground (arith, e, changed)
        | inl (object ∷ rest, e) ↦
            ground (arith, handle_deletion-waits now namespace name w object rest e, changed)
        | inl ([], e) ↦
            ground (arith, e, changed, after, released_after now namespace name w c gone key h k)
      ]
