-- ===== src/NodeControllers/RulesfileNode/Rounds.antt =====
-- Whole rounds of the Rulesfile controller: `Reconcile` against the API server.
use falco_operator.Common.{
  true, false, none, some, ok, ◌≡◌, arith, string_eq, Result-cases, inl, inr,
}
use falco_operator.NodeControllers.{
  Reconciler, RulesfileObject, NodeObject, get_verified_owner, first_owner, kind_rulesfile,
  OwnerRef,
}
use falco_operator.NodeControllers.Reconcile.{
  World, local_of, with_finalizer, skip_dependencies_satisfied, when_deleted,
}
use falco_operator.NodeControllers.Reconcile.Released.{
  get_verified_owner-live, with_finalizer-same, finish-same,
}
use falco_operator.NodeControllers.RulesfileNode.Reconcile.{
  program, reconcile, reconcile_node, handle_deletion, uid_of, rulesfile_node_finalizer,
  program_and_finish,
}
use falco_operator.NodeControllers.RulesfileNode.Guarded.{is_cleared, program-guarded}

module _ (r : Reconciler) where
  abbrev SameNode : World r → World r → Type 0
  SameNode w v = (v.disk ≡ w.disk) × (v.manager ≡ w.manager)

  program_and_finish-same :
      (node : NodeObject) (rulesfile : RulesfileObject) (w : World r)
      → r.enforce_requirements ≡ true
      → is_cleared r rulesfile (local_of r node w) ≡ false
      → SameNode w (program_and_finish r node rulesfile w).1
  program_and_finish-same node rulesfile w e h =
      let (result, s) = program r w.server rulesfile (local_of r node w) in
      ground (
        arith,
        program-guarded r w.server rulesfile (local_of r node w) e h,
        finish-same r (skip_dependencies_satisfied r) rulesfile.meta.generation node.status w.server
            result s,
      )

  -- With enforcement, a round for a node object that is not being deleted changes neither the disk
  -- nor the manager, unless the Rulesfile that its owner reference was set for is processed and may
  -- be installed.
  pub reconcile-guarded :
      (node : NodeObject) (w : World r)
      → r.get_node w.server ≡ ok node
      → node.is_deleted ≡ false
      → r.enforce_requirements ≡ true
      → ((ref : OwnerRef) (rulesfile : RulesfileObject)
          → first_owner kind_rulesfile node.owner_references ≡ some ref
          → r.get_rulesfile w.server node.namespace ref.name ≡ ok rulesfile
          → rulesfile.meta.uid ≡ ref.uid
          → is_cleared r rulesfile (local_of r node w) ≡ false)
      → SameNode w (reconcile r w).1
  unfolding reconcile reconcile_node handle_deletion when_deleted
  reconcile-guarded node w g d e h =
      let f = with_finalizer r rulesfile_node_finalizer node w in
      let same = with_finalizer-same r rulesfile_node_finalizer node w in
      elim (Result-cases f.0) [
        | inr (x, q) ↦ ground (arith, same)
        | inl (true, q) ↦ ground (arith, same)
        | inl (false, q) ↦
            elim (Result-cases (
              get_verified_owner uid_of (r.get_rulesfile f.1.server node.namespace) kind_rulesfile
                node.owner_references)) [
                  | inr (x, z) ↦ ground (arith, same)
                  | inl (none, z) ↦ ground (arith, same)
                  | inl (some rulesfile, z) ↦
                      let o =
                        get_verified_owner-live uid_of (r.get_rulesfile f.1.server node.namespace)
                          kind_rulesfile node.owner_references rulesfile z in
                      let cleared = h o.0 rulesfile o.1 (ground (arith, o.2, same)) o.3 in
                      ground (
                        arith,
                        same,
                        program_and_finish-same node rulesfile f.1 e
                            (ground (arith, same, cleared)),
                      )
                ]
      ]
