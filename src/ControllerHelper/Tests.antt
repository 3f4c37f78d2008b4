-- ===== src/ControllerHelper/Tests.antt =====
-- The helpers' theorems at concrete objects.
use falco_operator.Common.{
  String, true, false, List, [], ◌∷◌, ok, err, contains, ◌≡◌, ◌≢◌, refl, arith,
}
use falco_operator.ControllerHelper.Finalizers.{
  ApiError, Server, is_legacy_parent_finalizer, reconcile_in_use_finalizer, desired_finalizers,
}
use falco_operator.ControllerHelper.Finalizers.Reconciled.{IsReconciled, reconcile-IsReconciled}
use falco_operator.ControllerHelper.Conditions.{
  Status, Condition, NodeConditionSet, aggregate_conditions, find_condition,
}
use falco_operator.ControllerHelper.Conditions.Worst.{
  aggregate-worst, status_in, reported, statuses_of,
}

abbrev pub server : Server
server = record {
  State = List String;
  get = λ s. ok s;
  patch = λ s list. (ok tt, list);
  patch-get = λ s list h. refl;
  patch-fails = λ s list n. absurd (n refl);
}

abbrev legacy : String
legacy = "plugin.artifact.falcosecurity.dev/finalizer-node1"

abbrev object : List String
object = "foreign" ∷ legacy ∷ []

patched : (server.patch object (desired_finalizers "in-use" true object)).0 ≢ err ApiError.not_found
patched e = ground (arith, e)

in_use_is_new : is_legacy_parent_finalizer "in-use" ≡ false
unfolding is_legacy_parent_finalizer
in_use_is_new = refl

reconciled : (reconcile_in_use_finalizer server "in-use" true object).0 ≡ ok tt
unfolding reconcile_in_use_finalizer is_legacy_parent_finalizer contains
reconciled = refl

afterwards :
    server.get (reconcile_in_use_finalizer server "in-use" true object).1
    ≡ ok ("foreign" ∷ "in-use" ∷ [])
unfolding reconcile_in_use_finalizer is_legacy_parent_finalizer contains
afterwards = refl

reconcile-IsReconciled_example : IsReconciled "in-use" true object ("foreign" ∷ "in-use" ∷ [])
reconcile-IsReconciled_example =
    reconcile-IsReconciled server "in-use" true object object ("foreign" ∷ "in-use" ∷ [])
      in_use_is_new refl reconciled afterwards patched

abbrev condition : Status → Condition
condition status = record {
  type = "Programmed";
  status = status;
  reason = "r";
  message = "m";
  observed_generation = 0;
}

abbrev node : String → Status → NodeConditionSet
node name status = record { node_name = name; conditions = condition status ∷ [] }

abbrev nodes : List NodeConditionSet
nodes = node "n2" Status.status_unknown ∷ node "n3" Status.status_false ∷ []

aggregate-worst_example :
    status_in
      (find_condition "Programmed" (aggregate_conditions (node "n1" Status.status_true ∷ nodes) 1))
    ≡ reported (statuses_of "Programmed" (node "n1" Status.status_true ∷ nodes))
aggregate-worst_example = aggregate-worst "Programmed" (node "n1" Status.status_true) nodes 1
