-- ===== src/NodeControllers/Tests/Blocked.antt =====
-- Rounds of the Rulesfile and Plugin controllers whose requirements the node does not meet.
use falco_operator.Common.{
  Bool, err, ◌⊎◌, not, ◌&&◌, string_eq, true, false, [], ◌∷◌, none, some, ok, ◌≡◌, refl, arith,
  lookup,
}
use falco_operator.NodeControllers.{
  ReconcileError, Reconciler, NodeObject, RulesfileObject, Local, kind_rulesfile, kind_plugin,
  OwnerRef, first_owner,
}
use falco_operator.NodeControllers.Reconcile.{
  World, local_of, set_programmed, skip_dependencies_satisfied,
}
use falco_operator.Compat.{semver_at_least}
use falco_operator.NodeArtifacts.Registry.{check_requirement, version_satisfies}
use falco_operator.NodeArtifacts.Tests.{env, manager}
use falco_operator.ControllerHelper.Programmed.{withholds, condition_programmed}
use falco_operator.NodeControllers.Sources.{D}
use falco_operator.NodeControllers.RulesfileNode.Compatibility.{
  enforce_rulesfile_compatibility, check_requirements, check_engine_requirement, check_dependencies,
  not_satisfied,
}
use falco_operator.NodeControllers.Outcome.{dependencies_not_satisfied_outcome}
use falco_operator.NodeControllers.RulesfileNode.Failed.{enforce_rulesfile_compatibility-answers}
use falco_operator.NodeControllers.RulesfileNode.Decided.{may_install, all_requirements_met}
use falco_operator.NodeControllers.RulesfileNode.Reconcile.{
  program, reconcile, rulesfile_node_finalizer,
}
use falco_operator.NodeControllers.RulesfileNode.Guarded.{is_cleared, program-not_programmed}
use falco_operator.NodeControllers.RulesfileNode.Rounds.{reconcile-guarded}
use falco_operator.NodeControllers.Sources.Kept.{Untouched}
use falco_operator.NodeControllers.PluginNode.Compatibility.{plugin_may_install}
use falco_operator.NodeControllers.PluginNode.Reconcile.{
  program as plugin_program, plugin_node_finalizer,
}
use falco_operator.NodeControllers.PluginNode.Guarded.{
  is_cleared as plugin_is_cleared, plugin_program-guarded,
}
use falco_operator.ControllerHelper.Tests.{server}
use falco_operator.NodeArtifacts.{key_eq}
use falco_operator.NodeControllers.Tests.{reconciler, node, deleted_node, rulesfile, plugin}

abbrev live : NodeObject
live = node false rulesfile_node_finalizer kind_rulesfile "rules"

abbrev enforcing : Reconciler
enforcing = reconciler live "2.0.0"

abbrev world : World enforcing
world = record { server = rulesfile_node_finalizer ∷ []; manager = manager; disk = [] }

abbrev state : Local (D enforcing)
state = local_of enforcing live world

may_not_install : may_install env.versions manager.provides (rulesfile "2.0.0") ≡ false
unfolding may_install all_requirements_met check_requirement version_satisfies semver_at_least
    lookup
may_not_install = refl

skips :
    (enforce_rulesfile_compatibility enforcing manager.provides [] (rulesfile "2.0.0") []).0
    ≡ ok true
unfolding enforce_rulesfile_compatibility check_requirements check_engine_requirement
    check_dependencies not_satisfied dependencies_not_satisfied_outcome check_requirement
    version_satisfies semver_at_least lookup
skips = refl

enforce_rulesfile_compatibility-answers_example :
    ((skip : Bool) × ((enforce_rulesfile_compatibility enforcing manager.provides []
          (rulesfile "2.0.0")
          []).0
        ≡ ok skip)
      × (skip ≡ (
          enforcing.enforce_requirements
          && not (may_install env.versions manager.provides (rulesfile "2.0.0")))))
    ⊎ ((x : ReconcileError) × ((enforce_rulesfile_compatibility enforcing manager.provides []
            (rulesfile "2.0.0")
            []).0
          ≡ err x)
        × (may_install env.versions manager.provides (rulesfile "2.0.0") ≡ false))
enforce_rulesfile_compatibility-answers_example =
    enforce_rulesfile_compatibility-answers enforcing manager.provides [] (rulesfile "2.0.0") []

program-not_programmed_example :
    withholds condition_programmed
      (set_programmed enforcing
        (skip_dependencies_satisfied enforcing)
        3
        (program enforcing world.server (rulesfile "2.0.0") state).1).conditions
    ≡ true
program-not_programmed_example =
    program-not_programmed enforcing world.server (rulesfile "2.0.0") state 3 refl refl
      may_not_install refl

not_cleared : is_cleared enforcing (rulesfile "2.0.0") state ≡ false
not_cleared = may_not_install

owners_not_cleared :
    (ref : OwnerRef) (found : RulesfileObject)
    → first_owner kind_rulesfile live.owner_references ≡ some ref
    → enforcing.get_rulesfile world.server live.namespace ref.name ≡ ok found
    → found.meta.uid ≡ ref.uid
    → is_cleared enforcing found state ≡ false
owners_not_cleared ref found o g u = ground (arith, not_cleared, g)

reconcile-guarded_example :
    ((reconcile enforcing world).1.disk ≡ world.disk)
    × ((reconcile enforcing world).1.manager ≡ world.manager)
reconcile-guarded_example = reconcile-guarded enforcing live world refl refl refl owners_not_cleared

abbrev plugin_live : NodeObject
plugin_live = node false plugin_node_finalizer kind_plugin "json-cr"

plugin_not_cleared : plugin_is_cleared enforcing (plugin "2.0.0") state ≡ false
unfolding plugin_may_install all_requirements_met check_requirement version_satisfies
    semver_at_least lookup
plugin_not_cleared = refl

plugin_program-guarded_example :
    Untouched enforcing state (plugin_program enforcing world.server none (plugin "2.0.0") state).1
plugin_program-guarded_example =
    plugin_program-guarded enforcing world.server none (plugin "2.0.0") state refl
      plugin_not_cleared

abbrev leaving : NodeObject
leaving = deleted_node rulesfile_node_finalizer kind_rulesfile "rules" "rules/rules.yaml"

-- The installed file is on the disk.
abbrev installed_world : World enforcing
installed_world = record world { disk = ("rules/rules.yaml", 7 ∷ []) ∷ [] }
