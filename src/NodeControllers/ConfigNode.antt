-- ===== src/NodeControllers/ConfigNode.antt =====
-- controllers/artifact/config/controller.go
pub mod Guarded
use falco_operator.Common.{
  ℕ, String, Bool, true, false, not, List, [], ◌∷◌, Option, none, some, Result, ok, err,
  if◌then◌else◌, nat_eq, ◌==◌, is_some, append,
}
use falco_operator.Artifact.{ArtifactType, medium_inline, medium_config_map}
use falco_operator.ControllerHelper.Conditions.{Status}
use falco_operator.ControllerHelper.Programmed.{
  new_inline_artifact_programmed_condition, new_config_map_artifact_programmed_condition,
  condition_inline_artifact_programmed, condition_config_map_artifact_programmed,
}
use falco_operator.NodeControllers.{
  Reconciler, ReconcileError, Local, Attempt, and_then, Reconciled, done, failed, ConfigObject,
  NodeObject, get_verified_owner, kind_config,
}
use falco_operator.NodeControllers.Sources.{
  D, SourceConditions, ensure_inline, ensure_config_map, cleanup_stale_medium,
  enforce_reference_resolution, config_map_reference,
}
use falco_operator.NodeControllers.Reconcile.{
  World, local_of, finish, release, when_deleted, with_finalizer, unless_handled, with_parent,
  with_node_object,
}

abbrev pub config_node_finalizer : String
config_node_finalizer = "confignode.artifact.falcosecurity.dev/finalizer"

abbrev pub inline_config_conditions : SourceConditions
inline_config_conditions = record {
  on_error = λ e gen.
      new_inline_artifact_programmed_condition Status.status_false "InlineArtifactProgramFailed"
        (append "Failed to store config: " e) gen;
  on_success = λ gen.
      new_inline_artifact_programmed_condition Status.status_true "InlineArtifactProgrammed"
        "Inline artifact stored successfully" gen;
}

abbrev pub config_map_config_conditions : SourceConditions
config_map_config_conditions = record {
  on_error = λ e gen.
      new_config_map_artifact_programmed_condition Status.status_false
        "ConfigMapArtifactProgramFailed" (append "Failed to store ConfigMap config: " e) gen;
  on_success = λ gen.
      new_config_map_artifact_programmed_condition Status.status_true "ConfigMapArtifactProgrammed"
        "ConfigMap artifact stored successfully" gen;
}

abbrev pub is_current : ConfigObject → Bool
is_current config = config.meta.observed_generation == config.meta.generation

abbrev pub uid_of : ConfigObject → String
uid_of config = config.meta.uid

-- A Config's gate skips no condition.
abbrev pub skip_nothing : String → Bool
skip_nothing type = false

module _ (r : Reconciler) where
  unfoldable pub cleanup_stale : ConfigObject → Local (D r) → Attempt (D r) (Unit {0})
  cleanup_stale config s =
      and_then
        (cleanup_stale_medium r (is_some config.config) medium_inline
          condition_inline_artifact_programmed s)
        (λ _.
          cleanup_stale_medium r (is_some config.config_map_ref) medium_config_map
            condition_config_map_artifact_programmed)

  unfoldable pub store_inline : ConfigObject → Local (D r) → Attempt (D r) (Unit {0})
  store_inline config s = elim config.config [
    | none ↦ (ok tt, s)
    | some raw ↦
        ensure_inline r inline_config_conditions config.meta config.priority ArtifactType.config
          (some raw) s
  ]

  unfoldable pub store_config_map : ConfigObject → Local (D r) → Attempt (D r) (Unit {0})
  store_config_map config s = elim config.config_map_ref [
    | none ↦ (ok tt, s)
    | some name ↦
        ensure_config_map r config_map_config_conditions config.meta config.priority
          ArtifactType.config name s
  ]

  unfoldable pub ensure_config : ConfigObject → Local (D r) → Attempt (D r) (Unit {0})
  unfolding cleanup_stale store_inline store_config_map
  ensure_config config s =
      and_then (and_then (cleanup_stale config s) (λ _. store_inline config))
        (λ _. store_config_map config)

  abbrev plain : Result ReconcileError (Unit {0}) × Local (D r) → Reconciled × Local (D r)
  plain (ok _, s) = (done, s)
  plain (err e, s) = (failed e, s)

  abbrev pub after_references :
      ConfigObject → Result ReconcileError (Unit {0}) × Local (D r) → Reconciled × Local (D r)
  after_references config (err e, s) = (failed e, s)
  after_references config (ok _, s) =
      if not (is_current config) then (done, s) else plain (ensure_config config s)

  -- The body of `Reconcile`, between the read of the parent and the deferred patch.
  unfoldable pub program : r.server.State → ConfigObject → Local (D r) → Reconciled × Local (D r)
  unfolding ensure_config
  program server config s = after_references config (
      enforce_reference_resolution r config.meta.generation
        (config_map_reference r server config.meta config.config_map_ref) s)

  unfoldable pub handle_deletion : NodeObject → World r → Result ReconcileError Bool × World r
  handle_deletion node w =
      when_deleted r config_node_finalizer node (release r config_node_finalizer node (λ m. m)) w

  abbrev pub program_and_finish : NodeObject → ConfigObject → World r → Reconciled × World r
  program_and_finish node config w =
      finish r skip_nothing config.meta.generation node.status w.server
        (program w.server config (local_of r node w))

  unfoldable pub reconcile_node : NodeObject → World r → Reconciled × World r
  unfolding handle_deletion
  reconcile_node node w = unless_handled r (handle_deletion node w) (λ w1.
      unless_handled r (with_finalizer r config_node_finalizer node w1) (λ w2.
        with_parent r
          (get_verified_owner uid_of (r.get_config w2.server node.namespace) kind_config
            node.owner_references)
          w2 (program_and_finish node)))

  unfoldable pub reconcile : World r → Reconciled × World r
  unfolding reconcile_node
  reconcile w = with_node_object r (r.get_node w.server) w reconcile_node
