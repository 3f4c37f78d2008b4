-- ===== src/NodeControllers/RulesfileNode/Sources.antt =====
-- `ensureRulesfile` of controllers/artifact/rulesfile/controller.go.
use falco_operator.Common.{none, some, append, is_some, ok}
use falco_operator.Artifact.{ArtifactType, medium_oci, medium_inline, medium_config_map}
use falco_operator.ControllerHelper.Conditions.{Status}
use falco_operator.ControllerHelper.Programmed.{
  new_inline_artifact_programmed_condition, new_config_map_artifact_programmed_condition,
  condition_oci_artifact_programmed, condition_inline_artifact_programmed,
  condition_config_map_artifact_programmed,
}
use falco_operator.NodeControllers.{Reconciler, Local, Attempt, and_then, RulesfileObject}
use falco_operator.NodeControllers.Sources.{
  D, SourceConditions, ensure_oci, ensure_inline, ensure_config_map, cleanup_stale_medium,
}

abbrev pub inline_rules_conditions : SourceConditions
inline_rules_conditions = record {
  on_error = λ e gen.
      new_inline_artifact_programmed_condition Status.status_false "InlineArtifactProgramFailed"
        (append "Failed to store inline rules: " e) gen;
  on_success = λ gen.
      new_inline_artifact_programmed_condition Status.status_true "InlineArtifactProgrammed"
        "Inline artifact stored successfully" gen;
}

abbrev pub config_map_rules_conditions : SourceConditions
config_map_rules_conditions = record {
  on_error = λ e gen.
      new_config_map_artifact_programmed_condition Status.status_false
        "ConfigMapArtifactProgramFailed" (append "Failed to store ConfigMap rules: " e) gen;
  on_success = λ gen.
      new_config_map_artifact_programmed_condition Status.status_true "ConfigMapArtifactProgrammed"
        "ConfigMap artifact stored successfully" gen;
}

module _ (r : Reconciler) where
  unfoldable pub ensure_oci_rulesfile : RulesfileObject → Local (D r) → Attempt (D r) (Unit {0})
  ensure_oci_rulesfile rulesfile s = elim rulesfile.oci_artifact [
    | none ↦ (ok tt, s)
    | some _ ↦ ensure_oci r rulesfile.meta rulesfile.priority ArtifactType.rulesfile s
  ]

  unfoldable pub ensure_inline_rulesfile : RulesfileObject → Local (D r) → Attempt (D r) (Unit {0})
  ensure_inline_rulesfile rulesfile s = elim rulesfile.inline_rules [
    | none ↦ (ok tt, s)
    | some raw ↦
        ensure_inline r inline_rules_conditions rulesfile.meta rulesfile.priority
          ArtifactType.rulesfile (some raw) s
  ]

  unfoldable pub ensure_config_map_rulesfile :
      RulesfileObject → Local (D r) → Attempt (D r) (Unit {0})
  ensure_config_map_rulesfile rulesfile s = elim rulesfile.config_map_ref [
    | none ↦ (ok tt, s)
    | some name ↦
        ensure_config_map r config_map_rules_conditions rulesfile.meta rulesfile.priority
          ArtifactType.rulesfile name s
  ]

  unfoldable pub cleanup_stale : RulesfileObject → Local (D r) → Attempt (D r) (Unit {0})
  cleanup_stale rulesfile s =
      and_then
        (and_then
          (cleanup_stale_medium r (is_some rulesfile.oci_artifact) medium_oci
            condition_oci_artifact_programmed s)
          (λ _.
            cleanup_stale_medium r (is_some rulesfile.inline_rules) medium_inline
              condition_inline_artifact_programmed))
        (λ _.
          cleanup_stale_medium r (is_some rulesfile.config_map_ref) medium_config_map
            condition_config_map_artifact_programmed)

  unfoldable pub ensure_rulesfile : RulesfileObject → Local (D r) → Attempt (D r) (Unit {0})
  unfolding cleanup_stale ensure_oci_rulesfile ensure_inline_rulesfile ensure_config_map_rulesfile
  ensure_rulesfile rulesfile s =
      and_then
        (and_then (and_then (cleanup_stale rulesfile s) (λ _. ensure_oci_rulesfile rulesfile))
          (λ _. ensure_inline_rulesfile rulesfile))
        (λ _. ensure_config_map_rulesfile rulesfile)
