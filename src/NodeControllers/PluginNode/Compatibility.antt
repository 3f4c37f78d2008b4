-- ===== src/NodeControllers/PluginNode/Compatibility.antt =====
-- `enforcePluginCompatibility` of controllers/artifact/plugin/controller.go, and what it decides.
-- The conditions are set by the functions that the Rulesfile controller has too.
use falco_operator.Common.{
  ℕ, String, Bool, true, false, ◌&&◌, ◌||◌, not, List, [], ◌∷◌, Option, none, some, Result, ok, err,
  append, is_some, if◌then◌else◌, Map, ◌==◌, string_eq, ◌≡◌, arith, Option-cases, inl, inr,
}
use falco_operator.Compat.{capability_plugin_api_version}
use falco_operator.Artifact.{InstalledArtifact, medium_oci}
use falco_operator.Artifact.Installed.{find_installed}
use falco_operator.Metadata.{MetaRequirement, ArtifactMeta}
use falco_operator.NodeArtifacts.{Provided}
use falco_operator.NodeArtifacts.Registry.{RequirementCheck, check_requirement}
use falco_operator.ControllerHelper.Conditions.{Status}
use falco_operator.ControllerHelper.Programmed.{condition_dependencies_satisfied}
use falco_operator.NodeControllers.{Reconciler, ReconcileError, version, PluginObject}
use falco_operator.NodeControllers.Outcome.{
  dependencies_not_satisfied_outcome, reason_dependencies_unknown, reason_update_rejected,
  message_suffix_update_rejected,
}
use falco_operator.NodeControllers.RulesfileNode.Compatibility.{
  Conditions, set_condition, not_satisfied, compare_message, nothing_declared, all_satisfied,
  base_message, not_empty, at_least_text, empty_message,
}
use falco_operator.NodeControllers.RulesfileNode.Decided.{all_requirements_met}

abbrev unmet_message : MetaRequirement → RequirementCheck → String
unmet_message req c =
    if not c.found
    then append "Plugin requires " (
        append (at_least_text req.name req.version) " but Falco does not advertise this capability")
    else if req.name == capability_plugin_api_version
    then append "Plugin requires plugin_api_version " (
        append req.version (
          append " but Falco reports "
            (append c.provided_version ": major versions are incompatible")))
    else append "Plugin requires " (
        append (at_least_text req.name req.version)
          (append " but Falco reports " c.provided_version))

abbrev meta_requirements_met : (List MetaRequirement → Bool) → Option ArtifactMeta → Bool
meta_requirements_met is_met none = false
meta_requirements_met is_met (some meta) = not_empty meta.requirements && is_met meta.requirements

module _ (r : Reconciler) where
  -- The loop: the first requirement that is not met decides, in advise mode too.
  unfoldable pub check_plugin_requirements :
      Map String Provided
      → Bool
      → ℕ
      → List MetaRequirement
      → Conditions
      → Result ReconcileError Bool × Conditions
  unfolding not_satisfied
  check_plugin_requirements provides already_installed gen [] conditions =
      (ok false, all_satisfied r gen conditions)
  check_plugin_requirements provides already_installed gen (req ∷ rest) conditions =
      let later = check_plugin_requirements provides already_installed gen rest conditions in
      let c = check_requirement r.env.versions provides req.name req.version in
      elim c.error [
        | some e ↦ (
          err (version req.name e),
          set_condition r Status.status_unknown reason_dependencies_unknown
              (compare_message r req.name e) gen conditions,
        )
        | none ↦
            if c.found && c.satisfied
            then later
            else (let (skip, after) =
                  not_satisfied r already_installed (unmet_message req c) gen conditions in
                (ok skip, after))
      ]

  abbrev check_plugin_meta :
      Map String Provided
      → Bool
      → ℕ
      → ArtifactMeta
      → Conditions
      → Result ReconcileError Bool × Conditions
  check_plugin_meta provides already_installed gen meta conditions =
      if not_empty meta.requirements
      then check_plugin_requirements provides already_installed gen meta.requirements conditions
      else if already_installed
      then nothing_declared r reason_update_rejected
          (append (base_message r) message_suffix_update_rejected) gen conditions
      else nothing_declared r reason_dependencies_unknown (base_message r) gen conditions

  unfoldable pub enforce_plugin_compatibility :
      Map String Provided
      → List InstalledArtifact
      → PluginObject
      → Conditions
      → Result ReconcileError Bool × Conditions
  unfolding check_plugin_requirements
  enforce_plugin_compatibility provides installed plugin conditions =
      if is_some plugin.oci_artifact
      then elim plugin.meta.artifact_meta [
        | none ↦
            nothing_declared r reason_dependencies_unknown (empty_message r true)
              plugin.meta.generation conditions
        | some meta ↦
            check_plugin_meta provides (is_some (find_installed installed medium_oci))
              plugin.meta.generation meta conditions
      ]
      else (ok false, r.status_lib.remove_status condition_dependencies_satisfied conditions)

  -- What enforce mode lets through: a Plugin without an OCI source, whose files are cleaned up, or
  -- one that declares requirements, all of which are met on this node.
  unfoldable pub plugin_may_install : Map String Provided → PluginObject → Bool
  plugin_may_install provides plugin =
      not (is_some plugin.oci_artifact)
      || meta_requirements_met (all_requirements_met r.env.versions provides)
          plugin.meta.artifact_meta

  check_plugin_requirements-decides :
      (provides : Map String Provided) (already : Bool) (gen : ℕ) (reqs : List MetaRequirement)
      (conditions : Conditions) (skip : Bool)
      → (check_plugin_requirements provides already gen reqs conditions).0 ≡ ok skip
      → skip ≡ (r.enforce_requirements && not (all_requirements_met r.env.versions provides reqs))
  unfolding check_plugin_requirements all_requirements_met not_satisfied
      dependencies_not_satisfied_outcome
  check_plugin_requirements-decides provides already gen [] conditions skip h = ground arith
  check_plugin_requirements-decides provides already gen (req ∷ rest) conditions skip h =
      elim (Option-cases (check_requirement r.env.versions provides req.name req.version).error) [
        | inl e ↦
            ground
              (arith, check_plugin_requirements-decides provides already gen rest conditions skip)
        | inr (x, e) ↦ ground arith
      ]

  -- Enforce mode skips exactly the Plugins that may not be installed; advise mode skips none.
  pub enforce_plugin_compatibility-decides :
      (provides : Map String Provided) (installed : List InstalledArtifact) (plugin : PluginObject)
      (conditions : Conditions) (skip : Bool)
      → (enforce_plugin_compatibility provides installed plugin conditions).0 ≡ ok skip
      → skip ≡ (r.enforce_requirements && not (plugin_may_install provides plugin))
  unfolding enforce_plugin_compatibility plugin_may_install
  enforce_plugin_compatibility-decides provides installed plugin conditions skip h =
      elim (Option-cases plugin.meta.artifact_meta) [
        | inl e ↦ ground arith
        | inr (meta, e) ↦ ground (
          arith,
          check_plugin_requirements-decides provides (is_some (find_installed installed medium_oci))
              plugin.meta.generation meta.requirements conditions skip,
        )
      ]
