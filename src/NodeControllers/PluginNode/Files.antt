-- ===== src/NodeControllers/PluginNode/Files.antt =====
-- `ensurePlugin` and `ensurePluginConfig` of controllers/artifact/plugin/controller.go: the binary,
-- and the entry of the shared plugins-config file.
use falco_operator.Common.{ℕ, String, Option, none, some, Result, ok, err, append, [], ◌∷◌, Map}
use falco_operator.Artifact.{ArtifactType, File, medium_oci, default_priority}
use falco_operator.Artifact.Installed.{
  find_installed, find_installed_config, update_installed_config,
}
use falco_operator.NodeArtifacts.{Manager}
use falco_operator.NodeArtifacts.Changes.{
  ChangeError, blocked, marshal_failed, prepare_failed, store_failed, Outcome, add_plugin_config,
  remove_plugin_config,
}
use falco_operator.ControllerHelper.Conditions.{Status}
use falco_operator.ControllerHelper.Programmed.{
  new_config_programmed_condition, condition_oci_artifact_programmed, condition_config_programmed,
}
use falco_operator.NodeControllers.{Reconciler, change, Local, Attempt, and_then, PluginObject}
use falco_operator.NodeControllers.Sources.{
  D, with_condition, without_condition, ensure_oci, stale_entry, cleared,
}

module _ (r : Reconciler) where
  abbrev with_manager : Manager → D r → Local (D r) → Local (D r)
  with_manager m disk s = record s { manager = m; disk = disk }

  abbrev entry_removed :
      Local (D r) → Result ChangeError (Unit {0}) × Manager × D r → Attempt (D r) (Unit {0})
  entry_removed s (ok _, m, disk) = (ok tt, with_manager m disk s)
  entry_removed s (err e, m, disk) = (err (change e), with_manager m disk s)

  abbrev binary_removed : File → Local (D r) → Attempt (D r) (Unit {0})
  binary_removed f s =
      cleared r medium_oci s (r.env.store.remove s.disk (stale_entry r f medium_oci ∷ []))

  abbrev condition_removed : String → Local (D r) → Attempt (D r) (Unit {0})
  condition_removed type s = (ok tt, without_condition r type s)

  -- The spec has no OCI artifact any more: the config entry goes, and then the binary.
  unfoldable pub cleanup_plugin : PluginObject → Local (D r) → Attempt (D r) (Unit {0})
  cleanup_plugin plugin s = elim (find_installed s.installed medium_oci) [
    | none ↦ (ok tt, s)
    | some f ↦
        and_then (entry_removed s (remove_plugin_config r.env s.manager s.disk plugin.spec))
          (λ _. binary_removed f)
  ]

  unfoldable pub ensure_plugin : PluginObject → Local (D r) → Attempt (D r) (Unit {0})
  unfolding cleanup_plugin
  ensure_plugin plugin s = elim plugin.oci_artifact [
    | none ↦
        and_then (cleanup_plugin plugin s)
          (λ _. condition_removed condition_oci_artifact_programmed)
    | some _ ↦ ensure_oci r plugin.meta default_priority ArtifactType.plugin s
  ]

  abbrev config_failed : ℕ → ChangeError → Local (D r) → Attempt (D r) (Unit {0})
  config_failed gen e s = (
    err (change e),
    with_condition r
        (new_config_programmed_condition Status.status_false "ConfigProgramFailed"
          (append "Failed to store inline plugin config: " (r.text_of (change e))) gen)
        s,
  )

  -- A rename that a Rulesfile blocks is deferred, without a condition.
  abbrev entry_added : ℕ → Local (D r) → Outcome r.env → Attempt (D r) (Unit {0})
  entry_added gen s (err (blocked name keys), m, disk) =
      (err (change (blocked name keys)), with_manager m disk s)
  entry_added gen s (err marshal_failed, m, disk) =
      config_failed gen marshal_failed (with_manager m disk s)
  entry_added gen s (err (prepare_failed e), m, disk) =
      config_failed gen (prepare_failed e) (with_manager m disk s)
  entry_added gen s (err (store_failed e), m, disk) =
      config_failed gen (store_failed e) (with_manager m disk s)
  entry_added gen s (ok (action, file), m, disk) = (
    ok tt,
    with_condition r
        (new_config_programmed_condition Status.status_true "ConfigProgrammed"
          "Plugin configuration stored successfully" gen)
        (record s {
          manager = m;
          disk = disk;
          installed = update_installed_config s.installed medium_oci file;
        }),
  )

  -- `observed` is what Falco's `/versions` gives the manager.
  unfoldable pub ensure_plugin_config :
      Option (Map String String) → PluginObject → Local (D r) → Attempt (D r) (Unit {0})
  ensure_plugin_config observed plugin s = elim plugin.oci_artifact [
    | none ↦ condition_removed condition_config_programmed s
    | some _ ↦ entry_added plugin.meta.generation s (
        add_plugin_config r.env s.manager s.disk plugin.spec
          (find_installed_config s.installed medium_oci) observed)
  ]
