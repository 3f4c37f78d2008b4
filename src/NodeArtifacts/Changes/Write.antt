-- ===== src/NodeArtifacts/Changes/Write.antt =====
-- What a write of the plugins-config file leaves on disk.
use falco_operator.Common.{
  String, Option, none, some, ok, ◌≡◌, arith, Option-cases, Result-cases, inl, inr,
}
use falco_operator.Artifact.{Bytes, File, FetchResult, StoreAction, max_priority, medium_inline}
use falco_operator.Artifact
use falco_operator.NodeArtifacts.{PluginsConfig}
use falco_operator.NodeArtifacts.Changes.{
  Environment, plugin_config_file_name, store_config, write_fetched, write_plugins_config,
}

module _ (env : Environment) where
  -- Where the shared file stands.
  abbrev pub config_path : String
  config_path =
      env.store.target plugin_config_file_name max_priority Artifact.ArtifactType.config
        medium_inline

  store_config-writes :
      (d : env.store.Disk) (result : FetchResult) (w : StoreAction × Option File)
      → (store_config env d none result).0 ≡ ok w
      → env.store.read (store_config env d none result).1 config_path ≡ ok result.content
  unfolding store_config
  store_config-writes d result w h = ground (
    arith,
    env.store.store-fresh d plugin_config_file_name max_priority Artifact.ArtifactType.config
        medium_inline result w,
  )

  -- A write with no tracked file leaves the aggregate's text in the file.
  pub write_plugins_config-writes :
      (d : env.store.Disk) (config : PluginsConfig) (w : StoreAction × Option File)
      → (write_plugins_config env d none config).0 ≡ ok w
      → (text : Bytes) × (env.to_yaml config ≡ some text)
        × (env.store.read (write_plugins_config env d none config).1 config_path ≡ ok text)
  unfolding write_plugins_config write_fetched
  write_plugins_config-writes d config w h = elim (Option-cases (env.to_yaml config)) [
    | inl e ↦ ground (arith, e)
    | inr (text, e) ↦ elim (Result-cases (env.fetch_inline text)) [
      | inl (r, f) ↦ (
        text,
        e,
        ground (arith, e, f, env.fetch_inline-content text r f, store_config-writes d r w),
      )
      | inr (x, f) ↦ ground (arith, e, f)
    ]
  ]
