-- ===== src/NodeArtifacts/Changes.antt =====
-- internal/pkg/nodeartifacts/pluginconfig.go: the methods that change the shared plugins-config file
-- together with the registry. The state is the manager and the disk behind its store.
pub mod Write
pub mod Remove
pub mod Add
use falco_operator.Common.{
  String, Bool, true, false, ◌&&◌, not, Option, none, some, List, [], ◌∷◌, Result, ok, err, ◌==◌,
  string_eq, lookup, insert, delete, if◌then◌else◌, Map, ◌≡◌, is_some,
}
use falco_operator.Compat.{VersionLib}
use falco_operator.Artifact.{
  Bytes, File, FetchResult, StoreAction, none_done, unchanged, max_priority, medium_inline,
}
use falco_operator.Artifact
use falco_operator.Artifact.FileSystem.{FsError}
use falco_operator.Artifact.Interface.{ArtifactStore}
use falco_operator.NodeArtifacts.{
  Key, Provided, PluginsConfig, Manager, plugin_config_key, notify_subscribers,
}
use falco_operator.NodeArtifacts.Registry.{blocked_by_others, version_of, is_removed}
use falco_operator.NodeArtifacts.Registry.Snapshot.{removed_mark}
use falco_operator.NodeArtifacts.Observed.{on_falco_versions_observed}
use falco_operator.NodeArtifacts.Entries.{Plugin, resolve_config_name, add_config, remove_by_name}

-- `BlockedError`, and the wrapped errors of the write.
pub data ChangeError : Type 0 where
  blocked : String → List Key → ChangeError
  marshal_failed : ChangeError
  prepare_failed : String → ChangeError
  store_failed : FsError → ChangeError

-- What the manager uses of other packages: versions, the store, `yaml.Marshal` (`none` is its
-- error), the fetcher's `FetchInline` and the production directories.
pub record Environment : Type 1 where
  pub versions : VersionLib
  pub store : ArtifactStore
  pub to_yaml : PluginsConfig → Option Bytes
  pub fetch_inline : Bytes → Result String FetchResult
  pub join : String → String → String
  pub plugin_dir : String
  -- `FetchInline` hands the content on, with its hash.
  pub fetch_inline-content :
      (text : Bytes) (r : FetchResult)
      → fetch_inline text ≡ ok r
      → (r.content ≡ text) × (r.content_hash ≡ store.sha text)

abbrev pub plugin_config_file_name : String
plugin_config_file_name = "plugins-config"

abbrev with_hash : File → String → File
with_hash f hash = record {
  path = f.path;
  medium = "";
  priority = 0;
  content_hash = hash;
  spec_hash = "";
}

module _ (env : Environment) where
  abbrev Disk : Type 0
  Disk = env.store.Disk

  abbrev pub Written : Type 0
  Written = Result ChangeError (StoreAction × Option File)

  abbrev wrap_store : Result FsError (StoreAction × Option File) → Written
  wrap_store (ok r) = ok r
  wrap_store (err e) = err (store_failed e)

  unfoldable pub store_config :
      env.store.Disk → Option File → FetchResult → Written × env.store.Disk
  store_config d current result =
      let (r, d') =
        env.store.store d current plugin_config_file_name max_priority Artifact.ArtifactType.config
          medium_inline result in
      (wrap_store r, d')

  abbrev is_verified : Result FsError Bool → Bool
  is_verified (ok b) = b
  is_verified (err e) = false

  unfoldable pub write_fetched :
      env.store.Disk → Option File → FetchResult → Written × env.store.Disk
  unfolding store_config
  write_fetched d none result = store_config d none result
  write_fetched d (some f) result =
      if is_verified (env.store.verify d (some (with_hash f result.content_hash)))
      then (ok (unchanged, none), d)
      else store_config d (some f) result

  unfoldable pub write_plugins_config :
      env.store.Disk → Option File → PluginsConfig → Written × env.store.Disk
  write_plugins_config d current config = elim (env.to_yaml config) [
    | none ↦ (err marshal_failed, d)
    | some text ↦ elim (env.fetch_inline text) [
      | err e ↦ (err (prepare_failed e), d)
      | ok result ↦ write_fetched d current result
    ]
  ]

  unfoldable pub is_rename : Manager → Plugin → Bool
  is_rename m plugin = elim (lookup plugin.name m.cr_to_config_name) [
    | none ↦ false
    | some old_name ↦ not (old_name == resolve_config_name plugin)
  ]

  abbrev pub old_name_of : Option String → String
  old_name_of none = ""
  old_name_of (some name) = name

  unfoldable pub old_name : Manager → Plugin → String
  old_name m plugin = old_name_of (lookup plugin.name m.cr_to_config_name)

  unfoldable pub rename_blockers : Manager → Plugin → List Key
  unfolding is_rename old_name
  rename_blockers m plugin =
      if is_rename m plugin
      then blocked_by_others env.versions m.provides (old_name m plugin) m.requires
      else []

  unfoldable pub updated_config : Manager → Plugin → PluginsConfig
  unfolding is_rename old_name add_config
  updated_config m plugin = add_config env.join env.plugin_dir plugin (
      if is_rename m plugin
      then remove_by_name (old_name m plugin) m.plugins_config
      else m.plugins_config)

  -- The state is published only after the write.
  unfoldable pub publish_added : Manager → Plugin → Manager
  unfolding is_rename old_name updated_config notify_subscribers
  publish_added m plugin =
      let name = resolve_config_name plugin in
      let m1 = record m {
        plugins_config = updated_config m plugin;
        cr_to_config_name = insert plugin.name name m.cr_to_config_name;
      } in
      let m2 =
        if is_rename m plugin
        then notify_subscribers
            (record m1 { provides = insert (old_name m plugin) removed_mark m1.provides })
        else m1 in
      record m2 {
        provides =
            insert name
              (record {
                key = plugin_config_key;
                version = version_of (lookup name m2.provides);
                removed = false;
              })
              m2.provides;
      }

  abbrev pub Outcome : Type 0
  Outcome = Written × Manager × env.store.Disk

  abbrev finish_add : Manager → Plugin → Written × env.store.Disk → Outcome
  finish_add m plugin (ok r, d) = (ok r, publish_added m plugin, d)
  finish_add m plugin (err e, d) = (err e, m, d)

  unfoldable pub add_plugin_config_locked :
      Manager → env.store.Disk → Plugin → Option File → Outcome
  unfolding rename_blockers
  add_plugin_config_locked m d plugin current = elim (rename_blockers m plugin) [
    | k ∷ ks ↦ (err (blocked (old_name m plugin) (k ∷ ks)), m, d)
    | [] ↦ finish_add m plugin (write_plugins_config d current (updated_config m plugin))
  ]

  -- `RefreshFalcoVersions` on what the fetch of `/versions` gave.
  unfoldable pub refresh_falco_versions : Option (Map String String) → Manager → Manager
  refresh_falco_versions none m = m
  refresh_falco_versions (some observed) m = on_falco_versions_observed observed m

  abbrev refresh_after : Option (Map String String) → Outcome → Outcome
  refresh_after fetched (ok r, m, d) = (ok r, refresh_falco_versions fetched m, d)
  refresh_after fetched (err e, m, d) = (err e, m, d)

  unfoldable pub add_plugin_config :
      Manager → env.store.Disk → Plugin → Option File → Option (Map String String) → Outcome
  unfolding add_plugin_config_locked refresh_falco_versions
  add_plugin_config m d plugin current fetched =
      refresh_after fetched (add_plugin_config_locked m d plugin current)

  unfoldable pub remove_blockers : Manager → String → List Key
  remove_blockers m config_name =
      if is_removed (lookup config_name m.provides)
      then []
      else blocked_by_others env.versions m.provides config_name m.requires

  unfoldable pub publish_removed : Manager → String → String → Manager
  unfolding notify_subscribers
  publish_removed m cr_name config_name =
      let m' = record m {
        plugins_config = remove_by_name config_name m.plugins_config;
        provides = insert config_name removed_mark m.provides;
        cr_to_config_name = delete cr_name m.cr_to_config_name;
      } in
      if is_removed (lookup config_name m.provides) then m' else notify_subscribers m'

  abbrev finish_remove :
      Manager
      → String
      → String
      → Written × env.store.Disk
      → Result ChangeError (Unit {0}) × Manager × env.store.Disk
  finish_remove m cr_name config_name (ok r, d) = (ok tt, publish_removed m cr_name config_name, d)
  finish_remove m cr_name config_name (err e, d) = (err e, m, d)

  unfoldable pub remove_plugin_config_by_name :
      Manager
      → env.store.Disk
      → String
      → String
      → Result ChangeError (Unit {0}) × Manager × env.store.Disk
  unfolding remove_blockers
  remove_plugin_config_by_name m d cr_name config_name = elim (remove_blockers m config_name) [
    | k ∷ ks ↦ (err (blocked config_name (k ∷ ks)), m, d)
    | [] ↦
        finish_remove m cr_name config_name
          (write_plugins_config d none (remove_by_name config_name m.plugins_config))
  ]

  unfoldable pub remove_plugin_config :
      Manager → env.store.Disk → Plugin → Result ChangeError (Unit {0}) × Manager × env.store.Disk
  unfolding remove_plugin_config_by_name
  remove_plugin_config m d plugin =
      remove_plugin_config_by_name m d plugin.name (resolve_config_name plugin)
