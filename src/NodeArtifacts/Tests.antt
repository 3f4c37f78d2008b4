-- ===== src/NodeArtifacts/Tests.antt =====
-- The node manager's theorems at a concrete manager, store and reading of versions.
use falco_operator.Common.{
  ◌||◌, if◌then◌else◌, String, true, false, List, [], ◌∷◌, none, some, Result, ok, Map, lookup,
  insert, contains, Distinct, All, length, ◌==◌, string_eq, ◌≡◌, refl, arith,
}
use falco_operator.NodeArtifacts.{
  key_eq, Kind, Key, Provided, RequirementGroup, PluginConfig, Manager, plugin_config_key,
  new_manager,
}
use falco_operator.NodeArtifacts.WarmSync.Described.{
  any_plugin, any_rulesfile, rulesfile_named, groups_of,
}
use falco_operator.NodeArtifacts.WarmSync.Rebuilt.{warm_sync-rebuilds}
use falco_operator.Compat.{Dependency, validate_plugin_dependency, plugin_version_compatible}
use falco_operator.Compat.Tests.{versions}
use falco_operator.Artifact.{Bytes, FetchResult, StoreAction, artifact_path}
use falco_operator.Artifact.Interface.{local_store}
use falco_operator.Artifact.Store.{
  store, tracked, store_tracked, store_at, write_atomically, drop_old, written_action,
}
use falco_operator.Artifact.Tests.{files, join, dirs, sha}
use falco_operator.NodeArtifacts.Registry.{
  names, is_removed, check_dependency_locked, first_observed, blocked_by_others, any_loses, loses,
}
use falco_operator.NodeArtifacts.Registry.Snapshot.{removed_mark}
use falco_operator.NodeArtifacts.Registry.Removal.{
  AllSurvive, blocked_by_others_sound, blocked_by_others-stranded, stranded_keys, any_stranded,
  KeepsSatisfied, Satisfied,
}
use falco_operator.NodeArtifacts.Observed.{observe_provides}
use falco_operator.NodeArtifacts.Observed.Entries.{lookup-observe_provides, reconciled}
use falco_operator.NodeArtifacts.Entries.{Plugin, resolve_config_name, find_config, config_of}
use falco_operator.NodeArtifacts.Entries.Sets.{IsWellFormed}
use falco_operator.NodeArtifacts.Changes.{
  Environment, remove_plugin_config_by_name, write_plugins_config, write_fetched,
  add_plugin_config_locked,
}
use falco_operator.NodeArtifacts.Changes.Write.{config_path}
use falco_operator.NodeArtifacts.Changes.Remove.{
  removal, removal-KeepsSatisfied, removal-writes, removal-removes,
}
use falco_operator.NodeArtifacts.Changes.Add.{
  addition, addition-keeps_Satisfied, addition-adds, target_name, registered,
}
use falco_operator.NodeArtifacts.WarmSync.{
  ArtifactNode, Rulesfile, warm_sync, rulesfile_key, meta_of,
}
use falco_operator.NodeArtifacts.WarmSync.Registered.{is_provided}

abbrev fetch : Bytes → Result String FetchResult
fetch text = ok (record { content = text; content_hash = "hash"; perm = 384 })

pub fetch-content :
    (text : Bytes) (r : FetchResult)
    → fetch text ≡ ok r
    → (r.content ≡ text) × (r.content_hash ≡ "hash")
fetch-content text r h = ground (arith, h)

abbrev pub env : Environment
env = record {
  versions = versions;
  store = local_store files join dirs sha;
  to_yaml = λ config. some (length config.configs ∷ []);
  fetch_inline = fetch;
  join = join;
  plugin_dir = "plugins";
  fetch_inline-content = fetch-content;
}

abbrev provided : String → Provided
provided version = record { key = plugin_config_key; version = version; removed = false }

abbrev pub rules : Key
rules = record { kind = Kind.rulesfile; name = "rules" }

abbrev pub requirement : String → Dependency
requirement name = record { name = name; version = "1.0.0" }

abbrev config : String → PluginConfig
config name = record { init_config = none; library_path = "lib"; name = name; open_params = "" }

-- The rules need "json" or, instead, "json2"; both are loaded.
abbrev pub manager : Manager
manager = record new_manager {
  provides = ("json", provided "1.2.0") ∷ ("json2", provided "1.2.0") ∷ [];
  requires = (rules, (requirement "json" ∷ requirement "json2" ∷ []) ∷ []) ∷ [];
  plugins_config = record {
    configs = config "json" ∷ config "json2" ∷ [];
    load_plugins = "json" ∷ "json2" ∷ [];
  };
  cr_to_config_name = ("json-cr", "json") ∷ ("json2-cr", "json2") ∷ [];
  subscribers = 0 ∷ [];
}

manager-IsWellFormed : IsWellFormed manager.plugins_config
unfolding find_config contains
manager-IsWellFormed = record {
  configs_distinct = (refl, (refl, tt));
  load_distinct = (refl, (refl, tt));
  loaded = λ n. ground arith;
}

unblocked : blocked_by_others versions manager.provides "json" manager.requires ≡ []
unfolding blocked_by_others check_dependency_locked validate_plugin_dependency
    plugin_version_compatible lookup contains names any_loses loses first_observed
unblocked = refl

blocked_by_others_sound_example : AllSurvive versions manager.provides "json" manager.requires
blocked_by_others_sound_example =
    blocked_by_others_sound versions manager.provides "json" manager.requires unblocked

-- The rules ask for a newer "json" than the one that is provided.
abbrev unmet : Map Key (List RequirementGroup)
unmet = (rules, ((record { name = "json"; version = "2.0.0" } ∷ []) ∷ [])) ∷ []

blocked_by_others-stranded_example :
    blocked_by_others versions manager.provides "json" unmet
    ≡ stranded_keys versions manager.provides "json" unmet
blocked_by_others-stranded_example =
    blocked_by_others-stranded versions manager.provides "json" unmet

unmet_blocks : stranded_keys versions manager.provides "json" unmet ≡ rules ∷ []
unfolding stranded_keys any_stranded check_dependency_locked validate_plugin_dependency
    plugin_version_compatible lookup insert contains names first_observed
unmet_blocks = refl

removed : (removal env manager [] "json-cr" "json").0 ≡ ok tt
unfolding remove_plugin_config_by_name blocked_by_others check_dependency_locked
    validate_plugin_dependency plugin_version_compatible lookup contains names any_loses loses
    first_observed write_plugins_config store tracked store_tracked store_at write_atomically
    drop_old insert write_fetched artifact_path
removed = refl

removal-KeepsSatisfied_example :
    KeepsSatisfied versions manager.provides
      (removal env manager [] "json-cr" "json").1.provides
      manager.requires
    × ((removal env manager [] "json-cr" "json").1.requires ≡ manager.requires)
removal-KeepsSatisfied_example = removal-KeepsSatisfied env manager [] "json-cr" "json" removed

removal-writes_example :
    (text : Bytes) × (env.to_yaml (removal env manager [] "json-cr" "json").1.plugins_config
      ≡ some text)
    × (env.store.read (removal env manager [] "json-cr" "json").2 (config_path env) ≡ ok text)
removal-writes_example = removal-writes env manager [] "json-cr" "json" removed

removal-removes_example :
    (is_removed (lookup "json" (removal env manager [] "json-cr" "json").1.provides) ≡ true)
    × ((n : String)
        → find_config n (removal env manager [] "json-cr" "json").1.plugins_config.configs
          ≡ (if "json" == n then none else find_config n manager.plugins_config.configs))
    × IsWellFormed (removal env manager [] "json-cr" "json").1.plugins_config
removal-removes_example =
    removal-removes env manager [] "json-cr" "json" manager-IsWellFormed removed

-- The plugin of "json-cr" is now called "json3".
abbrev renamed_plugin : Plugin
renamed_plugin = record {
  name = "json-cr";
  config =
      some (record { init_config = none; library_path = ""; name = "json3"; open_params = "" });
}

added :
    (addition env manager [] renamed_plugin none).0
    ≡ ok (
      StoreAction.added,
      some (record {
        path = config_path env;
        medium = "inline";
        priority = 99;
        content_hash = "hash";
        spec_hash = "";
      }),
    )
unfolding add_plugin_config_locked blocked_by_others check_dependency_locked
    validate_plugin_dependency plugin_version_compatible lookup contains names any_loses loses
    first_observed write_plugins_config store tracked store_tracked store_at write_atomically
    drop_old insert written_action resolve_config_name write_fetched artifact_path
added = refl

addition-keeps_Satisfied_example :
    All
      (λ (entry : Key × List RequirementGroup).
        All
          (λ g.
            names "json3" g ≡ false
            → Satisfied versions manager.provides g
            → Satisfied versions (addition env manager [] renamed_plugin none).1.provides g)
          entry.1)
      manager.requires
unfolding resolve_config_name
addition-keeps_Satisfied_example = addition-keeps_Satisfied env manager [] renamed_plugin none added

addition-adds_example :
    IsWellFormed (addition env manager [] renamed_plugin none).1.plugins_config
    × (find_config
          (target_name env manager [] renamed_plugin none)
          (addition env manager [] renamed_plugin none).1.plugins_config.configs
        ≡ some (config_of join "plugins" renamed_plugin))
    × (lookup
          (target_name env manager [] renamed_plugin none)
          (addition env manager [] renamed_plugin none).1.provides
        ≡ some (registered env manager [] renamed_plugin none))
    × (lookup "json-cr" (addition env manager [] renamed_plugin none).1.cr_to_config_name
        ≡ some (target_name env manager [] renamed_plugin none))
addition-adds_example = addition-adds env manager [] renamed_plugin none manager-IsWellFormed added

-- Falco reports "json" still, and a plugin that nobody declared.
abbrev observed : Map String String
observed = ("json", "1.2.0") ∷ ("other", "1.0.0") ∷ []

observed-Distinct : Distinct observed
unfolding lookup
observed-Distinct = (refl, (refl, tt))

provides-Distinct : Distinct manager.provides
unfolding lookup
provides-Distinct = (refl, (refl, tt))

lookup-observe_provides_example :
    lookup "json2" (observe_provides observed manager.provides)
    ≡ reconciled "json2" (lookup "json2" manager.provides) (lookup "json2" observed)
lookup-observe_provides_example =
    lookup-observe_provides observed manager.provides "json2" observed-Distinct provides-Distinct

abbrev marked : Map String Provided
marked = ("json", removed_mark) ∷ []

marked-Distinct : Distinct marked
unfolding lookup
marked-Distinct = (refl, tt)

json_marked : lookup "json" marked ≡ some removed_mark
unfolding lookup
json_marked = refl

abbrev owned_by : String → String → ArtifactNode
owned_by kind name = record {
  is_deleting = false;
  installed_artifacts =
      (record {
        path = "p";
        medium = "oci";
        priority = 50;
        content_hash = "h";
        spec_hash = "s";
        config = none;
      })
      ∷ [];
  owner_references = (record { controller = some true; kind = kind; name = name }) ∷ [];
}

abbrev nodes : List ArtifactNode
nodes = owned_by "Plugin" "json-cr" ∷ owned_by "Rulesfile" "rules" ∷ []

abbrev rulesfiles : List Rulesfile
rulesfiles =
    (record {
      name = "rules";
      artifact_meta = some ((record { name = "json"; version = "1.0.0"; alternatives = [] }) ∷ []);
    })
    ∷ []

-- The node object of "gone" is being deleted.
abbrev nodes_and_gone : List ArtifactNode
nodes_and_gone = record (owned_by "Rulesfile" "gone") { is_deleting = true } ∷ nodes

warm_sync-rebuilds_example :
    let after =
      warm_sync (ok nodes_and_gone) (ok (renamed_plugin ∷ [])) (ok rulesfiles) new_manager in
    (after.0 ≡ ok tt)
    × (is_provided (lookup "rules" after.1.provides) ≡ (
        any_plugin "rules" (renamed_plugin ∷ []) nodes_and_gone
        || is_provided (lookup "rules" new_manager.provides)))
    × (lookup (rulesfile_key "rules") after.1.requires ≡ (
        if any_rulesfile "rules" nodes_and_gone
        then groups_of
            (meta_of (rulesfile_named "rules" rulesfiles))
            (lookup (rulesfile_key "rules") new_manager.requires)
        else lookup (rulesfile_key "rules") new_manager.requires))
warm_sync-rebuilds_example =
    warm_sync-rebuilds nodes_and_gone (renamed_plugin ∷ []) rulesfiles new_manager "rules"
