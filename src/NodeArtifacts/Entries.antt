-- ===== src/NodeArtifacts/Entries.antt =====
-- internal/pkg/nodeartifacts/pluginconfig.go: the shared plugins-config aggregate.
pub mod Lookup
pub mod Sets
use falco_operator.Common.{
  String, Bool, true, false, ◌&&◌, Option, none, some, List, [], ◌∷◌, ◌++◌, ◌==◌, string_eq,
  contains, if◌then◌else◌,
}
use falco_operator.Artifact.{artifact_path, default_priority, medium_oci}
use falco_operator.Artifact
use falco_operator.NodeArtifacts.{PluginConfig, PluginsConfig}

-- `PluginConfig` of the API: `init_config` is the raw JSON.
pub record PluginSpecConfig : Type 0 where
  pub init_config : Option String
  pub library_path : String
  pub name : String
  pub open_params : String

pub record Plugin : Type 0 where
  pub name : String
  pub config : Option PluginSpecConfig

abbrev pub override : String → String → String
override given fallback = if given == "" then fallback else given

unfoldable pub resolve_config_name : Plugin → String
resolve_config_name plugin = elim plugin.config [
  | none ↦ plugin.name
  | some c ↦ override c.name plugin.name
]

abbrev non_empty : Option String → Option String
non_empty none = none
non_empty (some raw) = if raw == "" then none else some raw

-- The entry that `addConfig` builds.
unfoldable pub config_of : (String → String → String) → String → Plugin → PluginConfig
config_of join plugin_dir plugin =
    let path =
      artifact_path join (record { plugin = plugin_dir; rulesfile = ""; config = "" }) plugin.name
        default_priority medium_oci Artifact.ArtifactType.plugin in
    elim plugin.config [
      | none ↦ record {
        init_config = none;
        library_path = path;
        name = plugin.name;
        open_params = "";
      }
      | some c ↦ record {
        init_config = non_empty c.init_config;
        library_path = override c.library_path path;
        name = override c.name plugin.name;
        open_params = c.open_params;
      }
    ]

abbrev same_init : Option String → Option String → Bool
same_init none none = true
same_init none (some b) = false
same_init (some a) none = false
same_init (some a) (some b) = a == b

unfoldable pub is_same : PluginConfig → PluginConfig → Bool
is_same p other =
    p.library_path == other.library_path
    && (p.open_params == other.open_params && same_init p.init_config other.init_config)

-- The first entry of a name, which the loops of `addConfig` and `removeByName` stop at.
unfoldable pub find_config : String → List PluginConfig → Option PluginConfig
find_config name [] = none
find_config name (c ∷ rest) = if c.name == name then some c else find_config name rest

unfoldable pub drop_config : String → List PluginConfig → List PluginConfig
drop_config name [] = []
drop_config name (c ∷ rest) = if c.name == name then rest else c ∷ drop_config name rest

unfoldable pub drop_name : String → List String → List String
drop_name name [] = []
drop_name name (c ∷ rest) = if c == name then rest else c ∷ drop_name name rest

unfoldable pub append_config : PluginConfig → List PluginConfig → List String → PluginsConfig
append_config config configs load_plugins = record {
  configs = configs ++ config ∷ [];
  load_plugins =
      if contains load_plugins config.name then load_plugins else load_plugins ++ config.name ∷ [];
}

-- The entry that the loop found with the name of `config` is kept if it says the same.
unfoldable pub put_found : PluginConfig → PluginsConfig → Option PluginConfig → PluginsConfig
put_found config pc none = append_config config pc.configs pc.load_plugins
put_found config pc (some c) =
    if is_same c config
    then pc
    else append_config config (drop_config config.name pc.configs) pc.load_plugins

unfoldable pub put_config : PluginConfig → PluginsConfig → PluginsConfig
unfolding put_found find_config
put_config config pc = put_found config pc (find_config config.name pc.configs)

unfoldable pub add_config :
    (String → String → String) → String → Plugin → PluginsConfig → PluginsConfig
unfolding put_config config_of
add_config join plugin_dir plugin pc = put_config (config_of join plugin_dir plugin) pc

unfoldable pub remove_by_name : String → PluginsConfig → PluginsConfig
unfolding drop_config drop_name
remove_by_name name pc = record {
  configs = drop_config name pc.configs;
  load_plugins = drop_name name pc.load_plugins;
}
