-- ===== src/NodeArtifacts.antt =====
-- internal/pkg/nodeartifacts: the state of the node's artifact manager (manager.go). The mutex makes
-- every exported method one atomic step, so a method is a function on the state.
pub mod Registry
pub mod Observed
pub mod Entries
pub mod Changes
pub mod WarmSync
pub mod Tests
use falco_operator.Common.{
  ℕ, String, Bool, true, false, ◌&&◌, List, [], ◌∷◌, ◌++◌, Option, ◌≡◌, ◌↔◌, refl, arith, eq_iff,
  Eq, ◌==◌, string_eq, Map, ltb, ◌+◌, map, if◌then◌else◌,
}
use falco_operator.Compat.{Dependency}

pub data Kind : Type 0 where
  rulesfile plugin_config falco : Kind

pub record Key : Type 0 where
  pub kind : Kind
  pub name : String

abbrev kind_beq : Kind → Kind → Bool
kind_beq rulesfile rulesfile = true
kind_beq plugin_config plugin_config = true
kind_beq falco falco = true
kind_beq _ _ = false

pub kind_beq_iff : (a b : Kind) → (kind_beq a b ≡ true) ↔ (a ≡ b)
kind_beq_iff rulesfile rulesfile = ground arith
kind_beq_iff a b = ground arith

instance abbrev pub kind_eq : Eq Kind
kind_eq = record { beq = kind_beq; beq_iff = kind_beq_iff }

abbrev key_beq : Key → Key → Bool
key_beq a b = a.kind == b.kind && a.name == b.name

pub key_beq_iff : (a b : Key) → (key_beq a b ≡ true) ↔ (a ≡ b)
key_beq_iff a b = ground (arith, kind_beq_iff a.kind b.kind, eq_iff a.name b.name)

instance abbrev pub key_eq : Eq Key
key_eq = record { beq = key_beq; beq_iff = key_beq_iff }

abbrev pub plugin_config_key : Key
plugin_config_key = record { kind = plugin_config; name = "plugins-config" }

-- `type Requirement = puller.Dependency`
abbrev pub Requirement : Type 0
Requirement = Dependency

abbrev pub RequirementGroup : Type 0
RequirementGroup = List Requirement

pub record Provided : Type 0 where
  pub key : Key
  pub version : String
  pub removed : Bool

-- One plugin's entry in the shared file; `init_config` is the raw JSON.
pub record PluginConfig : Type 0 where
  pub init_config : Option String
  pub library_path : String
  pub name : String
  pub open_params : String

pub record PluginsConfig : Type 0 where
  pub configs : List PluginConfig
  pub load_plugins : List String

-- A subscriber is the number of events that wait in its channel.
pub record Manager : Type 0 where
  pub provides : Map String Provided
  pub requires : Map Key (List RequirementGroup)
  pub plugins_config : PluginsConfig
  pub cr_to_config_name : Map String String
  pub subscribers : List ℕ

abbrev pub new_manager : Manager
new_manager = record {
  provides = [];
  requires = [];
  plugins_config = record { configs = []; load_plugins = [] };
  cr_to_config_name = [];
  subscribers = [];
}

abbrev pub event_buffer : ℕ
event_buffer = 100

-- A send that would block is dropped.
abbrev send : ℕ → ℕ
send waiting = if ltb waiting event_buffer then waiting + 1 else waiting

unfoldable pub notify_subscribers : Manager → Manager
notify_subscribers m = record m { subscribers = map send m.subscribers }

-- `Events`: a fresh channel.
unfoldable pub events : Manager → Manager
events m = record m { subscribers = m.subscribers ++ 0 ∷ [] }
