-- ===== src/NodeArtifacts/Entries/Lookup.antt =====
-- What the aggregate holds after an entry was added or removed.
use falco_operator.Common.{
  String, true, Option, none, some, List, [], ◌∷◌, ◌≡◌, refl, arith, eq_iff, ◌==◌, string_eq,
  if◌then◌else◌,
}
use falco_operator.NodeArtifacts.{PluginConfig, PluginsConfig}
use falco_operator.NodeArtifacts.Entries.{
  Plugin, resolve_config_name, config_of, find_config, drop_config, append_config, put_found,
  put_config, is_same, same_init, add_config,
}
use falco_operator.NodeArtifacts.Entries.Sets.{IsWellFormed, find_config-append, find_config-drop}

-- The entry of a plugin stands under the name that dependency checks use for it.
pub config_of-name :
    (join : String → String → String) (dir : String) (plugin : Plugin)
    → (config_of join dir plugin).name ≡ resolve_config_name plugin
unfolding config_of resolve_config_name
config_of-name join dir plugin = ground arith

same_init-eq : (a b : Option String) → same_init a b ≡ true → a ≡ b
same_init-eq none none h = refl
same_init-eq none (some b) h = cc
same_init-eq (some a) none h = cc
same_init-eq (some a) (some b) h = ground (arith, eq_iff a b)

is_same-eq : (a b : PluginConfig) → a.name ≡ b.name → is_same a b ≡ true → a ≡ b
unfolding is_same
is_same-eq a b n h = ground (
  arith,
  eq_iff a.library_path b.library_path,
  eq_iff a.open_params b.open_params,
  same_init-eq a.init_config b.init_config,
)

find_config-name :
    (name : String) (xs : List PluginConfig) (c : PluginConfig)
    → find_config name xs ≡ some c
    → c.name ≡ name
unfolding find_config
find_config-name name [] c h = cc
find_config-name name (x ∷ xs) c h = ground (arith, eq_iff x.name name, find_config-name name xs c)

find_config-put_found :
    (c : PluginConfig) (pc : PluginsConfig) (found : Option PluginConfig) (n : String)
    → find_config c.name pc.configs ≡ found
    → IsWellFormed pc
    → find_config n (put_found c pc found).configs
      ≡ (if c.name == n then some c else find_config n pc.configs)
unfolding put_found append_config
find_config-put_found c pc none n e h = find_config-append n pc.configs c e
find_config-put_found c pc (some old) n e h = ground (
  arith,
  e,
  eq_iff c.name n,
  eq_iff c.name c.name,
  is_same-eq old c (find_config-name c.name pc.configs old e),
  find_config-append n (drop_config c.name pc.configs) c,
  find_config-drop n c.name pc.configs h.configs_distinct,
  find_config-drop c.name c.name pc.configs h.configs_distinct,
)

-- After an entry was put into a well-formed aggregate it is what its name finds, and every other
-- name finds what it found before.
pub find_config-put_config :
    (c : PluginConfig) (pc : PluginsConfig) (n : String)
    → IsWellFormed pc
    → find_config n (put_config c pc).configs
      ≡ (if c.name == n then some c else find_config n pc.configs)
unfolding put_config
find_config-put_config c pc n h =
    find_config-put_found c pc (find_config c.name pc.configs) n refl h

same_init_refl : (a : Option String) → same_init a a ≡ true
same_init_refl none = refl
same_init_refl (some a) = ground (arith, eq_iff a a)

is_same_refl : (c : PluginConfig) → is_same c c ≡ true
unfolding is_same
is_same_refl c = ground (
  arith,
  eq_iff c.library_path c.library_path,
  eq_iff c.open_params c.open_params,
  same_init_refl c.init_config,
)

put_again :
    (c : PluginConfig) (pc : PluginsConfig)
    → find_config c.name pc.configs ≡ some c
    → put_config c pc ≡ pc
unfolding put_config put_found
put_again c pc e = ground (arith, e, is_same_refl c)

-- Adding the same plugin again changes nothing, so the file is written the same.
pub add_config_idem :
    (join : String → String → String) (dir : String) (plugin : Plugin) (pc : PluginsConfig)
    → IsWellFormed pc
    → add_config join dir plugin (add_config join dir plugin pc) ≡ add_config join dir plugin pc
unfolding add_config
add_config_idem join dir plugin pc h =
    put_again (config_of join dir plugin) (put_config (config_of join dir plugin) pc) (
      ground (
        arith,
        find_config-put_config (config_of join dir plugin) pc (config_of join dir plugin).name h,
        eq_iff (config_of join dir plugin).name (config_of join dir plugin).name,
      ))
