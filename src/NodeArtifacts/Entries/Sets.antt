-- ===== src/NodeArtifacts/Entries/Sets.antt =====
-- The aggregate holds one entry to a name, and `load_plugins` lists exactly the names of the entries.
use falco_operator.Common.{
  String, false, ◌||◌, Option, none, some, List, [], ◌∷◌, ◌++◌, ◌≡◌, refl, arith, eq_iff, ◌==◌,
  string_eq, contains, if◌then◌else◌, is_some, Bool-cases, if_both, inl, inr,
}
use falco_operator.NodeArtifacts.{PluginConfig, PluginsConfig}
use falco_operator.NodeArtifacts.Entries.{
  find_config, drop_config, drop_name, append_config, put_found, put_config, is_same,
  remove_by_name,
}

abbrev pub DistinctConfigs : List PluginConfig → Type 0
DistinctConfigs [] = Unit
DistinctConfigs (c ∷ rest) = (find_config c.name rest ≡ none) × DistinctConfigs rest

abbrev pub DistinctStrings : List String → Type 0
DistinctStrings [] = Unit
DistinctStrings (n ∷ rest) = (contains rest n ≡ false) × DistinctStrings rest

pub record IsWellFormed (pc : PluginsConfig) : Type 0 where
  pub configs_distinct : DistinctConfigs pc.configs
  pub load_distinct : DistinctStrings pc.load_plugins
  pub loaded : (n : String) → contains pc.load_plugins n ≡ is_some (find_config n pc.configs)

pub find_config-append :
    (n : String) (xs : List PluginConfig) (c : PluginConfig)
    → find_config c.name xs ≡ none
    → find_config n (xs ++ c ∷ []) ≡ (if c.name == n then some c else find_config n xs)
unfolding find_config
find_config-append n [] c h = ground (arith)
find_config-append n (x ∷ xs) c h =
    ground
      (arith, eq_iff c.name n, eq_iff x.name n, eq_iff x.name c.name, find_config-append n xs c)

pub find_config-drop :
    (n name : String) (xs : List PluginConfig)
    → DistinctConfigs xs
    → find_config n (drop_config name xs) ≡ (if name == n then none else find_config n xs)
unfolding find_config drop_config
find_config-drop n name [] h = ground arith
find_config-drop n name (x ∷ xs) h =
    ground
      (arith, eq_iff name n, eq_iff x.name n, eq_iff x.name name, find_config-drop n name xs h.1)

contains-append :
    (n : String) (xs : List String) (m : String)
    → contains (xs ++ m ∷ []) n ≡ (m == n || contains xs n)
unfolding contains
contains-append n [] m = refl
contains-append n (x ∷ xs) m = ground (arith, contains-append n xs m)

contains-drop :
    (n name : String) (xs : List String)
    → DistinctStrings xs
    → contains (drop_name name xs) n ≡ (if name == n then false else contains xs n)
unfolding contains drop_name
contains-drop n name [] h = ground arith
contains-drop n name (x ∷ xs) h =
    ground (arith, eq_iff name n, eq_iff x n, eq_iff x name, contains-drop n name xs h.1)

append-DistinctConfigs :
    (xs : List PluginConfig) (c : PluginConfig)
    → DistinctConfigs xs
    → find_config c.name xs ≡ none
    → DistinctConfigs (xs ++ c ∷ [])
unfolding find_config
append-DistinctConfigs [] c h k = (refl, tt)
append-DistinctConfigs (x ∷ xs) c h k = (
  ground (arith, eq_iff c.name x.name, eq_iff x.name c.name, find_config-append x.name xs c),
  append-DistinctConfigs xs c h.1 (ground arith),
)

drop-DistinctConfigs :
    (name : String) (xs : List PluginConfig)
    → DistinctConfigs xs
    → DistinctConfigs (drop_config name xs)
unfolding drop_config
drop-DistinctConfigs name [] h = tt
drop-DistinctConfigs name (x ∷ xs) h = if_both DistinctConfigs (x.name == name) h.1 (
  rw (find_config-drop x.name name xs h.1) (if_both (λ o. o ≡ none) (name == x.name) refl h.0),
  drop-DistinctConfigs name xs h.1,
)

append-DistinctStrings :
    (xs : List String) (n : String)
    → DistinctStrings xs
    → contains xs n ≡ false
    → DistinctStrings (xs ++ n ∷ [])
unfolding contains
append-DistinctStrings [] n h k = (refl, tt)
append-DistinctStrings (x ∷ xs) n h k = (
  ground (arith, eq_iff n x, eq_iff x n, contains-append x xs n),
  append-DistinctStrings xs n h.1 (ground arith),
)

drop-DistinctStrings :
    (name : String) (xs : List String) → DistinctStrings xs → DistinctStrings (drop_name name xs)
unfolding drop_name
drop-DistinctStrings name [] h = tt
drop-DistinctStrings name (x ∷ xs) h = if_both DistinctStrings (x == name) h.1 (
  rw (contains-drop x name xs h.1) (if_both (λ o. o ≡ false) (name == x) refl h.0),
  drop-DistinctStrings name xs h.1,
)

append_config-IsWellFormed :
    (c : PluginConfig) (configs : List PluginConfig) (load : List String)
    → DistinctConfigs configs
    → DistinctStrings load
    → find_config c.name configs ≡ none
    → ((n : String)
        → (c.name == n || contains load n) ≡ (c.name == n || is_some (find_config n configs)))
    → IsWellFormed (append_config c configs load)
unfolding append_config
append_config-IsWellFormed c configs load d l new names = record {
  configs_distinct = append-DistinctConfigs configs c d new;
  load_distinct = elim (Bool-cases (contains load c.name)) [
    | inl e ↦ rw e l
    | inr e ↦ rw e (append-DistinctStrings load c.name l e)
  ];
  loaded = λ n. ground (
    arith,
    names n,
    eq_iff c.name n,
    find_config-append n configs c new,
    contains-append n load c.name,
  );
}

put_found-IsWellFormed :
    (c : PluginConfig) (pc : PluginsConfig) (found : Option PluginConfig)
    → find_config c.name pc.configs ≡ found
    → IsWellFormed pc
    → IsWellFormed (put_found c pc found)
unfolding put_found
put_found-IsWellFormed c pc none e h =
    append_config-IsWellFormed c pc.configs pc.load_plugins h.configs_distinct h.load_distinct e
      (λ n. ground (arith, h.loaded n))
put_found-IsWellFormed c pc (some old) e h = if_both IsWellFormed (is_same old c) h (
    append_config-IsWellFormed c (drop_config c.name pc.configs) pc.load_plugins
      (drop-DistinctConfigs c.name pc.configs h.configs_distinct) h.load_distinct
      (ground
        (arith, eq_iff c.name c.name, find_config-drop c.name c.name pc.configs h.configs_distinct))
      (λ n. ground (
        arith,
        h.loaded n,
        eq_iff c.name n,
        find_config-drop n c.name pc.configs h.configs_distinct,
      )))

-- Adding a plugin's entry keeps the aggregate well formed.
pub put_config-IsWellFormed :
    (c : PluginConfig) (pc : PluginsConfig) → IsWellFormed pc → IsWellFormed (put_config c pc)
unfolding put_config
put_config-IsWellFormed c pc h = put_found-IsWellFormed c pc (find_config c.name pc.configs) refl h

-- Removing an entry keeps the aggregate well formed.
pub remove_by_name-IsWellFormed :
    (name : String) (pc : PluginsConfig) → IsWellFormed pc → IsWellFormed (remove_by_name name pc)
unfolding remove_by_name
remove_by_name-IsWellFormed name pc h = record {
  configs_distinct = drop-DistinctConfigs name pc.configs h.configs_distinct;
  load_distinct = drop-DistinctStrings name pc.load_plugins h.load_distinct;
  loaded = λ n. ground (
    arith,
    h.loaded n,
    contains-drop n name pc.load_plugins h.load_distinct,
    find_config-drop n name pc.configs h.configs_distinct,
  );
}
