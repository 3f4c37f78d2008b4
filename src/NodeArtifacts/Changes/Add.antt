-- ===== src/NodeArtifacts/Changes/Add.antt =====
-- `AddPluginConfig`: a plugin's entry is added, or moves to another name.
use falco_operator.Common.{
  String, false, Option, some, [], ok, err, Map, ◌≡◌, ◌≢◌, refl, arith, eq_iff, string_eq, lookup,
  insert, lookup-insert, All, All-map, All-always, if◌then◌else◌, inl, inr, Bool-cases, List-cases,
  if_both,
}
use falco_operator.Artifact.{File, StoreAction}
use falco_operator.NodeArtifacts.{Provided, Manager, PluginsConfig, plugin_config_key}
use falco_operator.NodeArtifacts.Registry.{names, version_of}
use falco_operator.NodeArtifacts.Registry.Snapshot.{removed_mark, check_other}
use falco_operator.NodeArtifacts.Registry.Removal.{
  Satisfied, KeepsSatisfied, AllSurvive-keeps, blocked_by_others_sound,
}
use falco_operator.NodeArtifacts.Changes.{
  Environment, ChangeError, blocked, is_rename, old_name, rename_blockers, updated_config,
  publish_added, add_plugin_config_locked, Outcome,
}
use falco_operator.NodeArtifacts.Entries.{
  Plugin, resolve_config_name, config_of, put_config, add_config, remove_by_name, find_config,
}
use falco_operator.NodeArtifacts.Entries.Sets.{
  IsWellFormed, put_config-IsWellFormed, remove_by_name-IsWellFormed,
}
use falco_operator.NodeArtifacts.Entries.Lookup.{config_of-name, find_config-put_config}

module _ (env : Environment) (m : Manager) (d : env.store.Disk) (plugin : Plugin)
    (current : Option File) where
  abbrev pub addition : Outcome env
  addition = add_plugin_config_locked env m d plugin current

  abbrev pub target_name : String
  target_name = resolve_config_name plugin

  addition_unblocked :
      {w : StoreAction × Option File} → addition.0 ≡ ok w → rename_blockers env m plugin ≡ []
  unfolding add_plugin_config_locked
  addition_unblocked h = ground arith

  addition_published :
      {w : StoreAction × Option File} → addition.0 ≡ ok w → addition.1 ≡ publish_added env m plugin
  unfolding add_plugin_config_locked
  addition_published h = ground arith

  -- An addition that fails leaves the manager's whole state as it was.
  pub addition_fails_clean : {e : ChangeError} → addition.0 ≡ err e → addition.1 ≡ m
  unfolding add_plugin_config_locked
  addition_fails_clean h = ground arith

  -- A rename whose old name is still needed is refused with the keys that need it, before anything
  -- is written.
  pub addition_blocked :
      rename_blockers env m plugin ≢ []
      → addition ≡ (err (blocked (old_name env m plugin) (rename_blockers env m plugin)), m, d)
  unfolding add_plugin_config_locked
  addition_blocked h = elim (List-cases (rename_blockers env m plugin)) [
    | inl e ↦ absurd (h e)
    | inr (k, ks, e) ↦ ground (arith, e)
  ]

  -- The registry between the removal of the old name and the registration of the new one.
  abbrev pub renamed : Map String Provided
  renamed =
      if is_rename env m plugin
      then insert (old_name env m plugin) removed_mark m.provides
      else m.provides

  abbrev pub registered : Provided
  registered = record {
    key = plugin_config_key;
    version = version_of (lookup target_name renamed);
    removed = false;
  }

  published_provides : (publish_added env m plugin).provides ≡ insert target_name registered renamed
  unfolding publish_added
  published_provides = ground arith

  published_config : (publish_added env m plugin).plugins_config ≡ updated_config env m plugin
  unfolding publish_added
  published_config = ground arith

  renamed-keeps :
      rename_blockers env m plugin ≡ [] → KeepsSatisfied env.versions m.provides renamed m.requires
  unfolding rename_blockers
  renamed-keeps h = elim (Bool-cases (is_rename env m plugin)) [
    | inl e ↦ rw e (
        AllSurvive-keeps env.versions m.provides (old_name env m plugin) m.requires (
          blocked_by_others_sound env.versions m.provides (old_name env m plugin) m.requires
            (rw e at h)))
    | inr e ↦ rw e (All-always m.requires (λ entry. All-always entry.1 (λ g s. s)))
  ]

  -- An addition that succeeds, with or without a rename, keeps every registered dependency group
  -- satisfied that was, unless the group names the plugin under its new name.
  pub addition-keeps_Satisfied :
      {w : StoreAction × Option File}
      → addition.0 ≡ ok w
      → All
          (λ entry.
            All
              (λ g.
                names target_name g ≡ false
                → Satisfied env.versions m.provides g
                → Satisfied env.versions addition.1.provides g)
              entry.1)
          m.requires
  addition-keeps_Satisfied h =
      rw (addition_published h, published_provides)
        (All-map m.requires
          (λ entry. All-map entry.1 (λ g keeps other before.
            rw (check_other env.versions renamed target_name "" registered g other) (keeps before)))
          (renamed-keeps (addition_unblocked h)))

  before_adding : PluginsConfig
  before_adding =
      if is_rename env m plugin
      then remove_by_name (old_name env m plugin) m.plugins_config
      else m.plugins_config

  before_adding-IsWellFormed : IsWellFormed m.plugins_config → IsWellFormed before_adding
  unfolding before_adding
  before_adding-IsWellFormed w =
      if_both IsWellFormed (is_rename env m plugin)
        (remove_by_name-IsWellFormed (old_name env m plugin) m.plugins_config w) w

  updated_config-eq :
      updated_config env m plugin
      ≡ put_config (config_of env.join env.plugin_dir plugin) before_adding
  unfolding updated_config add_config before_adding
  updated_config-eq = refl

  updated-finds :
      IsWellFormed m.plugins_config
      → find_config target_name (updated_config env m plugin).configs
        ≡ some (config_of env.join env.plugin_dir plugin)
  updated-finds w = ground (
    arith,
    updated_config-eq,
    config_of-name env.join env.plugin_dir plugin,
    eq_iff target_name target_name,
    find_config-put_config (config_of env.join env.plugin_dir plugin) before_adding target_name
        (before_adding-IsWellFormed w),
  )

  published_name :
      (publish_added env m plugin).cr_to_config_name
      ≡ insert plugin.name target_name m.cr_to_config_name
  unfolding publish_added
  published_name = ground arith

  -- After an addition that succeeds on a well-formed aggregate, the aggregate is well formed and
  -- holds the plugin's entry under the name that dependency checks use, the plugin is registered
  -- as provided under that name with the version known for it, and the name is what a later rename
  -- starts from.
  pub addition-adds :
      {w : StoreAction × Option File}
      → IsWellFormed m.plugins_config
      → addition.0 ≡ ok w
      → IsWellFormed addition.1.plugins_config
        × (find_config target_name addition.1.plugins_config.configs
            ≡ some (config_of env.join env.plugin_dir plugin))
        × (lookup target_name addition.1.provides ≡ some registered)
        × (lookup plugin.name addition.1.cr_to_config_name ≡ some target_name)
  addition-adds w h =
      rw (addition_published h, published_config, published_provides, published_name)
        (
          rw updated_config-eq (
              put_config-IsWellFormed (config_of env.join env.plugin_dir plugin) before_adding
                (before_adding-IsWellFormed w)),
          updated-finds w,
          ground (
            arith,
            lookup-insert target_name target_name registered renamed,
            eq_iff target_name target_name,
          ),
          ground (
            arith,
            lookup-insert plugin.name plugin.name target_name m.cr_to_config_name,
            eq_iff plugin.name plugin.name,
          ),
        )
