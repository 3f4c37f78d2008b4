-- ===== src/NodeArtifacts/Changes/Remove.antt =====
-- `RemovePluginConfigByName`: what a removal keeps, and what it leaves behind.
use falco_operator.Common.{
  String, true, Option, none, some, List, [], ◌∷◌, Result, ok, err, Map, ◌≡◌, ◌∙◌, refl, arith,
  eq_iff, ◌==◌, string_eq, lookup, insert, lookup-insert, Distinct, All, if◌then◌else◌, inl, inr,
  Bool-cases, Result-cases,
}
use falco_operator.Artifact.{Bytes, File, StoreAction}
use falco_operator.NodeArtifacts.{Provided, Manager}
use falco_operator.NodeArtifacts.Registry.{is_removed}
use falco_operator.NodeArtifacts.Registry.Snapshot.{removed_mark}
use falco_operator.NodeArtifacts.Registry.Removal.{
  blocked_by_others_sound, KeepsSatisfied, AllSurvive-keeps, marked-keeps,
}
use falco_operator.NodeArtifacts.Changes.{
  Environment, ChangeError, remove_blockers, publish_removed, remove_plugin_config_by_name,
  write_plugins_config,
}
use falco_operator.NodeArtifacts.Entries.{remove_by_name, find_config}
use falco_operator.NodeArtifacts.Entries.Sets.{
  IsWellFormed, find_config-drop, remove_by_name-IsWellFormed,
}
use falco_operator.NodeArtifacts.Observed.{observe_provides}
use falco_operator.NodeArtifacts.Observed.Entries.{
  lookup-observe_provides, observe_provides-Distinct, reconciled,
}
use falco_operator.NodeArtifacts.Changes.Write.{config_path, write_plugins_config-writes}

module _ (env : Environment) (m : Manager) (d : env.store.Disk) (cr_name config_name : String) where
  abbrev pub removal : Result ChangeError (Unit {0}) × Manager × env.store.Disk
  removal = remove_plugin_config_by_name env m d cr_name config_name

  removal_unblocked : removal.0 ≡ ok tt → remove_blockers env m config_name ≡ []
  unfolding remove_plugin_config_by_name
  removal_unblocked h = ground arith

  removal_published : removal.0 ≡ ok tt → removal.1 ≡ publish_removed env m cr_name config_name
  unfolding remove_plugin_config_by_name
  removal_published h = ground arith

  -- A removal that fails, because it is blocked or because the write failed, leaves the manager's
  -- whole state as it was.
  pub removal_fails_clean : {e : ChangeError} → removal.0 ≡ err e → removal.1 ≡ m
  unfolding remove_plugin_config_by_name
  removal_fails_clean h = ground arith

  published_provides :
      (publish_removed env m cr_name config_name).provides
      ≡ insert config_name removed_mark m.provides
  unfolding publish_removed
  published_provides = ground arith

  published_config :
      (publish_removed env m cr_name config_name).plugins_config
      ≡ remove_by_name config_name m.plugins_config
  unfolding publish_removed
  published_config = ground arith

  published_requires : (publish_removed env m cr_name config_name).requires ≡ m.requires
  unfolding publish_removed
  published_requires = ground arith

  unblocked-keeps :
      remove_blockers env m config_name ≡ []
      → KeepsSatisfied env.versions m.provides
          (insert config_name removed_mark m.provides)
          m.requires
  unfolding remove_blockers
  unblocked-keeps h = elim (Bool-cases (is_removed (lookup config_name m.provides))) [
    | inl e ↦ marked-keeps env.versions m.provides config_name m.requires e
    | inr e ↦
        AllSurvive-keeps env.versions m.provides config_name m.requires
          (blocked_by_others_sound env.versions m.provides config_name m.requires (rw e at h))
  ]

  -- A removal that succeeds breaks nothing: every registered dependency group that was satisfied
  -- before it is satisfied after it, and the registered groups are the same.
  pub removal-KeepsSatisfied :
      removal.0 ≡ ok tt
      → KeepsSatisfied env.versions m.provides removal.1.provides m.requires
        × (removal.1.requires ≡ m.requires)
  removal-KeepsSatisfied h =
      rw (removal_published h, published_provides)
        (unblocked-keeps (removal_unblocked h), published_requires)

  removal_written :
      removal.0 ≡ ok tt
      → (w : StoreAction × Option File) × ((write_plugins_config env d none
            (remove_by_name config_name m.plugins_config)).0
          ≡ ok w)
        × (removal.2
            ≡ (write_plugins_config env d none (remove_by_name config_name m.plugins_config)).1)
  unfolding remove_plugin_config_by_name
  removal_written h =
      elim (Result-cases
        (write_plugins_config env d none (remove_by_name config_name m.plugins_config)).0) [
          | inl (w, e) ↦ (w, e, ground (arith, e))
          | inr (x, e) ↦ ground (arith, e)
        ]

  -- After a removal that succeeds the shared file holds exactly the manager's new aggregate.
  pub removal-writes :
      removal.0 ≡ ok tt
      → (text : Bytes) × (env.to_yaml removal.1.plugins_config ≡ some text)
        × (env.store.read removal.2 (config_path env) ≡ ok text)
  removal-writes h =
      let (w, written, disk) = removal_written h in
      let (text, yaml, reads) =
        write_plugins_config-writes env d (remove_by_name config_name m.plugins_config) w written in
      (text, rw (removal_published h, published_config) yaml, rw disk reads)

  -- After a removal that succeeds on a well-formed aggregate, the name is marked removed and no
  -- entry of the aggregate has it; the entries of all other names are kept, and the aggregate is
  -- well formed.
  pub removal-removes :
      IsWellFormed m.plugins_config
      → removal.0 ≡ ok tt
      → (is_removed (lookup config_name removal.1.provides) ≡ true)
        × ((n : String)
            → find_config n removal.1.plugins_config.configs
              ≡ (if config_name == n then none else find_config n m.plugins_config.configs))
        × IsWellFormed removal.1.plugins_config
  unfolding remove_by_name
  removal-removes w h =
      rw (removal_published h, published_provides, published_config)
        (
          ground (
            arith,
            lookup-insert config_name config_name removed_mark m.provides,
            eq_iff config_name config_name,
          ),
          λ n. find_config-drop n config_name m.plugins_config.configs w.configs_distinct,
          remove_by_name-IsWellFormed config_name m.plugins_config w,
        )

-- The registry after a sequence of observations of Falco.
abbrev pub observe_all : List (Map String String) → Map String Provided → Map String Provided
observe_all [] provides = provides
observe_all (observed ∷ rest) provides = observe_all rest (observe_provides observed provides)

reconciled_removed :
    (name : String) (o : Option String) → reconciled name (some removed_mark) o ≡ some removed_mark
reconciled_removed name none = refl
reconciled_removed name (some version) = refl

-- However often Falco is observed, and whether it still reports the plugin or not, a name that is
-- marked removed with no version stays so. No name stands twice in the registry or in an
-- observation.
pub removed_stays :
    (snapshots : List (Map String String)) (provides : Map String Provided) (name : String)
    → All Distinct snapshots
    → Distinct provides
    → lookup name provides ≡ some removed_mark
    → lookup name (observe_all snapshots provides) ≡ some removed_mark
removed_stays [] provides name ho hp h = h
removed_stays (observed ∷ rest) provides name ho hp h =
    removed_stays rest (observe_provides observed provides) name ho.1
      (observe_provides-Distinct observed provides hp)
      (lookup-observe_provides observed provides name ho.0 hp
        ∙ rw h (reconciled_removed name (lookup name observed)))
