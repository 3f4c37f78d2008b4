-- ===== src/NodeArtifacts/WarmSync/Owned.antt =====
-- What the owned artifacts add to the registry, one after the other.
use falco_operator.Common.{
  String, Bool, false, ◌||◌, List, [], ◌∷◌, Option, none, some, Map, lookup, lookup-insert, ◌==◌,
  string_eq, if◌then◌else◌, ◌≡◌, refl, eq_iff, arith, Bool-cases, inl, inr,
}
use falco_operator.NodeArtifacts.{key_eq, key_beq_iff, RequirementGroup, Manager, plugin_config_key}
use falco_operator.NodeArtifacts.Registry.{
  MetaDependency, requirement_groups_from_dependencies, sync, sync_provides, version_of,
}
use falco_operator.NodeArtifacts.Entries.{Plugin}
use falco_operator.NodeArtifacts.WarmSync.{
  Rulesfile, OwnerKind, OwnedNode, config_name_of, rulesfile_key, sync_plugin, sync_meta, meta_of,
  sync_kind, sync_owned,
}
use falco_operator.NodeArtifacts.WarmSync.Registered.{is_provided, lookup-sync}
use falco_operator.NodeArtifacts.WarmSync.Described.{is_named, groups_of}

-- What one owned artifact adds to the provided names, and to the registered groups.
abbrev pub adds_name : String → Map String Plugin → OwnedNode → Bool
adds_name name plugins o = elim o.owner_kind [
  | OwnerKind.plugin_owner ↦ is_named name o.owner_name (lookup o.owner_name plugins)
  | OwnerKind.rulesfile_owner ↦ false
]

abbrev pub adds_groups : String → OwnedNode → Bool
adds_groups name o = elim o.owner_kind [
  | OwnerKind.plugin_owner ↦ false
  | OwnerKind.rulesfile_owner ↦ o.owner_name == name
]

unfoldable pub any_adds_name : String → Map String Plugin → List OwnedNode → Bool
any_adds_name name plugins [] = false
any_adds_name name plugins (o ∷ rest) = adds_name name plugins o || any_adds_name name plugins rest

unfoldable pub any_adds_groups : String → List OwnedNode → Bool
any_adds_groups name [] = false
any_adds_groups name (o ∷ rest) = adds_groups name o || any_adds_groups name rest

sync_plugin-provides :
    (name owner : String) (p : Option Plugin) (m : Manager)
    → is_provided (lookup name (sync_plugin owner p m).provides)
      ≡ (is_named name owner p || is_provided (lookup name m.provides))
unfolding sync_plugin sync_provides
sync_plugin-provides name owner none m = refl
sync_plugin-provides name owner (some p) m =
    let n = config_name_of owner p in
    ground (
      arith,
      lookup-insert n name
          (record {
            key = plugin_config_key;
            version = version_of (lookup n m.provides);
            removed = false;
          })
          m.provides,
    )

sync_meta-provides :
    (owner : String) (o : Option (List MetaDependency)) (m : Manager)
    → (sync_meta owner o m).provides ≡ m.provides
unfolding sync_meta sync
sync_meta-provides owner none m = refl
sync_meta-provides owner (some deps) m = ground arith

sync_plugin-requires :
    (owner : String) (p : Option Plugin) (m : Manager)
    → (sync_plugin owner p m).requires ≡ m.requires
unfolding sync_plugin sync_provides
sync_plugin-requires owner none m = refl
sync_plugin-requires owner (some p) m = ground arith

sync_meta-requires :
    (name owner : String) (o : Option (List MetaDependency)) (m : Manager)
    → lookup (rulesfile_key name) (sync_meta owner o m).requires ≡ (
        if owner == name
        then groups_of o (lookup (rulesfile_key name) m.requires)
        else lookup (rulesfile_key name) m.requires)
unfolding sync_meta
sync_meta-requires name owner none m = ground arith
sync_meta-requires name owner (some deps) m = ground (
  arith,
  eq_iff owner name,
  key_beq_iff (rulesfile_key owner) (rulesfile_key name),
  lookup-sync (rulesfile_key owner) (rulesfile_key name) (requirement_groups_from_dependencies deps)
      m,
)

module _ (plugins : Map String Plugin) (rulesfiles : Map String Rulesfile) (name : String) where
  abbrev expected : Option (List RequirementGroup) → Option (List RequirementGroup)
  expected = groups_of (meta_of (lookup name rulesfiles))

  kind-provides :
      (k : OwnerKind) (owner : String) (m : Manager)
      → is_provided (lookup name (sync_kind plugins rulesfiles k owner m).provides) ≡ (
          adds_name name plugins (record { owner_kind = k; owner_name = owner })
          || is_provided (lookup name m.provides))
  unfolding sync_kind
  kind-provides OwnerKind.plugin_owner owner m =
      sync_plugin-provides name owner (lookup owner plugins) m
  kind-provides OwnerKind.rulesfile_owner owner m =
      ground (arith, sync_meta-provides owner (meta_of (lookup owner rulesfiles)) m)

  kind-requires :
      (k : OwnerKind) (owner : String) (m : Manager)
      → lookup (rulesfile_key name) (sync_kind plugins rulesfiles k owner m).requires ≡ (
          if adds_groups name (record { owner_kind = k; owner_name = owner })
          then expected (lookup (rulesfile_key name) m.requires)
          else lookup (rulesfile_key name) m.requires)
  unfolding sync_kind
  kind-requires OwnerKind.plugin_owner owner m =
      ground (arith, sync_plugin-requires owner (lookup owner plugins) m)
  kind-requires OwnerKind.rulesfile_owner owner m = elim (Bool-cases (owner == name)) [
    | inl e ↦
        let same = (eq_iff owner name).0 e in
        ground (arith, e, same, sync_meta-requires name owner (meta_of (lookup owner rulesfiles)) m)
    | inr e ↦ ground (arith, e, sync_meta-requires name owner (meta_of (lookup owner rulesfiles)) m)
  ]

  pub owned-provides :
      (owned : List OwnedNode) (m : Manager)
      → is_provided (lookup name (sync_owned plugins rulesfiles owned m).provides)
        ≡ (any_adds_name name plugins owned || is_provided (lookup name m.provides))
  unfolding sync_owned any_adds_name
  owned-provides [] m = refl
  owned-provides (o ∷ rest) m = ground (
    arith,
    kind-provides o.owner_kind o.owner_name m,
    owned-provides rest (sync_kind plugins rulesfiles o.owner_kind o.owner_name m),
  )

  groups_of_idem :
      (o : Option (List MetaDependency)) (before : Option (List RequirementGroup))
      → groups_of o (groups_of o before) ≡ groups_of o before
  groups_of_idem none before = refl
  groups_of_idem (some deps) before = refl

  pub owned-requires :
      (owned : List OwnedNode) (m : Manager)
      → lookup (rulesfile_key name) (sync_owned plugins rulesfiles owned m).requires ≡ (
          if any_adds_groups name owned
          then expected (lookup (rulesfile_key name) m.requires)
          else lookup (rulesfile_key name) m.requires)
  unfolding sync_owned any_adds_groups
  owned-requires [] m = refl
  owned-requires (o ∷ rest) m = ground (
    arith,
    kind-requires o.owner_kind o.owner_name m,
    groups_of_idem (meta_of (lookup name rulesfiles)) (lookup (rulesfile_key name) m.requires),
    owned-requires rest (sync_kind plugins rulesfiles o.owner_kind o.owner_name m),
  )
