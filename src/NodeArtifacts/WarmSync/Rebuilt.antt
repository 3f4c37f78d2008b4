-- ===== src/NodeArtifacts/WarmSync/Rebuilt.antt =====
-- The registry after a warm sync, described from the node objects and the lists as they were read.
use falco_operator.Common.{
  String, true, false, ◌||◌, List, [], ◌∷◌, Option, none, some, ok, Map, lookup, string_eq,
  if◌then◌else◌, ◌≡◌, ◌∙◌, refl, eq_iff, arith, Bool-cases, inl, inr,
}
use falco_operator.NodeArtifacts.{key_eq, RequirementGroup, Manager}
use falco_operator.NodeArtifacts.Entries.{Plugin}
use falco_operator.NodeArtifacts.WarmSync.{
  OwnerReference, ArtifactNode, Rulesfile, OwnerKind, OwnedNode, owner_of, owned_of, owned_nodes,
  needs, plugins_by_name, rulesfile_key, meta_of, warm_sync,
}
use falco_operator.NodeArtifacts.WarmSync.Registered.{
  is_provided, read_plugins, read_rulesfiles, warm_sync-synced,
}
use falco_operator.NodeArtifacts.WarmSync.Described.{
  controller_of, rulesfile_named, leads_to, any_plugin, is_rulesfile, any_rulesfile, groups_of,
  kind_and_name, owner_of-controller, named_lookup, rulesfile_lookup,
}
use falco_operator.NodeArtifacts.WarmSync.Owned.{
  any_adds_name, any_adds_groups, owned-provides, owned-requires,
}

-- One node object's part of the owned artifacts.
owned_by-name :
    (name : String) (plugins : List Plugin) (o : Option OwnerReference) (later : List OwnedNode)
    → any_adds_name name (plugins_by_name plugins []) (owned_of (kind_and_name o) later)
      ≡ (leads_to name plugins o || any_adds_name name (plugins_by_name plugins []) later)
unfolding any_adds_name
owned_by-name name plugins none later = refl
owned_by-name name plugins (some ref) later = ground (
  arith,
  named_lookup name ref.name plugins,
  eq_iff ref.kind "Plugin",
  eq_iff ref.kind "Rulesfile",
  eq_iff "Plugin" "Rulesfile",
)

owned_by-groups :
    (name : String) (o : Option OwnerReference) (later : List OwnedNode)
    → any_adds_groups name (owned_of (kind_and_name o) later)
      ≡ (is_rulesfile name o || any_adds_groups name later)
unfolding any_adds_groups
owned_by-groups name none later = refl
owned_by-groups name (some ref) later =
    ground
      (arith, eq_iff ref.kind "Plugin", eq_iff ref.kind "Rulesfile", eq_iff "Plugin" "Rulesfile")

owned_of-name :
    (name : String) (plugins : List Plugin) (refs : List OwnerReference) (later : List OwnedNode)
    → any_adds_name name (plugins_by_name plugins []) (owned_of (owner_of refs) later) ≡ (
        leads_to name plugins (controller_of refs)
        || any_adds_name name (plugins_by_name plugins []) later)
owned_of-name name plugins refs later =
    rw (owner_of-controller refs) (owned_by-name name plugins (controller_of refs) later)

owned_of-groups :
    (name : String) (refs : List OwnerReference) (later : List OwnedNode)
    → any_adds_groups name (owned_of (owner_of refs) later)
      ≡ (is_rulesfile name (controller_of refs) || any_adds_groups name later)
owned_of-groups name refs later =
    rw (owner_of-controller refs) (owned_by-groups name (controller_of refs) later)

owned_nodes-name :
    (name : String) (plugins : List Plugin) (nodes : List ArtifactNode)
    → any_adds_name name (plugins_by_name plugins []) (owned_nodes nodes)
      ≡ any_plugin name plugins nodes
unfolding owned_nodes any_adds_name
owned_nodes-name name plugins [] = refl
owned_nodes-name name plugins (n ∷ rest) = ground (
  arith,
  owned_of-name name plugins n.owner_references (owned_nodes rest),
  owned_nodes-name name plugins rest,
)

owned_nodes-groups :
    (name : String) (nodes : List ArtifactNode)
    → any_adds_groups name (owned_nodes nodes) ≡ any_rulesfile name nodes
unfolding owned_nodes any_adds_groups
owned_nodes-groups name [] = refl
owned_nodes-groups name (n ∷ rest) = ground (
  arith,
  owned_of-groups name n.owner_references (owned_nodes rest),
  owned_nodes-groups name rest,
)

-- A list that no owned artifact needs adds nothing.
unneeded_plugins :
    (name : String) (plugins : Map String Plugin) (owned : List OwnedNode)
    → needs true owned ≡ false
    → any_adds_name name plugins owned ≡ false
unfolding needs any_adds_name
unneeded_plugins name plugins [] h = refl
unneeded_plugins name plugins (o ∷ rest) h = elim o.owner_kind [
  | OwnerKind.plugin_owner ↦ ground (arith, h, unneeded_plugins name plugins rest)
  | OwnerKind.rulesfile_owner ↦ ground (arith, h, unneeded_plugins name plugins rest)
]

unneeded_rulesfiles :
    (name : String) (owned : List OwnedNode)
    → needs false owned ≡ false
    → any_adds_groups name owned ≡ false
unfolding needs any_adds_groups
unneeded_rulesfiles name [] h = refl
unneeded_rulesfiles name (o ∷ rest) h = ground (arith, h, unneeded_rulesfiles name rest)

read-name :
    (name : String) (nodes : List ArtifactNode) (plugins : List Plugin)
    → any_adds_name name (read_plugins nodes plugins) (owned_nodes nodes)
      ≡ any_plugin name plugins nodes
read-name name nodes plugins = elim (Bool-cases (needs true (owned_nodes nodes))) [
  | inl e ↦ rw e (owned_nodes-name name plugins nodes)
  | inr e ↦ ground (
    arith,
    owned_nodes-name name plugins nodes,
    unneeded_plugins name (read_plugins nodes plugins) (owned_nodes nodes) e,
    unneeded_plugins name (plugins_by_name plugins []) (owned_nodes nodes) e,
  )
]

read-groups :
    (name : String) (nodes : List ArtifactNode) (rulesfiles : List Rulesfile)
    (before : Option (List RequirementGroup))
    → (if any_adds_groups name (owned_nodes nodes)
        then groups_of (meta_of (lookup name (read_rulesfiles nodes rulesfiles))) before
        else before)
      ≡ (if any_rulesfile name nodes
          then groups_of (meta_of (rulesfile_named name rulesfiles)) before
          else before)
read-groups name nodes rulesfiles before = elim (Bool-cases (needs false (owned_nodes nodes))) [
  | inl e ↦ rw (e, owned_nodes-groups name nodes, rulesfile_lookup name rulesfiles) refl
  | inr e ↦
      ground (arith, owned_nodes-groups name nodes, unneeded_rulesfiles name (owned_nodes nodes) e)
]

-- A warm sync whose lists are read succeeds. A name is then provided exactly if it was, or if it is
-- the name of a plugin that some node object, which is not being deleted and has something
-- installed, is controlled by. The dependency groups of a Rulesfile are exactly those of its
-- metadata, if such a node object is controlled by it and the metadata is known, and else those that
-- were registered before. Of the objects of one name in a list, the last counts.
pub warm_sync-rebuilds :
    (nodes : List ArtifactNode) (plugins : List Plugin) (rulesfiles : List Rulesfile) (m : Manager)
    (name : String)
    → let after = warm_sync (ok nodes) (ok plugins) (ok rulesfiles) m in
      (after.0 ≡ ok tt)
      × (is_provided (lookup name after.1.provides)
          ≡ (any_plugin name plugins nodes || is_provided (lookup name m.provides)))
      × (lookup (rulesfile_key name) after.1.requires ≡ (
          if any_rulesfile name nodes
          then groups_of
              (meta_of (rulesfile_named name rulesfiles))
              (lookup (rulesfile_key name) m.requires)
          else lookup (rulesfile_key name) m.requires))
warm_sync-rebuilds nodes plugins rulesfiles m name =
    let owned = owned_nodes nodes in
    let p = read_plugins nodes plugins in
    let r = read_rulesfiles nodes rulesfiles in
    rw (warm_sync-synced nodes plugins rulesfiles m) (
      refl,
      ground (arith, owned-provides p r name owned m, read-name name nodes plugins),
      owned-requires p r name owned m
          ∙ read-groups name nodes rulesfiles (lookup (rulesfile_key name) m.requires),
    )
