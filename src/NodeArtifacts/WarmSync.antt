-- ===== src/NodeArtifacts/WarmSync.antt =====
-- internal/pkg/nodeartifacts/warmsync.go: the registry rebuilt from the node's durable status. What
-- the three `List` calls of the API client return is an argument.
pub mod Registered
pub mod Described
pub mod Owned
pub mod Rebuilt
use falco_operator.Common.{
  ℕ, String, Bool, true, false, ◌&&◌, ◌||◌, not, List, [], ◌∷◌, Option, none, some, Result, ok, err,
  Map, lookup, insert, delete, lookup-insert, lookup-delete, All, All-map, ◌==◌, string_eq,
  if◌then◌else◌, ◌≡◌, ◌≢◌, ◌∙◌, refl, eq_iff, arith, Option-cases, inl, inr,
}
use falco_operator.Artifact.{InstalledArtifact}
use falco_operator.NodeArtifacts.{
  Kind, Key, key_eq, key_beq_iff, Provided, RequirementGroup, Manager, plugin_config_key,
}
use falco_operator.NodeArtifacts.Registry.{
  MetaDependency, requirement_groups_from_dependencies, sync, sync_provides, version_of,
}
use falco_operator.NodeArtifacts.Entries.{Plugin, resolve_config_name, override}

pub record OwnerReference : Type 0 where
  pub controller : Option Bool
  pub kind : String
  pub name : String

pub record ArtifactNode : Type 0 where
  pub is_deleting : Bool
  pub installed_artifacts : List InstalledArtifact
  pub owner_references : List OwnerReference

-- A Rulesfile with the dependencies of its `Status.ArtifactMeta`.
pub record Rulesfile : Type 0 where
  pub name : String
  pub artifact_meta : Option (List MetaDependency)

pub data OwnerKind : Type 0 where
  plugin_owner rulesfile_owner : OwnerKind

pub record OwnedNode : Type 0 where
  pub owner_kind : OwnerKind
  pub owner_name : String

abbrev is_controller : Option Bool → Bool
is_controller none = false
is_controller (some b) = b

-- The first controlling owner.
unfoldable pub owner_of : List OwnerReference → String × String
owner_of [] = ("", "")
owner_of (ref ∷ rest) =
    let later = owner_of rest in
    if is_controller ref.controller then (ref.kind, ref.name) else later

abbrev pub owned_of : String × String → List OwnedNode → List OwnedNode
owned_of (kind, name) later =
    if kind == "Plugin"
    then (record { owner_kind = OwnerKind.plugin_owner; owner_name = name }) ∷ later
    else if kind == "Rulesfile"
    then (record { owner_kind = OwnerKind.rulesfile_owner; owner_name = name }) ∷ later
    else later

abbrev pub is_installed : ArtifactNode → Bool
is_installed n =
    not n.is_deleting && not (elim n.installed_artifacts [ [] ↦ true | x ∷ xs ↦ false ])

unfoldable pub owned_nodes : List ArtifactNode → List OwnedNode
unfolding owner_of
owned_nodes [] = []
owned_nodes (n ∷ rest) =
    let later = owned_nodes rest in
    if is_installed n then owned_of (owner_of n.owner_references) later else later

abbrev is_plugin_owner : OwnerKind → Bool
is_plugin_owner OwnerKind.plugin_owner = true
is_plugin_owner OwnerKind.rulesfile_owner = false

unfoldable pub needs : Bool → List OwnedNode → Bool
needs plugins [] = false
needs plugins (o ∷ rest) =
    (if is_plugin_owner o.owner_kind then plugins else not plugins) || needs plugins rest

unfoldable pub plugins_by_name : List Plugin → Map String Plugin → Map String Plugin
plugins_by_name [] m = m
plugins_by_name (p ∷ rest) m = plugins_by_name rest (insert p.name p m)

unfoldable pub rulesfiles_by_name : List Rulesfile → Map String Rulesfile → Map String Rulesfile
rulesfiles_by_name [] m = m
rulesfiles_by_name (r ∷ rest) m = rulesfiles_by_name rest (insert r.name r m)

abbrev pub config_name_of : String → Plugin → String
config_name_of owner_name plugin = elim plugin.config [
  | none ↦ owner_name
  | some c ↦ override c.name owner_name
]

abbrev pub rulesfile_key : String → Key
rulesfile_key name = record { kind = Kind.rulesfile; name = name }

unfoldable pub sync_plugin : String → Option Plugin → Manager → Manager
unfolding sync_provides
sync_plugin name none m = m
sync_plugin name (some p) m = sync_provides plugin_config_key (config_name_of name p) m

unfoldable pub sync_meta : String → Option (List MetaDependency) → Manager → Manager
unfolding sync requirement_groups_from_dependencies
sync_meta name none m = m
sync_meta name (some deps) m =
    sync (rulesfile_key name) (requirement_groups_from_dependencies deps) m

abbrev pub meta_of : Option Rulesfile → Option (List MetaDependency)
meta_of none = none
meta_of (some r) = r.artifact_meta

module _ (plugins : Map String Plugin) (rulesfiles : Map String Rulesfile) where
  unfoldable pub sync_kind : OwnerKind → String → Manager → Manager
  unfolding sync_plugin sync_meta
  sync_kind OwnerKind.plugin_owner name m = sync_plugin name (lookup name plugins) m
  sync_kind OwnerKind.rulesfile_owner name m = sync_meta name (meta_of (lookup name rulesfiles)) m

  unfoldable pub sync_owned : List OwnedNode → Manager → Manager
  unfolding sync_kind
  sync_owned [] m = m
  sync_owned (o ∷ rest) m = sync_owned rest (sync_kind o.owner_kind o.owner_name m)

abbrev pub listed {ℓ} : {A : Type ℓ} → Bool → Result String (List A) → Result String (List A)
listed needed list = if needed then list else ok []

unfoldable pub sync_listed :
    Result String (List Plugin)
    → Result String (List Rulesfile)
    → List OwnedNode
    → Manager
    → Result String (Unit {0}) × Manager
unfolding plugins_by_name rulesfiles_by_name sync_owned
sync_listed (err e) rulesfiles owned m = (err e, m)
sync_listed (ok plugins) (err e) owned m = (err e, m)
sync_listed (ok plugins) (ok rulesfiles) owned m =
    (ok tt, sync_owned (plugins_by_name plugins []) (rulesfiles_by_name rulesfiles []) owned m)

unfoldable pub warm_sync :
    Result String (List ArtifactNode)
    → Result String (List Plugin)
    → Result String (List Rulesfile)
    → Manager
    → Result String (Unit {0}) × Manager
unfolding owned_nodes needs sync_listed
warm_sync (err e) plugins rulesfiles m = (err e, m)
warm_sync (ok nodes) plugins rulesfiles m =
    let owned = owned_nodes nodes in
    sync_listed (listed (needs true owned) plugins) (listed (needs false owned) rulesfiles) owned m
