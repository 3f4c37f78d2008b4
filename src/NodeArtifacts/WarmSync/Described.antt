-- ===== src/NodeArtifacts/WarmSync/Described.antt =====
-- What the node objects and the lists say, in words of their own: which artifact a node object
-- stands for, and what it contributes.
use falco_operator.Common.{
  String, Bool, true, false, not, ◌&&◌, ◌||◌, List, [], ◌∷◌, Option, none, some, Map, lookup,
  insert, lookup-insert, ◌==◌, string_eq, if◌then◌else◌, ◌≡◌, refl, arith, inl, inr, Option-cases,
}
use falco_operator.NodeArtifacts.{key_eq, RequirementGroup}
use falco_operator.NodeArtifacts.Registry.{MetaDependency, requirement_groups_from_dependencies}
use falco_operator.NodeArtifacts.Entries.{Plugin}
use falco_operator.NodeArtifacts.WarmSync.{
  OwnerReference, ArtifactNode, Rulesfile, owner_of, plugins_by_name, rulesfiles_by_name,
  config_name_of,
}
use falco_operator.NodeArtifacts.WarmSync.Registered.{registered_groups}

-- The first owner that controls the object.
abbrev pub controller_of : List OwnerReference → Option OwnerReference
controller_of [] = none
controller_of (ref ∷ rest) = elim ref.controller [
  | some true ↦ some ref
  | some false ↦ controller_of rest
  | none ↦ controller_of rest
]

-- A node object that counts: it is not on its way out, and something is installed for it.
abbrev pub counts : ArtifactNode → Bool
counts n = not n.is_deleting && elim n.installed_artifacts [ [] ↦ false | x ∷ xs ↦ true ]

-- The last one of the name in the list.
abbrev pub plugin_named : String → List Plugin → Option Plugin
plugin_named name [] = none
plugin_named name (p ∷ rest) = elim (plugin_named name rest) [
  | some q ↦ some q
  | none ↦ if p.name == name then some p else none
]

abbrev pub rulesfile_named : String → List Rulesfile → Option Rulesfile
rulesfile_named name [] = none
rulesfile_named name (r ∷ rest) = elim (rulesfile_named name rest) [
  | some q ↦ some q
  | none ↦ if r.name == name then some r else none
]

abbrev pub is_named : String → String → Option Plugin → Bool
is_named name owner none = false
is_named name owner (some p) = config_name_of owner p == name

-- An owner reference that leads to a plugin whose name in the shared file is `name`.
abbrev pub leads_to : String → List Plugin → Option OwnerReference → Bool
leads_to name plugins none = false
leads_to name plugins (some ref) =
    ref.kind == "Plugin" && is_named name ref.name (plugin_named ref.name plugins)

abbrev pub any_plugin : String → List Plugin → List ArtifactNode → Bool
any_plugin name plugins [] = false
any_plugin name plugins (n ∷ rest) =
    (counts n && leads_to name plugins (controller_of n.owner_references))
    || any_plugin name plugins rest

abbrev pub is_rulesfile : String → Option OwnerReference → Bool
is_rulesfile name none = false
is_rulesfile name (some ref) = ref.kind == "Rulesfile" && ref.name == name

abbrev pub any_rulesfile : String → List ArtifactNode → Bool
any_rulesfile name [] = false
any_rulesfile name (n ∷ rest) =
    (counts n && is_rulesfile name (controller_of n.owner_references)) || any_rulesfile name rest

-- What is registered for a Rulesfile whose metadata is known; else it stays as it was.
abbrev pub groups_of :
    Option (List MetaDependency) → Option (List RequirementGroup) → Option (List RequirementGroup)
groups_of none before = before
groups_of (some deps) before = registered_groups (requirement_groups_from_dependencies deps)

abbrev pub kind_and_name : Option OwnerReference → String × String
kind_and_name none = ("", "")
kind_and_name (some ref) = (ref.kind, ref.name)

pub owner_of-controller :
    (refs : List OwnerReference) → owner_of refs ≡ kind_and_name (controller_of refs)
unfolding owner_of
owner_of-controller [] = refl
owner_of-controller (ref ∷ rest) = elim (Option-cases ref.controller) [
  | inl e ↦ ground (arith, owner_of-controller rest)
  | inr (true, e) ↦ ground arith
  | inr (false, e) ↦ ground (arith, owner_of-controller rest)
]

lookup-plugins_by_name :
    (name : String) (ps : List Plugin) (m : Map String Plugin)
    → lookup name (plugins_by_name ps m)
      ≡ elim (plugin_named name ps) [ some q ↦ some q | none ↦ lookup name m ]
unfolding plugins_by_name
lookup-plugins_by_name name [] m = refl
lookup-plugins_by_name name (p ∷ rest) m = elim (Option-cases (plugin_named name rest)) [
  | inl e ↦ ground (
    arith,
    e,
    lookup-plugins_by_name name rest (insert p.name p m),
    lookup-insert p.name name p m,
  )
  | inr (q, e) ↦ ground (arith, e, lookup-plugins_by_name name rest (insert p.name p m))
]

lookup-rulesfiles_by_name :
    (name : String) (rs : List Rulesfile) (m : Map String Rulesfile)
    → lookup name (rulesfiles_by_name rs m)
      ≡ elim (rulesfile_named name rs) [ some q ↦ some q | none ↦ lookup name m ]
unfolding rulesfiles_by_name
lookup-rulesfiles_by_name name [] m = refl
lookup-rulesfiles_by_name name (r ∷ rest) m = elim (Option-cases (rulesfile_named name rest)) [
  | inl e ↦ ground (
    arith,
    e,
    lookup-rulesfiles_by_name name rest (insert r.name r m),
    lookup-insert r.name name r m,
  )
  | inr (q, e) ↦ ground (arith, e, lookup-rulesfiles_by_name name rest (insert r.name r m))
]

pub named_lookup :
    (name owner : String) (plugins : List Plugin)
    → lookup owner (plugins_by_name plugins []) ≡ plugin_named owner plugins
unfolding lookup
named_lookup name owner plugins = elim (Option-cases (plugin_named owner plugins)) [
  | inl e ↦ ground (arith, e, lookup-plugins_by_name owner plugins [])
  | inr (q, e) ↦ ground (arith, e, lookup-plugins_by_name owner plugins [])
]

pub rulesfile_lookup :
    (name : String) (rulesfiles : List Rulesfile)
    → lookup name (rulesfiles_by_name rulesfiles []) ≡ rulesfile_named name rulesfiles
unfolding lookup
rulesfile_lookup name rulesfiles = elim (Option-cases (rulesfile_named name rulesfiles)) [
  | inl e ↦ ground (arith, e, lookup-rulesfiles_by_name name rulesfiles [])
  | inr (q, e) ↦ ground (arith, e, lookup-rulesfiles_by_name name rulesfiles [])
]
