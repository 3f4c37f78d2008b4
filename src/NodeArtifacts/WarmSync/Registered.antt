-- ===== src/NodeArtifacts/WarmSync/Registered.antt =====
-- What a warm sync reads, and what a registration leaves.
use falco_operator.Common.{
  String, Bool, true, false, not, List, [], ◌∷◌, Option, none, some, Result, ok, err, Map, lookup,
  lookup-insert, lookup-delete, ◌==◌, string_eq, if◌then◌else◌, ◌≡◌, refl, arith,
}
use falco_operator.NodeArtifacts.{Key, key_eq, Provided, RequirementGroup, Manager}
use falco_operator.NodeArtifacts.Registry.{sync}
use falco_operator.NodeArtifacts.Entries.{Plugin}
use falco_operator.NodeArtifacts.WarmSync.{
  ArtifactNode, Rulesfile, owned_nodes, needs, listed, plugins_by_name, rulesfiles_by_name,
  sync_owned, sync_listed, warm_sync,
}

abbrev pub is_provided : Option Provided → Bool
is_provided none = false
is_provided (some p) = not p.removed

-- The registered groups of an artifact; one without any has no entry.
abbrev pub registered_groups : List RequirementGroup → Option (List RequirementGroup)
registered_groups [] = none
registered_groups (g ∷ gs) = some (g ∷ gs)

pub lookup-sync :
    (key k : Key) (groups : List RequirementGroup) (m : Manager)
    → lookup k (sync key groups m).requires
      ≡ (if key == k then registered_groups groups else lookup k m.requires)
unfolding sync
lookup-sync key k [] m = lookup-delete key k m.requires
lookup-sync key k (g ∷ gs) m = lookup-insert key k (g ∷ gs) m.requires

listed-ok :
    {A : Type 0} (needed : Bool) (xs : List A)
    → listed needed (ok xs) ≡ ok (if needed then xs else [])
listed-ok true xs = refl
listed-ok false xs = refl

-- The lists that the warm sync reads: it asks for no more than it needs.
abbrev pub read_plugins : List ArtifactNode → List Plugin → Map String Plugin
read_plugins nodes plugins =
    plugins_by_name (if needs true (owned_nodes nodes) then plugins else []) []

abbrev pub read_rulesfiles : List ArtifactNode → List Rulesfile → Map String Rulesfile
read_rulesfiles nodes rulesfiles =
    rulesfiles_by_name (if needs false (owned_nodes nodes) then rulesfiles else []) []

pub warm_sync-synced :
    (nodes : List ArtifactNode) (plugins : List Plugin) (rulesfiles : List Rulesfile) (m : Manager)
    → warm_sync (ok nodes) (ok plugins) (ok rulesfiles) m ≡ (
      ok tt,
      sync_owned
          (read_plugins nodes plugins)
          (read_rulesfiles nodes rulesfiles)
          (owned_nodes nodes)
          m,
    )
unfolding warm_sync sync_listed
warm_sync-synced nodes plugins rulesfiles m =
    rw
      (
        listed-ok (needs true (owned_nodes nodes)) plugins,
        listed-ok (needs false (owned_nodes nodes)) rulesfiles,
      )
      refl

-- A warm sync that fails registers nothing.
pub warm_sync_fails_clean :
    (nodes : Result String (List ArtifactNode)) (plugins : Result String (List Plugin))
    (rulesfiles : Result String (List Rulesfile)) (m : Manager) {e : String}
    → (warm_sync nodes plugins rulesfiles m).0 ≡ err e
    → (warm_sync nodes plugins rulesfiles m).1 ≡ m
unfolding warm_sync sync_listed
warm_sync_fails_clean (err x) plugins rulesfiles m h = refl
warm_sync_fails_clean (ok nodes) plugins rulesfiles m h = ground arith
