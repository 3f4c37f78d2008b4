-- ===== src/NodeArtifacts/Observed.antt =====
-- `OnFalcoVersionsObserved` of internal/pkg/nodeartifacts/manager.go: the registry meets a snapshot
-- of what Falco reports.
pub mod Entries
pub mod Changes
use falco_operator.Common.{
  String, Bool, true, false, not, ◌||◌, List, [], ◌∷◌, Option, none, some, Map, ◌==◌, string_eq,
  lookup, insert, if◌then◌else◌, is_some, rewrite_entries,
}
use falco_operator.NodeArtifacts.{Key, Kind, kind_eq, falco, Provided, Manager, notify_subscribers}
use falco_operator.NodeArtifacts.Registry.{is_removed}

-- The first loop at one entry: what Falco no longer reports is dropped, or loses its version.
abbrev pub forget_missing : Map String String → String → Provided → Option Provided
forget_missing observed name existing =
    if is_some (lookup name observed)
    then some existing
    else if existing.key.kind == falco
    then none
    else some (record existing { version = "" })

abbrev forgets : Map String String → String → Provided → Bool
forgets observed name existing =
    if is_some (lookup name observed)
    then false
    else if existing.key.kind == falco
    then true
    else not (existing.version == "")

unfoldable pub forget_loop : Map String String → Map String Provided → Map String Provided
forget_loop observed provides = rewrite_entries (forget_missing observed) provides

unfoldable pub forget_changed : Map String String → Map String Provided → Bool
forget_changed observed [] = false
forget_changed observed ((name, existing) ∷ rest) =
    forgets observed name existing || forget_changed observed rest

abbrev pub falco_entry : String → String → Provided
falco_entry name version = record {
  key = record { kind = falco; name = name };
  version = version;
  removed = false;
}

-- The second loop at one observed name: the registry's new entry, and whether it changed.
abbrev pub learn : String → String → Option Provided → Option Provided × Bool
learn name version none = (some (falco_entry name version), true)
learn name version (some existing) =
    if existing.removed
    then (some existing, false)
    else if existing.version == version
    then (some existing, false)
    else (some (record existing { version = version }), true)

abbrev write_entry : String → Option Provided → Map String Provided → Map String Provided
write_entry name none provides = provides
write_entry name (some p) provides = insert name p provides

abbrev learn_one : String → String → Map String Provided → Map String Provided
learn_one name version provides =
    let (entry, changed) = learn name version (lookup name provides) in
    if changed then write_entry name entry provides else provides

unfoldable pub learn_loop : Map String String → Map String Provided → Map String Provided
learn_loop [] provides = provides
learn_loop ((name, version) ∷ rest) provides = learn_loop rest (learn_one name version provides)

unfoldable pub learn_changed : Map String String → Map String Provided → Bool
learn_changed [] provides = false
learn_changed ((name, version) ∷ rest) provides =
    (learn name version (lookup name provides)).1
    || learn_changed rest (learn_one name version provides)

unfoldable pub observe_provides : Map String String → Map String Provided → Map String Provided
unfolding forget_loop learn_loop
observe_provides observed provides = learn_loop observed (forget_loop observed provides)

unfoldable pub observe_changed : Map String String → Map String Provided → Bool
unfolding forget_changed learn_changed forget_loop
observe_changed observed provides =
    forget_changed observed provides || learn_changed observed (forget_loop observed provides)

unfoldable pub on_falco_versions_observed : Map String String → Manager → Manager
unfolding observe_provides observe_changed notify_subscribers
on_falco_versions_observed observed m =
    let m' = record m { provides = observe_provides observed m.provides } in
    if observe_changed observed m.provides then notify_subscribers m' else m'
