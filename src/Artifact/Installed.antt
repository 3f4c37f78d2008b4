-- ===== src/Artifact/Installed.antt =====
-- internal/pkg/artifact/store.go: the list of installed artifacts in an ArtifactNode's status, one
-- entry to a medium (`+listMapKey=medium`).
pub mod Laws
use falco_operator.Common.{
  ℕ, String, Bool, Option, none, some, List, [], ◌∷◌, ◌==◌, string_eq, if◌then◌else◌,
}
use falco_operator.Artifact.{
  InstalledArtifact, File, Medium, StoreAction, none_done, removed, added, updated, unchanged,
  priority_changed, medium_inline, max_priority,
}

unfoldable pub find_installed : List InstalledArtifact → Medium → Option File
find_installed [] medium = none
find_installed (a ∷ rest) medium =
    if a.medium == medium
    then some (record {
      path = a.path;
      medium = medium;
      priority = a.priority;
      content_hash = a.content_hash;
      spec_hash = a.spec_hash;
    })
    else find_installed rest medium

abbrev installed_of : File → InstalledArtifact
installed_of f = record {
  path = f.path;
  medium = f.medium;
  priority = f.priority;
  content_hash = f.content_hash;
  spec_hash = f.spec_hash;
  config = none;
}

unfoldable pub set_installed : List InstalledArtifact → File → List InstalledArtifact
set_installed [] f = installed_of f ∷ []
set_installed (a ∷ rest) f =
    if a.medium == f.medium then installed_of f ∷ rest else a ∷ set_installed rest f

-- `s[i] = s[len(s)-1]; s = s[:len(s)-1]` at the head: the last entry takes its place.
unfoldable pub last_of : InstalledArtifact → List InstalledArtifact → InstalledArtifact
last_of a [] = a
last_of a (b ∷ rest) = last_of b rest

unfoldable pub but_last : InstalledArtifact → List InstalledArtifact → List InstalledArtifact
but_last a [] = []
but_last a (b ∷ rest) = a ∷ but_last b rest

unfoldable pub remove_by_swap : List InstalledArtifact → List InstalledArtifact
unfolding last_of but_last
remove_by_swap [] = []
remove_by_swap (b ∷ rest) = last_of b rest ∷ but_last b rest

unfoldable pub clear_installed : List InstalledArtifact → Medium → List InstalledArtifact
clear_installed [] medium = []
clear_installed (a ∷ rest) medium =
    if a.medium == medium then remove_by_swap rest else a ∷ clear_installed rest medium

abbrev set_if : List InstalledArtifact → Option File → List InstalledArtifact
set_if artifacts none = artifacts
set_if artifacts (some f) = set_installed artifacts f

unfoldable pub update_installed_status :
    List InstalledArtifact → StoreAction → Medium → Option File → List InstalledArtifact
update_installed_status artifacts added medium new_file = set_if artifacts new_file
update_installed_status artifacts updated medium new_file = set_if artifacts new_file
update_installed_status artifacts priority_changed medium new_file = set_if artifacts new_file
update_installed_status artifacts removed medium new_file = clear_installed artifacts medium
update_installed_status artifacts none_done medium new_file = artifacts
update_installed_status artifacts unchanged medium new_file = artifacts

unfoldable pub update_installed_spec_hash :
    List InstalledArtifact → Medium → String → List InstalledArtifact
update_installed_spec_hash [] medium spec_hash = []
update_installed_spec_hash (a ∷ rest) medium spec_hash =
    if a.medium == medium
    then record a { spec_hash = spec_hash } ∷ rest
    else a ∷ update_installed_spec_hash rest medium spec_hash

abbrev config_file : String → File
config_file path = record {
  path = path;
  medium = medium_inline;
  priority = max_priority;
  content_hash = "";
  spec_hash = "";
}

unfoldable pub find_installed_config : List InstalledArtifact → Medium → Option File
find_installed_config [] medium = none
find_installed_config (a ∷ rest) medium =
    let later = find_installed_config rest medium in
    if a.medium == medium
    then elim a.config [ none ↦ later | some path ↦ some (config_file path) ]
    else later

unfoldable pub update_installed_config :
    List InstalledArtifact → Medium → Option File → List InstalledArtifact
update_installed_config [] medium f = []
update_installed_config (a ∷ rest) medium none = a ∷ rest
update_installed_config (a ∷ rest) medium (some f) =
    if a.medium == medium
    then record a { config = some f.path } ∷ rest
    else a ∷ update_installed_config rest medium (some f)
