-- ===== src/Artifact.antt =====
-- internal/pkg/artifact: the data that the artifact package shares (types.go, fetch.go,
-- api/artifact/v1alpha1 InstalledArtifact) and the file names of internal/pkg/priority.
pub mod Installed
pub mod FileSystem
pub mod Store
pub mod Interface
pub mod Tests
use falco_operator.Common.{
  ℕ, String, List, Option, Bool, append, pad2, if◌then◌else◌, ◌==◌, string_eq,
}

-- `type Medium string`
abbrev pub Medium : Type 0
Medium = String

abbrev pub medium_inline : Medium
medium_inline = "inline"

abbrev pub medium_oci : Medium
medium_oci = "oci"

abbrev pub medium_config_map : Medium
medium_config_map = "configmap"

pub data StoreAction : Type 0 where
  none_done removed added updated unchanged priority_changed : StoreAction

pub data ArtifactType : Type 0 where
  rulesfile plugin config : ArtifactType
  other : String → ArtifactType

pub record File : Type 0 where
  pub path : String
  pub medium : Medium
  pub priority : ℕ
  pub content_hash : String
  pub spec_hash : String

abbrev pub Bytes : Type 0
Bytes = List ℕ

pub record FetchResult : Type 0 where
  pub content : Bytes
  pub content_hash : String
  pub perm : ℕ

pub record InstalledArtifact : Type 0 where
  pub path : String
  pub medium : String
  pub priority : ℕ
  pub content_hash : String
  pub spec_hash : String
  pub config : Option String

pub record ArtifactDirs : Type 0 where
  pub plugin : String
  pub rulesfile : String
  pub config : String

abbrev pub max_priority : ℕ
max_priority = 99

abbrev pub default_priority : ℕ
default_priority = 50

abbrev pub oci_sub_priority : ℕ
oci_sub_priority = 1

abbrev pub cm_sub_priority : ℕ
cm_sub_priority = 2

abbrev pub in_line_rules_sub_priority : ℕ
in_line_rules_sub_priority = 3

unfoldable pub name_from_priority : ℕ → String → String
unfolding pad2
name_from_priority priority original_name = append (pad2 priority) (append "-" original_name)

unfoldable pub name_from_priority_and_sub_priority : ℕ → ℕ → String → String
unfolding pad2
name_from_priority_and_sub_priority priority sub_priority original_name =
    append (pad2 priority) (append "-" (append (pad2 sub_priority) (append "-" original_name)))

rulesfile_sub : Medium → ℕ
rulesfile_sub medium =
    if medium == medium_oci
    then oci_sub_priority
    else if medium == medium_inline
    then in_line_rules_sub_priority
    else if medium == medium_config_map
    then cm_sub_priority
    else max_priority

config_sub : Medium → ℕ
config_sub medium =
    if medium == medium_inline
    then in_line_rules_sub_priority
    else if medium == medium_config_map
    then cm_sub_priority
    else max_priority

abbrev yaml_name : String → Medium → String
yaml_name name medium = append name (append "-" (append medium ".yaml"))

-- `join` is `filepath.Clean(filepath.Join(dir, name))`.
unfoldable pub artifact_path :
    (String → String → String) → ArtifactDirs → String → ℕ → Medium → ArtifactType → String
unfolding name_from_priority name_from_priority_and_sub_priority rulesfile_sub config_sub
artifact_path join dirs name priority medium rulesfile =
    join dirs.rulesfile
      (name_from_priority_and_sub_priority priority (rulesfile_sub medium) (yaml_name name medium))
artifact_path join dirs name priority medium plugin = join dirs.plugin (append name ".so")
artifact_path join dirs name priority medium config =
    join dirs.config
      (name_from_priority_and_sub_priority priority (config_sub medium) (yaml_name name medium))
artifact_path join dirs name priority medium (other _) = name_from_priority priority name
