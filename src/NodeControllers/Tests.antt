-- ===== src/NodeControllers/Tests.antt =====
-- The node controllers' theorems at a concrete reconciler, node object and parents.
pub mod Blocked
pub mod Removed
pub mod Fetched
use falco_operator.Common.{
  ℕ, String, Bool, true, false, not, List, [], ◌∷◌, Option, none, some, Result, ok, err, ◌≡◌, refl,
  arith, ◌==◌, string_eq, eq_iff, if◌then◌else◌,
}
use falco_operator.Artifact.{Bytes, InstalledArtifact}
use falco_operator.Metadata.{ArtifactMeta, MetaRequirement}
use falco_operator.NodeArtifacts.{Manager}
use falco_operator.NodeArtifacts.Entries.{Plugin}
use falco_operator.NodeArtifacts.Tests.{env, manager}
use falco_operator.ControllerHelper.Conditions.{Condition, find_condition}
use falco_operator.ControllerHelper.Finalizers.{ApiError, Server}
use falco_operator.ControllerHelper.Programmed.{StatusLib}
use falco_operator.ControllerHelper.Tests.{server}
use falco_operator.NodeControllers.{
  Reconciler, NodeObject, NodeStatus, OwnerRef, OciArtifact, Parent, RulesfileObject, PluginObject,
  ConfigObject, ReconcileError, kind_rulesfile, kind_plugin,
}
use falco_operator.NodeControllers.Fetch.{Remote, HttpResponse}

abbrev set_status : Condition → List Condition → List Condition
set_status c [] = c ∷ []
set_status c (x ∷ rest) =
    let later = set_status c rest in if x.type == c.type then c ∷ rest else x ∷ later

abbrev remove_status : String → List Condition → List Condition
remove_status type [] = []
remove_status type (x ∷ rest) =
    let later = remove_status type rest in if x.type == type then later else x ∷ later

pub find-set :
    (type : String) (c : Condition) (list : List Condition)
    → find_condition type (set_status c list)
      ≡ (if c.type == type then some c else find_condition type list)
unfolding find_condition
find-set type c [] = refl
find-set type c (x ∷ rest) =
    ground
      (arith, find-set type c rest, eq_iff x.type c.type, eq_iff x.type type, eq_iff c.type type)

pub find-remove :
    (type removed : String) (list : List Condition)
    → find_condition type (remove_status removed list)
      ≡ (if removed == type then none else find_condition type list)
unfolding find_condition
find-remove type removed [] = ground arith
find-remove type removed (x ∷ rest) = ground (
  arith,
  find-remove type removed rest,
  eq_iff x.type removed,
  eq_iff x.type type,
  eq_iff removed type,
)

abbrev pub status_lib : StatusLib
status_lib = record {
  set_status = set_status;
  remove_status = remove_status;
  find-set_status = find-set;
  find-remove_status = find-remove;
}

abbrev pub digest : String
digest = "sha256:d"

abbrev pub response : ℕ → HttpResponse
response code = record {
  status_code = code;
  digest = digest;
  retry_after = "30";
  mode = "";
  body = ok (7 ∷ []);
}

-- The server answers with the status code.
abbrev pub remote : ℕ → Remote
remote code = record {
  server_url = "https://artifacts";
  node_name = "node-1";
  goos = "linux";
  goarch = "amd64";
  encode_query = λ query. "q";
  validate_digest = λ d. ok tt;
  new_request = λ url. ok tt;
  send = λ url header. ok (response code);
  atoi = λ s. if s == "30" then some 30 else none;
  parse_mode = λ s. none;
  quote = λ s. s;
  get_config_map = λ namespace name. err ApiError.not_found;
  to_bytes = λ s. 1 ∷ [];
  sha = λ content. "hash";
  jitter = λ delay factor. delay;
}

abbrev pub no_text : ReconcileError → String
no_text e = "failed"

abbrev pub parent : String → List MetaRequirement → Parent
parent name requirements = record {
  namespace = "falco";
  name = name;
  uid = "uid-1";
  generation = 3;
  observed_generation = 3;
  artifact_meta = some (record {
    digest = digest;
    spec_hash = "spec";
    requirements = requirements;
    dependencies = [];
  });
}

-- "json" is provided in version 1.2.0.
abbrev pub needs : String → List MetaRequirement
needs version = record { name = "json"; version = version } ∷ []

abbrev pub rulesfile : String → RulesfileObject
rulesfile version = record {
  meta = parent "rules" (needs version);
  oci_artifact = some (record { auth_secret = none });
  inline_rules = none;
  config_map_ref = none;
  priority = 50;
}

abbrev pub plugin : String → PluginObject
plugin version = record {
  meta = parent "json-cr" (needs version);
  oci_artifact = some (record { auth_secret = none });
  spec = record {
    name = "json-cr";
    config =
        some (record { init_config = none; library_path = ""; name = "json"; open_params = "" });
  };
}

abbrev pub node : Bool → String → String → String → NodeObject
node is_deleted finalizer kind name = record {
  namespace = "falco";
  is_deleted = is_deleted;
  finalizers = finalizer ∷ [];
  owner_references = record { kind = kind; name = name; uid = "uid-1" } ∷ [];
  status = record { conditions = []; installed_artifacts = [] };
}

abbrev pub installed : String → InstalledArtifact
installed path = record {
  path = path;
  medium = "oci";
  priority = 50;
  content_hash = "hash";
  spec_hash = "spec";
  config = none;
}

-- A node object that is being deleted, with one installed file.
abbrev pub deleted_node : String → String → String → String → NodeObject
deleted_node finalizer kind name path = record (node true finalizer kind name) {
  status = record { conditions = []; installed_artifacts = installed path ∷ [] };
}

abbrev pub patch_status : List String → NodeStatus → Result ApiError (Unit {0}) × List String
patch_status s status = (ok tt, s)

-- Enforcing, with requirements that ask for 2.0.0.
abbrev pub reconciler : NodeObject → String → Reconciler
reconciler the_node version = record {
  env = env;
  status_lib = status_lib;
  remote = remote 200;
  server = server;
  enforce_requirements = true;
  get_node = λ s. ok the_node;
  get_rulesfile = λ s namespace name. ok (rulesfile version);
  get_plugin = λ s namespace name. ok (plugin version);
  get_config = λ s namespace name. err ApiError.not_found;
  get_config_map = λ s namespace name. ok tt;
  get_secret = λ s namespace name. ok tt;
  patch_status = patch_status;
  patch_status-get = λ s status. refl;
  same_status = λ a b. false;
  to_yaml = λ raw. ok (1 ∷ []);
  text_of = no_text;
}
