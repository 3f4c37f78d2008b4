-- ===== src/NodeControllers.antt =====
-- controllers/artifact: the controllers that run beside Falco on each node. Here is what the three
-- share: the node object, its parents, what a reconcile reads and what it changes. A reconcile is a
-- function on that state; the events it records are left out.
pub mod Fetch
pub mod Outcome
pub mod Sources
pub mod Reconcile
pub mod RulesfileNode
pub mod PluginNode
pub mod ConfigNode
pub mod Tests
use falco_operator.Common.{
  ℕ, String, Bool, true, false, List, [], ◌∷◌, ◌++◌, Option, none, some, Result, ok, err, ◌==◌,
  string_eq, if◌then◌else◌, ◌≡◌,
}
use falco_operator.Compat.{CompatError}
use falco_operator.Artifact.{Bytes, InstalledArtifact}
use falco_operator.Artifact.FileSystem.{FsError}
use falco_operator.Metadata.{ArtifactMeta}
use falco_operator.NodeArtifacts.{Manager}
use falco_operator.NodeArtifacts.Entries.{Plugin}
use falco_operator.NodeArtifacts.Changes.{Environment, ChangeError}
use falco_operator.ControllerHelper.Conditions.{Condition}
use falco_operator.ControllerHelper.Finalizers.{ApiError, Server}
use falco_operator.ControllerHelper.Programmed.{StatusLib}
use falco_operator.NodeControllers.Fetch.{Remote, FetchError}

pub record OwnerRef : Type 0 where
  pub kind : String
  pub name : String
  pub uid : String

-- `ArtifactNodeStatus` of api/artifact/v1alpha1
pub record NodeStatus : Type 0 where
  pub conditions : List Condition
  pub installed_artifacts : List InstalledArtifact

pub record NodeObject : Type 0 where
  pub namespace : String
  pub is_deleted : Bool
  pub finalizers : List String
  pub owner_references : List OwnerRef
  pub status : NodeStatus

-- `OCIArtifact`: the name of the secret of its registry's `Auth`, if it has one.
pub record OciArtifact : Type 0 where
  pub auth_secret : Option String

-- The metadata of a parent and what it reads of the status.
pub record Parent : Type 0 where
  pub namespace : String
  pub name : String
  pub uid : String
  pub generation : ℕ
  pub observed_generation : ℕ
  pub artifact_meta : Option ArtifactMeta

-- `apiextensionsv1.JSON` is its raw text.
pub record RulesfileObject : Type 0 where
  pub meta : Parent
  pub oci_artifact : Option OciArtifact
  pub inline_rules : Option String
  pub config_map_ref : Option String
  pub priority : ℕ

pub record PluginObject : Type 0 where
  pub meta : Parent
  pub oci_artifact : Option OciArtifact
  pub spec : Plugin

pub record ConfigObject : Type 0 where
  pub meta : Parent
  pub config : Option String
  pub config_map_ref : Option String
  pub priority : ℕ

pub data ReconcileError : Type 0 where
  api : ApiError → ReconcileError
  fetch : FetchError → ReconcileError
  store : FsError → ReconcileError
  change : ChangeError → ReconcileError
  version : String → CompatError → ReconcileError
  convert : String → ReconcileError

-- A reconciler's fields and what it uses of other packages. `server` is the API server as far as it
-- keeps the node object's finalizers; the reads go through its state. `to_yaml` is `yaml.JSONToYAML`
-- with the conversion to bytes, `same_status` is `Semantic.DeepEqual`, and `text_of` prints an error.
pub record Reconciler : Type 1 where
  pub env : Environment
  pub status_lib : StatusLib
  pub remote : Remote
  pub server : Server
  pub enforce_requirements : Bool
  pub get_node : server.State → Result ApiError NodeObject
  pub get_rulesfile : server.State → String → String → Result ApiError RulesfileObject
  pub get_plugin : server.State → String → String → Result ApiError PluginObject
  pub get_config : server.State → String → String → Result ApiError ConfigObject
  pub get_config_map : server.State → String → String → Result ApiError (Unit {0})
  pub get_secret : server.State → String → String → Result ApiError (Unit {0})
  pub patch_status : server.State → NodeStatus → Result ApiError (Unit {0}) × server.State
  -- A patch of the status leaves the finalizers alone.
  pub patch_status-get :
      (s : server.State) (status : NodeStatus) → server.get (patch_status s status).1 ≡ server.get s
  pub same_status : NodeStatus → NodeStatus → Bool
  pub to_yaml : String → Result String Bytes
  pub text_of : ReconcileError → String

-- What a reconcile changes on the node: the status it holds, the manager and the disk.
pub record Local (D : Type 0) : Type 0 where
  pub conditions : List Condition
  pub installed : List InstalledArtifact
  pub manager : Manager
  pub disk : D

-- `ctrl.Result` with the errors that were joined.
pub record Reconciled : Type 0 where
  pub requeue_after : Option ℕ
  pub errors : List ReconcileError

abbrev pub done : Reconciled
done = record { requeue_after = none; errors = [] }

abbrev pub failed : ReconcileError → Reconciled
failed e = record { requeue_after = none; errors = e ∷ [] }

-- A step of a reconcile: its error or value, and the state it leaves.
abbrev pub Attempt : Type 0 → Type 0 → Type 0
Attempt D A = Result ReconcileError A × Local D

abbrev pub and_then : {D A B : Type 0} → Attempt D A → (A → Local D → Attempt D B) → Attempt D B
and_then (ok a, s) k = k a s
and_then (err e, s) k = (err e, s)

abbrev pub kind_plugin : String
kind_plugin = "Plugin"

abbrev pub kind_rulesfile : String
kind_rulesfile = "Rulesfile"

abbrev pub kind_config : String
kind_config = "Config"

-- The loop of `GetVerifiedOwner`: the first reference of the kind decides. `uid_of` reads the UID
-- of the live object.
abbrev pub verify_owner :
    {A : Type 0} → (A → String) → OwnerRef → Result ApiError A → Result ApiError (Option A)
verify_owner uid_of ref (err ApiError.not_found) = ok none
verify_owner uid_of ref (err ApiError.conflict) = err ApiError.conflict
verify_owner uid_of ref (err (ApiError.other e)) = err (ApiError.other e)
verify_owner uid_of ref (ok a) = if uid_of a == ref.uid then ok (some a) else ok none

unfoldable pub get_verified_owner :
    {A : Type 0}
    → (A → String)
    → (String → Result ApiError A)
    → String
    → List OwnerRef
    → Result ApiError (Option A)
get_verified_owner uid_of get kind [] = ok none
get_verified_owner uid_of get kind (ref ∷ rest) =
    if ref.kind == kind
    then verify_owner uid_of ref (get ref.name)
    else get_verified_owner uid_of get kind rest

unfoldable pub first_owner : String → List OwnerRef → Option OwnerRef
first_owner kind [] = none
first_owner kind (ref ∷ rest) = if ref.kind == kind then some ref else first_owner kind rest
