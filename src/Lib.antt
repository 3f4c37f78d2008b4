-- ===== src/Lib.antt =====
-- The artifact side of the Falco operator. An instance operator watches Plugin, Rulesfile and Config
-- objects, caches their blobs and metadata, and makes an ArtifactNode for each node; an artifact
-- operator on each node installs the files, keeps the registry of what they need of each other, and
-- makes Falco reload.
--
-- Common holds the shared notation: Go maps as association lists (Common/Maps), results
-- (Common/Results), tests on numbers and case lemmas (Common/Tests), equality (Common/Equality).
--
-- Compat models internal/pkg/compat/requirements.go: the version comparisons (SemverAtLeast,
-- SemverMajorCompatible, PluginVersionCompatible) and ValidatePluginDependency. The semver package
-- and the scan of three numbers are the parameter VersionLib.
--
-- Artifact models internal/pkg/artifact/store.go and internal/pkg/priority: the local store
-- (Artifact/Store: Store, Verify, Remove) over a FileSystem with laws, and the list of installed
-- artifacts in a status (Artifact/Installed). Artifact/Interface is the store as its clients see it,
-- and local_store shows that LocalStore meets it.
--
-- NodeArtifacts models internal/pkg/nodeartifacts. The state is Manager, and the mutex makes every
-- exported method one step on it. Registry is manager.go's Sync, SyncProvides, CheckRequirement,
-- CheckDependency and blockedByOthers; Observed is OnFalcoVersionsObserved; Entries is the aggregate
-- of pluginconfig.go (addConfig, removeByName); Changes is AddPluginConfig and RemovePluginConfig
-- with the write of the shared file, over the parameter Environment; WarmSync is warmsync.go over
-- what the API client's lists return.
--
-- ArtifactCache models internal/pkg/artifactcache: Cache with Set, RemoveAll, Load and BlobExists
-- (index.go) and Sweep (sweep.go), over the parameter BlobDisk for the disk and JSON. The sweep
-- walks without the lock, so its removals take any candidates and any later state. Times are ℕ, and a
-- duration since a time is compared as now < time + window. Go's count of -1 for a missing
-- reference falls in the branch of 0.
--
-- Reload models the loop of internal/pkg/nodeartifacts/reloadcoordinator.go as a step relation in
-- which writes, failures, waits and cancellation come in any order.
--
-- ControllerHelper models internal/pkg/controllerhelper: the finalizers of one object at the API
-- server (finalizer.go, over the parameter Server), AggregateConditions (aggregate.go) without its
-- times, and the names, labels and owners of node objects (NodeObjects, nodeobject.go); the
-- nodes that run Falco and the deletion of node objects (OwnedNodes, ownednodes.go and node.go, over
-- the parameter Cluster); and the
-- conditions with their gate of internal/pkg/common/conditions.go (Programmed), where apimeta's
-- functions on a list of conditions are the parameter StatusLib. A slice past the end of a text is a
-- panic, the value none.
--
-- Metadata models internal/pkg/artifact/compat.go, the deduplication of requirements, and
-- fetchAndCacheArtifactMeta of controllers/instance/artifact/rulesfile/controller.go
-- (Metadata/Sources), where what the client and the registry return is the parameter Reader.
--
-- NodeControllers models controllers/artifact, the three controllers of a node, over the parameter
-- Reconciler: the manager's Environment, the Server, what the API client's reads return, and the
-- artifact server (Remote). Fetch is internal/pkg/artifact/fetch.go; Sources is what the controllers
-- share of storing an artifact, Reconcile what they share of a round. RulesfileNode, PluginNode and
-- ConfigNode are the controllers: enforce...Compatibility, ensure... and Reconcile with
-- handleDeletion and the deferred patch of the status. A round is one function: what else happens on
-- the node meanwhile is not interleaved with it.
--
-- InstanceControllers models controllers/instance/artifact/rulesfile/controller.go over the
-- parameter Aggregator: handleDeletion with the eviction from the blob cache, and the loop of
-- Reconcile that makes a node object for each node.
--
-- All loops are structural recursion on the list that the Go code ranges over; the order of a map is
-- the order of its association list, which is arbitrary. The one use of fuel is the decimal print of
-- a number n, with n + 1 digits. Not modelled: log lines, events, contexts and HTTP, the
-- watches of the controllers and the requests they make, the rest of the reconcile
-- loops of the instance operator, and the construction of Kubernetes objects.
pub mod Common
pub mod Compat
pub mod Artifact
pub mod NodeArtifacts
pub mod ArtifactCache
pub mod ControllerHelper
pub mod Metadata
pub mod NodeControllers
pub mod InstanceControllers
pub mod Reload
