-- ===== src/NodeControllers/Tests/Fetched.antt =====
-- Fetches from an artifact server that serves, or is unavailable.
use falco_operator.Common.{lookup, itoa}
use falco_operator.Artifact.{artifact_path}
use falco_operator.Common.{
  String, true, false, [], none, some, ok, err, ◌≡◌, refl, ◌⊎◌, is_some, insert,
}
use falco_operator.Artifact.{ArtifactType, FetchResult, medium_oci}
use falco_operator.Artifact.Installed.{find_installed}
use falco_operator.Artifact.Store.{
  store, tracked, store_tracked, store_at, write_atomically, drop_old, written_action,
}
use falco_operator.NodeArtifacts.Tests.{env, manager}
use falco_operator.NodeControllers.{Reconciler, Parent, Local, kind_rulesfile}
use falco_operator.NodeControllers.Fetch.{
  FetchError, retryable, fetch_oci, fetch_oci_once, read_response, requeue_delay, artifact_url,
}
use falco_operator.NodeControllers.Fetch.Confirmed.{Confirmed}
use falco_operator.NodeControllers.Sources.{D, ensure_oci, need_fetch, store_source}
use falco_operator.NodeControllers.Sources.Stored.{Intact, ensure_oci-Confirmed}
use falco_operator.NodeControllers.Tests.{reconciler, node, parent, needs, remote, digest}

abbrev the_reconciler : Reconciler
the_reconciler = reconciler (node false "f" kind_rulesfile "rules") "1.0.0"

abbrev rules : Parent
rules = parent "rules" (needs "1.0.0")

abbrev state : Local (D the_reconciler)
state = record { conditions = []; installed = []; manager = manager; disk = [] }

stored : (ensure_oci the_reconciler rules 50 ArtifactType.rulesfile state).0 ≡ ok tt
unfolding ensure_oci need_fetch store_source fetch_oci fetch_oci_once read_response artifact_url
    find_installed store tracked store_tracked store_at write_atomically drop_old written_action
    lookup insert artifact_path
stored = refl

ensure_oci-Confirmed_example :
    (Intact the_reconciler rules state
      × ((ensure_oci the_reconciler rules 50 ArtifactType.rulesfile state).1.disk ≡ []))
    ⊎ ((result : FetchResult) × (raw_url : String) × (artifact_url
            (remote 200)
            "falco"
            "rules"
            ArtifactType.rulesfile
            digest
          ≡ some raw_url)
        × Confirmed (remote 200) raw_url digest result
        × (find_installed [] medium_oci ≡ none
            → env.store.read
                (ensure_oci the_reconciler rules 50 ArtifactType.rulesfile state).1.disk
                (env.store.target "rules" 50 ArtifactType.rulesfile medium_oci)
              ≡ ok result.content))
ensure_oci-Confirmed_example =
    ensure_oci-Confirmed the_reconciler rules 50 ArtifactType.rulesfile state stored

abbrev unavailable : FetchError
unavailable = retryable "artifact server returned 503 for falco/rules" 30000000000

refused : fetch_oci (remote 503) "falco" "rules" ArtifactType.rulesfile digest ≡ err unavailable
unfolding fetch_oci fetch_oci_once read_response artifact_url itoa
refused = refl

retried : is_some (requeue_delay (remote 503) unavailable) ≡ true
unfolding requeue_delay
retried = refl
