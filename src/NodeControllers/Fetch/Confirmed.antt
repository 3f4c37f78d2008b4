-- ===== src/NodeControllers/Fetch/Confirmed.antt =====
-- What `FetchOCI` hands on, and which of its failures are retried.
use falco_operator.Common.{
  String, some, ok, err, ◌==◌, string_eq, nat_eq, ◌≡◌, ◌≢◌, ◌⊎◌, inl, inr, arith, eq_iff,
  Result-cases, Option-cases, is_some, nat_beq_iff, true, Bool-cases,
}
use falco_operator.Artifact.{ArtifactType, FetchResult}
use falco_operator.NodeControllers.Fetch.{
  Remote, HttpResponse, FetchError, fetch_oci, fetch_oci_once, read_response, artifact_url,
  name_header, status_ok, status_service_unavailable, requeue_delay,
}

module _ (remote : Remote) where
  -- The response that a result is read from.
  abbrev pub Confirmed : String → String → FetchResult → Type 0
  Confirmed raw_url expected r =
      (resp : HttpResponse) × (remote.send raw_url (name_header remote.node_name) ≡ ok resp)
      × (resp.status_code ≡ status_ok)
      × (resp.digest ≡ expected)
      × (resp.body ≡ ok r.content)
      × (r.content_hash ≡ remote.sha r.content)

  read_response-confirmed :
      (namespace name expected : String) (resp : HttpResponse) (r : FetchResult)
      → read_response remote namespace name expected resp ≡ ok r
      → (resp.status_code ≡ status_ok)
        × (resp.digest ≡ expected)
        × (resp.body ≡ ok r.content)
        × (r.content_hash ≡ remote.sha r.content)
  unfolding read_response
  read_response-confirmed namespace name expected resp r h = elim (Result-cases resp.body) [
    | inl (content, e) ↦
        ground (arith, nat_beq_iff resp.status_code status_ok, eq_iff resp.digest expected)
    | inr (x, e) ↦
        ground (arith, nat_beq_iff resp.status_code status_ok, eq_iff resp.digest expected)
  ]

  fetch_oci_once-Confirmed :
      (raw_url namespace name expected : String) (r : FetchResult)
      → fetch_oci_once remote raw_url namespace name expected ≡ ok r
      → Confirmed raw_url expected r
  unfolding fetch_oci_once
  fetch_oci_once-Confirmed raw_url namespace name expected r h =
      elim (Result-cases (remote.new_request raw_url)) [
        | inr (x, e) ↦ ground arith
        | inl (u, e) ↦ elim (Result-cases (remote.send raw_url (name_header remote.node_name))) [
          | inr (x, q) ↦ ground arith
          | inl (resp, q) ↦
              let c = read_response-confirmed namespace name expected resp r (ground arith) in
              (resp, q, c.0, c.1, c.2, c.3)
        ]
      ]

  -- What `FetchOCI` returns was served with status 200 under the digest that the caller expects, is
  -- the whole body, and is hashed as it is.
  pub fetch_oci-Confirmed :
      (namespace name : String) (type : ArtifactType) (expected : String) (r : FetchResult)
      → fetch_oci remote namespace name type expected ≡ ok r
      → (raw_url : String) × (artifact_url remote namespace name type expected ≡ some raw_url)
        × (expected ≢ "")
        × Confirmed raw_url expected r
  unfolding fetch_oci
  fetch_oci-Confirmed namespace name type expected r h =
      elim (Option-cases (artifact_url remote namespace name type expected)) [
        | inl e ↦ ground arith
        | inr (raw_url, e) ↦ elim (Result-cases (remote.validate_digest expected)) [
          | inr (x, q) ↦ ground arith
          | inl (u, q) ↦
              let c =
                fetch_oci_once-Confirmed raw_url namespace name expected r
                  (ground (arith, eq_iff expected "")) in
              (raw_url, e, ground (arith, eq_iff expected ""), c)
        ]
      ]

  -- Why a fetch may be tried again: the digest is not known yet, the transport failed, or the server
  -- is unavailable or does not confirm the digest.
  abbrev pub Transient : String → String → Type 0
  Transient raw_url expected =
      (expected ≡ "")
      ⊎ (((e : String) × (remote.send raw_url (name_header remote.node_name) ≡ err e))
          ⊎ ((resp : HttpResponse) × (remote.send raw_url (name_header remote.node_name) ≡ ok resp)
              × ((resp.status_code ≡ status_service_unavailable) ⊎ (resp.digest ≢ expected))))

  read_response-retryable :
      (namespace name expected : String) (resp : HttpResponse) (e : FetchError)
      → read_response remote namespace name expected resp ≡ err e
      → is_some (requeue_delay remote e) ≡ true
      → (resp.status_code ≡ status_service_unavailable) ⊎ (resp.digest ≢ expected)
  unfolding read_response requeue_delay
  read_response-retryable namespace name expected resp e h k = elim (Result-cases resp.body) [
    | inl (content, q) ↦ ground (
      arith,
      nat_beq_iff resp.status_code status_service_unavailable,
      eq_iff resp.digest expected,
    )
    | inr (x, q) ↦ ground (
      arith,
      nat_beq_iff resp.status_code status_service_unavailable,
      eq_iff resp.digest expected,
    )
  ]

  fetch_oci_once-retryable :
      (raw_url namespace name expected : String) (e : FetchError)
      → fetch_oci_once remote raw_url namespace name expected ≡ err e
      → is_some (requeue_delay remote e) ≡ true
      → Transient raw_url expected
  unfolding fetch_oci_once requeue_delay
  fetch_oci_once-retryable raw_url namespace name expected e h k =
      elim (Result-cases (remote.new_request raw_url)) [
        | inr (x, p) ↦ ground arith
        | inl (u, p) ↦ elim (Result-cases (remote.send raw_url (name_header remote.node_name))) [
          | inr (x, q) ↦ inr (inl (x, q))
          | inl (resp, q) ↦ inr (
              inr
                (resp, q, read_response-retryable namespace name expected resp e (ground arith) k))
        ]
      ]

  -- A failure of `FetchOCI` that asks for another try is a transient one.
  pub fetch_oci-retryable :
      (namespace name : String) (type : ArtifactType) (expected raw_url : String) (e : FetchError)
      → artifact_url remote namespace name type expected ≡ some raw_url
      → fetch_oci remote namespace name type expected ≡ err e
      → is_some (requeue_delay remote e) ≡ true
      → Transient raw_url expected
  unfolding fetch_oci requeue_delay
  fetch_oci-retryable namespace name type expected raw_url e u h k =
      elim (Result-cases (remote.validate_digest expected)) [
        | inr (x, q) ↦ ground (arith, eq_iff expected "")
        | inl (v, q) ↦ elim (Bool-cases (expected == "")) [
          | inl p ↦ inl ((eq_iff expected "").0 p)
          | inr p ↦ fetch_oci_once-retryable raw_url namespace name expected e (ground arith) k
        ]
      ]
