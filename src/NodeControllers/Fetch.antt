-- ===== src/NodeControllers/Fetch.antt =====
-- internal/pkg/artifact/fetch.go: the fetcher that the node controllers use. The HTTP client, the
-- API client and the hash are an argument, `Remote`.
pub mod Confirmed
use falco_operator.Common.{
  ℕ, ◌*◌, ◌%◌, String, Bool, true, false, not, List, [], ◌∷◌, ◌++◌, Option, none, some, Result, ok,
  err, Map, lookup, ◌==◌, string_eq, nat_eq, if◌then◌else◌, append, ltb, itoa,
}
use falco_operator.Artifact.{ArtifactType, Bytes, FetchResult}
use falco_operator.ControllerHelper.Finalizers.{ApiError}

-- `RetryableError` with its `RetryAfter`, the client's error as it is, or any other error.
pub data FetchError : Type 0 where
  retryable : String → ℕ → FetchError
  api : ApiError → FetchError
  permanent : String → FetchError

-- The headers that are read; an absent one is empty.
pub record HttpResponse : Type 0 where
  pub status_code : ℕ
  pub digest : String
  pub retry_after : String
  pub mode : String
  pub body : Result String Bytes

-- A request is refused when it is built, or fails on the way. `atoi` and `parse_mode` have no value
-- where the parse fails; a negative number counts as one that fails, since only `secs > 0` asks.
pub record Remote : Type 1 where
  pub server_url : String
  pub node_name : String
  pub goos : String
  pub goarch : String
  pub encode_query : List (String × String) → String
  pub validate_digest : String → Result String (Unit {0})
  pub new_request : String → Result String (Unit {0})
  pub send : String → Option String → Result String HttpResponse
  pub atoi : String → Option ℕ
  pub parse_mode : String → Option ℕ
  pub quote : String → String
  pub get_config_map : String → String → Result ApiError (Map String String)
  pub to_bytes : String → Bytes
  pub sha : Bytes → String
  pub jitter : ℕ → ℕ → ℕ

abbrev pub status_ok : ℕ
status_ok = 200

abbrev pub status_service_unavailable : ℕ
status_service_unavailable = 503

abbrev pub second : ℕ
second = 1000000000

-- A `time.Duration` has 64 bits; a product that comes out negative is as good as none.
abbrev seconds : ℕ → ℕ
seconds secs =
    let wrapped = (secs * second) % 18446744073709551616 in
    if ltb wrapped 9223372036854775808 then wrapped else 0

abbrev pub default_retry_delay : ℕ
default_retry_delay = 10 * second

abbrev config_data_key : String
config_data_key = "config.yaml"

abbrev rules_data_key : String
rules_data_key = "rules.yaml"

abbrev type_text : ArtifactType → String
type_text ArtifactType.rulesfile = "rulesfile"
type_text ArtifactType.plugin = "plugin"
type_text ArtifactType.config = "config"
type_text (ArtifactType.other t) = t

abbrev pub name_header : String → Option String
name_header node_name = if node_name == "" then none else some node_name

module _ (remote : Remote) where
  -- `wait.Jitter` of a delay and a factor in tenths.
  unfoldable pub requeue_delay : FetchError → Option ℕ
  requeue_delay (retryable e retry_after) =
      if ltb 0 retry_after
      then some (remote.jitter retry_after 3)
      else some (remote.jitter default_retry_delay 5)
  requeue_delay (api e) = none
  requeue_delay (permanent e) = none

  -- The wait that a response asks for.
  abbrev retry_after_of : HttpResponse → ℕ
  retry_after_of resp = elim (remote.atoi resp.retry_after) [
    | none ↦ 0
    | some secs ↦ if ltb 0 secs then seconds secs else 0
  ]

  abbrev mode_of : HttpResponse → ℕ
  mode_of resp =
      if resp.mode == ""
      then 493
      else elim (remote.parse_mode resp.mode) [ none ↦ 493 | some p ↦ p ]

  abbrev read_body : ℕ → Result String Bytes → Result FetchError FetchResult
  read_body perm (err e) = err (permanent (append "read artifact server response body: " e))
  read_body perm (ok content) =
      ok (record { content = content; content_hash = remote.sha content; perm = perm })

  abbrev pub artifact_of : String → String → String
  artifact_of namespace name = append namespace (append "/" name)

  abbrev refused_message : String → String → HttpResponse → String
  refused_message namespace name resp =
      append "artifact server returned "
        (append (itoa resp.status_code) (append " for " (artifact_of namespace name)))

  -- What the response makes of the request; a transient failure is a `retryable` one.
  unfoldable pub read_response :
      String → String → String → HttpResponse → Result FetchError FetchResult
  read_response namespace name expected_digest resp =
      if resp.status_code == status_ok
      then if resp.digest == expected_digest
        then read_body (mode_of resp) resp.body
        else err (
            retryable
              (append "artifact server did not confirm OCI digest for " (
                append (artifact_of namespace name) (
                  append ": expected "
                    (append expected_digest (append ", got " (remote.quote resp.digest))))))
              0)
      else if resp.status_code == status_service_unavailable
      then err (retryable (refused_message namespace name resp) (retry_after_of resp))
      else err (permanent (refused_message namespace name resp))

  unfoldable pub fetch_oci_once : String → String → String → String → Result FetchError FetchResult
  unfolding read_response
  fetch_oci_once raw_url namespace name expected_digest = elim (remote.new_request raw_url) [
    | err e ↦ err (permanent (append "build artifact server request: " e))
    | ok _ ↦ elim (remote.send raw_url (name_header remote.node_name)) [
      | err e ↦ err (
          retryable
            (append "artifact server request for "
              (append (artifact_of namespace name) (append ": " e)))
            0)
      | ok resp ↦ read_response namespace name expected_digest resp
    ]
  ]

  abbrev pub address : String → String → String → List (String × String) → String
  address folder namespace name query = append remote.server_url (
      append "/v1/artifacts/" (
        append folder (
          append "/"
            (append (artifact_of namespace name) (append "?" (remote.encode_query query))))))

  -- The address of the artifact on the server, for the types that the server has.
  unfoldable pub artifact_url : String → String → ArtifactType → String → Option String
  artifact_url namespace name ArtifactType.plugin digest = some (
      address "plugins" namespace name
        (("digest", digest) ∷ ("os", remote.goos) ∷ ("arch", remote.goarch) ∷ []))
  artifact_url namespace name ArtifactType.rulesfile digest =
      some (address "rulesfiles" namespace name (("digest", digest) ∷ []))
  artifact_url namespace name ArtifactType.config digest = none
  artifact_url namespace name (ArtifactType.other t) digest = none

  unfoldable pub fetch_oci : String → String → ArtifactType → String → Result FetchError FetchResult
  unfolding artifact_url fetch_oci_once
  fetch_oci namespace name type expected_digest =
      elim (artifact_url namespace name type expected_digest) [
        | none ↦ err (
            permanent
              (append "artifact server does not support type " (remote.quote (type_text type))))
        | some raw_url ↦
            if expected_digest == ""
            then err (
                retryable
                  (append "OCI digest for "
                    (append (artifact_of namespace name) " is not yet resolved"))
                  0)
            else elim (remote.validate_digest expected_digest) [
              | err e ↦ err (
                  permanent (
                    append "invalid expected OCI digest for "
                      (append (artifact_of namespace name) (append ": " e))))
              | ok _ ↦ fetch_oci_once raw_url namespace name expected_digest
            ]
      ]

  abbrev pub data_key : ArtifactType → Option String
  data_key ArtifactType.config = some config_data_key
  data_key ArtifactType.rulesfile = some rules_data_key
  data_key ArtifactType.plugin = none
  data_key (ArtifactType.other t) = none

  unfoldable pub fetch_inline : Bytes → Result FetchError FetchResult
  fetch_inline content =
      ok (record { content = content; content_hash = remote.sha content; perm = 384 })

  unfoldable pub fetch_config_map : String → String → ArtifactType → Result FetchError FetchResult
  unfolding fetch_inline
  fetch_config_map namespace name type = elim (data_key type) [
    | none ↦ err (
        permanent (
          append "unsupported artifact type for ConfigMap fetch: " (remote.quote (type_text type))))
    | some key ↦ elim (remote.get_config_map namespace name) [
      | err e ↦ err (api e)
      | ok data_of ↦ elim (lookup key data_of) [
        | none ↦ err (
            permanent (
              append "ConfigMap " (
                append (artifact_of namespace name)
                  (append " missing expected key " (remote.quote key)))))
        | some text ↦
            let content = remote.to_bytes text in
            ok (record { content = content; content_hash = remote.sha content; perm = 384 })
      ]
    ]
  ]
