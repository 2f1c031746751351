-- ===== src/Gateway/ApiCall.antt =====
-- crates/hackline-gateway/src/api/api_call/call.rs: one synchronous call of a device. What the network
-- answers to a query is a function of its key, its bytes and its time limit; the clock, `serde_json`
-- and the JSON text of the audit detail are arguments.
pub mod Answered
use hackline.Prelude.{
  ℕ, Bool, true, false, not, min, List, [], ◌∷◌, Option, none, some, if◌then◌else◌,
}
use hackline.Prelude.Int.{ℤ}
use hackline.Prelude.Text.{Text, lit}
use hackline.Prelude.Outcome.{Result, ok, err, require, ok_or, ◌>>=◌, ◌>>◌}
use hackline.Proto.Zid.{Zid}
use hackline.Proto.Zid
use hackline.Proto.Keyexpr.{msg_api}
use hackline.Client.{ApiRequest, ApiReply}
use hackline.Gateway.Error.{
  GatewayError, zenoh, bad_request, topic_empty, bad_zid, request_encode, device_error,
  reply_decode,
}
use hackline.Gateway.Schema.{Bytes, User, Db}
use hackline.Gateway.Metrics.{Outcome, inc_api_call}
use hackline.Gateway.Scope.{Scopes, check_device}
use hackline.Gateway.Devices.{get_in_org, get_with_org_slug}
use hackline.Gateway.Audit
use hackline.Gateway.Commands.{AppState, unwrap_or, is_empty, audited}
use hackline.Gateway.HttpRouter.Route.{of_zid}

abbrev pub default_timeout_ms : ℕ
default_timeout_ms = 5000

abbrev pub max_timeout_ms : ℕ
max_timeout_ms = 60000

pub record ApiCallBody (Value : Type 0) : Type 0 where
  pub payload : Value
  pub timeout_ms : Option ℕ
  pub content_type : Option Text

-- What comes of a query: the session refuses it, no device is there, none answers in time, a device
-- answers with an error, or with a sample.
pub data Answer : Type 0 where
  not_sent unreachable timed_out : Answer
  failed : Text → Answer
  sample : Bytes → Answer

pub data Response (Value : Type 0) : Type 0 where
  device_unreachable device_timeout : Response Value
  replied : Text → Value → Response Value

-- The status code of the answer.
unfoldable pub code : {Value : Type 0} → Response Value → ℕ
code device_unreachable = 503
code device_timeout = 504
code (replied _ _) = 200

module _ (from_str : Scopes) {Value : Type 0} (to_vec : ApiRequest Value → Option Bytes)
    (from_slice : Bytes → Option (ApiReply Value)) (detail : Text → Text → Text) where
  -- `audit_api_call`, and the counter.
  abbrev pub recorded : AppState → User → ℕ → Text → Text → Outcome → ℤ → AppState
  recorded s user device_id topic outcome counted unixepoch = record s {
    db = audited s.db (
        Audit.insert s.db unixepoch (some user.id) (some device_id) none (lit "api.call")
          (some (detail topic outcome)));
    metrics = inc_api_call s.metrics topic counted;
  }

  -- The handler after the query.
  unfoldable pub on_answer :
      AppState → User → ℕ → Text → ℤ → Answer → Result GatewayError (Response Value × AppState)
  on_answer s user device_id topic unixepoch not_sent = err zenoh
  on_answer s user device_id topic unixepoch unreachable = ok (
    device_unreachable,
    recorded s user device_id topic (lit "device_unreachable") Outcome.error unixepoch,
  )
  on_answer s user device_id topic unixepoch timed_out = ok (
    device_timeout,
    recorded s user device_id topic (lit "device_timeout") Outcome.error unixepoch,
  )
  on_answer s user device_id topic unixepoch (failed e) = err (bad_request (device_error e))
  on_answer s user device_id topic unixepoch (sample bytes) = elim (from_slice bytes) [
    | none ↦ err (bad_request reply_decode)
    | some r ↦ ok (
      replied r.content_type r.payload,
      recorded s user device_id topic (lit "ok") Outcome.ok unixepoch,
    )
  ]

  abbrev pub request_of : ApiCallBody Value → ApiRequest Value
  request_of body = record {
    content_type = unwrap_or (lit "application/json") body.content_type;
    payload = body.payload;
  }

  abbrev pub timeout_of : ApiCallBody Value → ℕ
  timeout_of body = min (unwrap_or default_timeout_ms body.timeout_ms) max_timeout_ms

  unfoldable pub call :
      (Text → Bytes → ℕ → Answer)
      → AppState
      → User
      → ℕ
      → Text
      → ApiCallBody Value
      → ℤ
      → Result GatewayError (Response Value × AppState)
  unfolding on_answer Zid.new of_zid
  call get s user device_id topic body unixepoch = do
    check_device from_str user device_id
    require (not (is_empty topic)) (bad_request topic_empty)
    _ ← get_in_org s.db user.org_id device_id
    (device, org_slug) ← get_with_org_slug s.db device_id
    zid ← of_zid (Zid.new device.zid)
    bytes ← ok_or (to_vec (request_of body)) (bad_request request_encode)
    on_answer s user device_id topic unixepoch
        (get (msg_api org_slug zid topic) bytes (timeout_of body))
