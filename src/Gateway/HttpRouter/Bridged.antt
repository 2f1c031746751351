-- ===== src/Gateway/HttpRouter/Bridged.antt =====
-- crates/hackline-gateway/src/tunnel/http_router.rs: the bridge of an HTTP connection, and the whole of
-- `handle_connection`.
pub mod Sent
use hackline.Prelude.{
  ℕ, Bool, true, false, List, [], ◌∷◌, ◌++◌, Option, none, some, length, if◌then◌else◌,
}
use hackline.Prelude.Int.{ℤ}
use hackline.Prelude.Text.{Text, lit}
use hackline.Prelude.Outcome.{Result, ok, err}
use hackline.Proto.Zid.{Zid}
use hackline.Proto.Uuid.{Uuids}
use hackline.Proto.Keyexpr.{connect, stream_gw, stream_dev}
use hackline.Core.Pipe.{add_u64}
use hackline.Core.Bridge.{
  BridgeBytes, ConnectRequest, ConnectAck, Action, get, declare_publisher, declare_subscriber, put,
  Answer, timed_out, disconnected, refused, replied,
}
use hackline.Core.Bridge
use hackline.Gateway.Error.{
  GatewayError, zenoh, bad_request, device_ack_timeout, ack_decode, device_rejected, device_ack,
  device_message,
}
use hackline.Gateway.Schema.{Bytes, Db}
use hackline.Gateway.HttpRouter.Route.{Route, select_route}
use hackline.Gateway.Session.{Books, open_session, close_session}

-- `unwrap_or_else(|| "device rejected".into())`.
rejection : Option Text → GatewayError
rejection none = bad_request device_rejected
rejection (some m) = bad_request (device_message m)

-- The bytes of the head, if there are any, are the first sample.
abbrev pub first_sample : {u : Uuids} → Text → Bytes → List (Action u)
first_sample ke [] = []
first_sample ke (b ∷ bs) = put ke (b ∷ bs) ∷ []

abbrev refuses_prefix : Bool → Bytes → Bool
refuses_prefix takes_prefix [] = false
refuses_prefix takes_prefix (_ ∷ _) = if takes_prefix then false else true

-- The bytes of the head count as sent.
abbrev pub counted : Bytes → BridgeBytes → BridgeBytes
counted prefix b = record { up = add_u64 (length prefix) b.up; down = b.down }

abbrev forget : Result GatewayError BridgeBytes → Result GatewayError (Unit {0})
forget (ok _) = ok tt
forget (err e) = err e

module _ (u : Uuids) (from_slice : Bytes → Option (ConnectAck u)) (s : Bridge.Session)
    (takes_prefix : Bool) where
  open u use {Uuid}

  -- The streams, and the two loops, whose counts the session gives.
  unfoldable pub stream_with_prefix :
      Text → Text → Bytes → List (Action u) × Result GatewayError BridgeBytes
  stream_with_prefix ke_to_dev ke_from_dev prefix =
      let declared : List (Action u) =
        declare_publisher ke_to_dev
        ∷ declare_subscriber ke_from_dev
        ∷ first_sample ke_to_dev prefix in
      let pumped : Result GatewayError BridgeBytes =
        if refuses_prefix takes_prefix prefix then err zenoh else ok (counted prefix s.pumped) in
      let subscribed : List (Action u) × Result GatewayError BridgeBytes =
        if s.takes_subscriber
        then (declared, pumped)
        else (declare_publisher ke_to_dev ∷ declare_subscriber ke_from_dev ∷ [], err zenoh) in
      if s.takes_publisher then subscribed else (declare_publisher ke_to_dev ∷ [], err zenoh)

  unfoldable pub on_answer :
      Text → Zid → Bytes → Uuid → Answer → List (Action u) × Result GatewayError BridgeBytes
  unfolding stream_with_prefix rejection
  on_answer org zid prefix request_id timed_out = ([], err (bad_request device_ack_timeout))
  on_answer org zid prefix request_id disconnected = ([], err zenoh)
  on_answer org zid prefix request_id (refused e) = ([], err (bad_request (device_ack e)))
  on_answer org zid prefix request_id (replied bytes) = elim (from_slice bytes) [
    | none ↦ ([], err (bad_request ack_decode))
    | some ack ↦
        if ack.ok
        then stream_with_prefix (stream_gw u org zid request_id) (stream_dev u org zid request_id)
            prefix
        else ([], err (rejection ack.message))
  ]

  unfoldable pub bridge_with_prefix :
      Text → Zid → ℕ → Bytes → Uuid → Answer → List (Action u) × Result GatewayError BridgeBytes
  unfolding on_answer
  bridge_with_prefix org zid port prefix request_id answer =
      let query : Action u =
        get (connect org zid port) (record { request_id = request_id; peer = none }) in
      let (actions, result) = on_answer org zid prefix request_id answer in
      if s.takes_get then (query ∷ actions, result) else (query ∷ [], err zenoh)

  -- The session of a connection that has a route.
  unfoldable pub serve :
      (Books → Books)
      → Books
      → Route
      → Text
      → Uuid
      → ℤ
      → Answer
      → ℤ
      → List (Action u) × Result GatewayError (Unit {0}) × Books
  unfolding open_session close_session bridge_with_prefix
  serve meanwhile b route peer request_id ts_open answer ts_close =
      let (audit_id, opened) =
        open_session b (lit "http") route.tunnel_id route.device_id (u.to_string request_id)
          (some peer) ts_open in
      let (actions, result) =
        bridge_with_prefix route.org_slug route.zid route.port route.prefix request_id answer in
      (
        actions,
        forget result,
        close_session (meanwhile opened) (lit "http") audit_id result ts_close,
      )

  unfoldable pub handle_connection :
      (Books → Books)
      → Books
      → List (Result GatewayError Bytes)
      → Text
      → Uuid
      → ℤ
      → Answer
      → ℤ
      → List (Action u) × Result GatewayError (Unit {0}) × Books
  unfolding select_route serve
  handle_connection meanwhile b reads peer request_id ts_open answer ts_close =
      elim (select_route b.db reads) [
        | err e ↦ ([], err e, b)
        | ok route ↦ serve meanwhile b route peer request_id ts_open answer ts_close
      ]
