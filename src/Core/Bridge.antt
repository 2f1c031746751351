-- ===== src/Core/Bridge.antt =====
-- crates/hackline-core/src/bridge.rs and crates/hackline-proto/src/connect.rs: the handshake of a
-- bridge at its two ends, and the streams that each end then opens. The network, the local TCP socket
-- and `serde_json` are given by what they answer; what an end does to the network is a list of actions.
pub mod Paired
use hackline.Prelude.{ℕ, Bool, true, false, List, [], ◌∷◌, ◌++◌, Option, none, some, if◌then◌else◌}
use hackline.Prelude.Text.{Text, lit}
use hackline.Prelude.Outcome.{Result, ok, err}
use hackline.Proto.Zid.{Zid}
use hackline.Proto.Uuid.{Uuids}
use hackline.Proto.Keyexpr.{connect, stream_gw, stream_dev}
use hackline.Core.Pipe.{Bytes}

pub data BridgeError : Type 0 where
  zenoh ack_timeout : BridgeError
  io : Text → BridgeError
  proto_json : BridgeError
  rejected : Text → BridgeError

pub record BridgeBytes : Type 0 where
  pub up : ℕ
  pub down : ℕ

pub record ConnectRequest (u : Uuids) : Type 0 where
  pub request_id : u.Uuid
  pub peer : Option Text

pub record ConnectAck (u : Uuids) : Type 0 where
  pub request_id : u.Uuid
  pub ok : Bool
  pub message : Option Text

-- What an end does on the network before its loops: a query, a reply to one, a stream declared, a
-- first sample.
pub data Action (u : Uuids) : Type 0 where
  get : Text → ConnectRequest u → Action u
  reply : Text → ConnectAck u → Action u
  declare_publisher declare_subscriber : Text → Action u
  put : Text → Bytes → Action u

-- What `recv_async` gives, within `ACK_TIMEOUT`: nothing in time, the end of the replies, an error
-- reply with its `{e:?}`, or the bytes of a reply.
pub data Answer : Type 0 where
  timed_out disconnected : Answer
  refused : Text → Answer
  replied : Bytes → Answer

-- What the session answers: whether it takes the query, the reply and the two declarations. `pumped`
-- is what the two loops have counted when both are done.
pub record Session : Type 0 where
  pub takes_get : Bool
  pub takes_reply : Bool
  pub takes_publisher : Bool
  pub takes_subscriber : Bool
  pub pumped : BridgeBytes

module _ (u : Uuids) where
  open u use {Uuid}

  -- `run_bridge`, with the two loops' counts as its result: `try_join!` of the tasks does not fail.
  unfoldable pub run_bridge :
      Session → Text → Text → List (Action u) × Result BridgeError BridgeBytes
  run_bridge s subscribe_ke publish_ke =
      if s.takes_publisher
      then (
        declare_publisher publish_ke ∷ declare_subscriber subscribe_ke ∷ [],
        if s.takes_subscriber then ok s.pumped else err zenoh,
      )
      else (declare_publisher publish_ke ∷ [], err zenoh)

  abbrev then_done :
      {A : Type 0}
      → List (Action u)
      → A
      → List (Action u) × Result BridgeError BridgeBytes
      → List (Action u) × Result BridgeError A
  then_done before a (actions, ok _) = (before ++ actions, ok a)
  then_done before a (actions, err e) = (before ++ actions, err e)

  -- `query.payload().…unwrap_or_default()`.
  abbrev payload_of : Option Bytes → Bytes
  payload_of none = []
  payload_of (some b) = b

  -- The rest of `accept_bridge`, with the request read; `dialled` is what `TcpStream::connect` gives.
  unfoldable pub accept_request :
      Session
      → Result Text (Unit {0})
      → Text
      → Zid
      → ℕ
      → ConnectRequest u
      → List (Action u) × Result BridgeError (Uuid × Option Text)
  unfolding run_bridge
  accept_request s (err e) org zid port req = (
    reply (connect org zid port) (record {
      request_id = req.request_id;
      ok = false;
      message = some (lit "tcp connect failed: " ++ e);
    })
        ∷ [],
    err (io e),
  )
  accept_request s (ok _) org zid port req =
      let acked =
        reply (connect org zid port)
          (record { request_id = req.request_id; ok = true; message = none })
        ∷ [] in
      let ke_from_gw = stream_gw u org zid req.request_id in
      let ke_to_gw = stream_dev u org zid req.request_id in
      let bridged = then_done acked (req.request_id, req.peer) (run_bridge s ke_from_gw ke_to_gw) in
      if s.takes_reply then bridged else (acked, err zenoh)

  unfoldable pub accept_bridge :
      (Bytes → Option (ConnectRequest u))
      → Session
      → (ℕ → Result Text (Unit {0}))
      → Text
      → Zid
      → ℕ
      → Option Bytes
      → List (Action u) × Result BridgeError (Uuid × Option Text)
  unfolding accept_request
  accept_bridge from_slice s dial org zid port payload = elim (from_slice (payload_of payload)) [
    | none ↦ ([], err proto_json)
    | some req ↦ accept_request s (dial port) org zid port req
  ]

  -- `ack.message.unwrap_or_default()`.
  abbrev message_of : Option Text → Text
  message_of none = []
  message_of (some m) = m

  abbrev with_id : Uuid → Result BridgeError BridgeBytes → Result BridgeError (Uuid × BridgeBytes)
  with_id rid (ok b) = ok (rid, b)
  with_id rid (err e) = err e

  -- `initiate_bridge_io_with_id` after the reply has come.
  unfoldable pub on_answer :
      (Bytes → Option (ConnectAck u))
      → Session
      → Text
      → Zid
      → Uuid
      → Answer
      → List (Action u) × Result BridgeError (Uuid × BridgeBytes)
  unfolding run_bridge
  on_answer from_slice s org zid request_id timed_out = ([], err ack_timeout)
  on_answer from_slice s org zid request_id disconnected = ([], err zenoh)
  on_answer from_slice s org zid request_id (refused e) = ([], err (rejected e))
  on_answer from_slice s org zid request_id (replied bytes) = elim (from_slice bytes) [
    | none ↦ ([], err proto_json)
    | some ack ↦
        let ke_to_agent = stream_gw u org zid request_id in
        let ke_from_agent = stream_dev u org zid request_id in
        let (actions, result) = run_bridge s ke_from_agent ke_to_agent in
        if ack.ok
        then (actions, with_id request_id result)
        else ([], err (rejected (message_of ack.message)))
  ]

  -- `initiate_bridge_io_with_id`; `request_id` is the fresh identifier.
  unfoldable pub initiate_bridge_io_with_id :
      (Bytes → Option (ConnectAck u))
      → Session
      → Uuid
      → Text
      → Zid
      → ℕ
      → Option Text
      → Answer
      → List (Action u) × Result BridgeError (Uuid × BridgeBytes)
  unfolding on_answer
  initiate_bridge_io_with_id from_slice s request_id org zid port peer_addr answer =
      let query : Action u =
        get (connect org zid port) (record { request_id = request_id; peer = peer_addr }) in
      let (actions, result) = on_answer from_slice s org zid request_id answer in
      if s.takes_get then (query ∷ actions, result) else (query ∷ [], err zenoh)

  -- `initiate_bridge`, which forgets the identifier.
  unfoldable pub initiate_bridge :
      (Bytes → Option (ConnectAck u))
      → Session
      → Uuid
      → Text
      → Zid
      → ℕ
      → Option Text
      → Answer
      → List (Action u) × Result BridgeError BridgeBytes
  unfolding initiate_bridge_io_with_id
  initiate_bridge from_slice s request_id org zid port peer_addr answer =
      let (actions, result) =
        initiate_bridge_io_with_id from_slice s request_id org zid port peer_addr answer in
      (actions, elim result [ ok (_, b) ↦ ok b | err e ↦ err e ])
