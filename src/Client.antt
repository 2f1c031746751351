-- ===== src/Client.antt =====
-- crates/hackline-client/src/lib.rs: the device's side of the message plane. What the session puts
-- on the network is the answer of a call, a key with its bytes; `put` says whether the session takes
-- it. `serde_json` is given by its functions, and so are fresh identifiers and clocks.
pub mod Published
pub mod Commanded
use hackline.Prelude.{
  ℕ, Bool, true, false, ◌||◌, List, [], ◌∷◌, ◌++◌, Option, none, some, anyb, ◌==◌, if◌then◌else◌,
}
use hackline.Prelude.Int.{ℤ}
use hackline.Prelude.Text.{Text, lit, split}
use hackline.Prelude.Outcome.{Result, ok, err, require, ok_or, ◌>>=◌, ◌>>◌}
use hackline.Proto.Zid.{ProtoError, Zid}
use hackline.Proto.Zid
use hackline.Proto.Uuid.{Uuids}
use hackline.Proto.Level.{LogLevel}
use hackline.Proto.AckResult.{CmdResult}
use hackline.Proto.Msg.{MsgEnvelope, new_event, new_log, content_type_json}
use hackline.Proto.Keyexpr.{msg_event, msg_log, msg_cmd, msg_cmd_ack}
use hackline.Gateway.Schema.{Bytes}
use hackline.Gateway.Delivery.{CmdAck, CmdEnvelope}

-- Why a topic is refused.
pub data TopicFault : Type 0 where
  empty_topic empty_segment reserved_character : TopicFault

pub data ClientError : Type 0 where
  zenoh json : ClientError
  bad_zid : ProtoError → ClientError
  bad_topic : TopicFault → ClientError

abbrev pub empty : Text → Bool
empty [] = true
empty (_ ∷ _) = false

-- `seg.contains(c)`.
abbrev pub contains : ℕ → Text → Bool
contains c = anyb (λ x. x == c)

-- The loop over `topic.split('.')`, with the test for a reserved character.
unfoldable pub check_segments : (Text → Bool) → List Text → Result ClientError (Unit {0})
check_segments reserved [] = ok tt
check_segments reserved (seg ∷ segs) =
    let rest = check_segments reserved segs in
    if empty seg
    then err (bad_topic empty_segment)
    else if reserved seg
    then err (bad_topic reserved_character)
    else rest

unfoldable pub validate_topic : Text → Result ClientError (Unit {0})
unfolding check_segments
validate_topic topic =
    if empty topic
    then err (bad_topic empty_topic)
    else check_segments (λ seg. contains b'/' seg || contains b'*' seg) (split b'.' topic)

unfoldable pub validate_topic_subscribe : Text → Result ClientError (Unit {0})
unfolding check_segments
validate_topic_subscribe topic =
    if empty topic
    then err (bad_topic empty_topic)
    else check_segments (contains b'/') (split b'.' topic)

pub record ClientSession : Type 0 where
  pub org : Text
  pub zid : Zid

-- The identifier of the session is the text that Zenoh prints for it.
unfoldable pub from_session_auto : Text → Text → Result ClientError ClientSession
from_session_auto raw org = elim (Zid.new raw) [
  | ok zid ↦ ok (record { org = org; zid = zid })
  | err e ↦ err (bad_zid e)
]

module _ {Uuid Value : Type 0} (to_vec : MsgEnvelope Uuid Value → Option Bytes)
    (put : Text → Bytes → Bool) where
  unfoldable pub publish : Text → MsgEnvelope Uuid Value → Result ClientError (Text × Bytes)
  publish ke env = do bytes ← ok_or (to_vec env) json; require (put ke bytes) zenoh; ok (ke, bytes)

  unfoldable pub publish_event :
      ClientSession → Uuid → ℤ → Text → Value → Result ClientError (Text × Bytes)
  unfolding publish
  publish_event s id now topic payload = do
    validate_topic topic
    publish (msg_event s.org s.zid topic) (new_event id now payload)

  unfoldable pub publish_log :
      ClientSession → Uuid → ℤ → LogLevel → Text → Value → Result ClientError (Text × Bytes)
  unfolding publish
  publish_log s id now level topic payload = do
    validate_topic topic
    publish (msg_log s.org s.zid topic) (new_log id now level payload)

-- The key that `subscribe_cmd` subscribes to.
unfoldable pub subscribe_cmd : ClientSession → Text → Result ClientError Text
subscribe_cmd s topic = do validate_topic_subscribe topic; ok (msg_cmd s.org s.zid topic)

pub record CmdHandle (Uuid Value : Type 0) : Type 0 where
  pub org : Text
  pub zid : Zid
  pub cmd_id : Uuid
  pub envelope : CmdEnvelope Uuid Value

module _ (u : Uuids) {Value : Type 0} where
  open u use {Uuid}

  -- `CmdStream::recv` on the samples that are to come: an envelope that cannot be read is passed
  -- over, and the answer is `None` when the subscriber closes.
  unfoldable pub recv :
      (Bytes → Option (CmdEnvelope Uuid Value))
      → ClientSession
      → List Bytes
      → Option (CmdHandle Uuid Value × List Bytes)
  recv from_slice s [] = none
  recv from_slice s (bytes ∷ samples) =
      let later = recv from_slice s samples in
      elim (from_slice bytes) [
        | some env ↦
            some (record { org = s.org; zid = s.zid; cmd_id = env.cmd_id; envelope = env }, samples)
        | none ↦ later
      ]

  unfoldable pub ack_with :
      (CmdAck Uuid → Option Bytes)
      → (Text → Bytes → Bool)
      → CmdHandle Uuid Value
      → CmdResult
      → Option Text
      → Result ClientError (Text × Bytes)
  ack_with to_vec put h result detail = do
    let ack : CmdAck Uuid = record { cmd_id = h.cmd_id; result = result; detail = detail }
    bytes ← ok_or (to_vec ack) json
    let ke = msg_cmd_ack u h.org h.zid h.cmd_id
    require (put ke bytes) zenoh
    ok (ke, bytes)

-- `ApiRequest` and `ApiReply` of crates/hackline-proto/src/msg.rs.
pub record ApiRequest (Value : Type 0) : Type 0 where
  pub content_type : Text
  pub payload : Value

pub record ApiReply (Value : Type 0) : Type 0 where
  pub content_type : Text
  pub payload : Value

module _ {Value State : Type 0} (from_slice : Bytes → Option (ApiRequest Value))
    (to_vec : ApiReply Value → Option Bytes) (error_value : ClientError → Value)
    (handler : State → ApiRequest Value → State × Result ClientError (ApiReply Value)) where
  -- `ApiReply::json`, of the error that the handler gave.
  abbrev reply_of : Result ClientError (ApiReply Value) → ApiReply Value
  reply_of (ok r) = r
  reply_of (err e) = record { content_type = content_type_json; payload = error_value e }

  -- The loop of `serve_api`: the bytes with which each query is answered, if it is.
  unfoldable pub serve_api : State → List Bytes → List (Option Bytes)
  serve_api s [] = []
  serve_api s (query ∷ queries) = elim (from_slice query) [
    | none ↦ none ∷ serve_api s queries
    | some req ↦ let (s', answer) = handler s req in to_vec (reply_of answer) ∷ serve_api s' queries
  ]
