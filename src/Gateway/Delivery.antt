-- ===== src/Gateway/Delivery.antt =====
-- crates/hackline-gateway/src/cmd_delivery.rs: the two tasks between the outbox and the devices.
-- What `uuid`, `serde_json` and the Zenoh session do is an argument, and so are the clocks: `now_ms`
-- of a task, and of the instant at which the pusher marks a row.
pub mod Acks
pub mod Addressed
pub mod Due
pub mod Pusher
use hackline.Prelude.{if◌then◌else◌, ℕ, Bool, true, false, List, [], ◌∷◌, ◌++◌, Option, none, some}
use hackline.Prelude.Int.{ℤ}
use hackline.Prelude.Text.{Text, lit}
use hackline.Prelude.Chain.{◌>>=◌, to_option}
use hackline.Proto.Zid
use hackline.Proto.Uuid.{Uuids}
use hackline.Proto.AckResult.{CmdResult}
use hackline.Proto.Msg.{MsgEnvelope}
use hackline.Proto.Keyexpr.{msg_cmd}
use hackline.Gateway.Schema.{Bytes, Device, CmdRow, Db}
use hackline.Gateway.Metrics.{Metrics, inc_cmd}
use hackline.Gateway.Devices.{get_with_org_slug}
use hackline.Gateway.Outbox.{list_pending, mark_delivered}

-- `CmdAck` of crates/hackline-proto/src/msg.rs.
pub record CmdAck (Uuid : Type 0) : Type 0 where
  pub cmd_id : Uuid
  pub result : CmdResult
  pub detail : Option Text

-- `CmdEnvelope` of crates/hackline-proto/src/msg.rs.
pub record CmdEnvelope (Uuid Value : Type 0) : Type 0 where
  pub cmd_id : Uuid
  pub topic : Text
  pub enqueued_at : ℤ
  pub expires_at : ℤ
  pub envelope : MsgEnvelope Uuid Value

-- The database, the counters, and what was put on the network.
pub record Link : Type 0 where
  pub db : Db
  pub metrics : Metrics
  pub sent : List (Text × Bytes)

module _ (u : Uuids) {Value : Type 0} (value : Bytes → Value)
    (to_vec : CmdEnvelope (u.Uuid) Value → Option Bytes) (put : Text → Bytes → Bool)
    (marked_at : CmdRow → ℤ) where
  open u use {Uuid, parse_str}

  -- `CmdEnvelope { … }`; `value` is how a row's payload is read.
  abbrev pub envelope_of : CmdRow → Uuid → CmdEnvelope Uuid Value
  envelope_of row cmd_id = record {
    cmd_id = cmd_id;
    topic = row.topic;
    enqueued_at = row.enqueued_at;
    expires_at = row.expires_at;
    envelope = record {
      id = cmd_id;
      ts = row.enqueued_at;
      content_type = row.content_type;
      headers = [];
      payload = value row.payload;
    };
  }

  -- What the loop would put for a row; a failure on the way is a `continue`.
  unfoldable pub message : Db → CmdRow → Option (Text × Bytes)
  message d row = do
    (device, org_slug) ← to_option (get_with_org_slug d row.device_id)
    zid ← to_option (Zid.new device.zid)
    cmd_id ← parse_str row.cmd_id
    bytes ← to_vec (envelope_of row cmd_id)
    some (msg_cmd org_slug zid row.topic, bytes)

  push : Link → CmdRow → Option (Text × Bytes) → Link
  push s row none = s
  push s row (some (ke, bytes)) =
      if put ke bytes
      then record {
        db = mark_delivered s.db row.cmd_id (marked_at row);
        metrics = inc_cmd s.metrics (lit "delivered");
        sent = s.sent ++ (ke, bytes) ∷ [];
      }
      else s

  push_all : Link → List CmdRow → Link
  unfolding push
  push_all s [] = s
  push_all s (row ∷ rows) = push_all (push s row (message s.db row)) rows

  unfoldable pub drain_pending : Link → ℤ → Link
  unfolding push_all
  drain_pending s now = push_all s (list_pending s.db now)
