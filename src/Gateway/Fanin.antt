-- ===== src/Gateway/Fanin.antt =====
-- crates/hackline-gateway/src/msg_fanin.rs with the bus of events_bus.rs: what the gateway does with
-- a sample of the message plane. `from_slice` is what `serde_json` reads an envelope from and
-- `to_vec` what it writes a payload to.
pub mod Routing
pub mod Stored
use hackline.Prelude.{ℕ, Bool, true, false, List, [], ◌∷◌, ◌++◌, Option, none, some}
use hackline.Prelude.Int.{ℤ}
use hackline.Prelude.Text.{Text, text_eq}
use hackline.Prelude.Outcome.{Result, ok, err, require, ok_or, ◌>>=◌, ◌>>◌}
use hackline.Proto.Zid.{Zid}
use hackline.Proto.Keyexpr.{MsgKind, event, log, parse_msg_keyexpr}
use hackline.Proto.Level.{as_str}
use hackline.Proto.Msg.{MsgEnvelope, log_level}
use hackline.Gateway.Error.{
  GatewayError, bad_request, unparsable_keyexpr, routed_to_other_subscriber, envelope,
  unknown_device_zid, foreign_publication,
}
use hackline.Gateway.Schema.{Bytes, Org, Db}
use hackline.Gateway.Metrics.{Metrics, inc_event, inc_log}
use hackline.Gateway.Devices.{get_by_zid}
use hackline.Gateway.Orgs
use hackline.Gateway.Events
use hackline.Gateway.Logs

-- The row of a message on the bus: a stored row with the payload as it was decoded.
pub record Live (Value : Type 0) : Type 0 where
  pub id : ℕ
  pub device_id : ℕ
  pub topic : Text
  pub ts : ℤ
  pub content_type : Text
  pub payload : Value

-- `MsgEvent`, with the organisation that may see it; a log has its level.
pub data MsgEvent (Value : Type 0) : Type 0 where
  event_msg : ℕ → Live Value → MsgEvent Value
  log_msg : ℕ → Text → Live Value → MsgEvent Value

-- What a sample may change: the database, the counters, and the bus as the list of what was
-- published on it.
pub record Gateway (Value : Type 0) : Type 0 where
  pub db : Db
  pub metrics : Metrics
  pub bus : List (MsgEvent Value)

abbrev same_kind : MsgKind → MsgKind → Bool
same_kind event event = true
same_kind log log = true
same_kind event log = false
same_kind log event = false

module _ {Uuid Value : Type 0} (from_slice : Bytes → Option (MsgEnvelope Uuid Value))
    (to_vec : Value → Option Bytes) where
  -- `bus.publish`.
  abbrev publish : List (MsgEvent Value) → MsgEvent Value → List (MsgEvent Value)
  publish bus msg = bus ++ msg ∷ []

  -- The part of `handle_sample` that stores, counts and publishes.
  unfoldable pub persist :
      Gateway Value
      → MsgKind
      → ℕ
      → ℕ
      → Text
      → MsgEnvelope Uuid Value
      → Result GatewayError (Gateway Value)
  persist g event org_id device_id topic env = do
    (id, d) ← Events.insert g.db device_id topic env.ts env.content_type (to_vec env.payload)
    let row : Live Value = record {
      id = id;
      device_id = device_id;
      topic = topic;
      ts = env.ts;
      content_type = env.content_type;
      payload = env.payload;
    }
    ok (record {
      db = d;
      metrics = inc_event g.metrics topic;
      bus = publish g.bus (event_msg org_id row);
    })
  persist g log org_id device_id topic env = do
    let level = as_str (log_level env)
    (id, d) ← Logs.insert g.db device_id topic env.ts level env.content_type (to_vec env.payload)
    let row : Live Value = record {
      id = id;
      device_id = device_id;
      topic = topic;
      ts = env.ts;
      content_type = env.content_type;
      payload = env.payload;
    }
    ok (record {
      db = d;
      metrics = inc_log g.metrics level;
      bus = publish g.bus (log_msg org_id level row);
    })

  unfoldable pub handle_sample :
      Gateway Value → MsgKind → Text → Bytes → Result GatewayError (Gateway Value)
  unfolding persist
  handle_sample g expected_kind ke payload = do
    (org_slug, zid, kind, topic) ←
        ok_or (parse_msg_keyexpr ke) (bad_request (unparsable_keyexpr ke))
    require (same_kind kind expected_kind) (bad_request (routed_to_other_subscriber ke))
    env ← ok_or (from_slice payload) (bad_request envelope)
    (device_id, device_org_id) ←
        ok_or (get_by_zid g.db zid.as_str) (bad_request (unknown_device_zid zid.as_str))
    org_row ← Orgs.get g.db device_org_id
    require (text_eq org_row.slug org_slug)
        (bad_request (foreign_publication zid.as_str org_slug org_row.slug))
    persist g kind device_org_id device_id topic env
