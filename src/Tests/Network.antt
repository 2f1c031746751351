-- ===== src/Tests/Network.antt =====
-- The theorems on what the gateway takes from the network and puts on it.
use hackline.Prelude.{
  ℕ, ◌≡◌, ◌≢◌, ◌↔◌, refl, List, Bool, true, [], ◌∷◌, ◌++◌, Option, none, some, All, arith, ◌⊎◌,
}
use hackline.Prelude.Int.{ℤ, pos}
use hackline.Prelude.Text.{Text, lit, text_eq, split, join}
use hackline.Prelude.Outcome.{ok, err}
use hackline.Proto.Zid
use hackline.Proto.Zid.{Zid}
use hackline.Proto.AckResult.{done}
use hackline.Proto.Keyexpr.{
  event, health, parse_health_keyexpr, msg_event, msg_cmd_ack, parse_msg_keyexpr,
}
use hackline.Proto.Msg.{MsgEnvelope}
use hackline.Gateway.Error.{bad_request, foreign_publication}
use hackline.Gateway.Schema.{Db, Bytes, Org, EventRow, CmdRow}
use hackline.Gateway.Metrics.{Metrics, inc_event}
use hackline.Gateway.Metrics.Folding.{Admitted, topics_seen, inc_event-Admitted}
use hackline.Gateway.Devices.{get_by_zid, upsert_seen}
use hackline.Gateway.Orgs
use hackline.Gateway.Orgs.{get_by_slug}
use hackline.Gateway.Liveliness
use hackline.Gateway.Liveliness.Presence.{Seen, handle_sample-Seen}
use hackline.Gateway.Events
use hackline.Gateway.Ring.{prune_rows}
use hackline.Gateway.Fanin.{Live, MsgEvent, event_msg, Gateway, persist, handle_sample}
use hackline.Gateway.Fanin.Stored.{Answers}
use hackline.Gateway.Fanin.Routing.{
  Untouched, org_of, device_of, handle_sample-key, handle_sample-isolates,
}
use hackline.Gateway.Outbox.{get_by_cmd_id}
use hackline.Gateway.Outbox.Step.{run}
use hackline.Gateway.Outbox.Lifecycle.{queued, acked, phase}
use hackline.Gateway.Delivery.{CmdAck, CmdEnvelope, Link, message, drain_pending}
use hackline.Gateway.Delivery.Addressed.{Addresses}
use hackline.Gateway.Delivery.Due.{AreDue}
use hackline.Gateway.Delivery.Acks.{handle_ack, handle_ack-acked}
use hackline.Gateway.Delivery.Pusher.{messages, deliveries, drain_pending-run}
use hackline.Tests.Data.{
  device, acme, zid, zid-IsCanonical, db, db-IsSound, no_metrics, two_ids, two_ids-IsUuid,
}

-- Payloads are read and written as they are.
abbrev pub envelope : Bytes → MsgEnvelope Bool Bytes
envelope payload = record {
  id = true;
  ts = pos 7;
  content_type = lit "application/json";
  headers = [];
  payload = payload;
}

abbrev pub from_slice : Bytes → Option (MsgEnvelope Bool Bytes)
from_slice payload = some (envelope payload)

abbrev pub gateway : Gateway Bytes
gateway = record { db = db; metrics = no_metrics; bus = [] }

pub zid-known : get_by_zid db zid.as_str ≡ some (1, 1)
unfolding get_by_zid text_eq
zid-known = refl

pub acme-found : Orgs.get db 1 ≡ ok acme
unfolding Orgs.get
acme-found = refl

-- A short event under the key of the device's own organisation.
handle_sample-key_example :
    ((acme.slug ≡ lit "acme")
      × Answers some event gateway 1 1 (lit "t") (envelope (49 ∷ [])) (
          handle_sample from_slice some gateway event
            (msg_event (lit "acme") zid (lit "t"))
            (49 ∷ [])))
    ⊎ ((acme.slug ≢ lit "acme")
        × (handle_sample from_slice some gateway event
              (msg_event (lit "acme") zid (lit "t"))
              (49 ∷ [])
            ≡ err (bad_request (foreign_publication (lit "a1") (lit "acme") (lit "acme")))))
handle_sample-key_example =
    handle_sample-key from_slice some gateway event (lit "acme") (lit "t") zid (49 ∷ [])
      (envelope (49 ∷ [])) 1 1 acme (tt, tt) (ground arith) zid-IsCanonical (ground arith) refl
      zid-known acme-found

abbrev pub ke : Text
ke = lit "hackline/acme/a1/msg/event/pump/temp"

abbrev pub live : Live Bytes
live = record {
  id = 1;
  device_id = 1;
  topic = lit "pump.temp";
  ts = pos 7;
  content_type = lit "application/json";
  payload = 49 ∷ [];
}

abbrev pub stored : EventRow
stored = record {
  id = 1;
  device_id = 1;
  topic = lit "pump.temp";
  ts = pos 7;
  content_type = lit "application/json";
  payload = 49 ∷ [];
}

abbrev pub after : Gateway Bytes
after = record {
  db = record db { events = stored ∷ [] };
  metrics = inc_event no_metrics (lit "pump.temp");
  bus = event_msg 1 live ∷ [];
}

pub sample-ok : handle_sample from_slice some gateway event ke (49 ∷ []) ≡ ok after
unfolding handle_sample parse_msg_keyexpr persist get_by_zid Orgs.get Events.insert prune_rows
    Zid.new split join text_eq
sample-ok = refl

handle_sample-isolates_example :
    (z : Zid) × (topic : Text) × (device_id : ℕ) × (org_id : ℕ) × (o : Org) × (msg : MsgEvent Bytes)
    × (parse_msg_keyexpr ke ≡ some (o.slug, z, event, topic))
    × (get_by_zid db z.as_str ≡ some (device_id, org_id))
    × (Orgs.get db org_id ≡ ok o)
    × (after.bus ≡ [] ++ msg ∷ [])
    × (org_of msg ≡ org_id)
    × (device_of msg ≡ device_id)
    × ((2 ≡ device_id) ⊎ Untouched 2 db after.db)
handle_sample-isolates_example =
    handle_sample-isolates from_slice some gateway after event ke (49 ∷ []) 2 (tt, tt) sample-ok

abbrev pub link : Link
link = record { db = db; metrics = no_metrics; sent = [] }

abbrev ack : CmdAck Bool
ack = record { cmd_id = true; result = done; detail = none }

pub c1-queued : phase db (lit "c1") ≡ some queued
unfolding phase get_by_cmd_id text_eq
c1-queued = refl

handle_ack-acked_example :
    (s : Link) × (handle_ack two_ids
        (λ _. some ack)
        link
        (msg_cmd_ack two_ids (lit "evil") zid true)
        []
        (pos 60)
      ≡ ok s)
    × (phase s.db (lit "c1") ≡ some acked)
handle_ack-acked_example =
    handle_ack-acked two_ids two_ids-IsUuid (λ _. some ack) link (lit "evil") zid ack [] (pos 60)
      queued db-IsSound (ground arith) zid-IsCanonical refl c1-queued

abbrev encode : CmdEnvelope Bool Bytes → Option Bytes
encode e = some e.envelope.payload

abbrev pub sends : Text → Bytes → Bool
sends _ _ = true

abbrev pub at_50 : CmdRow → ℤ
at_50 _ = pos 50

abbrev drained : Link
drained = drain_pending two_ids (λ b. b) encode sends at_50 link (pos 50)

drain_pending-run_example :
    (rows : List CmdRow) × AreDue db (pos 50) rows
    × ((row : CmdRow) (ke : Text) (bytes : Bytes)
        → (message two_ids (λ b. b) encode sends at_50 db row ≡ some (ke, bytes))
          ↔ Addresses two_ids (λ b. b) encode db row ke bytes)
    × (drained.db ≡ run db (deliveries two_ids (λ b. b) encode sends at_50 db rows))
    × (drained.sent ≡ [] ++ messages two_ids (λ b. b) encode sends at_50 db rows)
drain_pending-run_example =
    drain_pending-run two_ids (λ b. b) encode sends at_50 link (pos 50) db-IsSound

abbrev allowed : Metrics
allowed = record no_metrics { event_topic_allow = some (lit "a" ∷ []) }

inc_event-Admitted_once :
    All
      (Admitted (lit "a" ∷ []))
      (topics_seen allowed (lit "b" ∷ lit "a" ∷ [])).events_received_total
inc_event-Admitted_once = inc_event-Admitted (lit "a" ∷ []) (lit "b" ∷ lit "a" ∷ []) allowed refl tt

acme-slug : get_by_slug db (lit "acme") ≡ some acme
unfolding get_by_slug text_eq
acme-slug = refl

abbrev online : Db
online = record db { devices = record device { last_seen_at = some (pos 8) } ∷ [] }

declared : Liveliness.handle_sample db (health (lit "acme") zid) Liveliness.put (pos 8) ≡ ok online
unfolding Liveliness.handle_sample health parse_health_keyexpr get_by_slug upsert_seen Zid.new split
    text_eq
declared = refl

handle_sample-Seen_example :
    Seen online 1 (lit "a1") (some (pos 8))
    × (online.orgs ≡ db.orgs)
    × ((d : Db) × (Liveliness.handle_sample online
            (health (lit "acme") zid)
            Liveliness.delete
            (pos 9)
          ≡ ok d)
        × Seen d 1 (lit "a1") none
        × (d.orgs ≡ db.orgs))
handle_sample-Seen_example =
    handle_sample-Seen db online (lit "acme") zid acme (pos 8) (pos 9) (ground arith)
      zid-IsCanonical acme-slug declared
