-- ===== src/Tests/Client.antt =====
-- The theorems on the device's side of the message plane.
use hackline.Prelude.{
  ℕ, ◌≡◌, ◌≢◌, ◌↔◌, refl, sym, Bool, true, false, ◌&&◌, List, [], ◌∷◌, Option, none, some, All,
  arith, Bool-cases, ◌⊎◌, inl, inr, some_inj, none_ne_some, if◌then◌else◌,
}
use hackline.Prelude.Int.{ℤ, pos, negsuc}
use hackline.Prelude.Text.{Text, lit, text_eq, text_eq_iff, split}
use hackline.Prelude.Outcome.{ok, err}
use hackline.Proto.Zid
use hackline.Proto.AckResult.{CmdResult, accepted, rejected, failed, done}
use hackline.Proto.Keyexpr.{event, msg_event, msg_cmd, msg_cmd_ack}
use hackline.Proto.Level.{info}
use hackline.Proto.Msg.{MsgEnvelope, Headers, content_type_json, new_event}
use hackline.Gateway.Error.{bad_request, foreign_publication}
use hackline.Gateway.Schema.{Bytes}
use hackline.Gateway.Devices.{get_with_org_slug}
use hackline.Gateway.Fanin.{handle_sample}
use hackline.Gateway.Fanin.Stored.{Answers}
use hackline.Gateway.Outbox.Lifecycle.{acked, queued, phase}
use hackline.Gateway.Delivery.Addressed.{command_of, Addresses}
use hackline.Gateway.Delivery.{CmdAck, CmdEnvelope, Link, message}
use hackline.Gateway.Delivery.Acks.{handle_ack}
use hackline.Client.{
  ClientSession, CmdHandle, validate_topic, check_segments, publish_event, publish, recv, ack_with,
}
use hackline.Client.Published.{IsWord, validate_topic_iff, envelope_of, publish-handle_sample}
use hackline.Client.Commanded.{command-acked}
use hackline.Tests.Data.{
  command, acme, zid, zid-IsCanonical, db-IsSound, two_ids, two_ids-IsUuid, parse_str,
}
use hackline.Tests.Network.{gateway, zid-known, acme-found, link, sends, at_50, c1-queued}

validate_topic_iff_example :
    (validate_topic (lit "pump.on") ≡ ok tt)
    ↔ ((lit "pump.on" ≢ []) × All IsWord (split b'.' (lit "pump.on")))
validate_topic_iff_example = validate_topic_iff (lit "pump.on")

-- A codec of the envelopes of JSON events with a clock from 1970 on, under one identifier.
abbrev write_at : Text → Headers → ℤ → Bytes → Option Bytes
write_at content_type (_ ∷ _) ts payload = none
write_at content_type [] (negsuc _) payload = none
write_at content_type [] (pos n) payload =
    if text_eq content_type content_type_json then some (n ∷ payload) else none

abbrev event_to_vec : MsgEnvelope (Unit {0}) Bytes → Option Bytes
event_to_vec e = write_at e.content_type e.headers e.ts e.payload

abbrev event_at : ℕ → Bytes → MsgEnvelope (Unit {0}) Bytes
event_at n payload = record {
  id = tt;
  ts = pos n;
  content_type = content_type_json;
  headers = [];
  payload = payload;
}

abbrev event_from_slice : Bytes → Option (MsgEnvelope (Unit {0}) Bytes)
event_from_slice [] = none
event_from_slice (n ∷ payload) = some (event_at n payload)

read_at :
    (content_type : Text) (headers : Headers) (ts : ℤ) (payload bytes : Bytes)
    → write_at content_type headers ts payload ≡ some bytes
    → event_from_slice bytes
      ≡ some (record {
        id = tt;
        ts = ts;
        content_type = content_type;
        headers = headers;
        payload = payload;
      })
read_at content_type (_ ∷ _) ts payload bytes h = none_ne_some h
read_at content_type [] (negsuc _) payload bytes h = none_ne_some h
read_at content_type [] (pos n) payload bytes h =
    elim (Bool-cases (text_eq content_type content_type_json)) [
      | inl json ↦
          rw ((text_eq_iff content_type content_type_json).0 json, sym (some_inj (rw json at h)))
            refl
      | inr other ↦ none_ne_some (rw other at h)
    ]

reads_event :
    (e : MsgEnvelope (Unit {0}) Bytes) (bytes : Bytes)
    → event_to_vec e ≡ some bytes
    → event_from_slice bytes ≡ some e
reads_event e bytes h = read_at e.content_type e.headers e.ts e.payload bytes h

abbrev session : ClientSession
session = record { org = lit "acme"; zid = zid }

event-put :
    publish_event event_to_vec sends session tt (pos 7) (lit "pump.on") (49 ∷ [])
    ≡ ok (msg_event (lit "acme") zid (lit "pump.on"), 7 ∷ 49 ∷ [])
unfolding publish_event publish validate_topic check_segments new_event split text_eq
event-put = refl

publish-handle_sample_example :
    ((acme.slug ≡ lit "acme")
      × Answers some event gateway 1 1
          (lit "pump.on")
          (envelope_of event tt (pos 7) info (49 ∷ []))
          (handle_sample event_from_slice some gateway event
            (msg_event (lit "acme") zid (lit "pump.on"))
            (7 ∷ 49 ∷ [])))
    ⊎ ((acme.slug ≢ lit "acme")
        × (handle_sample event_from_slice some gateway event
              (msg_event (lit "acme") zid (lit "pump.on"))
              (7 ∷ 49 ∷ [])
            ≡ err (bad_request (foreign_publication (lit "a1") (lit "acme") (lit "acme")))))
publish-handle_sample_example =
    publish-handle_sample event_to_vec sends event_from_slice reads_event some gateway session 1 1
      acme (tt, tt) (ground arith) zid-IsCanonical zid-known acme-found event tt (pos 7) info
      (lit "pump.on") (49 ∷ []) (msg_event (lit "acme") zid (lit "pump.on")) (7 ∷ 49 ∷ []) event-put

-- A codec of the commands on one topic, under one identifier, with clocks from 1970 on.
abbrev write_cmd : Bool → ℤ → ℤ → Bool → ℤ → Headers → Text → Text → Bytes → Option Bytes
write_cmd false enqueued expires id ts headers topic content_type payload = none
write_cmd true (negsuc _) expires id ts headers topic content_type payload = none
write_cmd true (pos a) (negsuc _) id ts headers topic content_type payload = none
write_cmd true (pos a) (pos b) false ts headers topic content_type payload = none
write_cmd true (pos a) (pos b) true (negsuc _) headers topic content_type payload = none
write_cmd true (pos a) (pos b) true (pos c) (_ ∷ _) topic content_type payload = none
write_cmd true (pos a) (pos b) true (pos c) [] topic content_type payload =
    if text_eq topic (lit "pump.on") && text_eq content_type content_type_json
    then some (a ∷ b ∷ c ∷ payload)
    else none

abbrev cmd_to_vec : CmdEnvelope Bool Bytes → Option Bytes
cmd_to_vec e =
    write_cmd e.cmd_id e.enqueued_at e.expires_at e.envelope.id e.envelope.ts e.envelope.headers
      e.topic e.envelope.content_type e.envelope.payload

abbrev cmd_of : Bool → ℤ → ℤ → Bool → ℤ → Headers → Text → Text → Bytes → CmdEnvelope Bool Bytes
cmd_of cmd_id enqueued expires id ts headers topic content_type payload = record {
  cmd_id = cmd_id;
  topic = topic;
  enqueued_at = enqueued;
  expires_at = expires;
  envelope = record {
    id = id;
    ts = ts;
    content_type = content_type;
    headers = headers;
    payload = payload;
  };
}

abbrev cmd_from_slice : Bytes → Option (CmdEnvelope Bool Bytes)
cmd_from_slice [] = none
cmd_from_slice (_ ∷ []) = none
cmd_from_slice (_ ∷ _ ∷ []) = none
cmd_from_slice (a ∷ b ∷ c ∷ payload) =
    some (cmd_of true (pos a) (pos b) true (pos c) [] (lit "pump.on") content_type_json payload)

both : (a b : Bool) → (a && b) ≡ true → (a ≡ true) × (b ≡ true)
both true b h = (refl, h)
both false b h = absurd cc

read_cmd :
    (cmd_id : Bool) (enqueued expires : ℤ) (id : Bool) (ts : ℤ) (headers : Headers)
    (topic content_type : Text) (payload bytes : Bytes)
    → write_cmd cmd_id enqueued expires id ts headers topic content_type payload ≡ some bytes
    → cmd_from_slice bytes
      ≡ some (cmd_of cmd_id enqueued expires id ts headers topic content_type payload)
read_cmd false enqueued expires id ts headers topic content_type payload bytes h = none_ne_some h
read_cmd true (negsuc _) expires id ts headers topic content_type payload bytes h = none_ne_some h
read_cmd true (pos a) (negsuc _) id ts headers topic content_type payload bytes h = none_ne_some h
read_cmd true (pos a) (pos b) false ts headers topic content_type payload bytes h = none_ne_some h
read_cmd true (pos a) (pos b) true (negsuc _) headers topic content_type payload bytes h =
    none_ne_some h
read_cmd true (pos a) (pos b) true (pos c) (_ ∷ _) topic content_type payload bytes h =
    none_ne_some h
read_cmd true (pos a) (pos b) true (pos c) [] topic content_type payload bytes h =
    elim (Bool-cases (text_eq topic (lit "pump.on") && text_eq content_type content_type_json)) [
      | inr other ↦ none_ne_some (rw other at h)
      | inl same ↦
          let (on_topic, json) =
            both (text_eq topic (lit "pump.on")) (text_eq content_type content_type_json) same in
          rw
            (
              (text_eq_iff topic (lit "pump.on")).0 on_topic,
              (text_eq_iff content_type content_type_json).0 json,
              sym (some_inj (rw same at h)),
            )
            refl
    ]

reads_cmd :
    (e : CmdEnvelope Bool Bytes) (bytes : Bytes)
    → cmd_to_vec e ≡ some bytes
    → cmd_from_slice bytes ≡ some e
reads_cmd e bytes h =
    read_cmd e.cmd_id e.enqueued_at e.expires_at e.envelope.id e.envelope.ts e.envelope.headers
      e.topic e.envelope.content_type e.envelope.payload bytes h

-- A codec of one answer.
abbrev write_answer : Bool → CmdResult → Option Text → Option Bytes
write_answer true done none = some []
write_answer _ _ _ = none

abbrev answer : CmdAck Bool
answer = record { cmd_id = true; result = done; detail = none }

abbrev ack_to_vec : CmdAck Bool → Option Bytes
ack_to_vec a = write_answer a.cmd_id a.result a.detail

abbrev ack_from_slice : Bytes → Option (CmdAck Bool)
ack_from_slice [] = some answer
ack_from_slice (_ ∷ _) = none

read_answer :
    (cmd_id : Bool) (result : CmdResult) (detail : Option Text) (bytes : Bytes)
    → write_answer cmd_id result detail ≡ some bytes
    → ack_from_slice bytes ≡ some (record { cmd_id = cmd_id; result = result; detail = detail })
read_answer true done none bytes h = rw (sym (some_inj h)) refl
read_answer true done (some _) bytes h = none_ne_some h
read_answer true accepted detail bytes h = none_ne_some h
read_answer true rejected detail bytes h = none_ne_some h
read_answer true failed detail bytes h = none_ne_some h
read_answer false result detail bytes h = none_ne_some h

reads_answer :
    (a : CmdAck Bool) (bytes : Bytes) → ack_to_vec a ≡ some bytes → ack_from_slice bytes ≡ some a
reads_answer a bytes h = read_answer a.cmd_id a.result a.detail bytes h

abbrev sent_bytes : Bytes
sent_bytes = 10 ∷ 1000 ∷ 10 ∷ 49 ∷ []

abbrev handle : CmdHandle Bool Bytes
handle = record {
  org = lit "acme";
  zid = zid;
  cmd_id = true;
  envelope =
      cmd_of true (pos 10) (pos 1000) true (pos 10) [] (lit "pump.on") content_type_json (49 ∷ []);
}

command-sent :
    message two_ids (λ b. b) cmd_to_vec sends at_50 link.db command
    ≡ some (msg_cmd (lit "acme") zid (lit "pump.on"), sent_bytes)
unfolding message get_with_org_slug Zid.new parse_str text_eq
command-sent = refl

command-received : recv two_ids cmd_from_slice session (sent_bytes ∷ []) ≡ some (handle, [])
unfolding recv
command-received = refl

command-answered :
    ack_with two_ids ack_to_vec sends handle done none
    ≡ ok (msg_cmd_ack two_ids (lit "acme") zid true, [])
unfolding ack_with
command-answered = refl

command-acked_example :
    (l : Link) × (handle.envelope ≡ command_of two_ids (λ b. b) command true)
    × Addresses two_ids
        (λ b. b)
        cmd_to_vec
        link.db
        command
        (msg_cmd (lit "acme") zid (lit "pump.on"))
        sent_bytes
    × (◌≡◌ {A = List Bytes} [] [])
    × (handle_ack two_ids ack_from_slice link
          (msg_cmd_ack two_ids (lit "acme") zid true)
          []
          (pos 60)
        ≡ ok l)
    × (phase l.db (lit "c1") ≡ some acked)
command-acked_example =
    command-acked two_ids two_ids-IsUuid (λ b. b) cmd_to_vec cmd_from_slice reads_cmd sends at_50
      link command true (msg_cmd (lit "acme") zid (lit "pump.on")) sent_bytes session [] [] handle
      ack_to_vec ack_from_slice sends done none (msg_cmd_ack two_ids (lit "acme") zid true) []
      (pos 60) queued reads_answer db-IsSound (ground arith) zid-IsCanonical refl c1-queued
      command-sent command-received command-answered
