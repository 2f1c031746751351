-- ===== src/Gateway/Fanin/Stored.antt =====
-- What the part of crates/hackline-gateway/src/msg_fanin.rs that stores a sample leaves behind.
use hackline.Prelude.{
  ℕ, ◌+◌, ◌<◌, ◌≤◌, ◌≡◌, refl, ap, sym, ◌∙◌, true, List, [], ◌∷◌, ◌++◌, Option, none, some, length,
  anyb, find, arith, leb, ◌==◌, ==_iff, Bool-cases, Option-cases, ◌⊎◌, inl, inr, some_inj,
  none_ne_some,
}
use Prim.Native.Nat.{◌%◌}
use hackline.Prelude.Text.{Text, text_eq, text_eq_refl}
use hackline.Prelude.Outcome.{Result, ok, err}
use hackline.Proto.Keyexpr.{MsgKind, event, log}
use hackline.Proto.Level.{LogLevel, trace, as_str}
use hackline.Proto.Msg.{MsgEnvelope, log_level}
use hackline.Gateway.Error.{
  GatewayError, bad_request, db, check, event_payload_not_serialisable,
  log_payload_not_serialisable,
}
use hackline.Gateway.Sql.{fresh}
use hackline.Gateway.Sql.Laws.{Falling}
use hackline.Gateway.Ring.{prune_rows}
use hackline.Gateway.Ring.Newest.{Pushed}
use hackline.Gateway.Schema.{Bytes, Device, Db}
use hackline.Gateway.Metrics.{bump, bucket, inc_event, inc_log}
use hackline.Gateway.Metrics.Values.{value_at, value_at-alter}
use hackline.Gateway.Devices.{ids, get_by_zid}
use hackline.Gateway.Events
use hackline.Gateway.Logs
use hackline.Gateway.Logs.{known_level}
use hackline.Gateway.Events.Bounded.{event_id, event_device, new_event_row, insert_newest}
use hackline.Gateway.Logs.Bounded.{log_id, log_device, new_log_row, insert_newest_log}
use hackline.Gateway.Fanin.{Live, event_msg, log_msg, Gateway, persist}

-- A device that is found is in the table.
pub get_by_zid-stored :
    (d : Db) (zid : Text) (device_id org_id : ℕ)
    → get_by_zid d zid ≡ some (device_id, org_id)
    → anyb (λ v. v.id == device_id) d.devices ≡ true
unfolding get_by_zid
get_by_zid-stored d zid device_id org_id h = among d.devices h
  where
    among :
        (vs : List Device)
        → ids (find (λ v. text_eq v.zid zid) vs) ≡ some (device_id, org_id)
        → anyb (λ v. v.id == device_id) vs ≡ true
    among [] h = none_ne_some h
    among (v ∷ vs) h = elim (Bool-cases (text_eq v.zid zid)) [
      | inl here ↦
          let same = ap (λ (x : ℕ × ℕ). x.0) (some_inj (rw (here, ids) at h)) in
          rw ((==_iff v.id device_id).1 same) refl
      | inr other ↦ let rest = among vs (rw other at h) in ground arith
    ]

known_level-as_str : (l : LogLevel) → known_level (as_str l) ≡ true
unfolding known_level as_str text_eq
known_level-as_str trace = refl
known_level-as_str _ = refl

abbrev unserialisable : MsgKind → GatewayError
unserialisable event = bad_request event_payload_not_serialisable
unserialisable log = bad_request log_payload_not_serialisable

module _ {Uuid Value : Type 0} where
  -- The row of an envelope as it is put on the bus.
  abbrev live_of : ℕ → ℕ → Text → MsgEnvelope Uuid Value → Live Value
  live_of id device_id topic env = record {
    id = id;
    device_id = device_id;
    topic = topic;
    ts = env.ts;
    content_type = env.content_type;
    payload = env.payload;
  }

  -- The newest row of the ring of its device and the message on the bus are those of the envelope;
  -- the other ring is as it was, and one sample more is counted under its topic or its level, modulo 2^64.
  abbrev pub Stores :
      MsgKind
      → Gateway Value
      → Gateway Value
      → ℕ
      → ℕ
      → Text
      → MsgEnvelope Uuid Value
      → Bytes
      → Type 0
  Stores event g g' org_id device_id topic env bytes =
      let label = bucket g.metrics.event_topic_allow topic in
      Pushed event_id event_device device_id 10000
        (new_event_row g.db device_id topic env.ts env.content_type bytes) g.db.events g'.db.events
      × (g'.db.logs ≡ g.db.logs)
      × (value_at text_eq label g'.metrics.events_received_total
          ≡ (value_at text_eq label g.metrics.events_received_total + 1) % 18446744073709551616)
      × (g'.bus
          ≡ g.bus
            ++ event_msg org_id (live_of (fresh event_id g.db.events) device_id topic env) ∷ [])
  Stores log g g' org_id device_id topic env bytes =
      let level = as_str (log_level env) in
      Pushed log_id log_device device_id 10000
        (new_log_row g.db device_id topic env.ts level env.content_type bytes) g.db.logs g'.db.logs
      × (g'.db.events ≡ g.db.events)
      × (value_at text_eq level g'.metrics.logs_received_total
          ≡ (value_at text_eq level g.metrics.logs_received_total + 1) % 18446744073709551616)
      × (g'.bus
          ≡ g.bus
            ++ log_msg org_id level (live_of (fresh log_id g.db.logs) device_id topic env) ∷ [])

  -- What storing a sample answers: a payload of 65536 bytes at most is stored, a longer one is
  -- refused by the table, and one that cannot be serialised is a bad request.
  abbrev pub Answers :
      (Value → Option Bytes)
      → MsgKind
      → Gateway Value
      → ℕ
      → ℕ
      → Text
      → MsgEnvelope Uuid Value
      → Result GatewayError (Gateway Value)
      → Type 0
  Answers to_vec kind g org_id device_id topic env r =
      ((bytes : Bytes) × (g' : Gateway Value) × (to_vec env.payload ≡ some bytes)
        × (length bytes ≤ 65536)
        × (r ≡ ok g')
        × Stores kind g g' org_id device_id topic env bytes)
      ⊎ (((bytes : Bytes) × (to_vec env.payload ≡ some bytes)
            × (65536 < length bytes)
            × (r ≡ err (db check)))
          ⊎ ((to_vec env.payload ≡ none) × (r ≡ err (unserialisable kind))))

  module _ (to_vec : Value → Option Bytes) (from_slice : Bytes → Option (MsgEnvelope Uuid Value))
      (g : Gateway Value) (org_id device_id : ℕ) (topic : Text) (env : MsgEnvelope Uuid Value) where
    pub persist-Answers :
        (kind : MsgKind)
        → Falling event_id (fresh event_id g.db.events) g.db.events
        → Falling log_id (fresh log_id g.db.logs) g.db.logs
        → anyb (λ v. v.id == device_id) g.db.devices ≡ true
        → Answers to_vec kind g org_id device_id topic env
            (persist from_slice to_vec g kind org_id device_id topic env)
    unfolding persist Events.insert Logs.insert inc_event inc_log bump bucket
    persist-Answers event fe fl known = elim (Option-cases (to_vec env.payload)) [
      | inl bad ↦ inr (inr (bad, rw bad refl))
      | inr (bytes, wrote) ↦ elim (Bool-cases (leb (length bytes) 65536)) [
        | inr big ↦ inr (inl (bytes, wrote, ground arith, rw (wrote, big) refl))
        | inl small ↦
            let fits : length bytes ≤ 65536 = ground arith in
            let d : Db = record g.db {
              events =
                  prune_rows event_id event_device device_id 10000 (
                    new_event_row g.db device_id topic env.ts env.content_type bytes ∷ g.db.events);
            } in
            let stored : Events.insert g.db device_id topic env.ts env.content_type
                  (to_vec env.payload)
                ≡ ok (fresh event_id g.db.events, d) =
              rw (wrote, small, known) refl in
            let (b, wrote', _, _, pushed, others) =
              insert_newest g.db device_id topic env.ts env.content_type (to_vec env.payload)
                (fresh event_id g.db.events) d fe stored in
            let same = some_inj (sym wrote ∙ wrote') in
            let g' : Gateway Value = record {
              db = d;
              metrics = inc_event g.metrics topic;
              bus =
                  g.bus
                  ++ event_msg org_id (live_of (fresh event_id g.db.events) device_id topic env)
                    ∷ [];
            } in
            inl (
              bytes,
              g',
              wrote,
              fits,
              rw (wrote, small, known) refl,
              (
                rw (sym same) at pushed,
                others,
                value_at-alter text_eq (λ n. (n + 1) % 18446744073709551616)
                    (bucket g.metrics.event_topic_allow topic) g.metrics.events_received_total
                    (text_eq_refl (bucket g.metrics.event_topic_allow topic)),
                refl,
              ),
            )
      ]
    ]
    persist-Answers log fe fl known = elim (Option-cases (to_vec env.payload)) [
      | inl bad ↦ inr (inr (bad, rw bad refl))
      | inr (bytes, wrote) ↦
          let level = as_str (log_level env) in
          let levels = known_level-as_str (log_level env) in
          elim (Bool-cases (leb (length bytes) 65536)) [
            | inr big ↦ inr (inl (bytes, wrote, ground arith, rw (wrote, big) refl))
            | inl small ↦
                let fits : length bytes ≤ 65536 = ground arith in
                let d : Db = record g.db {
                  logs = prune_rows log_id log_device device_id 10000 (
                      new_log_row g.db device_id topic env.ts level env.content_type bytes
                      ∷ g.db.logs);
                } in
                let stored : Logs.insert g.db device_id topic env.ts level env.content_type
                      (to_vec env.payload)
                    ≡ ok (fresh log_id g.db.logs, d) =
                  rw (wrote, small, levels, known) refl in
                let (b, wrote', _, _, _, pushed, others) =
                  insert_newest_log g.db device_id topic env.ts level env.content_type
                    (to_vec env.payload) (fresh log_id g.db.logs) d fl stored in
                let same = some_inj (sym wrote ∙ wrote') in
                let g' : Gateway Value = record {
                  db = d;
                  metrics = inc_log g.metrics level;
                  bus =
                      g.bus
                      ++ log_msg org_id level (live_of (fresh log_id g.db.logs) device_id topic env)
                        ∷ [];
                } in
                inl (
                  bytes,
                  g',
                  wrote,
                  fits,
                  rw (wrote, small, levels, known) refl,
                  (
                    rw (sym same) at pushed,
                    others,
                    value_at-alter text_eq (λ n. (n + 1) % 18446744073709551616) level
                        g.metrics.logs_received_total (text_eq_refl level),
                    refl,
                  ),
                )
          ]
    ]
