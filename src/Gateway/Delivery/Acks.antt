-- ===== src/Gateway/Delivery/Acks.antt =====
-- `handle_ack` of crates/hackline-gateway/src/cmd_delivery.rs, which writes a device's answer to the
-- outbox, and whose answers it takes.
use hackline.Prelude.{◌≡◌, ◌≢◌, refl, ◌∙◌, true, anyb, Option, none, some, Bool-cases, inl, inr}
use hackline.Prelude.Int.{ℤ}
use hackline.Prelude.Text.{Text, text_eq, text_eq_refl, Lacks}
use hackline.Prelude.Outcome.{Result, ok, require, ok_or, ◌>>=◌, ◌>>◌}
use hackline.Proto.Zid.{Zid}
use hackline.Proto.Zid.Laws.{IsCanonical}
use hackline.Proto.Uuid.{Uuids, IsUuid}
use hackline.Proto.AckResult.{CmdResult, accepted, as_str}
use hackline.Proto.Keyexpr.{msg_cmd_ack, parse_msg_cmd_ack_keyexpr}
use hackline.Proto.Keyexpr.RoundTrip.{parse_msg_cmd_ack_keyexpr-msg_cmd_ack}
use hackline.Gateway.Error.{
  GatewayError, bad_request, unparsable_keyexpr, cmd_ack_envelope, cmd_id_mismatch,
}
use hackline.Gateway.Schema.{Bytes, Db}
use hackline.Gateway.Metrics.{inc_cmd}
use hackline.Gateway.Outbox.{named, known_result, record_ack}
use hackline.Gateway.Outbox.Step.{acks, step, after}
use hackline.Gateway.Outbox.Invariant.{IsSound}
use hackline.Gateway.Outbox.Lifecycle.{Phase, acked, phase, missing_phase, move, phase-step}
use hackline.Gateway.Delivery.{CmdAck, Link}

module _ (u : Uuids) where
  open u use {Uuid, eq, to_string}

  unfoldable pub handle_ack :
      (Bytes → Option (CmdAck Uuid)) → Link → Text → Bytes → ℤ → Result GatewayError Link
  handle_ack from_slice s ke payload now_ms = do
    (_org, _zid, cmd_id) ←
        ok_or (parse_msg_cmd_ack_keyexpr u ke) (bad_request (unparsable_keyexpr ke))
    ack ← ok_or (from_slice payload) (bad_request cmd_ack_envelope)
    require (eq ack.cmd_id cmd_id) (bad_request cmd_id_mismatch)
    (_, d) ← record_ack s.db (to_string ack.cmd_id) (as_str ack.result) ack.detail now_ms
    ok (record s { db = d; metrics = inc_cmd s.metrics (as_str ack.result) })

-- The results that a device may report are those that the table admits.
known_as_str : (r : CmdResult) → known_result (as_str r) ≡ true
unfolding known_result as_str text_eq
known_as_str accepted = refl
known_as_str _ = refl

-- A result that the table admits is recorded on a row that is there.
record_ack_there :
    (d : Db) (cmd_id result : Text) (detail : Option Text) (t : ℤ)
    → known_result result ≡ true
    → phase d cmd_id ≢ none
    → record_ack d cmd_id result detail t ≡ ok (true, after d (record_ack d cmd_id result detail t))
unfolding record_ack
record_ack_there d cmd_id result detail t known there =
    elim (Bool-cases (anyb (named cmd_id) d.cmd_outbox)) [
      | inl hit ↦ rw (hit, known)
      | inr miss ↦ absurd (there (missing_phase d cmd_id miss))
    ]

after_ack :
    (d : Db) (cmd_id result : Text) (detail : Option Text) (t : ℤ) (p : Phase)
    → IsSound d
    → known_result result ≡ true
    → phase d cmd_id ≡ some p
    → phase (after d (record_ack d cmd_id result detail t)) cmd_id ≡ some acked
unfolding step move
after_ack d cmd_id result detail t p v known before =
    phase-step d (acks cmd_id result detail t) cmd_id v ∙ rw (text_eq_refl cmd_id, known, before)

module _ (u : Uuids) (laws : IsUuid u) where
  open u use {Uuid, to_string}

  -- In a sound database, an acknowledgement whose readable body names the command of its key, one
  -- that is there, is always taken, and the command is then acknowledged. The organisation in the
  -- key may be any without a slash and the device any canonical identifier: they need not be
  -- those of the command. The `uuid` crate is assumed to read back what it prints.
  pub handle_ack-acked :
      (from_slice : Bytes → Option (CmdAck Uuid)) (s : Link) (org : Text) (zid : Zid)
      (ack : CmdAck Uuid) (payload : Bytes) (now_ms : ℤ) (p : Phase)
      → IsSound s.db
      → Lacks b'/' org
      → IsCanonical zid.as_str
      → from_slice payload ≡ some ack
      → phase s.db (to_string ack.cmd_id) ≡ some p
      → (s' : Link) × (handle_ack u from_slice s (msg_cmd_ack u org zid ack.cmd_id) payload now_ms
          ≡ ok s')
        × (phase s'.db (to_string ack.cmd_id) ≡ some acked)
  unfolding handle_ack
  handle_ack-acked from_slice s org zid ack payload now_ms p v h c read before = (
    record s {
      db =
          after s.db (record_ack s.db (to_string ack.cmd_id) (as_str ack.result) ack.detail now_ms);
      metrics = inc_cmd s.metrics (as_str ack.result);
    },
    rw (
      parse_msg_cmd_ack_keyexpr-msg_cmd_ack u laws org zid ack.cmd_id h c,
      read,
      (laws.eq_iff ack.cmd_id ack.cmd_id).1 refl,
      record_ack_there s.db (to_string ack.cmd_id) (as_str ack.result) ack.detail now_ms
          (known_as_str ack.result) (λ e. cc),
    ),
    after_ack s.db (to_string ack.cmd_id) (as_str ack.result) ack.detail now_ms p v
        (known_as_str ack.result) before,
  )
