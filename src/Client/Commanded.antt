-- ===== src/Client/Commanded.antt =====
-- A command on its way: sent by crates/hackline-gateway/src/cmd_delivery.rs, received and answered by
-- crates/hackline-client/src/lib.rs, and the answer taken by the gateway.
use hackline.Prelude.{
  some_inj, none_ne_some, ◌≡◌, ap, sym, ◌∙◌, Bool, List, ◌∷◌, Option, some, Bool-cases,
  Option-cases, inl, inr,
}
use hackline.Prelude.Int.{ℤ}
use hackline.Prelude.Text.{Text, Lacks}
use hackline.Prelude.Outcome.{ok, ok_inj, err_ne_ok}
use hackline.Prelude.Chain.{to_option}
use hackline.Proto.Zid
use hackline.Proto.Zid.Laws.{IsCanonical}
use hackline.Proto.Uuid.{Uuids, IsUuid}
use hackline.Proto.AckResult.{CmdResult}
use hackline.Proto.Keyexpr.{msg_cmd_ack}
use hackline.Gateway.Schema.{Bytes, CmdRow, Db}
use hackline.Gateway.Devices.{get_with_org_slug}
use hackline.Gateway.Outbox.Invariant.{IsSound}
use hackline.Gateway.Outbox.Lifecycle.{Phase, acked, phase}
use hackline.Gateway.Delivery.Addressed.{command_of, Addresses, message_iff}
use hackline.Gateway.Delivery.{CmdAck, CmdEnvelope, Link, envelope_of, message}
use hackline.Gateway.Delivery.Acks.{handle_ack, handle_ack-acked}
use hackline.Client.{ClientSession, CmdHandle, recv, ack_with}

module _ (u : Uuids) (laws : IsUuid u) {Value : Type 0} (value : Bytes → Value)
    (to_vec : CmdEnvelope (u.Uuid) Value → Option Bytes)
    (from_slice : Bytes → Option (CmdEnvelope (u.Uuid) Value))
    (reads : (env : CmdEnvelope (u.Uuid) Value) (bytes : Bytes)
      → to_vec env ≡ some bytes
      → from_slice bytes ≡ some env) where
  open u use {Uuid, to_string, parse_str}

  -- What is sent for a row is the row's envelope, under the row's own identifier.
  message-some :
      (put : Text → Bytes → Bool) (marked_at : CmdRow → ℤ) (d : Db) (row : CmdRow) (id : Uuid)
      (ke : Text) (bytes : Bytes)
      → row.cmd_id ≡ to_string id
      → message u value to_vec put marked_at d row ≡ some (ke, bytes)
      → to_vec (envelope_of u value to_vec put marked_at row id) ≡ some bytes
  unfolding message
  message-some put marked_at d row id ke bytes e h =
      elim (Option-cases (to_option (get_with_org_slug d row.device_id))) [
        | inl unknown ↦ none_ne_some (rw unknown at h)
        | inr ((device, slug), known) ↦
            let h0 = rw known at h in
            elim (Option-cases (to_option (Zid.new device.zid))) [
              | inl bad ↦ none_ne_some (rw bad at h0)
              | inr (zid, fine) ↦
                  let h1 = rw (fine, e, laws.parse-to_string id) at h0 in
                  elim (Option-cases (to_vec (envelope_of u value to_vec put marked_at row id))) [
                    | inl unwritten ↦ none_ne_some (rw unwritten at h1)
                    | inr (written, wrote) ↦
                        wrote ∙ ap (λ (y : Text × Bytes). some y.1) (some_inj (rw wrote at h1))
                  ]
            ]
      ]

  recv_now :
      (s : ClientSession) (bytes : Bytes) (later rest : List Bytes) (env : CmdEnvelope Uuid Value)
      (handle : CmdHandle Uuid Value)
      → from_slice bytes ≡ some env
      → recv u from_slice s (bytes ∷ later) ≡ some (handle, rest)
      → (handle.org ≡ s.org)
        × (handle.zid ≡ s.zid)
        × (handle.cmd_id ≡ env.cmd_id)
        × (handle.envelope ≡ env)
        × (rest ≡ later)
  unfolding recv
  recv_now s bytes later rest env handle read h =
      let same = some_inj (rw (read, recv) at h) in
      let first = sym (ap (λ (y : CmdHandle Uuid Value × List Bytes). y.0) same) in
      (
        ap (λ (k : CmdHandle Uuid Value). k.org) first,
        ap (λ (k : CmdHandle Uuid Value). k.zid) first,
        ap (λ (k : CmdHandle Uuid Value). k.cmd_id) first,
        ap (λ (k : CmdHandle Uuid Value). k.envelope) first,
        sym (ap (λ (y : CmdHandle Uuid Value × List Bytes). y.1) same),
      )

  ack_with_ok :
      (ack_to_vec : CmdAck Uuid → Option Bytes) (put : Text → Bytes → Bool)
      (handle : CmdHandle Uuid Value) (result : CmdResult) (detail : Option Text) (ke : Text)
      (bytes : Bytes)
      → ack_with u ack_to_vec put handle result detail ≡ ok (ke, bytes)
      → (msg_cmd_ack u handle.org handle.zid handle.cmd_id ≡ ke)
        × (ack_to_vec (record { cmd_id = handle.cmd_id; result = result; detail = detail })
            ≡ some bytes)
  unfolding ack_with
  ack_with_ok ack_to_vec put handle result detail ke bytes h =
      elim (Option-cases
        (ack_to_vec (record { cmd_id = handle.cmd_id; result = result; detail = detail }))) [
          | inl unwritten ↦ err_ne_ok (rw unwritten at h)
          | inr (written, wrote) ↦
              let h0 = rw wrote at h in
              elim (Bool-cases (put (msg_cmd_ack u handle.org handle.zid handle.cmd_id) written)) [
                | inr refused ↦ err_ne_ok (rw refused at h0)
                | inl taken ↦
                    let same = ok_inj (rw taken at h0) in
                    (
                      ap (λ (y : Text × Bytes). y.0) same,
                      wrote ∙ ap (λ (y : Text × Bytes). some y.1) same,
                    )
              ]
        ]

  -- Take what the gateway sends for a row of the outbox that is there, in a sound database, as the
  -- next sample of a device's stream, where the session's organisation holds no slash and its
  -- identifier is canonical, and let `serde_json` and `uuid` read back what they write. What the device
  -- receives is the command of that row: its identifier, topic, clocks, content type and payload; it was
  -- sent under the command key of the row's topic for the row's device in the organisation that owns
  -- the device, and the samples after it are left. When the device answers it and the gateway handles
  -- the answer, the answer is taken and the command is acknowledged.
  pub command-acked :
      (put : Text → Bytes → Bool) (marked_at : CmdRow → ℤ) (l : Link) (row : CmdRow) (id : Uuid)
      (ke : Text) (bytes : Bytes) (s : ClientSession) (later rest : List Bytes)
      (handle : CmdHandle Uuid Value) (ack_to_vec : CmdAck Uuid → Option Bytes)
      (ack_from_slice : Bytes → Option (CmdAck Uuid)) (answer : Text → Bytes → Bool)
      (result : CmdResult) (detail : Option Text) (ack_ke : Text) (ack_bytes : Bytes) (now : ℤ)
      (p : Phase)
      → ((ack : CmdAck Uuid) (b : Bytes) → ack_to_vec ack ≡ some b → ack_from_slice b ≡ some ack)
      → IsSound l.db
      → Lacks b'/' s.org
      → IsCanonical s.zid.as_str
      → row.cmd_id ≡ to_string id
      → phase l.db row.cmd_id ≡ some p
      → message u value to_vec put marked_at l.db row ≡ some (ke, bytes)
      → recv u from_slice s (bytes ∷ later) ≡ some (handle, rest)
      → ack_with u ack_to_vec answer handle result detail ≡ ok (ack_ke, ack_bytes)
      → (l' : Link) × (handle.envelope ≡ command_of u value row id)
        × Addresses u value to_vec l.db row ke bytes
        × (rest ≡ later)
        × (handle_ack u ack_from_slice l ack_ke ack_bytes now ≡ ok l')
        × (phase l'.db row.cmd_id ≡ some acked)
  command-acked put marked_at l row id ke bytes s later rest handle ack_to_vec ack_from_slice answer
        result detail ack_ke ack_bytes now p ack_reads sound plain canonical e before sent received
        answered =
      let wrote = message-some put marked_at l.db row id ke bytes e sent in
      let env = envelope_of u value to_vec put marked_at row id in
      let (org, zid, cmd_id, envelope, left) =
        recv_now s bytes later rest env handle (reads env bytes wrote) received in
      let (key, ack_wrote) =
        ack_with_ok ack_to_vec answer handle result detail ack_ke ack_bytes answered in
      let ack : CmdAck Uuid = record { cmd_id = handle.cmd_id; result = result; detail = detail } in
      let named = e ∙ ap to_string (sym cmd_id) in
      let (l', taken, after) =
        handle_ack-acked u laws ack_from_slice l handle.org handle.zid ack ack_bytes now p sound
          (rw org plain) (rw zid canonical) (ack_reads ack ack_bytes ack_wrote)
          (rw named at before) in
      (
        l',
        envelope,
        (message_iff u value to_vec put marked_at l.db row ke bytes).0 sent,
        left,
        ap (λ k. handle_ack u ack_from_slice l k ack_bytes now) (sym key) ∙ taken,
        rw named after,
      )
