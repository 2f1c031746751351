-- ===== src/Gateway/Outbox/Accepted.antt =====
-- Which commands `enqueue` of crates/hackline-gateway/src/db/cmd_outbox.rs accepts, and the row that
-- it stores.
use hackline.Prelude.{
  ℕ, ◌≤◌, ◌<◌, ◌≡◌, ◌↔◌, refl, sym, ap, ◌∙◌, true, false, ◌∷◌, Option, none, some, length, anyb,
  countb, arith, ltb, leb, Bool-cases, inl, inr,
}
use hackline.Prelude.Int.{ℤ}
use hackline.Prelude.Text.{Text}
use hackline.Prelude.Outcome.{ok, ok_inj, err_ne_ok}
use hackline.Gateway.Sql.{fresh}
use hackline.Gateway.Schema.{Bytes, CmdRow, Db}
use hackline.Gateway.Outbox.{cmd_max_per_device, named, unacked, insert_row, enqueue}
use hackline.Gateway.Outbox.Invariant.{is_device}

-- What a command must meet.
abbrev pub Fits : Db → Text → ℕ → Bytes → Type 0
Fits d cmd_id device_id bytes =
    (length bytes ≤ 65536)
    × (countb (unacked device_id) d.cmd_outbox < cmd_max_per_device)
    × (anyb (named cmd_id) d.cmd_outbox ≡ false)
    × (is_device d.devices device_id ≡ true)

abbrev pub new_row : Db → Text → ℕ → Text → Text → Bytes → ℤ → ℤ → CmdRow
new_row d cmd_id device_id topic content_type bytes enqueued_at expires_at = record {
  id = fresh (λ r. r.id) d.cmd_outbox;
  cmd_id = cmd_id;
  device_id = device_id;
  topic = topic;
  content_type = content_type;
  payload = bytes;
  enqueued_at = enqueued_at;
  expires_at = expires_at;
  delivered_at = none;
  ack_at = none;
  ack_result = none;
  ack_detail = none;
  attempts = 0;
  last_error = none;
}

module _ (d : Db) (cmd_id : Text) (device_id : ℕ) (topic content_type : Text)
    (enqueued_at expires_at : ℤ) where
  abbrev pub stored : Bytes → Db
  stored bytes = record d {
    cmd_outbox =
        new_row d cmd_id device_id topic content_type bytes enqueued_at expires_at ∷ d.cmd_outbox;
  }

  pub enqueue_of_Fits :
      (bytes : Bytes)
      → Fits d cmd_id device_id bytes
      → enqueue d cmd_id device_id topic content_type (some bytes) enqueued_at expires_at
        ≡ ok (fresh (λ r. r.id) d.cmd_outbox, stored bytes)
  unfolding enqueue insert_row
  enqueue_of_Fits bytes (small, room, new, owned) =
      let small? : leb (length bytes) 65536 ≡ true = ground arith in
      let room? : ltb (countb (unacked device_id) d.cmd_outbox) cmd_max_per_device ≡ true =
        ground arith in
      rw (small?, room?, new, owned)

  pub Fits-of_enqueue :
      (to_vec : Option Bytes) (x : ℕ × Db)
      → enqueue d cmd_id device_id topic content_type to_vec enqueued_at expires_at ≡ ok x
      → (bytes : Bytes) × (to_vec ≡ some bytes) × Fits d cmd_id device_id bytes
  unfolding enqueue insert_row
  Fits-of_enqueue none x h = err_ne_ok h
  Fits-of_enqueue (some bytes) x h = elim (Bool-cases (leb (length bytes) 65536)) [
    | inr big ↦ err_ne_ok (rw big at h)
    | inl small ↦
        elim (Bool-cases (ltb (countb (unacked device_id) d.cmd_outbox) cmd_max_per_device)) [
          | inr full ↦ err_ne_ok (rw (small, full) at h)
          | inl room ↦ elim (Bool-cases (anyb (named cmd_id) d.cmd_outbox)) [
            | inl taken ↦ err_ne_ok (rw (small, room, taken) at h)
            | inr new ↦ elim (Bool-cases (is_device d.devices device_id)) [
              | inr orphan ↦ err_ne_ok (rw (small, room, new, orphan) at h)
              | inl owned ↦ (bytes, refl, (ground arith, ground arith, new, owned))
            ]
          ]
        ]
  ]

  -- A command is stored just if its payload can be serialised in at most 65536 bytes, the device is
  -- there and has fewer than 1000 commands that are not acknowledged, and the command id is new.
  -- It is then stored as a new row that is neither delivered nor acknowledged.
  pub enqueue_iff :
      (to_vec : Option Bytes) (x : ℕ × Db)
      → (enqueue d cmd_id device_id topic content_type to_vec enqueued_at expires_at ≡ ok x) ↔ (
          (bytes : Bytes) × (to_vec ≡ some bytes)
          × Fits d cmd_id device_id bytes
          × ((fresh (λ r. r.id) d.cmd_outbox, stored bytes) ≡ x))
  enqueue_iff to_vec x = (
    λ h.
        let (bytes, read, fits) = Fits-of_enqueue to_vec x h in
        (bytes, read, fits, ok_inj (sym (enqueue_of_Fits bytes fits) ∙ (rw read at h))),
    λ (bytes, read, fits, same). rw read (enqueue_of_Fits bytes fits ∙ ap ok same),
  )
