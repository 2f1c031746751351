-- ===== src/Gateway/Delivery/Pusher.antt =====
-- What one pass of the pusher of crates/hackline-gateway/src/cmd_delivery.rs does.
use hackline.Prelude.{
  ◌≡◌, refl, sym, ◌∙◌, ◌↔◌, Bool, List, [], ◌∷◌, ◌++◌, Option, none, some, Bool-cases, inl, inr,
  if◌then◌else◌,
}
use mathlib.Core.List.{append_assoc, append-nil}
use hackline.Prelude.Int.{ℤ}
use hackline.Prelude.Text.{Text}
use hackline.Proto.Uuid.{Uuids}
use hackline.Gateway.Schema.{Bytes, CmdRow, Db}
use hackline.Gateway.Outbox.{list_pending, mark_delivered}
use hackline.Gateway.Outbox.Step.{Call, delivers, step, run}
use hackline.Gateway.Devices.{get_with_org_slug}
use hackline.Gateway.Outbox.Invariant.{IsSound}
use hackline.Gateway.Delivery.Addressed.{Addresses, message_iff}
use hackline.Gateway.Delivery.Due.{AreDue, list_pending-AreDue}
use hackline.Gateway.Delivery.{CmdEnvelope, Link, message, push, push_all, drain_pending}

module _ (u : Uuids) {Value : Type 0} (value : Bytes → Value)
    (to_vec : CmdEnvelope (u.Uuid) Value → Option Bytes) (put : Text → Bytes → Bool)
    (marked_at : CmdRow → ℤ) where
  -- The messages that the network takes, of a list of rows.
  abbrev put? : Option (Text × Bytes) → List (Text × Bytes)
  put? none = []
  put? (some (ke, bytes)) = if put ke bytes then (ke, bytes) ∷ [] else []

  abbrev taken? : Option (Text × Bytes) → CmdRow → List Call
  taken? none row = []
  taken? (some (ke, bytes)) row =
      if put ke bytes then delivers row.cmd_id (marked_at row) ∷ [] else []

  abbrev pub messages : Db → List CmdRow → List (Text × Bytes)
  messages d [] = []
  messages d (row ∷ rows) = put? (message u value to_vec put marked_at d row) ++ messages d rows

  abbrev pub deliveries : Db → List CmdRow → List Call
  deliveries d [] = []
  deliveries d (row ∷ rows) =
      taken? (message u value to_vec put marked_at d row) row ++ deliveries d rows

  message-mark_delivered :
      (d : Db) (k : Text) (t : ℤ) (row : CmdRow)
      → message u value to_vec put marked_at (mark_delivered d k t) row
        ≡ message u value to_vec put marked_at d row
  unfolding message mark_delivered get_with_org_slug
  message-mark_delivered d k t row = refl

  messages-mark_delivered :
      (d : Db) (k : Text) (t : ℤ) (rows : List CmdRow)
      → (messages (mark_delivered d k t) rows ≡ messages d rows)
        × (deliveries (mark_delivered d k t) rows ≡ deliveries d rows)
  messages-mark_delivered d k t [] = (refl, refl)
  messages-mark_delivered d k t (row ∷ rows) =
      let (a, b) = messages-mark_delivered d k t rows in
      (rw (message-mark_delivered d k t row, a), rw (message-mark_delivered d k t row, b))

  -- What one row does to the calls and the messages that follow it.
  push-run :
      (s : Link) (row : CmdRow) (rows : List CmdRow) (o : Option (Text × Bytes))
      → let s' = push u value to_vec put marked_at s row o in
        (run s'.db (deliveries s'.db rows) ≡ run s.db (taken? o row ++ deliveries s.db rows))
        × (s'.sent ++ messages s'.db rows ≡ s.sent ++ (put? o ++ messages s.db rows))
  unfolding push run step
  push-run s row rows none = (refl, refl)
  push-run s row rows (some (ke, bytes)) = elim (Bool-cases (put ke bytes)) [
    | inr failed ↦ rw failed (refl, refl)
    | inl went ↦
        let (a, b) = messages-mark_delivered s.db row.cmd_id (marked_at row) rows in
        rw went (rw (a, b) (refl, append_assoc s.sent ((ke, bytes) ∷ []) (messages s.db rows)))
  ]

  push_all-run :
      (s : Link) (rows : List CmdRow)
      → ((push_all u value to_vec put marked_at s rows).db ≡ run s.db (deliveries s.db rows))
        × ((push_all u value to_vec put marked_at s rows).sent ≡ s.sent ++ messages s.db rows)
  unfolding push_all run
  push_all-run s [] = (refl, sym (append-nil s.sent))
  push_all-run s (row ∷ rows) =
      let o = message u value to_vec put marked_at s.db row in
      let (a, b) = push_all-run (push u value to_vec put marked_at s row o) rows in
      let (c, d) = push-run s row rows o in (a ∙ c, b ∙ d)

  -- In a sound database one pass of the pusher takes up the rows that are neither delivered nor
  -- expired, each once and the oldest first. A row has a message just if its device, identifiers and
  -- envelope are in order, which then is the row's command under the command key of its topic for that
  -- device in the organisation that owns it. The pass is a run of the outbox: each message that the
  -- network takes is put once, in that order, and its row is marked delivered, and nothing else is
  -- sent or written to the outbox.
  pub drain_pending-run :
      (s : Link) (now : ℤ)
      → IsSound s.db
      → let s' = drain_pending u value to_vec put marked_at s now in
        (rows : List CmdRow) × AreDue s.db now rows
        × ((row : CmdRow) (ke : Text) (bytes : Bytes)
            → (message u value to_vec put marked_at s.db row ≡ some (ke, bytes))
              ↔ Addresses u value to_vec s.db row ke bytes)
        × (s'.db ≡ run s.db (deliveries s.db rows))
        × (s'.sent ≡ s.sent ++ messages s.db rows)
  unfolding drain_pending
  drain_pending-run s now sound =
      let (ran, sent) = push_all-run s (list_pending s.db now) in
      (
        list_pending s.db now,
        list_pending-AreDue s.db now sound,
        λ row ke bytes. message_iff u value to_vec put marked_at s.db row ke bytes,
        ran,
        sent,
      )
