-- ===== src/Gateway/Outbox/Lifecycle.antt =====
-- The life of a command in crates/hackline-gateway/src/db/cmd_outbox.rs, seen from outside: the
-- phase of each command id, and what each call does to it.
use hackline.Prelude.{
  ℕ, ◌≡◌, refl, Bool, true, false, not, ◌&&◌, Option, none, some, length, anyb, countb, arith, ltb,
  leb, if◌then◌else◌, Bool-cases, inl, inr,
}
use hackline.Prelude.Int.{ℤ}
use hackline.Prelude.Text.{Text, text_eq, text_eq_iff}
use hackline.Prelude.Outcome.{Result, ok, err}
use hackline.Gateway.Sql.Laws.{
  find-update, find-filterb, find-none_of_anyb, find_holds, All-find, map?, keep_if,
}
use hackline.Gateway.Schema.{Bytes, CmdRow, Db}
use hackline.Gateway.Outbox
use hackline.Gateway.Outbox.{
  cmd_max_per_device, is_none, named, unacked, insert_row, enqueue, get_by_cmd_id, deliver_row,
  mark_delivered, ack_row, known_result, record_ack, cancel,
}
use hackline.Gateway.Outbox.Step.{Call, enqueues, delivers, acks, cancels, after, step}
use hackline.Gateway.Outbox.Invariant.{IsSound, IsGoodRow}

pub data Phase : Type 0 where
  queued delivered acked : Phase

-- The phase of a row. A queued row is `pending` or `expired` by the clock.
abbrev pub phase_of : CmdRow → Phase
phase_of r =
    if not (is_none r.ack_at)
    then acked
    else if not (is_none r.delivered_at)
    then delivered
    else queued

abbrev pub phase_of? : Option CmdRow → Option Phase
phase_of? none = none
phase_of? (some r) = some (phase_of r)

-- The abstract state: the phase of each command id.
unfoldable pub phase : Db → Text → Option Phase
unfolding get_by_cmd_id
phase d cmd_id = phase_of? (get_by_cmd_id d cmd_id)

abbrev pub target : Call → Text
target (enqueues cmd_id _ _ _ _ _ _) = cmd_id
target (delivers cmd_id _) = cmd_id
target (acks cmd_id _ _ _) = cmd_id
target (cancels cmd_id) = cmd_id

abbrev pub is_ok {ℓ} : {E A : Type ℓ} → Result E A → Bool
is_ok (ok _) = true
is_ok (err _) = false

-- The abstract machine: what an accepted call does to the phase of its command.
abbrev pub on_deliver : Option Phase → Option Phase
on_deliver (some queued) = some delivered
on_deliver p = p

abbrev pub on_ack : Option Phase → Option Phase
on_ack (some _) = some acked
on_ack none = none

abbrev pub on_cancel : Option Phase → Option Phase
on_cancel (some queued) = none
on_cancel p = p

unfoldable pub move : Db → Call → Option Phase → Option Phase
unfolding known_result
move d (enqueues cmd_id device_id topic content_type to_vec enqueued_at expires_at) p =
    if is_ok (enqueue d cmd_id device_id topic content_type to_vec enqueued_at expires_at)
    then some queued
    else p
move d (delivers _ _) p = on_deliver p
move d (acks _ result _ _) p = if known_result result then on_ack p else p
move d (cancels _) p = on_cancel p

-- What the calls do to the phase of one command, by the row that it has.
abbrev pub Becomes : Db → Call → Text → Db → Type 0
Becomes d c k d' = phase d' k ≡ (if text_eq (target c) k then move d c (phase d k) else phase d k)

-- The row that is looked up has the id that was asked for.
abbrev Answers : Text → Option CmdRow → Type 0
Answers k o = (r : CmdRow) → o ≡ some r → r.cmd_id ≡ k

get_by_cmd_id-Answers : (d : Db) (k : Text) → Answers k (get_by_cmd_id d k)
unfolding get_by_cmd_id
get_by_cmd_id-Answers d k r e = (text_eq_iff r.cmd_id k).0 (find_holds (named k) d.cmd_outbox r e)

deliver_phase :
    (cmd_id k : Text) (t : ℤ) (o : Option CmdRow)
    → Answers k o
    → phase_of?
        (map? (λ r. if named cmd_id r && is_none r.delivered_at then deliver_row t r else r) o)
      ≡ (if text_eq cmd_id k then on_deliver (phase_of? o) else phase_of? o)
unfolding deliver_row
deliver_phase cmd_id k t none h = ground arith
deliver_phase cmd_id k t (some r) h =
    ground (arith, h r refl, text_eq_iff r.cmd_id cmd_id, text_eq_iff cmd_id k)

ack_phase :
    (cmd_id k result : Text) (detail : Option Text) (t : ℤ) (o : Option CmdRow)
    → Answers k o
    → phase_of? (map? (λ r. if named cmd_id r then ack_row result detail t r else r) o)
      ≡ (if text_eq cmd_id k then on_ack (phase_of? o) else phase_of? o)
unfolding ack_row
ack_phase cmd_id k result detail t none h = ground arith
ack_phase cmd_id k result detail t (some r) h =
    ground (arith, h r refl, text_eq_iff r.cmd_id cmd_id, text_eq_iff cmd_id k)

cancel_phase :
    (cmd_id k : Text) (o : Option CmdRow)
    → Answers k o
    → ((r : CmdRow) → o ≡ some r → is_none r.delivered_at ≡ true → is_none r.ack_at ≡ true)
    → phase_of? (keep_if (λ r. not (Outbox.cancels cmd_id r)) o)
      ≡ (if text_eq cmd_id k then on_cancel (phase_of? o) else phase_of? o)
cancel_phase cmd_id k none h g = ground arith
cancel_phase cmd_id k (some r) h g =
    ground (arith, h r refl, g r refl, text_eq_iff r.cmd_id cmd_id, text_eq_iff cmd_id k)

mark_delivered-Becomes :
    (d : Db) (cmd_id : Text) (t : ℤ) (k : Text)
    → Becomes d (delivers cmd_id t) k (mark_delivered d cmd_id t)
unfolding mark_delivered phase move
mark_delivered-Becomes d cmd_id t k =
    rw
      (find-update (named k) (λ r. named cmd_id r && is_none r.delivered_at) (deliver_row t)
        d.cmd_outbox (λ r. refl))
      (deliver_phase cmd_id k t (get_by_cmd_id d k) (get_by_cmd_id-Answers d k))

pub missing_phase : (d : Db) (k : Text) → anyb (named k) d.cmd_outbox ≡ false → phase d k ≡ none
unfolding phase
missing_phase d k h = rw (find-none_of_anyb (named k) d.cmd_outbox h)

-- A call that leaves the database as it was.
unchanged : (b : Bool) (p : Option Phase) → p ≡ (if b then p else p)
unchanged true p = refl
unchanged false p = refl

record_ack-Becomes :
    (d : Db) (cmd_id result : Text) (detail : Option Text) (t : ℤ) (k : Text)
    → Becomes d (acks cmd_id result detail t) k (after d (record_ack d cmd_id result detail t))
unfolding record_ack move
record_ack-Becomes d cmd_id result detail t k =
    elim (Bool-cases (anyb (named cmd_id) d.cmd_outbox)) [
      | inl found ↦ rw found (elim (Bool-cases (known_result result)) [
        | inl known ↦ rw known (
            unfold phase in
            rw
              (find-update (named k) (named cmd_id) (ack_row result detail t) d.cmd_outbox
                (λ r. refl))
              (ack_phase cmd_id k result detail t (get_by_cmd_id d k) (get_by_cmd_id-Answers d k)))
        | inr unknown ↦ rw unknown (unchanged _ (phase d k))
      ])
      | inr missing ↦
          rw missing (ground (arith, text_eq_iff cmd_id k, missing_phase d cmd_id missing))
    ]

cancel-Becomes :
    (d : Db) (cmd_id k : Text) → IsSound d → Becomes d (cancels cmd_id) k (cancel d cmd_id).1
unfolding cancel phase move
cancel-Becomes d cmd_id k v =
    rw
      (find-filterb (λ (r : CmdRow). r.cmd_id) (named k) (λ r. not (Outbox.cancels cmd_id r))
        d.cmd_outbox (λ r s h n. ground (arith, text_eq_iff r.cmd_id k, text_eq_iff s.cmd_id k))
        v.unique)
      (cancel_phase cmd_id k (get_by_cmd_id d k) (get_by_cmd_id-Answers d k)
        (λ r e. (All-find (IsGoodRow d.devices) (named k) d.cmd_outbox r v.good e).acked_delivered))

-- A new row at the head of the table.
insert_phase :
    (d : Db) (r : CmdRow) (k : Text)
    → phase_of r ≡ queued
    → phase (after d (insert_row d r)) k ≡ (
        if text_eq r.cmd_id k
        then (if is_ok (insert_row d r) then some queued else phase d k)
        else phase d k)
unfolding phase insert_row
insert_phase d r k q = ground arith

enqueue-Becomes :
    (d : Db) (cmd_id : Text) (device_id : ℕ) (topic content_type : Text) (to_vec : Option Bytes)
    (enqueued_at expires_at : ℤ) (k : Text)
    → Becomes d
        (enqueues cmd_id device_id topic content_type to_vec enqueued_at expires_at)
        k
        (after d (enqueue d cmd_id device_id topic content_type to_vec enqueued_at expires_at))
unfolding enqueue move
enqueue-Becomes d cmd_id device_id topic content_type none enqueued_at expires_at k =
    unchanged _ (phase d k)
enqueue-Becomes d cmd_id device_id topic content_type (some bytes) enqueued_at expires_at k =
    elim (Bool-cases (leb (length bytes) 65536)) [
      | inr big ↦ rw big (unchanged _ (phase d k))
      | inl fits ↦
          rw fits
            (elim (Bool-cases (ltb (countb (unacked device_id) d.cmd_outbox) cmd_max_per_device)) [
              | inr full ↦ rw full (unchanged _ (phase d k))
              | inl room ↦ rw room (insert_phase d _ k refl)
            ])
    ]

-- The outbox implements the abstract machine: in a sound database a call changes the phase of no
-- command but its own. An accepted enqueue makes it queued; a delivery takes a queued command to
-- delivered and no other; an acknowledgement with a known result takes any command that is there to
-- acked; a cancellation removes a queued command and no other; a refused call changes nothing.
pub phase-step : (d : Db) (c : Call) (k : Text) → IsSound d → Becomes d c k (step d c)
unfolding step
phase-step d (enqueues cmd_id device_id topic content_type to_vec enqueued_at expires_at) k v =
    enqueue-Becomes d cmd_id device_id topic content_type to_vec enqueued_at expires_at k
phase-step d (delivers cmd_id t) k v = mark_delivered-Becomes d cmd_id t k
phase-step d (acks cmd_id result detail t) k v = record_ack-Becomes d cmd_id result detail t k
phase-step d (cancels cmd_id) k v = cancel-Becomes d cmd_id k v
