-- ===== src/Gateway/Outbox/Invariant.antt =====
-- What every call on the outbox of crates/hackline-gateway/src/db/cmd_outbox.rs keeps.
use hackline.Prelude.{
  ℕ, ◌≤◌, ◌≡◌, refl, Bool, true, not, ◌&&◌, List, [], ◌∷◌, Option, none, some, length, anyb, countb,
  All, arith, ltb, leb, ◌==◌, Bool-cases, inl, inr,
}
use hackline.Prelude.Int.{ℤ}
use hackline.Prelude.Text.{Text, text_eq_iff}
use hackline.Gateway.Sql.{update_where, fresh}
use hackline.Gateway.Sql.Laws.{
  All-update, All-filterb, All-ne_of_anyb, All-imp, countb-update-le, countb-filterb-le, Distinct,
  Distinct-update, Distinct-filterb, Falling, Falling-update, Falling-filterb, Falling-fresh,
}
use hackline.Gateway.Schema.{Bytes, CmdRow, Device, Db}
use hackline.Gateway.Outbox.{
  cmd_max_per_device, is_none, named, unacked, insert_row, enqueue, deliver_row, mark_delivered,
  ack_row, known_result, record_ack, cancel,
}
use hackline.Gateway.Outbox
use hackline.Gateway.Outbox.Step.{Call, enqueues, delivers, acks, cancels, after, step, run}

abbrev pub is_device : List Device → ℕ → Bool
is_device devices device_id = anyb (λ v. v.id == device_id) devices

-- One row: the 64 KiB cap, an owner, an acknowledged row counts as delivered, and a row is
-- published by the pusher at most once.
pub record IsGoodRow (devices : List Device) (r : CmdRow) : Type 0 where
  pub small : length r.payload ≤ 65536
  pub owned : is_device devices r.device_id ≡ true
  pub acked_delivered : is_none r.delivered_at ≡ true → is_none r.ack_at ≡ true
  pub attempted : is_none r.delivered_at ≡ true → r.attempts ≡ 0
  pub once : r.attempts ≤ 1

pub record IsSound (d : Db) : Type 0 where
  pub capped : (device_id : ℕ) → countb (unacked device_id) d.cmd_outbox ≤ cmd_max_per_device
  pub good : All (IsGoodRow d.devices) d.cmd_outbox
  pub unique : Distinct (λ (r : CmdRow). r.cmd_id) d.cmd_outbox
  pub falling : Falling (λ (r : CmdRow). r.id) (fresh (λ r. r.id) d.cmd_outbox) d.cmd_outbox

-- An UPDATE that keeps the keys of a row and revives no acknowledged row.
update-IsSound :
    (d : Db) (q : CmdRow → Bool) (f : CmdRow → CmdRow)
    → ((r : CmdRow) → (f r).cmd_id ≡ r.cmd_id)
    → ((r : CmdRow) → (f r).id ≡ r.id)
    → ((device_id : ℕ) (r : CmdRow) → unacked device_id (f r) ≡ true → unacked device_id r ≡ true)
    → ((r : CmdRow) → q r ≡ true → IsGoodRow d.devices r → IsGoodRow d.devices (f r))
    → IsSound d
    → IsSound (record d { cmd_outbox = update_where q f d.cmd_outbox })
update-IsSound d q f same_cmd same_id revives good v = record {
  capped = λ dev.
      omega (arith, v.capped dev, countb-update-le (unacked dev) q f d.cmd_outbox (revives dev));
  good = All-update (IsGoodRow d.devices) q f d.cmd_outbox good v.good;
  unique = Distinct-update (λ (r : CmdRow). r.cmd_id) q f d.cmd_outbox same_cmd v.unique;
  falling =
      Falling-fresh (λ (r : CmdRow). r.id) _ _
        (Falling-update (λ (r : CmdRow). r.id) _ q f d.cmd_outbox same_id v.falling);
}

deliver_row-IsGoodRow :
    (devices : List Device) (cmd_id : Text) (t : ℤ) (r : CmdRow)
    → (named cmd_id r && is_none r.delivered_at) ≡ true
    → IsGoodRow devices r
    → IsGoodRow devices (deliver_row t r)
unfolding deliver_row
deliver_row-IsGoodRow devices cmd_id t r q g = record {
  small = g.small;
  owned = g.owned;
  acked_delivered = λ h. cc;
  attempted = λ h. cc;
  once = ground (arith, g.attempted);
}

mark_delivered-IsSound :
    (d : Db) (cmd_id : Text) (t : ℤ) → IsSound d → IsSound (mark_delivered d cmd_id t)
unfolding mark_delivered
mark_delivered-IsSound d cmd_id t v =
    update-IsSound d (λ r. named cmd_id r && is_none r.delivered_at) (deliver_row t) (λ r. refl)
      (λ r. refl) (λ dev r h. h) (deliver_row-IsGoodRow d.devices cmd_id t) v

ack_row-IsGoodRow :
    (devices : List Device) (result : Text) (detail : Option Text) (t : ℤ) (r : CmdRow)
    → IsGoodRow devices r
    → IsGoodRow devices (ack_row result detail t r)
unfolding ack_row
ack_row-IsGoodRow devices result detail t r g = record {
  small = g.small;
  owned = g.owned;
  acked_delivered = λ h. ground arith;
  attempted = λ h. ground arith;
  once = g.once;
}

record_ack-IsSound :
    (d : Db) (cmd_id result : Text) (detail : Option Text) (t : ℤ)
    → IsSound d
    → IsSound (after d (record_ack d cmd_id result detail t))
unfolding record_ack
record_ack-IsSound d cmd_id result detail t v =
    elim (Bool-cases (anyb (named cmd_id) d.cmd_outbox)) [
      | inl found ↦ rw found (elim (Bool-cases (known_result result)) [
        | inl known ↦ rw known (
            update-IsSound d (named cmd_id) (ack_row result detail t) (λ r. refl) (λ r. refl)
              (λ dev r h. ground arith) (λ r _. ack_row-IsGoodRow d.devices result detail t r) v)
        | inr unknown ↦ rw unknown v
      ])
      | inr missing ↦ rw missing v
    ]

cancel-IsSound : (d : Db) (cmd_id : Text) → IsSound d → IsSound (cancel d cmd_id).1
unfolding cancel
cancel-IsSound d cmd_id v = record {
  capped = λ dev.
      omega
        (arith, v.capped dev, countb-filterb-le (unacked dev) (λ r. not (doomed r)) d.cmd_outbox);
  good = All-filterb (IsGoodRow d.devices) (λ r. not (doomed r)) d.cmd_outbox v.good;
  unique = Distinct-filterb (λ (r : CmdRow). r.cmd_id) (λ r. not (doomed r)) d.cmd_outbox v.unique;
  falling =
      Falling-fresh (λ (r : CmdRow). r.id) _ _
        (Falling-filterb (λ (r : CmdRow). r.id) _ (λ r. not (doomed r)) d.cmd_outbox v.falling);
}
  where
    doomed : CmdRow → Bool
    doomed = Outbox.cancels cmd_id

insert_row-IsSound :
    (d : Db) (r : CmdRow)
    → IsSound d
    → ((device_id : ℕ) → countb (unacked device_id) (r ∷ d.cmd_outbox) ≤ cmd_max_per_device)
    → (is_device d.devices r.device_id ≡ true → IsGoodRow d.devices r)
    → r.id ≡ fresh (λ r. r.id) d.cmd_outbox
    → IsSound (after d (insert_row d r))
unfolding insert_row
insert_row-IsSound d r v capped good same = elim (Bool-cases (anyb (named r.cmd_id) d.cmd_outbox)) [
  | inl taken ↦ rw taken v
  | inr new ↦ rw new (elim (Bool-cases (is_device d.devices r.device_id)) [
    | inr orphan ↦ rw orphan v
    | inl owned ↦ rw owned (record {
      capped = capped;
      good = (good owned, v.good);
      unique = (
        All-imp _ d.cmd_outbox (λ s n e. ground (arith, text_eq_iff s.cmd_id r.cmd_id))
            (All-ne_of_anyb (named r.cmd_id) d.cmd_outbox new),
        v.unique,
      );
      falling = (ground arith, rw same v.falling);
    })
  ])
]

enqueue-IsSound :
    (d : Db) (cmd_id : Text) (device_id : ℕ) (topic content_type : Text) (to_vec : Option Bytes)
    (enqueued_at expires_at : ℤ)
    → IsSound d
    → IsSound
        (after d (enqueue d cmd_id device_id topic content_type to_vec enqueued_at expires_at))
unfolding enqueue
enqueue-IsSound d cmd_id device_id topic content_type none enqueued_at expires_at v = v
enqueue-IsSound d cmd_id device_id topic content_type (some bytes) enqueued_at expires_at v =
    elim (Bool-cases (leb (length bytes) 65536)) [
      | inr big ↦ rw big v
      | inl fits ↦
          rw fits
            (elim (Bool-cases (ltb (countb (unacked device_id) d.cmd_outbox) cmd_max_per_device)) [
              | inr full ↦ rw full v
              | inl room ↦ rw room (
                  insert_row-IsSound d _ v (λ dev. ground (arith, v.capped dev))
                    (λ owned. record {
                      small = ground arith;
                      owned = owned;
                      acked_delivered = λ h. refl;
                      attempted = λ h. refl;
                      once = omega arith;
                    })
                    refl)
            ])
    ]

pub step-IsSound : (d : Db) (c : Call) → IsSound d → IsSound (step d c)
unfolding step
step-IsSound d (enqueues cmd_id device_id topic content_type to_vec enqueued_at expires_at) v =
    enqueue-IsSound d cmd_id device_id topic content_type to_vec enqueued_at expires_at v
step-IsSound d (delivers cmd_id t) v = mark_delivered-IsSound d cmd_id t v
step-IsSound d (acks cmd_id result detail t) v = record_ack-IsSound d cmd_id result detail t v
step-IsSound d (cancels cmd_id) v = cancel-IsSound d cmd_id v

-- From a sound outbox, whatever the calls and their order, the outbox stays sound: no device has
-- more than 1000 commands that are not acknowledged, every payload is at most 65536 bytes, every
-- row belongs to a device, command ids are unique, rowids fall along the table, an acknowledged row
-- counts as delivered, an undelivered one has no attempt, and no row has more than one.
pub run-IsSound : (d : Db) (cs : List Call) → IsSound d → IsSound (run d cs)
unfolding run
run-IsSound d [] v = v
run-IsSound d (c ∷ cs) v = run-IsSound (step d c) cs (step-IsSound d c v)
