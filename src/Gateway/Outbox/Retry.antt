-- ===== src/Gateway/Outbox/Retry.antt =====
-- Which rows the pusher of crates/hackline-gateway/src/cmd_delivery.rs can still see through
-- `list_pending`.
use hackline.Prelude.{
  ◌≡◌, ◌≢◌, refl, ap, sym, ℕ, false, List, [], ◌∷◌, Option, none, some, filterb, anyb, find, All,
  arith, Bool-cases, ◌⊎◌, inl, inr,
}
use hackline.Prelude.Int.{ℤ}
use hackline.Prelude.Text.{Text, text_eq, text_eq_iff}
use hackline.Gateway.Sql.Laws.{All-imp, All-filterb, All-reverse, Distinct}
use hackline.Gateway.Schema.{CmdRow, Device, Db}
use hackline.Gateway.Outbox.{named, enqueue, is_due, list_pending, get_by_cmd_id}
use hackline.Gateway.Outbox.Step.{Call, enqueues, delivers, acks, cancels, step, run}
use hackline.Gateway.Outbox.Invariant.{IsSound, IsGoodRow, step-IsSound, run-IsSound}
use hackline.Gateway.Outbox.Lifecycle.{
  Phase, delivered, acked, phase, missing_phase, is_ok, phase_of, phase_of?, target, move,
  phase-step,
}

-- Delivered or acknowledged.
abbrev pub IsPast : Option Phase → Type 0
IsPast p = (p ≡ some delivered) ⊎ (p ≡ some acked)

-- An id that is taken refuses a second enqueue.
enqueue_taken :
    (d : Db) (cmd_id : Text) (device_id : ℕ) (topic content_type : Text) (to_vec : Option (List ℕ))
    (a b : ℤ)
    → phase d cmd_id ≢ none
    → is_ok (enqueue d cmd_id device_id topic content_type to_vec a b) ≡ false
unfolding enqueue phase
enqueue_taken d cmd_id device_id topic content_type none a b h = refl
enqueue_taken d cmd_id device_id topic content_type (some bytes) a b h =
    elim (Bool-cases (anyb (named cmd_id) d.cmd_outbox)) [
      | inl taken ↦ ground arith
      | inr new ↦ absurd (h (missing_phase d cmd_id new))
    ]

move-IsPast :
    (d : Db) (c : Call) (p : Option Phase) → p ≡ phase d (target c) → IsPast p → IsPast (move d c p)
unfolding move
move-IsPast d (enqueues cmd_id device_id topic content_type to_vec a b) p e h =
    ground (arith, enqueue_taken d cmd_id device_id topic content_type to_vec a b)
move-IsPast d (delivers cmd_id t) p e h = ground arith
move-IsPast d (acks cmd_id result detail t) p e h = ground arith
move-IsPast d (cancels cmd_id) p e h = ground arith

step-IsPast :
    (d : Db) (c : Call) (k : Text) → IsSound d → IsPast (phase d k) → IsPast (phase (step d c) k)
step-IsPast d c k v h = rw (phase-step d c k v) (elim (Bool-cases (text_eq (target c) k)) [
  | inl own ↦
      rw own (move-IsPast d c (phase d k) (ap (phase d) (sym ((text_eq_iff (target c) k).0 own))) h)
  | inr other ↦ rw other h
])

-- Once a command is delivered or acknowledged it stays so, whatever calls follow.
run-IsPast :
    (d : Db) (cs : List Call) (k : Text)
    → IsSound d
    → IsPast (phase d k)
    → IsPast (phase (run d cs) k)
unfolding run
run-IsPast d [] k v h = h
run-IsPast d (c ∷ cs) k v h =
    run-IsPast (step d c) cs k (step-IsSound d c v) (step-IsPast d c k v h)

-- A row that is delivered or acknowledged is not due.
past_not_due :
    (devices : List Device) (t : ℤ) (r : CmdRow)
    → IsGoodRow devices r
    → IsPast (some (phase_of r))
    → is_due t r ≡ false
past_not_due devices t r g h = ground (arith, g.acked_delivered)

-- In a table of distinct ids, no due row is that of a delivered command.
not_due_rows :
    (devices : List Device) (t : ℤ) (k : Text) (rs : List CmdRow)
    → All (IsGoodRow devices) rs
    → Distinct (λ (r : CmdRow). r.cmd_id) rs
    → IsPast (phase_of? (find (named k) rs))
    → All (λ r. named k r ≡ false) (filterb (is_due t) rs)
not_due_rows devices t k [] g d h = tt
not_due_rows devices t k (r ∷ rs) (g, gs) (n, d) h = elim (Bool-cases (named k r)) [
  | inl hit ↦ rw (past_not_due devices t r g (rw hit at h)) (
      All-filterb _ (is_due t) rs
        (All-imp _ rs (λ s m. ground (arith, text_eq_iff s.cmd_id k, text_eq_iff r.cmd_id k)) n))
  | inr miss ↦
      let rest = not_due_rows devices t k rs gs d (rw miss at h) in
      elim (Bool-cases (is_due t r)) [ inl due ↦ rw due (miss, rest) | inr early ↦ rw early rest ]
]

-- Once a command is delivered or acknowledged, the pusher never sees it again: whatever calls
-- follow in a sound database and whenever it looks, `list_pending` holds no row of that id.
pub list_pending-run :
    (d : Db) (cs : List Call) (k : Text) (t : ℤ)
    → IsSound d
    → IsPast (phase d k)
    → All (λ r. named k r ≡ false) (list_pending (run d cs) t)
unfolding list_pending
list_pending-run d cs k t v h =
    let after : IsSound (run d cs) = run-IsSound d cs v in
    All-reverse _ (filterb (is_due t) (run d cs).cmd_outbox) (
      not_due_rows (run d cs).devices t k (run d cs).cmd_outbox after.good after.unique
        (unfold phase get_by_cmd_id in run-IsPast d cs k v h))
