-- ===== src/Tests/Outbox.antt =====
-- The theorems on the outbox, at one command.
use hackline.Prelude.{◌≡◌, refl, false, List, [], ◌∷◌, none, some, All, arith, inl}
use hackline.Prelude.Int.{pos}
use hackline.Prelude.Text.{lit, text_eq}
use hackline.Prelude.Outcome.{ok}
use hackline.Gateway.Schema.{Db}
use hackline.Gateway.Outbox.{named, enqueue, get_by_cmd_id, list_pending, mark_delivered}
use hackline.Gateway.Outbox.Step.{Call, enqueues, delivers, acks, cancels, step, run}
use hackline.Gateway.Outbox.Invariant.{IsSound, run-IsSound}
use hackline.Gateway.Outbox.Lifecycle.{delivered, phase, Becomes, phase-step}
use hackline.Gateway.Outbox.Retry.{list_pending-run}
use hackline.Gateway.Outbox.Accepted.{stored, enqueue_iff}
use hackline.Tests.Data.{db, db-IsSound}

abbrev calls : List Call
calls =
    delivers (lit "c1") (pos 20)
    ∷ enqueues (lit "c2") 1 (lit "pump.off") (lit "application/json") (some (48 ∷ [])) (pos 30)
        (pos 900)
    ∷ acks (lit "c1") (lit "done") none (pos 40)
    ∷ cancels (lit "c2")
    ∷ []

run-IsSound_example : IsSound (run db calls)
run-IsSound_example = run-IsSound db calls db-IsSound

phase-step_example :
    Becomes db (delivers (lit "c1") (pos 20)) (lit "c1") (step db (delivers (lit "c1") (pos 20)))
phase-step_example = phase-step db (delivers (lit "c1") (pos 20)) (lit "c1") db-IsSound

abbrev sent : Db
sent = run db (delivers (lit "c1") (pos 20) ∷ [])

sent-delivered : phase sent (lit "c1") ≡ some delivered
unfolding run step mark_delivered phase get_by_cmd_id text_eq
sent-delivered = refl

list_pending-run_example :
    All (λ r. named (lit "c1") r ≡ false) (list_pending (run sent calls) (pos 50))
list_pending-run_example =
    list_pending-run sent calls (lit "c1") (pos 50)
      (run-IsSound db (delivers (lit "c1") (pos 20) ∷ []) db-IsSound) (inl sent-delivered)

abbrev grown : Db
grown =
    stored db (lit "c2") 1 (lit "pump.off") (lit "application/json") (pos 30) (pos 900) (48 ∷ [])

enqueue_iff_example :
    enqueue db
      (lit "c2")
      1
      (lit "pump.off")
      (lit "application/json")
      (some (48 ∷ []))
      (pos 30)
      (pos 900)
    ≡ ok (2, grown)
enqueue_iff_example =
    (enqueue_iff db (lit "c2") 1 (lit "pump.off") (lit "application/json") (pos 30) (pos 900)
        (some (48 ∷ [])) (2, grown)).1
      (48 ∷ [], refl, (omega arith, omega arith, unfold text_eq in refl, refl), refl)
