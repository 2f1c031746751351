-- ===== src/Gateway/Outbox/Step.antt =====
-- The calls that change the outbox of crates/hackline-gateway/src/db/cmd_outbox.rs, as steps of a
-- state machine. Request handlers, the pusher and the acknowledgement task make them in any order.
use hackline.Prelude.{ℕ, List, [], ◌∷◌, Option}
use hackline.Prelude.Int.{ℤ}
use hackline.Prelude.Text.{Text}
use hackline.Prelude.Outcome.{Result, ok, err}
use hackline.Gateway.Error.{GatewayError}
use hackline.Gateway.Schema.{Bytes, Db}
use hackline.Gateway.Outbox.{enqueue, mark_delivered, record_ack, cancel}

pub data Call : Type 0 where
  enqueues : Text → ℕ → Text → Text → Option Bytes → ℤ → ℤ → Call
  delivers : Text → ℤ → Call
  acks : Text → Text → Option Text → ℤ → Call
  cancels : Text → Call

-- A call that fails leaves the database as it was: its transaction is dropped.
abbrev pub after : {A : Type 0} → Db → Result GatewayError (A × Db) → Db
after d (ok (_, d')) = d'
after d (err _) = d

unfoldable pub step : Db → Call → Db
step d (enqueues cmd_id device_id topic content_type to_vec enqueued_at expires_at) =
    after d (enqueue d cmd_id device_id topic content_type to_vec enqueued_at expires_at)
step d (delivers cmd_id now_ms) = mark_delivered d cmd_id now_ms
step d (acks cmd_id result detail now_ms) = after d (record_ack d cmd_id result detail now_ms)
step d (cancels cmd_id) = (cancel d cmd_id).1

unfoldable pub run : Db → List Call → Db
run d [] = d
run d (c ∷ cs) = run (step d c) cs
