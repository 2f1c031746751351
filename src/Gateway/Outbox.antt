-- ===== src/Gateway/Outbox.antt =====
-- crates/hackline-gateway/src/db/cmd_outbox.rs: the durable command outbox. The clock is an
-- argument. `serde_json::to_vec` and `from_slice` are parameters of what calls them, and the JSON
-- `null` that an unreadable payload becomes is another.
pub mod Step
pub mod Invariant
pub mod Accepted
pub mod Lifecycle
pub mod Retry
use hackline.Prelude.{
  ℕ, suc, ◌+◌, ◌≡◌, refl, Bool, true, false, not, ◌&&◌, ◌||◌, List, [], ◌∷◌, map, reverse, Option,
  none, some, length, take, filterb, anyb, find, countb, arith, ltb, leb, ◌==◌, if◌then◌else◌,
}
use hackline.Prelude.Int.{ℤ, pos, clamp, ltb_ℤ, leb_ℤ}
use hackline.Prelude.Text.{Text, lit, text_eq}
use hackline.Prelude.Outcome.{Result, ok, err, require, ok_or, ◌>>=◌, ◌>>◌}
use hackline.Gateway.Error.{
  GatewayError, bad_request, db, foreign_key, unique, check, cmd_payload_not_serialisable,
  cmd_payload_exceeds, cmd_outbox_full, unknown_status,
}
use hackline.Gateway.Sql.{update_where, delete_where, fresh}
use hackline.Gateway.Page.{page}
use hackline.Gateway.Schema.{Bytes, CmdRow, Db}

abbrev pub cmd_max_per_device : ℕ
cmd_max_per_device = 1000

-- 7 * 24 * 60 * 60 * 1000.
abbrev pub cmd_default_ttl_ms : ℤ
cmd_default_ttl_ms = pos 604800000

abbrev pub is_none {ℓ} : {A : Type ℓ} → Option A → Bool
is_none none = true
is_none (some _) = false

-- `WHERE cmd_id = ?`.
abbrev pub named : Text → CmdRow → Bool
named cmd_id r = text_eq r.cmd_id cmd_id

-- `WHERE device_id = ? AND ack_at IS NULL`.
abbrev pub unacked : ℕ → CmdRow → Bool
unacked device_id r = r.device_id == device_id && is_none r.ack_at

-- The INSERT, with the UNIQUE and REFERENCES clauses of the table.
insert_row : Db → CmdRow → Result GatewayError (ℕ × Db)
insert_row d r = do
  require (not (anyb (named r.cmd_id) d.cmd_outbox)) (db unique)
  require (anyb (λ v. v.id == r.device_id) d.devices) (db foreign_key)
  ok (r.id, record d { cmd_outbox = r ∷ d.cmd_outbox })

-- `enqueue`: `to_vec payload` is the serialised payload, if it could be serialised.
unfoldable pub enqueue :
    Db → Text → ℕ → Text → Text → Option Bytes → ℤ → ℤ → Result GatewayError (ℕ × Db)
unfolding insert_row
enqueue d cmd_id device_id topic content_type to_vec enqueued_at expires_at = do
  bytes ← ok_or to_vec (bad_request cmd_payload_not_serialisable)
  require (leb (length bytes) 65536) (bad_request (cmd_payload_exceeds (length bytes)))
  let count = countb (unacked device_id) d.cmd_outbox
  require (ltb count cmd_max_per_device) (bad_request (cmd_outbox_full device_id count))
  insert_row d (record {
    id = fresh (λ r. r.id) d.cmd_outbox;
    cmd_id = cmd_id;
    device_id = device_id;
    topic = topic;
    content_type = content_type;
    payload = bytes;
    enqueued_at = enqueued_at;
    expires_at = expires_at;
    delivered_at = none;
    ack_at = none;
    ack_result = none;
    ack_detail = none;
    attempts = 0;
    last_error = none;
  })

unfoldable pub get_by_cmd_id : Db → Text → Option CmdRow
get_by_cmd_id d cmd_id = find (named cmd_id) d.cmd_outbox

-- The WHERE clause that `status_filter` adds.
status_clause : Option Text → Result GatewayError (CmdRow → Bool)
unfolding text_eq
status_clause none = ok (λ r. true)
status_clause (some s) =
    if text_eq s (lit "pending")
    then ok (λ r. is_none r.delivered_at)
    else if text_eq s (lit "delivered")
    then ok (λ r. not (is_none r.delivered_at) && is_none r.ack_at)
    else if text_eq s (lit "acked")
    then ok (λ r. not (is_none r.ack_at))
    else err (bad_request (unknown_status s))

unfoldable pub list_by_device :
    Db → ℕ → Option Text → Option ℤ → ℤ → Result GatewayError (List CmdRow)
unfolding status_clause
list_by_device d device_id status_filter cursor limit = do
  clause ← status_clause status_filter
  ok (page (λ r. r.id) (λ r. r.device_id == device_id && clause r) cursor limit d.cmd_outbox)

-- `WHERE delivered_at IS NULL AND expires_at > ?1 ORDER BY id ASC`.
abbrev pub is_due : ℤ → CmdRow → Bool
is_due now r = is_none r.delivered_at && ltb_ℤ now r.expires_at

unfoldable pub list_pending : Db → ℤ → List CmdRow
list_pending d now_ms = reverse (filterb (is_due now_ms) d.cmd_outbox)

deliver_row : ℤ → CmdRow → CmdRow
deliver_row now_ms r = record r { delivered_at = some now_ms; attempts = r.attempts + 1 }

unfoldable pub mark_delivered : Db → Text → ℤ → Db
unfolding deliver_row
mark_delivered d cmd_id now_ms = record d {
  cmd_outbox =
      update_where (λ r. named cmd_id r && is_none r.delivered_at) (deliver_row now_ms)
        d.cmd_outbox;
}

-- `COALESCE(old, new)`.
abbrev coalesce : Option ℤ → ℤ → Option ℤ
coalesce none t = some t
coalesce (some t) _ = some t

ack_row : Text → Option Text → ℤ → CmdRow → CmdRow
ack_row result detail now_ms r = record r {
  ack_at = some now_ms;
  ack_result = some result;
  ack_detail = detail;
  delivered_at = coalesce r.delivered_at now_ms;
}

-- `CHECK (ack_result IN ('accepted','rejected','failed','done'))`.
unfoldable pub known_result : Text → Bool
unfolding text_eq
known_result s =
    text_eq s (lit "accepted")
    || (text_eq s (lit "rejected") || (text_eq s (lit "failed") || text_eq s (lit "done")))

-- The CHECK is made on the rows that are written: with none, nothing is refused.
unfoldable pub record_ack : Db → Text → Text → Option Text → ℤ → Result GatewayError (Bool × Db)
unfolding ack_row known_result
record_ack d cmd_id result detail now_ms =
    if anyb (named cmd_id) d.cmd_outbox
    then (do
      require (known_result result) (db check)
      ok (
        true,
        record d {
          cmd_outbox = update_where (named cmd_id) (ack_row result detail now_ms) d.cmd_outbox;
        },
      ))
    else ok (false, d)

-- `SELECT device_id, COUNT(*) … GROUP BY device_id`: the entry of one device, if it has one.
unfoldable pub pending_depth_by_device : Db → ℕ → Option ℕ
pending_depth_by_device d device_id =
    let n = countb (unacked device_id) d.cmd_outbox in if n == 0 then none else some n

abbrev pub cancels : Text → CmdRow → Bool
cancels cmd_id r = named cmd_id r && is_none r.delivered_at

unfoldable pub cancel : Db → Text → Bool × Db
cancel d cmd_id = (
  anyb (cancels cmd_id) d.cmd_outbox,
  record d { cmd_outbox = delete_where (cancels cmd_id) d.cmd_outbox },
)

pub data Status : Type 0 where
  acked delivered expired pending : Status

-- `derive_status`, the third clause of the derived state.
unfoldable pub derive_status : Option ℤ → Option ℤ → ℤ → ℤ → Status
derive_status delivered_at ack_at expires_at now =
    if not (is_none ack_at)
    then acked
    else if not (is_none delivered_at)
    then delivered
    else if leb_ℤ expires_at now
    then expired
    else pending
