-- ===== src/Gateway/Commands.antt =====
-- crates/hackline-gateway/src/api/cmd: the requests that enqueue, cancel and list commands. The
-- authenticated user, the clocks, the fresh command id, `serde_json::to_vec` and the JSON texts of
-- the audit details are arguments.
pub mod Tenancy
pub mod Life
use hackline.Prelude.{
  ℕ, Bool, true, false, not, List, [], ◌∷◌, Option, none, some, length, leb, if◌then◌else◌,
}
use hackline.Prelude.Int.{ℤ, pos, max_ℤ, saturating_add}
use hackline.Prelude.Text.{Text, lit}
use hackline.Prelude.Outcome.{Result, ok, err, require, ok_or, ◌>>=◌, ◌>>◌}
use hackline.Gateway.Error.{GatewayError, bad_request, not_found, topic_empty}
use hackline.Gateway.Schema.{Bytes, User, CmdRow, Db}
use hackline.Gateway.Metrics.{Metrics, inc_cmd}
use hackline.Gateway.Scope.{Scopes, check_device}
use hackline.Gateway.Devices.{get_in_org}
use hackline.Gateway.Page.{next_cursor}
use hackline.Gateway.Audit
use hackline.Gateway.Outbox.{cmd_default_ttl_ms, enqueue, get_by_cmd_id, list_by_device, cancel}

-- The part of `AppState` that the handlers use: `notified` is the pusher's permit.
pub record AppState : Type 0 where
  pub db : Db
  pub metrics : Metrics
  pub notified : Bool

-- `SendCmd`, with the serialised payload.
pub record SendCmd : Type 0 where
  pub payload : Option Bytes
  pub expires_in_ms : Option ℤ
  pub content_type : Option Text

abbrev pub unwrap_or {ℓ} : {A : Type ℓ} → A → Option A → A
unwrap_or a none = a
unwrap_or a (some b) = b

abbrev pub is_empty : Text → Bool
is_empty [] = true
is_empty (_ ∷ _) = false

-- `now.saturating_add(expires_in_ms.unwrap_or(CMD_DEFAULT_TTL_MS).max(1))`.
abbrev pub expiry : ℤ → Option ℤ → ℤ
expiry now expires_in_ms =
    saturating_add now (max_ℤ (unwrap_or cmd_default_ttl_ms expires_in_ms) (pos 1))

-- `let _ = audit::insert(…)`: an audit row that is refused is left out.
abbrev pub audited : Db → Result GatewayError Db → Db
audited d (ok d') = d'
audited d (err _) = d

-- The end of the cancelling handler, on what `cancel` answers.
cancelled :
    (Text → Text) → AppState → User → CmdRow → Text → ℤ → Bool × Db → Result GatewayError AppState
cancelled detail s user row cmd_id unixepoch (true, d) = ok (record s {
  db = audited d (
      Audit.insert d unixepoch (some user.id) (some row.device_id) none (lit "cmd.cancel")
        (some (detail cmd_id)));
  metrics = inc_cmd s.metrics (lit "cancelled");
})
cancelled detail s user row cmd_id unixepoch (false, d) = err not_found

module _ (from_str : Scopes) where
  unfoldable pub send :
      (Text → Text → Text)
      → AppState
      → User
      → ℕ
      → Text
      → SendCmd
      → Text
      → ℤ
      → ℤ
      → Result GatewayError (Text × AppState)
  send detail s user device_id topic body cmd_id now unixepoch = do
    check_device from_str user device_id
    _ ← get_in_org s.db user.org_id device_id
    require (not (is_empty topic)) (bad_request topic_empty)
    (_, d) ←
        enqueue s.db cmd_id device_id topic (unwrap_or (lit "application/json") body.content_type)
          body.payload now (expiry now body.expires_in_ms)
    ok (
      cmd_id,
      record {
        db = audited d (
            Audit.insert d unixepoch (some user.id) (some device_id) none (lit "cmd.send")
              (some (detail cmd_id topic)));
        metrics = inc_cmd s.metrics (lit "accepted");
        notified = true;
      },
    )

  unfoldable pub cancel_cmd :
      (Text → Text) → AppState → User → Text → ℤ → Result GatewayError AppState
  unfolding cancelled
  cancel_cmd detail s user cmd_id unixepoch = do
    row ← ok_or (get_by_cmd_id s.db cmd_id) not_found
    check_device from_str user row.device_id
    _ ← get_in_org s.db user.org_id row.device_id
    cancelled detail s user row cmd_id unixepoch (cancel s.db cmd_id)

  unfoldable pub list :
      Db → User → ℕ → Option Text → Option ℤ → ℤ → Result GatewayError (List CmdRow × Option ℤ)
  list d user device_id status cursor limit = do
    check_device from_str user device_id
    _ ← get_in_org d user.org_id device_id
    items ← list_by_device d device_id status cursor limit
    ok (items, next_cursor (λ r. r.id) limit items)
