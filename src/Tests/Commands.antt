-- ===== src/Tests/Commands.antt =====
-- The theorems on command requests, at one owner and one stranger.
use hackline.Prelude.{◌≡◌, refl, true, false, [], ◌∷◌, none, some, arith}
use hackline.Prelude.Int.{pos}
use hackline.Prelude.Text.{Text, lit, text_eq}
use hackline.Prelude.Outcome.{ok, err}
use hackline.Gateway.Error.{not_found}
use hackline.Gateway.Schema.{User, CmdRow, AuditEntry}
use hackline.Gateway.Metrics.{inc_cmd}
use hackline.Gateway.Scope.{Scopes, check_device}
use hackline.Gateway.Devices.{get_in_org}
use hackline.Gateway.Audit
use hackline.Gateway.Page.{page, next_cursor}
use hackline.Gateway.Outbox.{enqueue, get_by_cmd_id, cancel, is_due, list_by_device}
use hackline.Gateway.Outbox.Lifecycle.{queued, phase}
use hackline.Gateway.Outbox.Accepted.{new_row}
use hackline.Gateway.Commands.{AppState, SendCmd, send, cancel_cmd, list}
use hackline.Gateway.Commands.Tenancy.{Admits, foreign_not_found, list-Admits}
use hackline.Gateway.Commands.Life.{send-stored, cancel_cmd-phase}
use hackline.Tests.Data.{device, owner, command, db, no_metrics, db-IsSound}

-- No scope is JSON.
abbrev pub no_json : Scopes
no_json _ = none

abbrev pub state : AppState
state = record { db = db; metrics = no_metrics; notified = false }

abbrev body : SendCmd
body = record { payload = some (48 ∷ []); expires_in_ms = some (pos 5); content_type = none }

abbrev detail : Text → Text → Text
detail cmd_id topic = cmd_id

abbrev same : Text → Text
same cmd_id = cmd_id

abbrev row : CmdRow
row = new_row db (lit "c2") 1 (lit "pump.off") (lit "application/json") (48 ∷ []) (pos 30) (pos 35)

abbrev entry : Text → Text → AuditEntry
entry action cmd_id = record {
  id = 2;
  ts = pos 3;
  ts_close = none;
  user_id = some 1;
  device_id = some 1;
  tunnel_id = none;
  request_id = none;
  action = action;
  peer = none;
  bytes_up = none;
  bytes_down = none;
  detail = some cmd_id;
}

abbrev after_send : AppState
after_send = record {
  db = record db {
    cmd_outbox = row ∷ command ∷ [];
    audit = entry (lit "cmd.send") (lit "c2") ∷ db.audit;
  };
  metrics = inc_cmd no_metrics (lit "accepted");
  notified = true;
}

send-ok :
    send no_json detail state owner 1 (lit "pump.off") body (lit "c2") (pos 30) (pos 3)
    ≡ ok (lit "c2", after_send)
unfolding send check_device get_in_org enqueue Audit.insert text_eq
send-ok = refl

send-stored_example :
    Admits no_json db owner 1
    × ((r : CmdRow) × (after_send.db.cmd_outbox ≡ r ∷ db.cmd_outbox)
        × (get_by_cmd_id after_send.db (lit "c2") ≡ some r)
        × (r.device_id ≡ 1)
        × (r.topic ≡ lit "pump.off")
        × (is_due (pos 30) r ≡ true)
        × (after_send.notified ≡ true))
send-stored_example =
    send-stored no_json owner detail state after_send 1 (lit "pump.off") body (lit "c2") (lit "c2")
      (pos 30) (pos 3) (omega arith) (omega arith) send-ok

abbrev after_cancel : AppState
after_cancel = record {
  db = record db { cmd_outbox = []; audit = entry (lit "cmd.cancel") (lit "c1") ∷ db.audit };
  metrics = inc_cmd no_metrics (lit "cancelled");
  notified = false;
}

cancel-ok : cancel_cmd no_json same state owner (lit "c1") (pos 3) ≡ ok after_cancel
unfolding cancel_cmd check_device get_in_org get_by_cmd_id cancel Audit.insert text_eq
cancel-ok = refl

cancel_cmd-phase_example :
    (r : CmdRow) × (get_by_cmd_id db (lit "c1") ≡ some r)
    × Admits no_json db owner r.device_id
    × (phase db (lit "c1") ≡ some queued)
    × (phase after_cancel.db (lit "c1") ≡ none)
cancel_cmd-phase_example =
    cancel_cmd-phase no_json owner same state after_cancel (lit "c1") (pos 3) db-IsSound cancel-ok

-- An owner of another organisation.
abbrev stranger : User
stranger = record owner { id = 2; org_id = 2 }

stranger-allowed : check_device no_json stranger 1 ≡ ok tt
unfolding check_device text_eq
stranger-allowed = refl

command-there : get_by_cmd_id db (lit "c1") ≡ some command
unfolding get_by_cmd_id text_eq
command-there = refl

foreign_not_found_example :
    (send no_json detail state stranger 1 (lit "pump.off") body (lit "c2") (pos 30) (pos 3)
      ≡ err not_found)
    × (cancel_cmd no_json same state stranger (lit "c1") (pos 3) ≡ err not_found)
    × (list no_json db stranger 1 none none (pos 100) ≡ err not_found)
foreign_not_found_example =
    foreign_not_found no_json stranger state device command detail same (lit "pump.off") (lit "c2")
      body (pos 30) (pos 3) none none (pos 100) stranger-allowed (tt, tt) refl
      (λ e. absurd (omega arith)) command-there refl

list-ok : list no_json db owner 1 (some (lit "pending")) none (pos 100) ≡ ok (command ∷ [], none)
unfolding list check_device get_in_org list_by_device page next_cursor text_eq
list-ok = refl

list-Admits_once : Admits no_json db owner 1
list-Admits_once =
    list-Admits no_json owner db 1 (some (lit "pending")) none (pos 100) (command ∷ [], none)
      list-ok
