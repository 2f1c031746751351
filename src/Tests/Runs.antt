-- ===== src/Tests/Runs.antt =====
-- Runs of the operations on concrete data.
use hackline.Prelude.{◌≡◌, refl, true, false, [], ◌∷◌, none, some}
use hackline.Prelude.Int.{pos}
use hackline.Prelude.Text.{lit, text_eq, replace}
use hackline.Prelude.Outcome.{ok, err}
use hackline.Proto.Keyexpr.{
  decimal, connect, info, health, stream_gw, stream_dev, msg_cmd_sub, msg_api,
}
use hackline.Proto.AckResult
use hackline.Gateway.Error.{db, unique, not_found, status}
use hackline.Gateway.Page.{page}
use hackline.Gateway.Devices
use hackline.Gateway.Orgs
use hackline.Gateway.Events
use hackline.Gateway.Logs
use hackline.Gateway.Outbox.{pending_depth_by_device, expired, derive_status}
use hackline.Gateway.Users
use hackline.Gateway.Audit
use hackline.Gateway.Metrics
use hackline.Tests.Data
use hackline.Tests.Data.{acme, zid, device, two_ids, no_metrics}

connect-run : connect (lit "acme") zid 8080 ≡ lit "hackline/acme/a1/tcp/8080/connect"
unfolding connect decimal
connect-run = refl

info-run : info (lit "acme") zid ≡ lit "hackline/acme/a1/info"
unfolding info
info-run = refl

health-run : health (lit "acme") zid ≡ lit "hackline/acme/a1/health"
unfolding health
health-run = refl

stream-run :
    (stream_gw two_ids (lit "acme") zid true ≡ lit "hackline/acme/a1/stream/c1/gw")
    × (stream_dev two_ids (lit "acme") zid true ≡ lit "hackline/acme/a1/stream/c1/dev")
unfolding stream_gw stream_dev
stream-run = (refl, refl)

msg_cmd_sub-run :
    msg_cmd_sub (lit "acme") zid (lit "pump.*") ≡ lit "hackline/acme/a1/msg/cmd/pump/*"
unfolding msg_cmd_sub replace
msg_cmd_sub-run = refl

msg_api-run : msg_api (lit "acme") zid (lit "a.b") ≡ lit "hackline/acme/a1/msg/api/a/b"
unfolding msg_api replace
msg_api-run = refl

parse-run : AckResult.parse (lit "other") ≡ none
unfolding AckResult.parse text_eq
parse-run = refl

-- An identifier is registered once, whatever the organisation.
insert-run : Devices.insert Data.db 1 (lit "a1") (lit "x") (pos 1) ≡ err (db unique)
unfolding Devices.insert text_eq
insert-run = refl

list_in_org-run : Devices.list_in_org Data.db 1 ≡ device ∷ []
unfolding Devices.list_in_org
list_in_org-run = refl

get_unscoped-run : Devices.get_unscoped Data.db 7 ≡ err not_found
unfolding Devices.get_unscoped
get_unscoped-run = refl

touch-run : Devices.mark_offline (Devices.touch_last_seen Data.db 1 (pos 9)) 1 (lit "a1") ≡ Data.db
unfolding Devices.mark_offline Devices.touch_last_seen text_eq
touch-run = refl

orgs-run : (Orgs.list Data.db ≡ acme ∷ []) × (Orgs.get_by_slug Data.db (lit "acme") ≡ some acme)
unfolding Orgs.list Orgs.get_by_slug text_eq
orgs-run = (refl, refl)

rings-run :
    (Events.list (λ _ _. true) Data.db 1 none none none none (pos 10) ≡ [])
    × (Logs.list (λ _ _. true) Data.db 1 none none none none none (pos 10) ≡ [])
    × (Events.device_id_for_zid Data.db (lit "a1") ≡ some 1)
unfolding Events.list Logs.list Events.device_id_for_zid page text_eq
rings-run = (refl, refl, refl)

outbox-run :
    (pending_depth_by_device Data.db 1 ≡ some 1)
    × (derive_status none none (pos 5) (pos 5) ≡ expired)
unfolding pending_depth_by_device derive_status
outbox-run = (refl, refl)

users-run :
    (Users.list Data.db ≡ Users.list_in_org Data.db 1)
    × ((Users.delete Data.db 2).0 ≡ false)
    × ((Users.delete_in_org Data.db 2 1).0 ≡ false)
    × (Users.update_token_hash Data.db 2 (lit "h") ≡ err not_found)
unfolding Users.list Users.list_in_org Users.delete Users.delete_in_org Users.update_token_hash
users-run = (refl, refl, refl, refl)

audit-run :
    (Audit.count Data.db ≡ 1)
    × (Audit.count (Audit.finalize_tunnel_session Data.db 1 5 6 (pos 2500)) ≡ 1)
unfolding Audit.count Audit.finalize_tunnel_session
audit-run = (refl, refl)

metrics-run :
    (Metrics.inc_event
      (Metrics.set_event_topic_allowlist no_metrics (some []))
      (lit "t")).events_received_total
    ≡ (lit "_other", 1) ∷ []
unfolding Metrics.inc_event Metrics.set_event_topic_allowlist
metrics-run = refl

counters-run :
    (Metrics.inc_log (Metrics.inc_cmd no_metrics (lit "done")) (lit "warn")).cmd_total
    ≡ (lit "done", 1) ∷ []
unfolding Metrics.inc_log Metrics.inc_cmd
counters-run = refl

labels-run :
    (Metrics.inc_tunnel_session
      (Metrics.inc_api_call no_metrics (lit "t") Metrics.ok)
      (lit "tcp")
      Metrics.error).tunnel_sessions_total
    ≡ ((lit "tcp", lit "error"), 1) ∷ []
unfolding Metrics.inc_tunnel_session Metrics.inc_api_call
labels-run = refl

-- Milliseconds are stored as seconds.
opened-run :
    Audit.insert_tunnel_session_open Data.db 1 none (lit "r") none (pos 1700000000123)
    ≡ ok (2, record Data.db { audit = Data.opened ∷ Data.db.audit })
unfolding Audit.insert_tunnel_session_open
opened-run = refl

gauges-run :
    (Metrics.dec_tunnel_active
      (Metrics.add_tunnel_bytes
        (Metrics.inc_tunnel_active
          (Metrics.set_devices_online (Metrics.set_audit_rows no_metrics (pos 2)) (pos 3))
          (lit "tcp"))
        5
        6)
      (lit "http")).tunnel_active
    ≡ (lit "tcp", 1) ∷ (lit "http", 0) ∷ []
unfolding Metrics.dec_tunnel_active Metrics.add_tunnel_bytes Metrics.inc_tunnel_active
    Metrics.set_devices_online Metrics.set_audit_rows text_eq
gauges-run = refl

status-run : (status not_found ≡ 404) × (status (db unique) ≡ 500)
unfolding status
status-run = (refl, refl)
