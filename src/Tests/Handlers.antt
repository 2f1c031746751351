-- ===== src/Tests/Handlers.antt =====
-- The theorems on calls, health, the audit page and the host router's connections.
use hackline.Prelude.{
  ℕ, ◌+◌, ◌≤◌, ◌≡◌, ◌↔◌, refl, true, false, List, [], ◌∷◌, ◌++◌, Option, none, some, find, ◌==◌,
  arith,
}
use Prim.Native.Nat.{◌%◌}
use hackline.Prelude.Int.{ℤ, pos}
use hackline.Prelude.Text.{Text, lit, text_eq}
use hackline.Prelude.Outcome.{Result, ok}
use hackline.Proto.Zid
use hackline.Proto.Zid.{Zid}
use hackline.Proto.Keyexpr.{msg_api, decimal}
use hackline.Client.{ApiRequest, ApiReply}
use hackline.Core.Bridge
use hackline.Core.Bridge.{ConnectAck, Action, BridgeBytes, Answer}
use hackline.Gateway.Error.{GatewayError}
use hackline.Gateway.Schema.{Bytes, Org, Device, Db}
use hackline.Gateway.Metrics.{Outcome, as_str, pair_eq}
use hackline.Gateway.Metrics.Values.{value_at, sessions}
use hackline.Gateway.Scope.{check_device}
use hackline.Gateway.Devices
use hackline.Gateway.Devices.{get_in_org, get_with_org_slug}
use hackline.Gateway.Orgs
use hackline.Gateway.Tunnels.{delete_in_org, delete}
use hackline.Gateway.Audit
use hackline.Gateway.Commands.{AppState}
use hackline.Gateway.Commands.Tenancy.{Admits}
use hackline.Gateway.ApiCall
use hackline.Gateway.ApiCall.{
  max_timeout_ms, ApiCallBody, Response, replied, recorded, timeout_of, call, on_answer,
}
use hackline.Gateway.ApiCall.Answered.{Audits, Answers, label, counted, call-Admits}
use hackline.Gateway.RttCache.{RttCache}
use hackline.Gateway.RttCache
use hackline.Gateway.Health.{DeviceHealth, probe_rtt_ms, cached_rtt_ms}
use hackline.Gateway.Health.Polled.{cached_rtt_ms-again}
use hackline.Gateway.TlsConfig.{TlsConfig, manual, mode}
use hackline.Gateway.TlsConfig.Mode.{Sets, mode_iff}
use hackline.Gateway.AuditView.{AuditEntryView, list}
use hackline.Gateway.AuditView.Deleted.{delete-list}
use hackline.Gateway.HttpRouter.Route.{Route, of_zid}
use hackline.Gateway.HttpRouter.Route.Served.{IsRouted}
use hackline.Gateway.HttpRouter.Bridged.{
  stream_with_prefix, bridge_with_prefix, serve, handle_connection,
}
use hackline.Gateway.HttpRouter.Bridged
use hackline.Gateway.HttpRouter.Bridged.Sent.{bridging, at_end, handle_connection-IsRouted}
use hackline.Gateway.Session.{Books, open_session}
use hackline.Gateway.Session.Recorded.{opened_row}
use hackline.Tests.Data.{db, owner, no_metrics, two_ids}
use hackline.Tests.Commands.{no_json, state}
use hackline.Tests.Tunnels.{with_tunnel}
use hackline.Tests.Router.{tunnelled, route, two_reads, route-run}

abbrev writes : ApiRequest Bytes → Option Bytes
writes r = some r.payload

abbrev reply : ApiReply Bytes
reply = record { content_type = lit "text"; payload = 50 ∷ [] }

abbrev reads : Bytes → Option (ApiReply Bytes)
reads _ = some reply

abbrev detail : Text → Text → Text
detail topic outcome = outcome

abbrev answers : Text → Bytes → ℕ → ApiCall.Answer
answers _ bytes _ = ApiCall.sample bytes

abbrev body : ApiCallBody Bytes
body = record { payload = 49 ∷ []; timeout_ms = some 90000; content_type = none }

abbrev response : Response Bytes
response = replied (lit "text") (50 ∷ [])

abbrev after_call : AppState
after_call =
    recorded no_json writes reads detail state owner 1 (lit "t") (lit "ok") Outcome.ok (pos 3)

call-run :
    call no_json writes reads detail answers state owner 1 (lit "t") body (pos 3)
    ≡ ok (response, after_call)
unfolding call check_device get_in_org get_with_org_slug Zid.new of_zid on_answer text_eq
call-run = refl

call-Admits_example :
    Admits no_json db owner 1
    × (v : Device) × (o : Org) × (z : Zid) × (bytes : Bytes) × (get_in_org db 1 1 ≡ ok v)
    × (find (λ o. o.id == 1) db.orgs ≡ some o)
    × (Zid.new v.zid ≡ ok z)
    × (writes (record { content_type = lit "application/json"; payload = 49 ∷ [] }) ≡ some bytes)
    × (timeout_of no_json writes reads detail body ≤ max_timeout_ms)
    × Answers reads
        (answers (msg_api o.slug z (lit "t")) bytes (timeout_of no_json writes reads detail body))
        response
    × Audits db (pos 3) 1 1 (label response) after_call.db
    × (after_call.notified ≡ state.notified)
    × (value_at pair_eq (lit "t", as_str (counted response)) after_call.metrics.api_calls_total
        ≡ (value_at pair_eq (lit "t", as_str (counted response)) no_metrics.api_calls_total + 1)
          % 18446744073709551616)
call-Admits_example =
    call-Admits no_json writes reads detail answers state after_call owner 1 (lit "t") body (pos 3)
      response (tt, tt) call-run

abbrev measures : Text → Option ℤ
measures _ = some (pos 3)

abbrev cache : RttCache
cache = record { entries = []; ttl = 5 }

abbrev seen_health : DeviceHealth
seen_health = record { online = true; last_seen_at = none; rtt_ms = some (pos 3) }

abbrev cached : RttCache
cached = RttCache.put cache 10 (1, 1) (some (pos 3))

abbrev silent : Text → Option ℤ
silent _ = none

missed : RttCache.get cache 10 (1, 1) ≡ none
unfolding RttCache.get
missed = refl

cached_rtt_ms-again_once :
    let first = cached_rtt_ms measures cache 10 1 1 (lit "acme") (lit "a1") in
    (first.0 ≡ probe_rtt_ms measures (lit "acme") (lit "a1"))
    × (cached_rtt_ms silent first.1 14 1 1 (lit "acme") (lit "a1") ≡ first)
cached_rtt_ms-again_once =
    cached_rtt_ms-again measures silent cache 10 14 1 1 (lit "acme") (lit "a1") (lit "acme")
      (lit "a1") (omega arith) (omega arith) tt missed

abbrev two_paths : TlsConfig
two_paths = record {
  acme_domain = none;
  acme_email = none;
  acme_staging = false;
  acme_cache_dir = none;
  acme_renew_before_days = 30;
  acme_check_interval_secs = 43200;
  cert_path = some (lit "c.pem");
  key_path = some (lit "k.pem");
  self_signed = false;
}

mode_iff_once : (mode two_paths ≡ ok manual) ↔ Sets two_paths manual
mode_iff_once = mode_iff two_paths manual

-- JSON is the number alone.
abbrev number : Text → Option ℤ
number _ = some (pos 1)

abbrev the_number : ℤ → Text → Option ℤ
the_number v key = some v

abbrev gone : Db
gone = (delete (λ id. lit "1") with_tunnel owner 1 (pos 6)).1

deleted-run : delete (λ id. lit "1") with_tunnel owner 1 (pos 6) ≡ (ok tt, gone)
unfolding delete delete_in_org Audit.insert
deleted-run = refl

delete-list_once :
    (rest : List (AuditEntryView ℤ)) × (list number
        (λ _. pos 0)
        (pos 0)
        the_number
        gone
        owner
        (pos 50)
      ≡ record {
        id = 3;
        at = pos 6;
        actor_user_id = some 1;
        action = lit "tunnel.delete";
        subject = lit "tunnel:" ++ decimal 1;
        detail = pos 1;
      }
        ∷ rest)
delete-list_once =
    delete-list number (λ _. pos 0) (pos 0) the_number (λ id. lit "1") with_tunnel owner 1 (pos 6)
      gone (pos 1) 49 refl refl (refl, refl) deleted-run

abbrev accepts : Bytes → Option (ConnectAck two_ids)
accepts _ = some (record { request_id = true; ok = true; message = none })

abbrev takes_all : Bridge.Session
takes_all = record {
  takes_get = true;
  takes_reply = true;
  takes_publisher = true;
  takes_subscriber = true;
  pumped = record { up = 2; down = 9 };
}

abbrev books : Books
books = record { db = tunnelled; metrics = no_metrics }

abbrev alone : Books → Books
alone b = b

abbrev handled : List (Action two_ids) × Result GatewayError (Unit {0}) × Books
handled =
    serve two_ids accepts takes_all true alone books route (lit "p") true (pos 9000)
      (Answer.replied []) (pos 10000)

served : handled ≡ (handled.0, ok tt, handled.2)
unfolding serve bridge_with_prefix Bridged.on_answer stream_with_prefix
served = refl

handled-run :
    handle_connection two_ids accepts takes_all true alone books two_reads
      (lit "p")
      true
      (pos 9000)
      (Answer.replied [])
      (pos 10000)
    ≡ (handled.0, ok tt, handled.2)
unfolding handle_connection
handled-run = rw (route-run, handle_connection) served

handle_connection-IsRouted_example :
    (r : Route) × IsRouted tunnelled two_reads r
    × (handled.0 ≡ bridging two_ids accepts takes_all true r.org_slug r.zid r.port r.prefix true)
    × ((open_session books
          (lit "http")
          r.tunnel_id
          r.device_id
          (two_ids.to_string true)
          (some (lit "p"))
          (pos 9000)).1.db.audit
        ≡ opened_row books.db r.tunnel_id r.device_id
            (two_ids.to_string true)
            (some (lit "p"))
            (pos 9000)
          ∷ books.db.audit)
    × (sessions handled.2.metrics (lit "http") Outcome.ok
        ≡ (sessions
              (at_end two_ids accepts takes_all true alone books two_reads
                (lit "p")
                true
                (pos 9000)
                (Answer.replied [])
                (pos 10000)
                r).metrics
              (lit "http")
              Outcome.ok
            + 1)
          % 18446744073709551616)
handle_connection-IsRouted_example =
    handle_connection-IsRouted two_ids accepts takes_all true alone books two_reads (lit "p") true
      (pos 9000) (Answer.replied []) (pos 10000) handled.0 handled.2 handled-run
