-- ===== src/Tests/Data.antt =====
-- The data that the tests share: one organisation with an owner, a device, a queued command and a
-- closed tunnel session.
use hackline.Prelude.{
  ◌≡◌, ◌↔◌, refl, sym, Bool, true, false, [], ◌∷◌, Option, none, some, arith, if◌then◌else◌, inl,
  inr,
}
use hackline.Prelude.Int.{pos}
use hackline.Prelude.Text.{Text, lit, text_eq, Lacks}
use hackline.Proto.Zid.{Zid}
use hackline.Proto.Zid.Laws.{IsCanonical}
use hackline.Proto.Uuid.{Uuids, IsUuid}
use hackline.Gateway.Schema.{Org, User, Device, CmdRow, AuditEntry, Db}
use hackline.Gateway.Metrics.{Metrics}
use hackline.Gateway.Outbox.Invariant.{IsSound}

abbrev pub acme : Org
acme = record { id = 1; slug = lit "acme"; name = lit "Acme"; created_at = pos 0 }

abbrev pub owner : User
owner = record {
  id = 1;
  org_id = 1;
  name = lit "ada";
  role = lit "owner";
  device_scope = lit "*";
  tunnel_scope = lit "*";
  expires_at = none;
  created_at = pos 0;
  last_used_at = none;
}

abbrev pub zid : Zid
zid = record { as_str = lit "a1" }

pub zid-IsCanonical : IsCanonical zid.as_str
zid-IsCanonical = record {
  shortest = omega arith;
  longest = omega arith;
  digits = (inr (omega arith, omega arith), (inl (omega arith, omega arith), tt));
}

abbrev pub device : Device
device = record {
  id = 1;
  org_id = 1;
  zid = lit "a1";
  label = lit "pump";
  customer_id = none;
  created_at = pos 0;
  last_seen_at = none;
}

abbrev pub command : CmdRow
command = record {
  id = 1;
  cmd_id = lit "c1";
  device_id = 1;
  topic = lit "pump.on";
  content_type = lit "application/json";
  payload = 49 ∷ [];
  enqueued_at = pos 10;
  expires_at = pos 1000;
  delivered_at = none;
  ack_at = none;
  ack_result = none;
  ack_detail = none;
  attempts = 0;
  last_error = none;
}

abbrev pub session : AuditEntry
session = record {
  id = 1;
  ts = pos 1;
  ts_close = some (pos 2);
  user_id = none;
  device_id = some 1;
  tunnel_id = none;
  request_id = some (lit "r");
  action = lit "tunnel.session";
  peer = none;
  bytes_up = none;
  bytes_down = none;
  detail = none;
}

abbrev pub opened : AuditEntry
opened = record {
  id = 2;
  ts = pos 1700000000;
  ts_close = none;
  user_id = none;
  device_id = some 1;
  tunnel_id = none;
  request_id = some (lit "r");
  action = lit "tunnel.session";
  peer = none;
  bytes_up = none;
  bytes_down = none;
  detail = none;
}

abbrev pub db : Db
db = record {
  orgs = acme ∷ [];
  users = record { user = owner; token_hash = lit "hash" } ∷ [];
  devices = device ∷ [];
  tunnels = [];
  events = [];
  logs = [];
  cmd_outbox = command ∷ [];
  audit = session ∷ [];
  claim_pending = none;
}

abbrev pub no_metrics : Metrics
no_metrics = record {
  tunnel_sessions_total = [];
  tunnel_active = [];
  tunnel_bytes_total = [];
  cmd_total = [];
  events_received_total = [];
  logs_received_total = [];
  api_calls_total = [];
  event_topic_allow = none;
  devices_online = pos 0;
  audit_rows = pos 0;
}

pub db-IsSound : IsSound db
db-IsSound = record {
  capped = λ device_id. ground arith;
  good = (
    record {
      small = omega arith;
      owned = refl;
      acked_delivered = λ h. refl;
      attempted = λ h. refl;
      once = omega arith;
    },
    tt,
  );
  unique = (tt, tt);
  falling = (omega arith, tt);
}

-- Two identifiers, in place of the `uuid` crate's.
abbrev eq : Bool → Bool → Bool
eq true b = b
eq false true = false
eq false false = true

abbrev pub to_string : Bool → Text
to_string true = lit "c1"
to_string false = lit "c2"

unfoldable pub parse_str : Text → Option Bool
parse_str s =
    if text_eq s (lit "c1") then some true else if text_eq s (lit "c2") then some false else none

abbrev pub two_ids : Uuids
two_ids = record { Uuid = Bool; eq = eq; to_string = to_string; parse_str = parse_str }

eq_iff : (a b : Bool) → (eq a b ≡ true) ↔ (a ≡ b)
eq_iff true true = (λ h. refl, λ h. refl)
eq_iff true false = (λ h. sym h, λ h. sym h)
eq_iff false true = (λ h. h, λ h. h)
eq_iff false false = (λ h. refl, λ h. refl)

parse-to_string : (a : Bool) → parse_str (to_string a) ≡ some a
unfolding parse_str text_eq
parse-to_string true = refl
parse-to_string false = refl

no_slash : (a : Bool) → Lacks b'/' (to_string a)
no_slash true = (omega arith, (omega arith, tt))
no_slash false = (omega arith, (omega arith, tt))

pub two_ids-IsUuid : IsUuid two_ids
two_ids-IsUuid = record { eq_iff = eq_iff; parse-to_string = parse-to_string; no_slash = no_slash }
