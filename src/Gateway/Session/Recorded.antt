-- ===== src/Gateway/Session/Recorded.antt =====
-- What a connection of crates/hackline-gateway/src/tunnel/tcp_listener.rs leaves in the audit trail
-- and in the counters.
use hackline.Prelude.{
  ℕ, ◌+◌, ◌-◌, ◌≡◌, ◌≢◌, refl, ap, ◌∙◌, true, false, List, [], ◌∷◌, ◌++◌, Option, none, some, anyb,
  All, ◌==◌, ==_iff, Bool-cases, ne_test, inl, inr,
}
use Prim.Native.Nat.{◌%◌}
use hackline.Prelude.Int.{ℤ}
use hackline.Prelude.Text.{Text, lit, text_eq, text_eq_refl}
use hackline.Prelude.Outcome.{Result, ok, err}
use hackline.Core.Bridge.{BridgeError, BridgeBytes}
use hackline.Gateway.Error.{GatewayError, db, foreign_key}
use hackline.Gateway.Sql.{fresh, update_where}
use hackline.Gateway.Schema.{AuditEntry, Db}
use hackline.Gateway.Audit.{
  seconds, as_i64, insert_entry, insert_tunnel_session_open, finalize_tunnel_session,
}
use hackline.Gateway.Devices.{seen_at, touch_last_seen}
use hackline.Gateway.Metrics.{
  Metrics, bump, as_str, pair_eq, inc_tunnel_active, dec_tunnel_active, inc_tunnel_session,
  add_tunnel_bytes,
}
use hackline.Gateway.Metrics.Values.{value_at-alter, pair_eq_refl, active, sessions}
use hackline.Gateway.Session.{
  Books, open_session, finish, outcome_of, bytes_of, close_session, seen_after,
  run_bridged_connection,
}

abbrev pub opened_row : Db → ℕ → ℕ → Text → Option Text → ℤ → AuditEntry
opened_row d tunnel_id device_id request_id peer now_ms_open = record {
  id = fresh (λ a. a.id) d.audit;
  ts = seconds now_ms_open;
  ts_close = none;
  user_id = none;
  device_id = some device_id;
  tunnel_id = some tunnel_id;
  request_id = some request_id;
  action = lit "tunnel.session";
  peer = peer;
  bytes_up = none;
  bytes_down = none;
  detail = none;
}

-- A row of a session at its end.
abbrev pub closed : BridgeBytes → ℤ → AuditEntry → AuditEntry
closed bytes ts_close a = record a {
  ts_close = some (seconds ts_close);
  bytes_up = some (as_i64 bytes.up);
  bytes_down = some (as_i64 bytes.down);
}

abbrev pub Apart : ℕ → AuditEntry → Type 0
Apart id a = a.id ≢ id

update_one :
    (id : ℕ) (f : AuditEntry → AuditEntry) (newer older : List AuditEntry) (r : AuditEntry)
    → r.id ≡ id
    → All (Apart id) newer
    → All (Apart id) older
    → update_where (λ a. a.id == id) f (newer ++ r ∷ older) ≡ newer ++ f r ∷ older
update_one id f (a ∷ newer) older r e (h, hs) k =
    rw (ne_test a.id id h) (ap (λ l. a ∷ l) (update_one id f newer older r e hs k))
update_one id f [] older r e h k = rw ((==_iff r.id id).1 e) (ap (λ l. f r ∷ l) (others older k))
  where
    others :
        (rows : List AuditEntry)
        → All (Apart id) rows
        → update_where (λ a. a.id == id) f rows ≡ rows
    others [] h = refl
    others (a ∷ rows) (h, hs) = rw (ne_test a.id id h) (ap (λ l. a ∷ l) (others rows hs))

seen_after-audit :
    {E : Type 0} (result : Result E BridgeBytes) (d : Db) (device_id : ℕ) (now : ℤ)
    → (seen_after result d device_id now).audit ≡ d.audit
unfolding seen_after touch_last_seen seen_at
seen_after-audit (ok _) d device_id now = refl
seen_after-audit (err _) d device_id now = refl

-- The rows that a session names are there.
abbrev pub Refers : Db → ℕ → ℕ → Type 0
Refers d tunnel_id device_id =
    (anyb (λ v. v.id == device_id) d.devices ≡ true)
    × (anyb (λ t. t.id == tunnel_id) d.tunnels ≡ true)

insert-opened :
    (d : Db) (tunnel_id device_id : ℕ) (request_id : Text) (peer : Option Text) (now : ℤ)
    → Refers d tunnel_id device_id
    → insert_tunnel_session_open d device_id (some tunnel_id) request_id peer now
      ≡ ok (
        fresh (λ a. a.id) d.audit,
        record d { audit = opened_row d tunnel_id device_id request_id peer now ∷ d.audit },
      )
unfolding insert_tunnel_session_open insert_entry
insert-opened d tunnel_id device_id request_id peer now (device, tunnel) = rw (device, tunnel) refl

insert-refused :
    (d : Db) (tunnel_id device_id : ℕ) (request_id : Text) (peer : Option Text) (now : ℤ)
    → anyb (λ t. t.id == tunnel_id) d.tunnels ≡ false
    → (e : GatewayError) × (insert_tunnel_session_open d device_id
          (some tunnel_id)
          request_id
          peer
          now
        ≡ err e)
unfolding insert_tunnel_session_open insert_entry
insert-refused d tunnel_id device_id request_id peer now gone =
    elim (Bool-cases (anyb (λ v. v.id == device_id) d.devices)) [
      | inl device ↦ (db foreign_key, rw (device, gone) refl)
      | inr missing ↦ (db foreign_key, rw missing refl)
    ]

pub open_session-opened :
    (b : Books) (kind : Text) (tunnel_id device_id : ℕ) (request_id : Text) (peer : Option Text)
    (now : ℤ)
    → Refers b.db tunnel_id device_id
    → open_session b kind tunnel_id device_id request_id peer now ≡ (
      some (fresh (λ a. a.id) b.db.audit),
      record {
        db = record b.db {
          audit = opened_row b.db tunnel_id device_id request_id peer now ∷ b.db.audit;
        };
        metrics = inc_tunnel_active b.metrics kind;
      },
    )
unfolding open_session
open_session-opened b kind tunnel_id device_id request_id peer now refers =
    rw (insert-opened b.db tunnel_id device_id request_id peer now refers, open_session) refl

pub open_session-refused :
    (b : Books) (kind : Text) (tunnel_id device_id : ℕ) (request_id : Text) (peer : Option Text)
    (now : ℤ)
    → anyb (λ t. t.id == tunnel_id) b.db.tunnels ≡ false
    → open_session b kind tunnel_id device_id request_id peer now
      ≡ (none, record { db = b.db; metrics = inc_tunnel_active b.metrics kind })
unfolding open_session
open_session-refused b kind tunnel_id device_id request_id peer now gone =
    let (e, refused) = insert-refused b.db tunnel_id device_id request_id peer now gone in
    rw (refused, open_session) refl

opening-active :
    (m : Metrics) (kind : Text) → active (inc_tunnel_active m kind) kind ≡ active m kind + 1
unfolding inc_tunnel_active
opening-active m kind = value_at-alter text_eq (λ n. n + 1) kind m.tunnel_active (text_eq_refl kind)

pub closing-counted :
    {E : Type 0} (b : Books) (kind : Text) (audit_id : Option ℕ) (result : Result E BridgeBytes)
    (ts : ℤ)
    → let m = (close_session b kind audit_id result ts).metrics in
      (active m kind ≡ active b.metrics kind - 1)
      × (sessions m kind (outcome_of result)
          ≡ (sessions b.metrics kind (outcome_of result) + 1) % 18446744073709551616)
unfolding close_session dec_tunnel_active inc_tunnel_session add_tunnel_bytes bump
closing-counted b kind audit_id result ts = (
  value_at-alter text_eq (λ n. n - 1) kind b.metrics.tunnel_active (text_eq_refl kind),
  value_at-alter pair_eq (λ n. (n + 1) % 18446744073709551616) (kind, as_str (outcome_of result))
      b.metrics.tunnel_sessions_total (pair_eq_refl (kind, as_str (outcome_of result))),
)

finish-closed :
    (d : Db) (id : ℕ) (bytes : BridgeBytes) (ts : ℤ) (newer older : List AuditEntry)
    (r : AuditEntry)
    → d.audit ≡ newer ++ r ∷ older
    → r.id ≡ id
    → All (Apart id) newer
    → All (Apart id) older
    → (finish d (some id) bytes.up bytes.down ts).audit ≡ newer ++ closed bytes ts r ∷ older
unfolding finish finalize_tunnel_session
finish-closed d id bytes ts newer older r e same h k =
    ap (update_where (λ a. a.id == id) (closed bytes ts)) e
    ∙ update_one id (closed bytes ts) newer older r same h k

module _ (meanwhile : Books → Books) (b : Books) (tunnel_id device_id : ℕ) (kind request_id : Text)
    (peer : Option Text) (now_ms_open : ℤ) (result : Result BridgeError BridgeBytes)
    (now ts_close : ℤ) where
  -- The books when the connection is opened, when its bridge is done, and at the end.
  abbrev pub at_open : Books
  at_open = (open_session b kind tunnel_id device_id request_id peer now_ms_open).1

  abbrev pub at_end : Books
  at_end = meanwhile at_open

  abbrev pub after : Books
  after =
      run_bridged_connection meanwhile b tunnel_id device_id kind request_id peer now_ms_open result
        now ts_close

  -- The gauge goes up by one and down by one, down to 0 at least, and the counter of the outcome goes
  -- up by one, modulo 2^64.
  abbrev pub Counted : Type 0
  Counted =
      (active at_open.metrics kind ≡ active b.metrics kind + 1)
      × (active after.metrics kind ≡ active at_end.metrics kind - 1)
      × (sessions after.metrics kind (outcome_of result)
          ≡ (sessions at_end.metrics kind (outcome_of result) + 1) % 18446744073709551616)

  counted : at_open.metrics ≡ inc_tunnel_active b.metrics kind → Counted
  unfolding run_bridged_connection
  counted e =
      let seen : Books = record at_end { db = seen_after result at_end.db device_id now } in
      let (down, up) =
        closing-counted seen kind
          (open_session b kind tunnel_id device_id request_id peer now_ms_open).0 result ts_close in
      (ap (λ m. active m kind) e ∙ opening-active b.metrics kind, down, up)

  -- Where the device and the tunnel are there when the connection is opened, it is recorded at once in
  -- a row of its own, which is new and has no end; and whatever other tasks do while it is bridged, if
  -- they leave one row of that identifier, then at the end that row has the time of closing and the
  -- bytes of the bridge, none if the bridge failed, every other row is as they left it, the gauge has
  -- gone up and down by one and the session is counted under its outcome.
  pub run_bridged_connection-recorded :
      (newer older : List AuditEntry) (r : AuditEntry)
      → Refers b.db tunnel_id device_id
      → at_end.db.audit ≡ newer ++ r ∷ older
      → r.id ≡ fresh (λ a. a.id) b.db.audit
      → All (Apart (fresh (λ a. a.id) b.db.audit)) newer
      → All (Apart (fresh (λ a. a.id) b.db.audit)) older
      → (at_open.db.audit
          ≡ opened_row b.db tunnel_id device_id request_id peer now_ms_open ∷ b.db.audit)
        × (after.db.audit ≡ newer ++ closed (bytes_of result) ts_close r ∷ older)
        × Counted
  unfolding run_bridged_connection close_session
  run_bridged_connection-recorded newer older r refers left same h k =
      let opened =
        open_session-opened b kind tunnel_id device_id request_id peer now_ms_open refers in
      let id = ap (λ (o : Option ℕ × Books). o.0) opened in
      (
        ap (λ (o : Option ℕ × Books). o.1.db.audit) opened,
        ap
              (λ o.
                (finish (seen_after result at_end.db device_id now) o (bytes_of result).up
                  (bytes_of result).down ts_close).audit)
              id
            ∙ finish-closed (seen_after result at_end.db device_id now)
                (fresh (λ a. a.id) b.db.audit) (bytes_of result) ts_close newer older r
                (seen_after-audit result at_end.db device_id now ∙ left) same h k,
        counted (ap (λ (o : Option ℕ × Books). o.1.metrics) opened),
      )

  -- Where the tunnel is gone when a connection is opened, the connection is bridged and counted like
  -- any other, but the audit trail has no row of it, at the beginning or at the end.
  pub run_bridged_connection-unrecorded :
      anyb (λ t. t.id == tunnel_id) b.db.tunnels ≡ false
      → (at_open.db ≡ b.db) × (after.db.audit ≡ at_end.db.audit) × Counted
  unfolding run_bridged_connection close_session finish
  run_bridged_connection-unrecorded gone =
      let refused =
        open_session-refused b kind tunnel_id device_id request_id peer now_ms_open gone in
      let id = ap (λ (o : Option ℕ × Books). o.0) refused in
      (
        ap (λ (o : Option ℕ × Books). o.1.db) refused,
        ap
              (λ o.
                (finish (seen_after result at_end.db device_id now) o (bytes_of result).up
                  (bytes_of result).down ts_close).audit)
              id
            ∙ seen_after-audit result at_end.db device_id now,
        counted (ap (λ (o : Option ℕ × Books). o.1.metrics) refused),
      )
