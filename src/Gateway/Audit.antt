-- ===== src/Gateway/Audit.antt =====
-- crates/hackline-gateway/src/db/audit.rs. The clock (`unixepoch()`) is an argument.
pub mod Visible
use hackline.Prelude.{
  ℕ, zero, suc, ◌+◌, ◌/◌, ◌-◌, ltb, if◌then◌else◌, Bool, true, false, ◌&&◌, List, ◌∷◌, Option, none,
  some, anyb, find, filterb, length, take, ◌==◌,
}
use Prim.Native.Nat.{◌^◌}
use hackline.Prelude.Int.{ℤ, pos, negsuc}
use hackline.Prelude.Text.{Text, lit}
use hackline.Prelude.Outcome.{Result, ok, err, require, ◌>>=◌, ◌>>◌}
use hackline.Gateway.Error.{GatewayError, db, foreign_key}
use hackline.Gateway.Sql.{fresh, update_where}
use hackline.Gateway.Schema.{UserRow, Device, Tunnel, AuditEntry, Db}

-- A foreign key that may be NULL.
abbrev pub refers : {A : Type 0} → (A → ℕ) → List A → Option ℕ → Bool
refers id rows none = true
refers id rows (some k) = anyb (λ r. id r == k) rows

abbrev user_id_of : UserRow → ℕ
user_id_of r = r.user.id

-- The INSERT, with the REFERENCES clauses of the table.
unfoldable pub insert_entry : Db → AuditEntry → Result GatewayError Db
insert_entry d a = do
  require (refers user_id_of d.users a.user_id) (db foreign_key)
  require (refers (λ v. v.id) d.devices a.device_id) (db foreign_key)
  require (refers (λ t. t.id) d.tunnels a.tunnel_id) (db foreign_key)
  ok (record d { audit = a ∷ d.audit })

unfoldable pub insert :
    Db → ℤ → Option ℕ → Option ℕ → Option ℕ → Text → Option Text → Result GatewayError Db
unfolding insert_entry
insert d now user_id device_id tunnel_id action detail = insert_entry d (record {
  id = fresh (λ a. a.id) d.audit;
  ts = now;
  ts_close = none;
  user_id = user_id;
  device_id = device_id;
  tunnel_id = tunnel_id;
  request_id = none;
  action = action;
  peer = none;
  bytes_up = none;
  bytes_down = none;
  detail = detail;
})

-- `ms / 1000` on `i64`, which rounds towards zero.
abbrev pub seconds : ℤ → ℤ
seconds (pos n) = pos (n / 1000)
seconds (negsuc n) = neg ((n + 1) / 1000)
  where
    neg : ℕ → ℤ
    neg zero = pos 0
    neg (suc k) = negsuc k

unfoldable pub insert_tunnel_session_open :
    Db → ℕ → Option ℕ → Text → Option Text → ℤ → Result GatewayError (ℕ × Db)
unfolding insert_entry
insert_tunnel_session_open d device_id tunnel_id request_id peer ts_open_ms = do
  let id = fresh (λ a. a.id) d.audit
  d' ← insert_entry d (record {
    id = id;
    ts = seconds ts_open_ms;
    ts_close = none;
    user_id = none;
    device_id = some device_id;
    tunnel_id = tunnel_id;
    request_id = some request_id;
    action = lit "tunnel.session";
    peer = peer;
    bytes_up = none;
    bytes_down = none;
    detail = none;
  })
  ok (id, d')

-- `n as i64` of a `u64`.
abbrev pub as_i64 : ℕ → ℤ
as_i64 n = if ltb n (2 ^ 63) then pos n else negsuc (2 ^ 64 - 1 - n)

unfoldable pub finalize_tunnel_session : Db → ℕ → ℕ → ℕ → ℤ → Db
finalize_tunnel_session d id bytes_up bytes_down ts_close_ms = record d {
  audit =
      update_where (λ a. a.id == id)
        (λ a. record a {
          ts_close = some (seconds ts_close_ms);
          bytes_up = some (as_i64 bytes_up);
          bytes_down = some (as_i64 bytes_down);
        })
        d.audit;
}

-- `… IS NULL OR ….org_id = ?1` on the row that a LEFT JOIN finds, if it finds one.
abbrev pub in_org_or_null : {A : Type 0} → (A → ℕ) → (A → ℕ) → List A → ℕ → Option ℕ → Bool
in_org_or_null id org rows org_id none = true
in_org_or_null id org rows org_id (some k) = anyb (λ r. id r == k && org r == org_id) rows

abbrev pub visible : Db → ℕ → AuditEntry → Bool
visible d org_id a =
    in_org_or_null (λ v. v.id) (λ v. v.org_id) d.devices org_id a.device_id
    && in_org_or_null user_id_of (λ r. r.user.org_id) d.users org_id a.user_id

-- `LIMIT`, without a bound if it is negative.
abbrev limited : {A : Type 0} → ℤ → List A → List A
limited (pos n) rows = take n rows
limited (negsuc _) rows = rows

unfoldable pub list_recent : Db → ℕ → ℤ → List AuditEntry
list_recent d org_id limit = limited limit (filterb (visible d org_id) d.audit)

unfoldable pub count : Db → ℕ
count d = length d.audit
