-- ===== src/Gateway/Devices.antt =====
-- crates/hackline-gateway/src/db/devices.rs. The clock (`unixepoch()`) is an argument.
pub mod Isolation
pub mod Owned
use hackline.Prelude.{
  ℕ, Bool, true, false, not, ◌&&◌, ◌||◌, List, [], ◌∷◌, reverse, Option, none, some, anyb, find,
  filterb, ltb, leb, ◌==◌, if◌then◌else◌,
}
use hackline.Prelude.Int.{ℤ}
use hackline.Prelude.Text.{Text, text_eq}
use hackline.Prelude.Outcome.{Result, ok, err, require, ok_or, ◌>>=◌, ◌>>◌}
use hackline.Gateway.Error.{GatewayError, db, unique, foreign_key, not_found}
use hackline.Gateway.Sql.{fresh, update_where, delete_where}
use hackline.Gateway.Schema.{Org, Device, Tunnel, EventRow, LogRow, CmdRow, AuditEntry, Db}
use hackline.Gateway.Orgs

-- `WHERE id = ?1 AND org_id = ?2`.
abbrev pub owned_by : ℕ → ℕ → Device → Bool
owned_by org_id id v = v.id == id && v.org_id == org_id

unfoldable pub get_in_org : Db → ℕ → ℕ → Result GatewayError Device
get_in_org d org_id id = ok_or (find (owned_by org_id id) d.devices) not_found

-- The INSERT of `insert` and of `upsert_seen`: the new rowid, under the UNIQUE and REFERENCES
-- clauses of the table.
unfoldable pub insert_row : Db → ℕ → Text → Text → ℤ → Option ℤ → Result GatewayError (ℕ × Db)
insert_row d org_id zid label now seen = do
  require (not (anyb (λ v. text_eq v.zid zid) d.devices)) (db unique)
  require (anyb (λ o. o.id == org_id) d.orgs) (db foreign_key)
  let id = fresh (λ v. v.id) d.devices
  let row : Device = record {
    id = id;
    org_id = org_id;
    zid = zid;
    label = label;
    customer_id = none;
    created_at = now;
    last_seen_at = seen;
  }
  ok (id, record d { devices = row ∷ d.devices })

unfoldable pub insert : Db → ℕ → Text → Text → ℤ → Result GatewayError (Device × Db)
unfolding insert_row get_in_org
insert d org_id zid label now = do
  (id, d') ← insert_row d org_id zid label now none
  device ← get_in_org d' org_id id
  ok (device, d')

unfoldable pub list_in_org : Db → ℕ → List Device
list_in_org d org_id = reverse (filterb (λ v. v.org_id == org_id) d.devices)

-- `id IN (SELECT id FROM tunnels …)`, on a column that may be NULL.
abbrev pub names_tunnel : List Tunnel → Option ℕ → Bool
names_tunnel gone none = false
names_tunnel gone (some id) = anyb (λ t. t.id == id) gone

abbrev pub names : ℕ → Option ℕ → Bool
names id none = false
names id (some j) = j == id

-- What the foreign keys do when a device goes: ON DELETE CASCADE on tunnels, events, logs and
-- commands, ON DELETE SET NULL on the audit rows of the device and of its tunnels.
unfoldable pub cascade : Db → ℕ → Db
cascade d id =
    let gone = filterb (λ t. t.device_id == id) d.tunnels in
    let unlinked =
      update_where (λ a. names_tunnel gone a.tunnel_id) (λ a. record a { tunnel_id = none })
        d.audit in
    record d {
      devices = delete_where (λ v. v.id == id) d.devices;
      tunnels = delete_where (λ t. t.device_id == id) d.tunnels;
      events = delete_where (λ e. e.device_id == id) d.events;
      logs = delete_where (λ e. e.device_id == id) d.logs;
      cmd_outbox = delete_where (λ c. c.device_id == id) d.cmd_outbox;
      audit =
          update_where (λ a. names id a.device_id) (λ a. record a { device_id = none }) unlinked;
    }

unfoldable pub delete_in_org : Db → ℕ → ℕ → Bool × Db
unfolding cascade
delete_in_org d org_id id =
    if anyb (owned_by org_id id) d.devices then (true, cascade d id) else (false, d)

-- The JOIN with `orgs`.
unfoldable pub get_with_org_slug : Db → ℕ → Result GatewayError (Device × Text)
get_with_org_slug d id = do
  device ← ok_or (find (λ v. v.id == id) d.devices) not_found
  org ← ok_or (find (λ o. o.id == device.org_id) d.orgs) not_found
  ok (device, org.slug)

unfoldable pub get_unscoped : Db → ℕ → Result GatewayError Device
get_unscoped d id = ok_or (find (λ v. v.id == id) d.devices) not_found

abbrev pub ids : Option Device → Option (ℕ × ℕ)
ids none = none
ids (some v) = some (v.id, v.org_id)

unfoldable pub get_by_zid : Db → Text → Option (ℕ × ℕ)
get_by_zid d zid = ids (find (λ v. text_eq v.zid zid) d.devices)

-- `WHERE org_id = ?1 AND zid = ?2`.
abbrev pub registered : ℕ → Text → Device → Bool
registered org_id zid v = v.org_id == org_id && text_eq v.zid zid

unfoldable pub seen_at : Db → ℕ → Option ℤ → Db
seen_at d id seen = record d {
  devices = update_where (λ v. v.id == id) (λ v. record v { last_seen_at = seen }) d.devices;
}

unfoldable pub register : Db → ℕ → Text → ℤ → Option Device → Result GatewayError ((ℕ × Bool) × Db)
unfolding insert_row seen_at
register d org_id zid now (some v) = ok ((v.id, false), seen_at d v.id (some now))
register d org_id zid now none = do
  (id, d') ← insert_row d org_id zid zid now (some now)
  ok ((id, true), d')

unfoldable pub upsert_seen : Db → ℕ → Text → ℤ → Result GatewayError ((ℕ × Bool) × Db)
unfolding register
upsert_seen d org_id zid now = register d org_id zid now (find (registered org_id zid) d.devices)

unfoldable pub touch_last_seen : Db → ℕ → ℤ → Db
unfolding seen_at
touch_last_seen d id now = seen_at d id (some now)

unfoldable pub mark_offline : Db → ℕ → Text → Db
mark_offline d org_id zid = record d {
  devices = update_where (registered org_id zid) (λ v. record v { last_seen_at = none }) d.devices;
}
