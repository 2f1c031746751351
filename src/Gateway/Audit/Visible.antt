-- ===== src/Gateway/Audit/Visible.antt =====
-- Who sees which rows of crates/hackline-gateway/src/db/audit.rs.
use hackline.Prelude.{
  ℕ, ◌≡◌, true, false, ◌&&◌, List, [], ◌∷◌, none, some, anyb, find, filterb, arith, ◌==◌,
}
use hackline.Prelude.Int.{negsuc}
use hackline.Gateway.Sql.{update_where}
use hackline.Gateway.Schema.{Device, Tunnel, AuditEntry, Db}
use hackline.Gateway.Audit.{visible, list_recent}
use hackline.Gateway.Devices.{owned_by, names_tunnel, names, cascade, delete_in_org}
use hackline.Gateway.Devices.Isolation.{delete_found}

-- A row of the device that names no user is seen by every organisation once the device is gone.
seen_by_all :
    (d : Db) (gone : List Tunnel) (id org_id k : ℕ) (a : AuditEntry) (rows : List AuditEntry)
    → find (λ b. b.id == k) rows ≡ some a
    → a.device_id ≡ some id
    → a.user_id ≡ none
    → anyb
        (λ b. b.id == k)
        (filterb (visible d org_id) (
          update_where
            (λ b. names id b.device_id)
            (λ b. record b { device_id = none })
            (update_where
              (λ b. names_tunnel gone b.tunnel_id)
              (λ b. record b { tunnel_id = none })
              rows)))
      ≡ true
seen_by_all d gone id org_id k a [] f p q = cc
seen_by_all d gone id org_id k a (r ∷ rows) f p q =
    ground (arith, seen_by_all d gone id org_id k a rows)

-- An audit row of a device of one organisation that names no user, as a tunnel session does, is
-- hidden from another organisation as long as the device is there, and shown to every
-- organisation once it is deleted: the row then names neither a device nor a user. The limit
-- asked for here is -1, which is none.
pub list_recent-deleted :
    (d : Db) (org_id id other k : ℕ) (v : Device) (a : AuditEntry)
    → find (owned_by org_id id) d.devices ≡ some v
    → anyb (λ w. w.id == id && w.org_id == other) d.devices ≡ false
    → find (λ b. b.id == k) d.audit ≡ some a
    → a.device_id ≡ some id
    → a.user_id ≡ none
    → (visible d other a ≡ false)
      × (anyb (λ b. b.id == k) (list_recent (delete_in_org d org_id id).1 other (negsuc 0)) ≡ true)
unfolding list_recent cascade
list_recent-deleted d org_id id other k v a mine foreign row device user = (
  rw (device, user, foreign),
  rw (delete_found d org_id id v mine) (
      seen_by_all (cascade d id) (filterb (λ t. t.device_id == id) d.tunnels) id other k a d.audit
        row device user),
)
