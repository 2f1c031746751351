-- ===== src/Gateway/Tunnels.antt =====
-- crates/hackline-gateway/src/db/tunnels.rs and the handlers of api/tunnels. The clock
-- (`unixepoch()`) is an argument, and so is the text that `serde_json` makes for the audit trail.
pub mod Listed
use hackline.Prelude.{
  ℕ, Bool, true, false, not, ◌&&◌, ◌||◌, List, [], ◌∷◌, reverse, Option, none, some, anyb, find,
  filterb, ◌==◌, if◌then◌else◌,
}
use hackline.Prelude.Int.{ℤ, pos, negsuc}
use hackline.Prelude.Text.{Text, lit, text_eq}
use hackline.Prelude.Outcome.{Result, ok, err, require, ok_or, ◌>>=◌, ◌>>◌}
use hackline.Gateway.Error.{GatewayError, db, unique, check, foreign_key, not_found}
use hackline.Gateway.Sql.{fresh, update_where, delete_where}
use hackline.Gateway.Schema.{Org, User, Device, Tunnel, AuditEntry, Db}
use hackline.Gateway.Devices.{get_in_org, names}
use hackline.Gateway.Audit
use hackline.Gateway.Commands.{audited}
use hackline.Gateway.HttpRouter.Route.{hostname_is, as_u16}

pub record TunnelWithZid : Type 0 where
  pub id : ℕ
  pub device_id : ℕ
  pub zid : Text
  pub org_slug : Text
  pub kind : Text
  pub local_port : ℕ
  pub public_port : ℕ
  pub enabled : Bool

eq_ℤ : ℤ → ℤ → Bool
eq_ℤ (pos m) (pos n) = m == n
eq_ℤ (negsuc m) (negsuc n) = m == n
eq_ℤ (pos _) (negsuc _) = false
eq_ℤ (negsuc _) (pos _) = false

-- The CHECK of the table.
well_kinded : Text → Option Text → Option ℤ → Bool
well_kinded kind (some _) none = text_eq kind (lit "http")
well_kinded kind none (some _) = text_eq kind (lit "tcp")
well_kinded kind none none = false
well_kinded kind (some _) (some _) = false

-- The UNIQUE columns; a NULL is unlike any other.
takes_hostname : Option Text → Tunnel → Bool
takes_hostname none t = false
takes_hostname (some host) t = hostname_is host t.public_hostname

same_port : ℤ → Option ℤ → Bool
unfolding eq_ℤ
same_port p none = false
same_port p (some q) = eq_ℤ q p

takes_port : Option ℤ → Tunnel → Bool
unfolding same_port
takes_port none t = false
takes_port (some p) t = same_port p t.public_port

unfoldable pub get : Db → ℕ → Result GatewayError Tunnel
get d id = ok_or (find (λ t. t.id == id) d.tunnels) not_found

unfoldable pub insert :
    Db → ℕ → Text → ℤ → Option Text → Option ℤ → ℤ → Result GatewayError (Tunnel × Db)
unfolding get well_kinded takes_hostname takes_port
insert d device_id kind local_port public_hostname public_port now = do
  require (well_kinded kind public_hostname public_port) (db check)
  require (not (anyb (takes_hostname public_hostname) d.tunnels)) (db unique)
  require (not (anyb (takes_port public_port) d.tunnels)) (db unique)
  require (anyb (λ v. v.id == device_id) d.devices) (db foreign_key)
  let row : Tunnel = record {
    id = fresh (λ t. t.id) d.tunnels;
    device_id = device_id;
    kind = kind;
    local_port = local_port;
    public_hostname = public_hostname;
    public_port = public_port;
    enabled = true;
    created_at = now;
  }
  let d' : Db = record d { tunnels = row ∷ d.tunnels }
  t ← get d' row.id
  ok (t, d')

unfoldable pub list : Db → List Tunnel
list d = reverse d.tunnels

-- The JOIN with `devices`, of one organisation.
unfoldable pub belongs : List Device → ℕ → Tunnel → Bool
belongs devices org_id t = anyb (λ v. v.id == t.device_id && v.org_id == org_id) devices

unfoldable pub list_in_org : Db → ℕ → List Tunnel
unfolding belongs
list_in_org d org_id = reverse (filterb (belongs d.devices org_id) d.tunnels)

abbrev pub chosen : Db → ℕ → ℕ → Tunnel → Bool
chosen d org_id id t = t.id == id && belongs d.devices org_id t

-- The DELETE, with ON DELETE SET NULL on the audit rows of the tunnel.
unfoldable pub delete_in_org : Db → ℕ → ℕ → Bool × Db
unfolding belongs
delete_in_org d org_id id =
    if anyb (chosen d org_id id) d.tunnels
    then (
      true,
      record d {
        tunnels = delete_where (chosen d org_id id) d.tunnels;
        audit =
            update_where (λ a. names id a.tunnel_id) (λ a. record a { tunnel_id = none }) d.audit;
      },
    )
    else (false, d)

pub record CreateTunnel : Type 0 where
  pub device_id : ℕ
  pub kind : Text
  pub local_port : ℤ
  pub public_hostname : Option Text
  pub public_port : Option ℤ

-- `TunnelEvent::Added`, which starts a listener.
unfoldable pub with_slug : Tunnel → ℤ → Device → Option Org → Option TunnelWithZid
unfolding as_u16
with_slug t port v none = none
with_slug t port v (some o) = some (record {
  id = t.id;
  device_id = t.device_id;
  zid = v.zid;
  org_slug = o.slug;
  kind = lit "tcp";
  local_port = as_u16 t.local_port;
  public_port = as_u16 port;
  enabled = true;
})

unfoldable pub added : Db → ℕ → Tunnel → Option ℤ → Option TunnelWithZid
unfolding get_in_org with_slug
added d org_id t none = none
added d org_id t (some port) = elim (get_in_org d org_id t.device_id) [
  | err _ ↦ none
  | ok v ↦
      if text_eq t.kind (lit "tcp")
      then with_slug t port v (find (λ o. o.id == v.org_id) d.orgs)
      else none
]

-- The handler of `POST /v1/tunnels`: the tunnel, and the event that it sends.
unfoldable pub create :
    (Tunnel → Text)
    → Db
    → User
    → CreateTunnel
    → ℤ
    → Result GatewayError ((Tunnel × Option TunnelWithZid) × Db)
unfolding get_in_org insert added Audit.insert
create detail d caller body now = do
  device ← get_in_org d caller.org_id body.device_id
  (t, d') ←
      insert d body.device_id body.kind body.local_port body.public_hostname body.public_port now
  ok (
    (t, added d' caller.org_id t t.public_port),
    audited d'
        (Audit.insert d' now (some caller.id) none none (lit "tunnel.create") (some (detail t))),
  )

-- The handler of `DELETE /v1/tunnels/:id`. The row is gone before its audit row is written.
unfoldable pub delete : (ℕ → Text) → Db → User → ℕ → ℤ → Result GatewayError (Unit {0}) × Db
unfolding delete_in_org Audit.insert
delete detail d caller id now =
    let (deleted, d') = delete_in_org d caller.org_id id in
    let written =
      Audit.insert d' now (some caller.id) none none (lit "tunnel.delete") (some (detail id)) in
    if deleted then (written >>= λ _. ok tt, audited d' written) else (err not_found, d')
