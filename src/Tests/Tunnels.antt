-- ===== src/Tests/Tunnels.antt =====
-- The theorem on opening a tunnel, at one device.
use hackline.Prelude.{◌≡◌, refl, true, [], ◌∷◌, none, some}
use hackline.Prelude.Int.{pos}
use hackline.Prelude.Text.{lit, text_eq}
use hackline.Prelude.Outcome.{ok}
use hackline.Gateway.Schema.{AuditEntry, Tunnel, Db}
use hackline.Gateway.Audit
use hackline.Gateway.Devices.{get_in_org}
use hackline.Gateway.HttpRouter.Route.{as_u16}
use hackline.Gateway.Tunnels.{get, insert, TunnelWithZid, CreateTunnel, create}
use hackline.Gateway.Tunnels.Listed.{IsListed, create-IsListed}
use hackline.Tests.Data.{db, owner}

abbrev pub wanted : CreateTunnel
wanted = record {
  device_id = 1;
  kind = lit "tcp";
  local_port = pos 22;
  public_hostname = none;
  public_port = some (pos 2222);
}

abbrev pub opened : Tunnel
opened = record {
  id = 1;
  device_id = 1;
  kind = lit "tcp";
  local_port = pos 22;
  public_hostname = none;
  public_port = some (pos 2222);
  enabled = true;
  created_at = pos 5;
}

abbrev pub event : TunnelWithZid
event = record {
  id = 1;
  device_id = 1;
  zid = lit "a1";
  org_slug = lit "acme";
  kind = lit "tcp";
  local_port = 22;
  public_port = 2222;
  enabled = true;
}

abbrev pub created : AuditEntry
created = record {
  id = 2;
  ts = pos 5;
  ts_close = none;
  user_id = some 1;
  device_id = none;
  tunnel_id = none;
  request_id = none;
  action = lit "tunnel.create";
  peer = none;
  bytes_up = none;
  bytes_down = none;
  detail = some (lit "new");
}

abbrev pub with_tunnel : Db
with_tunnel = record db { tunnels = opened ∷ []; audit = created ∷ db.audit }

pub create-run :
    create (λ t. lit "new") db owner wanted (pos 5) ≡ ok ((opened, some event), with_tunnel)
unfolding create get_in_org insert get as_u16 Audit.insert text_eq
create-run = refl

create-IsListed_once : IsListed db with_tunnel 1 opened
create-IsListed_once =
    create-IsListed (λ t. lit "new") db owner wanted (pos 5) opened (some event) with_tunnel
      (tt, tt) create-run
