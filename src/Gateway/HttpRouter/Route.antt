-- ===== src/Gateway/HttpRouter/Route.antt =====
-- crates/hackline-gateway/src/tunnel/http_router.rs: the query on `tunnels`, and the route it gives.
pub mod Served
use hackline.Prelude.{
  ℕ, ◌+◌, ◌-◌, ◌≡◌, refl, ap, sym, ◌∙◌, Bool, true, false, ◌&&◌, List, [], ◌∷◌, ◌++◌, Option, none,
  some, find, ◌==◌, ==_iff, if◌then◌else◌, Bool-cases, Option-cases, inl, inr, arith,
}
use Prim.Native.Nat.{◌%◌}
use hackline.Prelude.Int.{ℤ, pos, negsuc}
use hackline.Prelude.Text.{Text, lit, text_eq, text_eq_iff}
use hackline.Prelude.Outcome.{Result, ok, err, ok_or, ok_inj, err_ne_ok, Result-cases, ◌>>=◌}
use hackline.Proto.Zid.{Zid}
use hackline.Proto.Zid
use hackline.Gateway.Error.{GatewayError, bad_request, no_http_tunnel, bad_zid}
use hackline.Gateway.Schema.{Bytes, Device, Tunnel, Org, Db}
use hackline.Gateway.HttpRouter.{read_host}

-- A row of the join.
pub record Joined : Type 0 where
  pub tunnel : Tunnel
  pub device : Device
  pub org : Org

abbrev pub hostname_is : Text → Option Text → Bool
hostname_is host none = false
hostname_is host (some h) = text_eq h host

-- The WHERE clause.
unfoldable pub serves : Text → Tunnel → Bool
serves host t = text_eq t.kind (lit "http") && (hostname_is host t.public_hostname && t.enabled)

with_org : Tunnel → Device → Option Org → Option Joined
with_org t v none = none
with_org t v (some o) = some (record { tunnel = t; device = v; org = o })

with_device : Db → Tunnel → Option Device → Option Joined
unfolding with_org
with_device d t none = none
with_device d t (some v) = with_org t v (find (λ o. o.id == v.org_id) d.orgs)

first_joined : Db → Text → List Tunnel → Option Joined
unfolding with_device serves
first_joined d host [] = none
first_joined d host (t ∷ ts) =
    let rest = first_joined d host ts in
    if serves host t
    then elim (with_device d t (find (λ v. v.id == t.device_id) d.devices)) [
      | some j ↦ some j
      | none ↦ rest
    ]
    else rest

-- The first row of the query.
unfoldable pub find_http_tunnel : Db → Text → Option Joined
unfolding first_joined
find_http_tunnel d host = first_joined d host d.tunnels

-- `as u16`.
unfoldable pub as_u16 : ℤ → ℕ
as_u16 (pos n) = n % 65536
as_u16 (negsuc n) = 65535 - n % 65536

pub record Route : Type 0 where
  pub zid : Zid
  pub port : ℕ
  pub tunnel_id : ℕ
  pub device_id : ℕ
  pub org_slug : Text
  pub prefix : Bytes

unfoldable pub of_zid : {E : Type 0} → Result E Zid → Result GatewayError Zid
of_zid (ok z) = ok z
of_zid (err _) = err (bad_request bad_zid)

-- `handle_connection` up to the bridge.
unfoldable pub select_route : Db → List (Result GatewayError Bytes) → Result GatewayError Route
unfolding read_host find_http_tunnel of_zid Zid.new as_u16
select_route d reads = do
  (host, sent) ← read_host [] reads
  j ← ok_or (find_http_tunnel d host) (bad_request (no_http_tunnel host))
  zid ← of_zid (Zid.new j.device.zid)
  ok (record {
    zid = zid;
    port = as_u16 j.tunnel.local_port;
    tunnel_id = j.tunnel.id;
    device_id = j.tunnel.device_id;
    org_slug = j.org.slug;
    prefix = sent;
  })
