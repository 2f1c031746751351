-- ===== src/Gateway/HttpRouter/Route/Served.antt =====
-- The row that the host router finds, and the route that it makes of it.
use hackline.Prelude.{
  some_inj, ℕ, ◌+◌, ◌-◌, ◌*◌, ◌/◌, ◌<◌, anyb, arith, ◌⊎◌, ◌≡◌, refl, ap, sym, ◌∙◌, Bool, true,
  false, ◌&&◌, List, [], ◌∷◌, ◌++◌, Option, none, some, find, ◌==◌, ==_iff, Bool-cases,
  Option-cases, inl, inr,
}
use hackline.Prelude.Int.{ℤ, pos, negsuc}
use hackline.Prelude.Text.{Text, lit, text_eq, text_eq_iff}
use hackline.Prelude.Outcome.{Result, ok, err, ok_inj, err_ne_ok, Result-cases}
use hackline.Proto.Zid.{Zid}
use hackline.Proto.Zid
use hackline.Gateway.Error.{GatewayError}
use hackline.Gateway.Schema.{Bytes, Device, Tunnel, Db}
use hackline.Gateway.HttpRouter.{read_host}
use hackline.Gateway.HttpRouter.Reads.{Took, read_host-Took}
use mathlib.Core.Path.{subst}
use hackline.Gateway.HttpRouter.Route.{
  Joined, hostname_is, serves, with_org, with_device, first_joined, find_http_tunnel, Route, of_zid,
  as_u16, select_route,
}

-- A row is in a table.
abbrev pub IsIn : {A : Type 0} → A → List A → Type 0
IsIn x rows = (before after : List _) × (rows ≡ before ++ x ∷ after)

find_holds :
    {A : Type 0} (p : A → Bool) (rows : List A) (r : A)
    → find p rows ≡ some r
    → IsIn r rows × (p r ≡ true)
find_holds p [] r h = absurd cc
find_holds p (x ∷ rows) r h = elim (Bool-cases (p x)) [
  | inl t ↦
      let same : x ≡ r = some_inj (rw t at h) in
      (([], rows, ap (λ y. y ∷ rows) same), sym (ap p same) ∙ t)
  | inr f ↦
      let ((before, after, e), holds) = find_holds p rows r (rw f at h) in
      ((x ∷ before, after, ap (λ l. x ∷ l) e), holds)
]

-- The enabled HTTP tunnel of a host, its own device, and the organisation that owns the device.
pub record IsServed (d : Db) (tunnels : List Tunnel) (host : Text) (j : Joined) : Type 0 where
  tunnel_in : IsIn j.tunnel tunnels
  device_in : IsIn j.device d.devices
  org_in : IsIn j.org d.orgs
  http : j.tunnel.kind ≡ lit "http"
  named : j.tunnel.public_hostname ≡ some host
  enabled : j.tunnel.enabled ≡ true
  owner : j.device.id ≡ j.tunnel.device_id
  tenant : j.org.id ≡ j.device.org_id

and_holds : (a b : Bool) → (a && b) ≡ true → (a ≡ true) × (b ≡ true)
and_holds true b h = (refl, h)
and_holds false b h = absurd cc

hostname_named : (host : Text) (o : Option Text) → hostname_is host o ≡ true → o ≡ some host
hostname_named host none h = absurd cc
hostname_named host (some g) h = ap some ((text_eq_iff g host).0 h)

serves_holds :
    (host : Text) (t : Tunnel)
    → serves host t ≡ true
    → (t.kind ≡ lit "http") × (t.public_hostname ≡ some host) × (t.enabled ≡ true)
unfolding serves
serves_holds host t h =
    let (kind, rest) =
      and_holds (text_eq t.kind (lit "http")) (hostname_is host t.public_hostname && t.enabled) h in
    let (name, on) = and_holds (hostname_is host t.public_hostname) t.enabled rest in
    ((text_eq_iff t.kind (lit "http")).0 kind, hostname_named host t.public_hostname name, on)

with_device-some :
    (d : Db) (t : Tunnel) (v : Option Device) (j : Joined)
    → with_device d t v ≡ some j
    → (v ≡ some j.device)
      × (j.tunnel ≡ t)
      × (find (λ o. o.id == j.device.org_id) d.orgs ≡ some j.org)
unfolding with_device with_org
with_device-some d t none j h = absurd cc
with_device-some d t (some v) j h = elim (Option-cases (find (λ o. o.id == v.org_id) d.orgs)) [
  | inl missing ↦ absurd (let h0 = rw missing at h in cc)
  | inr (o, found) ↦
      let same = some_inj (rw found at h) in
      (
        ap (λ k. some k.device) same,
        sym (ap (λ k. k.tunnel) same),
        sym (ap (λ k. find (λ o. o.id == k.device.org_id) d.orgs) same)
            ∙ found
            ∙ ap (λ k. some k.org) same,
      )
]

first_joined-IsServed :
    (d : Db) (host : Text) (ts : List Tunnel) (j : Joined)
    → first_joined d host ts ≡ some j
    → IsServed d ts host j
unfolding first_joined
first_joined-IsServed d host [] j h = absurd cc
first_joined-IsServed d host (t ∷ ts) j h = elim (Bool-cases (serves host t)) [
  | inr other ↦ later t d ts host j (first_joined-IsServed d host ts j (rw other at h))
  | inl served ↦
      let owner = find (λ v. v.id == t.device_id) d.devices in
      let h0 = rw served at h in
      elim (Option-cases (with_device d t owner)) [
        | inl no_row ↦ later t d ts host j (first_joined-IsServed d host ts j (rw no_row at h0))
        | inr (k, row) ↦ now d t ts host j served (row ∙ (rw row at h0))
      ]
]
  where
    later :
        (t : Tunnel) (d : Db) (ts : List Tunnel) (host : Text) (j : Joined)
        → IsServed d ts host j
        → IsServed d (t ∷ ts) host j
    later t d ts host j s =
        let (before, after, e) = s.tunnel_in in
        record {
          tunnel_in = (t ∷ before, after, ap (λ l. t ∷ l) e);
          device_in = s.device_in;
          org_in = s.org_in;
          http = s.http;
          named = s.named;
          enabled = s.enabled;
          owner = s.owner;
          tenant = s.tenant;
        }

    now :
        (d : Db) (t : Tunnel) (ts : List Tunnel) (host : Text) (j : Joined)
        → serves host t ≡ true
        → with_device d t (find (λ v. v.id == t.device_id) d.devices) ≡ some j
        → IsServed d (t ∷ ts) host j
    now d t ts host j served row =
        let (owned, same, tenanted) =
          with_device-some d t (find (λ v. v.id == t.device_id) d.devices) j row in
        let (device_in, of_device) =
          find_holds (λ v. v.id == t.device_id) d.devices j.device owned in
        let (org_in, of_org) = find_holds (λ o. o.id == j.device.org_id) d.orgs j.org tenanted in
        let (kind, name, on) = serves_holds host t served in
        record {
          tunnel_in = ([], ts, ap (λ k. k ∷ ts) (sym same));
          device_in = device_in;
          org_in = org_in;
          http = ap (λ k. k.kind) same ∙ kind;
          named = ap (λ k. k.public_hostname) same ∙ name;
          enabled = ap (λ k. k.enabled) same ∙ on;
          owner = (==_iff j.device.id t.device_id).0 of_device ∙ sym (ap (λ k. k.device_id) same);
          tenant = (==_iff j.org.id j.device.org_id).0 of_org;
        }

-- A port is the low 16 bits of a stored number, in two's complement.
abbrev pub IsLow16 : ℤ → ℕ → Type 0
IsLow16 z p =
    (p < 65536) × (q : ℕ) × ((z ≡ pos (p + 65536 * q)) ⊎ (z ≡ negsuc (65535 - p + 65536 * q)))

as_u16-IsLow16 : (z : ℤ) → IsLow16 z (as_u16 z)
unfolding as_u16
as_u16-IsLow16 (pos n) = (omega arith, n / 65536, inl (ap pos (omega arith)))
as_u16-IsLow16 (negsuc n) = (omega arith, n / 65536, inr (ap negsuc (omega arith)))

-- What a route comes from: the host in the bytes read, and the rows of its tunnel.
unfoldable pub IsRouted : Db → List (Result GatewayError Bytes) → Route → Type 0
IsRouted d reads r =
    (host : Text) × (j : Joined) × Took [] reads host r.prefix
    × IsServed d d.tunnels host j
    × (Zid.new j.device.zid ≡ ok r.zid)
    × (r.org_slug ≡ j.org.slug)
    × IsLow16 j.tunnel.local_port r.port
    × (r.tunnel_id ≡ j.tunnel.id)
    × (r.device_id ≡ j.tunnel.device_id)

pub of_zid_ok : {E : Type 0} (z : Result E Zid) {r : Zid} → of_zid z ≡ ok r → z ≡ ok r
unfolding of_zid
of_zid_ok (ok z) h = ap ok (ok_inj h)
of_zid_ok (err e) h = err_ne_ok h

-- A connection is bridged only to the device of an enabled HTTP tunnel that is registered for the
-- host in the bytes read, under the organisation that owns the device, with all those bytes.
pub select_route-IsRouted :
    (d : Db) (reads : List (Result GatewayError Bytes)) (r : Route)
    → select_route d reads ≡ ok r
    → IsRouted d reads r
unfolding select_route find_http_tunnel IsRouted
select_route-IsRouted d reads r h = elim (Result-cases (read_host [] reads)) [
  | inl (e, bad) ↦ err_ne_ok (rw bad at h)
  | inr ((host, sent), got) ↦
      let h0 = rw got at h in
      elim (Option-cases (first_joined d host d.tunnels)) [
        | inl missing ↦ err_ne_ok (rw missing at h0)
        | inr (j, row) ↦
            let h1 = rw row at h0 in
            elim (Result-cases (of_zid (Zid.new j.device.zid))) [
              | inl (e, bad) ↦ err_ne_ok (rw bad at h1)
              | inr (z, fine) ↦ subst (IsRouted d reads) (ok_inj (rw fine at h1)) (
                host,
                j,
                read_host-Took [] reads host sent got,
                first_joined-IsServed d host d.tunnels j row,
                of_zid_ok (Zid.new j.device.zid) fine,
                refl,
                as_u16-IsLow16 j.tunnel.local_port,
                refl,
                refl,
              )
            ]
      ]
]

anyb_of_IsIn :
    {A : Type 0} (p : A → Bool) (x : A) (before after : List A)
    → p x ≡ true
    → anyb p (before ++ x ∷ after) ≡ true
anyb_of_IsIn p x [] after h = rw h refl
anyb_of_IsIn p x (y ∷ before) after h = ground (arith, anyb_of_IsIn p x before after h)

-- The tunnel and the device of a route are stored.
pub IsRouted-stored :
    (d : Db) (reads : List (Result GatewayError Bytes)) (r : Route)
    → IsRouted d reads r
    → (anyb (λ v. v.id == r.device_id) d.devices ≡ true)
      × (anyb (λ t. t.id == r.tunnel_id) d.tunnels ≡ true)
unfolding IsRouted
IsRouted-stored d reads r (host, j, _, served, _, _, _, tunnel, device) =
    let (vs, vs', v) = served.device_in in
    let (ts, ts', t) = served.tunnel_in in
    (
      rw v (
          anyb_of_IsIn (λ v. v.id == r.device_id) j.device vs vs'
            ((==_iff j.device.id r.device_id).1 (served.owner ∙ sym device))),
      rw t (
          anyb_of_IsIn (λ t. t.id == r.tunnel_id) j.tunnel ts ts'
            ((==_iff j.tunnel.id r.tunnel_id).1 (sym tunnel))),
    )
