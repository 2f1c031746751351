-- ===== src/Gateway/Tunnels/Listed.antt =====
-- Who sees the tunnels of crates/hackline-gateway/src/db/tunnels.rs.
use mathlib.Core.List.{reverse-cons}
use hackline.Prelude.{
  ℕ, ◌≡◌, ◌≢◌, refl, ap, sym, ◌∙◌, Bool, true, false, not, ◌&&◌, ◌||◌, List, [], ◌∷◌, ◌++◌, reverse,
  Option, none, some, anyb, find, filterb, ◌==◌, ==_iff, ==_refl, if◌then◌else◌, Bool-cases,
  Option-cases, inl, inr, arith, All,
}
use hackline.Prelude.Int.{ℤ}
use hackline.Prelude.Text.{Text, lit}
use hackline.Prelude.Outcome.{ok, ok_inj, err_ne_ok, Result-cases, then_ok, require}
use hackline.Gateway.Error.{db, check, unique, foreign_key}
use hackline.Gateway.Sql.{fresh}
use hackline.Gateway.Sql.Laws.{Distinct}
use hackline.Gateway.Schema.{User, Device, Tunnel, Db}
use hackline.Gateway.Devices.{get_in_org, owned_by}
use hackline.Gateway.Audit
use hackline.Gateway.Commands.{audited}
use hackline.Gateway.Tunnels.{
  TunnelWithZid, well_kinded, takes_hostname, takes_port, get, insert, belongs, list_in_org,
  CreateTunnel, added, create,
}

absent :
    (vs : List Device) (k n q : ℕ)
    → All (λ s. s.id ≢ k) vs
    → k ≡ n
    → anyb (λ v. v.id == n && v.org_id == q) vs ≡ false
absent [] k n q h e = refl
absent (v ∷ vs) k n q (apart, h) e = ground (arith, absent vs k n q h e)

any_of_find :
    {A : Type 0} (p : A → Bool) (rs : List A) (r : A) → find p rs ≡ some r → anyb p rs ≡ true
any_of_find p [] r e = absurd cc
any_of_find p (x ∷ rs) r e = elim (Bool-cases (p x)) [
  | inl t ↦ rw t refl
  | inr f ↦ rw f (any_of_find p rs r (rw f at e))
]

not_both : (n o p : ℕ) → o ≢ p → ((n == o) || false) ≡ true → ((n == p) || false) ≡ false
not_both n o p ne h = ground arith

-- A device has one organisation.
belongs_once :
    (devices : List Device) (o p : ℕ) (t : Tunnel)
    → Distinct (λ v. v.id) devices
    → belongs devices o t ≡ true
    → o ≢ p
    → belongs devices p t ≡ false
unfolding belongs
belongs_once [] o p t distinct h ne = refl
belongs_once (v ∷ vs) o p t (apart, distinct) h ne = elim (Bool-cases (v.id == t.device_id)) [
  | inl here ↦
      let gone = absent vs v.id t.device_id o apart ((==_iff v.id t.device_id).0 here) in
      let gone_too = absent vs v.id t.device_id p apart ((==_iff v.id t.device_id).0 here) in
      rw (here, gone_too) (not_both v.org_id o p ne (rw (here, gone) at h))
  | inr other ↦ rw other (belongs_once vs o p t distinct (rw other at h) ne)
]

-- The organisation that holds a device found by `get_in_org`.
get_in_org-belongs :
    (d : Db) (org_id id : ℕ) (v : Device) (t : Tunnel)
    → get_in_org d org_id id ≡ ok v
    → t.device_id ≡ id
    → belongs d.devices org_id t ≡ true
unfolding get_in_org belongs
get_in_org-belongs d org_id id v t h e = elim (Option-cases (find (owned_by org_id id) d.devices)) [
  | inl missing ↦ err_ne_ok (rw missing at h)
  | inr (u, found) ↦
      ap (λ k. anyb (owned_by org_id k) d.devices) e
      ∙ any_of_find (owned_by org_id id) d.devices u found
]

abbrev Inserted : Type 0
Inserted = Tunnel × Db

insert_ok :
    (d : Db) (device_id : ℕ) (kind : Text) (port : ℤ) (host : Option Text) (public : Option ℤ)
    (now : ℤ) (t : Tunnel) (d' : Db)
    → insert d device_id kind port host public now ≡ ok (t, d')
    → (d'.tunnels ≡ t ∷ d.tunnels)
      × (d'.devices ≡ d.devices)
      × (d'.orgs ≡ d.orgs)
      × (t.device_id ≡ device_id)
      × (t.enabled ≡ true)
unfolding insert get
insert_ok d device_id kind port host public now t d' h =
    let h4 = then_ok (require (anyb (λ v. v.id == device_id) d.devices) (db foreign_key)) _ (
      then_ok (require (not (anyb (takes_port public) d.tunnels)) (db unique)) _ (
        then_ok (require (not (anyb (takes_hostname host) d.tunnels)) (db unique)) _
          (then_ok (require (well_kinded kind host public) (db check)) _ h))) in
    let done = ok_inj (rw (==_refl (fresh (λ t. t.id) d.tunnels)) at h4) in
    (
      sym (ap (λ (y : Inserted). y.1.tunnels) done) ∙ ap (λ (y : Inserted). y.0 ∷ d.tunnels) done,
      sym (ap (λ (y : Inserted). y.1.devices) done),
      sym (ap (λ (y : Inserted). y.1.orgs) done),
      sym (ap (λ (y : Inserted). y.0.device_id) done),
      sym (ap (λ (y : Inserted). y.0.enabled) done),
    )

-- The audit row changes none of these tables.
pub audited_tables :
    (d : Db) (now : ℤ) (user device tunnel : Option ℕ) (action : Text) (detail : Option Text)
    → ((audited d (Audit.insert d now user device tunnel action detail)).tunnels ≡ d.tunnels)
      × ((audited d (Audit.insert d now user device tunnel action detail)).devices ≡ d.devices)
      × ((audited d (Audit.insert d now user device tunnel action detail)).orgs ≡ d.orgs)
unfolding Audit.insert
audited_tables d now user device tunnel action detail = (ground arith, ground arith, ground arith)

listed_cons :
    {A : Type 0} (p : A → Bool) (t : A) (ts : List A)
    → reverse (filterb p (t ∷ ts))
      ≡ (if p t then reverse (filterb p ts) ++ t ∷ [] else reverse (filterb p ts))
listed_cons p t ts = elim (Bool-cases (p t)) [
  | inl mine ↦ rw mine (reverse-cons t (filterb p ts))
  | inr other ↦ rw other refl
]

list_step :
    (d d' : Db) (t : Tunnel) (o : ℕ)
    → d'.tunnels ≡ t ∷ d.tunnels
    → d'.devices ≡ d.devices
    → list_in_org d' o
      ≡ (if belongs d.devices o t then list_in_org d o ++ t ∷ [] else list_in_org d o)
unfolding list_in_org
list_step d d' t o tunnels devices =
    ap (λ ts. reverse (filterb (belongs d'.devices o) ts)) tunnels
    ∙ ap (λ vs. reverse (filterb (belongs vs o) (t ∷ d.tunnels))) devices
    ∙ listed_cons (belongs d.devices o) t d.tunnels

abbrev Opened : Type 0
Opened = (Tunnel × Option TunnelWithZid) × Db

-- What an opened tunnel is, for the tables and for the event that is sent.
pub record IsOpened (d d' : Db) (caller : User) (device_id : ℕ) (t : Tunnel)
    (event : Option TunnelWithZid) : Type 0 where
  pub v : Device
  pub between : Db
  pub owned : get_in_org d caller.org_id device_id ≡ ok v
  pub device : t.device_id ≡ device_id
  pub enabled : t.enabled ≡ true
  pub tunnels : d'.tunnels ≡ t ∷ d.tunnels
  pub devices : d'.devices ≡ d.devices
  pub orgs : d'.orgs ≡ d.orgs
  pub same_devices : between.devices ≡ d.devices
  pub same_orgs : between.orgs ≡ d.orgs
  pub sent : event ≡ added between caller.org_id t t.public_port

pub create-IsOpened :
    (detail : Tunnel → Text) (d : Db) (caller : User) (body : CreateTunnel) (now : ℤ) (t : Tunnel)
    (event : Option TunnelWithZid) (d' : Db)
    → create detail d caller body now ≡ ok ((t, event), d')
    → IsOpened d d' caller body.device_id t event
unfolding create
create-IsOpened detail d caller body now t event d' h =
    elim (Result-cases (get_in_org d caller.org_id body.device_id)) [
      | inl (e, bad) ↦ err_ne_ok (rw bad at h)
      | inr (v, owned) ↦
          let h0 = rw owned at h in
          elim (Result-cases (
            insert d body.device_id body.kind body.local_port body.public_hostname body.public_port
              now)) [
                | inl (e, bad) ↦ err_ne_ok (rw bad at h0)
                | inr ((u, d1), inserted) ↦
                    let done = ok_inj (rw inserted at h0) in
                    let (tunnels, devices, orgs, device, enabled) =
                      insert_ok d body.device_id body.kind body.local_port body.public_hostname
                        body.public_port now u d1 inserted in
                    let kept =
                      audited_tables d1 now (some caller.id) none none (lit "tunnel.create")
                        (some (detail u)) in
                    let same_t : u ≡ t = ap (λ (y : Opened). y.0.0) done in
                    let same_d = ap (λ (y : Opened). y.1) done in
                    record {
                      v = v;
                      between = d1;
                      owned = owned;
                      device = sym (ap (λ (k : Tunnel). k.device_id) same_t) ∙ device;
                      enabled = sym (ap (λ (k : Tunnel). k.enabled) same_t) ∙ enabled;
                      tunnels =
                          sym (ap (λ (k : Db). k.tunnels) same_d)
                          ∙ kept.0
                          ∙ tunnels
                          ∙ ap (λ x. x ∷ d.tunnels) same_t;
                      devices = sym (ap (λ (k : Db). k.devices) same_d) ∙ kept.1 ∙ devices;
                      orgs = sym (ap (λ (k : Db). k.orgs) same_d) ∙ kept.2 ∙ orgs;
                      same_devices = devices;
                      same_orgs = orgs;
                      sent =
                          sym (ap (λ (y : Opened). y.0.1) done)
                          ∙ ap (λ (k : Tunnel). added d1 caller.org_id k k.public_port) same_t;
                    }
              ]
    ]

-- What a tunnel that is opened for a caller adds to the lists of the organisations.
unfoldable pub IsListed : Db → Db → ℕ → Tunnel → Type 0
IsListed d d' org_id t =
    (list_in_org d' org_id ≡ list_in_org d org_id ++ t ∷ [])
    × ((other : ℕ) → org_id ≢ other → list_in_org d' other ≡ list_in_org d other)

-- Where a device id names one device, a tunnel that is opened is listed last for its caller's
-- organisation, which owns the device, and for no other organisation.
pub create-IsListed :
    (detail : Tunnel → Text) (d : Db) (caller : User) (body : CreateTunnel) (now : ℤ) (t : Tunnel)
    (event : Option TunnelWithZid) (d' : Db)
    → Distinct (λ v. v.id) d.devices
    → create detail d caller body now ≡ ok ((t, event), d')
    → IsListed d d' caller.org_id t
unfolding IsListed
create-IsListed detail d caller body now t event d' distinct h =
    let o = create-IsOpened detail d caller body now t event d' h in
    let mine = get_in_org-belongs d caller.org_id body.device_id o.v t o.owned o.device in
    (
      list_step d d' t caller.org_id o.tunnels o.devices ∙ rw mine refl,
      λ other ne.
          list_step d d' t other o.tunnels o.devices
          ∙ rw (belongs_once d.devices caller.org_id other t distinct mine ne) refl,
    )
