-- ===== src/Gateway/Manager/Started.antt =====
-- The manager and the API: what an event starts is what a restart would start.
use mathlib.Core.List.{reverse-cons}
use hackline.Prelude.{
  ℕ, ◌≡◌, refl, ap, sym, ◌∙◌, Bool, true, List, [], ◌∷◌, ◌++◌, reverse, Option, none, some, find,
  filter_map, filter_map-last, to_list, ◌==◌, Bool-cases, inl, inr,
}
use hackline.Prelude.Int.{ℤ}
use hackline.Prelude.Text.{Text, lit, text_eq, text_eq_iff}
use hackline.Prelude.Outcome.{ok, ok_or}
use hackline.Gateway.Error.{not_found}
use hackline.Gateway.Sql.Laws.{Distinct}
use hackline.Gateway.Devices.{owned_by, get_in_org}
use hackline.Gateway.Devices.Owned.{find-owned, get_in_org-found}
use hackline.Gateway.Tunnels
use hackline.Gateway.Tunnels.Listed.{create-IsOpened}
use hackline.Gateway.Schema.{Org, User, Device, Tunnel, Db}
use hackline.Gateway.Tunnels.{TunnelWithZid, CreateTunnel, with_slug, create}
use hackline.Gateway.Manager.{
  active_row, list_active_tcp, TunnelEvent, added, removed, Listener, spawn_listener, spawn_all,
  watch, run,
}

-- The event of an API call, if it sends one.
abbrev pub sent : Option TunnelWithZid → List TunnelEvent
sent none = []
sent (some t) = added t ∷ []

module _ (binds : List Listener → ℕ → Bool) where
  spawn_all-append :
      (live : List Listener) (ts us : List TunnelWithZid)
      → spawn_all binds live (ts ++ us) ≡ spawn_all binds (spawn_all binds live ts) us
  unfolding spawn_all
  spawn_all-append live [] us = refl
  spawn_all-append live (t ∷ ts) us = spawn_all-append (spawn_listener binds live t) ts us

  watch-append :
      (live : List Listener) (es fs : List TunnelEvent)
      → watch binds live (es ++ fs) ≡ watch binds (watch binds live es) fs
  unfolding watch
  watch-append live [] fs = refl
  watch-append live (added t ∷ es) fs = watch-append (spawn_listener binds live t) es fs
  watch-append live (removed id ∷ es) fs = watch-append live es fs

  watch-sent :
      (live : List Listener) (o : Option TunnelWithZid)
      → watch binds live (sent o) ≡ spawn_all binds live (to_list o)
  unfolding watch spawn_all
  watch-sent live none = refl
  watch-sent live (some t) = refl

-- The event of a tunnel, and its row in the join, over the same device and organisations.
event_is-active_row :
    (d d' : Db) (org_id : ℕ) (t : Tunnel) (v : Device) (port : Option ℤ) (owner : Option Org)
    → get_in_org d org_id t.device_id ≡ ok v
    → find (λ o. o.id == v.org_id) d.orgs ≡ owner
    → find (λ v. v.id == t.device_id) d'.devices ≡ some v
    → find (λ o. o.id == v.org_id) d'.orgs ≡ owner
    → t.enabled ≡ true
    → t.public_port ≡ port
    → Tunnels.added d org_id t port ≡ active_row d'.devices d'.orgs t
unfolding Tunnels.added with_slug active_row
event_is-active_row d d' org_id t v none owner owned org found org' enabled public =
    elim (Bool-cases (text_eq t.kind (lit "tcp"))) [
      | inl tcp ↦ rw (enabled, tcp, public) refl
      | inr other ↦ rw (enabled, other) refl
    ]
event_is-active_row d d' org_id t v (some port) none owned org found org' enabled public =
    elim (Bool-cases (text_eq t.kind (lit "tcp"))) [
      | inl tcp ↦ rw (owned, Tunnels.added, tcp, org, enabled, public, found, org') refl
      | inr other ↦ rw (owned, Tunnels.added, enabled, other) refl
    ]
event_is-active_row d d' org_id t v (some port) (some o) owned org found org' enabled public =
    elim (Bool-cases (text_eq t.kind (lit "tcp"))) [
      | inl tcp ↦
          let kind = (text_eq_iff t.kind (lit "tcp")).0 tcp in
          rw (owned, Tunnels.added, tcp, org, enabled, public, found, org', kind) refl
      | inr other ↦ rw (owned, Tunnels.added, enabled, other) refl
    ]

active_row_same :
    (vs ws : List Device) (os ps : List Org)
    → vs ≡ ws
    → os ≡ ps
    → active_row vs os ≡ active_row ws ps
active_row_same vs ws os ps e f = ap (λ k. active_row k os) e ∙ ap (λ k. active_row ws k) f

-- What a tunnel that is opened adds to the tunnels that a start of the manager takes up.
list_active_tcp-create :
    (detail : Tunnel → Text) (d : Db) (caller : User) (body : CreateTunnel) (now : ℤ) (t : Tunnel)
    (event : Option TunnelWithZid) (d' : Db)
    → Distinct (λ v. v.id) d.devices
    → create detail d caller body now ≡ ok ((t, event), d')
    → list_active_tcp d' ≡ list_active_tcp d ++ to_list event
unfolding list_active_tcp get_in_org
list_active_tcp-create detail d caller body now t event d' distinct h =
    let o = create-IsOpened detail d caller body now t event d' h in
    let found =
      find-owned d.devices caller.org_id body.device_id o.v distinct
        (get_in_org-found d caller.org_id body.device_id o.v o.owned) in
    let mine : get_in_org o.between caller.org_id t.device_id ≡ ok o.v =
      ap (λ vs. ok_or (find (owned_by caller.org_id t.device_id) vs) not_found) o.same_devices
      ∙ ap (λ k. get_in_org d caller.org_id k) o.device
      ∙ o.owned in
    let there : find (λ v. v.id == t.device_id) d'.devices ≡ some o.v =
      ap (find (λ v. v.id == t.device_id)) o.devices
      ∙ ap (λ k. find (λ v. v.id == k) d.devices) o.device
      ∙ found in
    let started : event ≡ active_row d'.devices d'.orgs t =
      o.sent
      ∙ event_is-active_row o.between d' caller.org_id t o.v t.public_port
          (find (λ k. k.id == o.v.org_id) d.orgs) mine
          (ap (find (λ k. k.id == o.v.org_id)) o.same_orgs) there
          (ap (find (λ k. k.id == o.v.org_id)) o.orgs) o.enabled refl in
    ap (λ ts. filter_map (active_row d'.devices d'.orgs) (reverse ts)) o.tunnels
    ∙ ap (filter_map (active_row d'.devices d'.orgs)) (reverse-cons t d.tunnels)
    ∙ filter_map-last (active_row d'.devices d'.orgs) (reverse d.tunnels) t
    ∙ ap (λ x. filter_map (active_row d'.devices d'.orgs) (reverse d.tunnels) ++ to_list x)
        (sym started)
    ∙ ap (λ f. filter_map f (reverse d.tunnels) ++ to_list event)
        (active_row_same d'.devices d.devices d'.orgs d.orgs o.devices o.orgs)

module _ (binds : List Listener → ℕ → Bool) where
  -- Where a device id names one device: if the manager, after the events it has had since it started
  -- on some earlier database, has just the listeners that it would have if it started now, then so it
  -- is after a tunnel is opened and the event of that call, if there is one, has come.
  pub create-reconciles :
      (before : Db) (events : List TunnelEvent) (detail : Tunnel → Text) (d : Db) (caller : User)
      (body : CreateTunnel) (now : ℤ) (t : Tunnel) (event : Option TunnelWithZid) (d' : Db)
      → Distinct (λ v. v.id) d.devices
      → run binds before events ≡ run binds d []
      → create detail d caller body now ≡ ok ((t, event), d')
      → run binds before (events ++ sent event) ≡ run binds d' []
  unfolding run watch
  create-reconciles before events detail d caller body now t event d' distinct same h =
      watch-append binds (spawn_all binds [] (list_active_tcp before)) events (sent event)
      ∙ ap (λ live. watch binds live (sent event)) same
      ∙ watch-sent binds (spawn_all binds [] (list_active_tcp d)) event
      ∙ sym (spawn_all-append binds [] (list_active_tcp d) (to_list event))
      ∙ ap (spawn_all binds [])
          (sym (list_active_tcp-create detail d caller body now t event d' distinct h))
