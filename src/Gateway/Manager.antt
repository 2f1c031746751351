-- ===== src/Gateway/Manager.antt =====
-- crates/hackline-gateway/src/tunnel/manager.rs: the listeners that the manager starts, from the
-- tunnels in the database and then from the events of the API. `binds` says whether the system lets a
-- listener bind its port among those that listen; a listener that cannot is logged and gone.
pub mod Started
use hackline.Prelude.{
  ℕ, Bool, true, false, ◌&&◌, List, [], ◌∷◌, ◌++◌, reverse, Option, none, some, find, filter_map,
  ◌==◌, if◌then◌else◌,
}
use hackline.Prelude.Text.{Text, lit, text_eq}
use hackline.Prelude.Chain.{◌>>=◌}
use hackline.Prelude.Outcome.{Result, ok, err}
use hackline.Proto.Zid.{Zid}
use hackline.Proto.Zid
use hackline.Gateway.Schema.{Org, Device, Tunnel, Db}
use hackline.Gateway.HttpRouter.Route.{as_u16}
use hackline.Gateway.Tunnels.{TunnelWithZid}

-- A row of the join of `list_active_tcp`, if the tunnel meets its WHERE clause.
unfoldable pub active_row : List Device → List Org → Tunnel → Option TunnelWithZid
unfolding as_u16
active_row devices orgs t =
    if t.enabled && text_eq t.kind (lit "tcp")
    then (do
      port ← t.public_port
      v ← find (λ v. v.id == t.device_id) devices
      o ← find (λ o. o.id == v.org_id) orgs
      some (record {
        id = t.id;
        device_id = t.device_id;
        zid = v.zid;
        org_slug = o.slug;
        kind = t.kind;
        local_port = as_u16 t.local_port;
        public_port = as_u16 port;
        enabled = t.enabled;
      }))
    else none

unfoldable pub list_active_tcp : Db → List TunnelWithZid
unfolding active_row
list_active_tcp d = filter_map (active_row d.devices d.orgs) (reverse d.tunnels)

pub data TunnelEvent : Type 0 where
  added : TunnelWithZid → TunnelEvent
  removed : ℕ → TunnelEvent

-- What `run_tcp_listener` is started with.
pub record Listener : Type 0 where
  pub tunnel_id : ℕ
  pub device_id : ℕ
  pub org_slug : Text
  pub zid : Zid
  pub device_port : ℕ
  pub listen_port : ℕ

module _ (binds : List Listener → ℕ → Bool) where
  -- `spawn_listener`, up to the bind of its task: a tunnel whose ZID is not valid is passed over.
  unfoldable pub spawn_listener : List Listener → TunnelWithZid → List Listener
  unfolding Zid.new
  spawn_listener live t = elim (Zid.new t.zid) [
    | err _ ↦ live
    | ok zid ↦
        if binds live t.public_port
        then live
          ++ record {
            tunnel_id = t.id;
            device_id = t.device_id;
            org_slug = t.org_slug;
            zid = zid;
            device_port = t.local_port;
            listen_port = t.public_port;
          }
            ∷ []
        else live
  ]

  unfoldable pub spawn_all : List Listener → List TunnelWithZid → List Listener
  unfolding spawn_listener
  spawn_all live [] = live
  spawn_all live (t ∷ ts) = spawn_all (spawn_listener live t) ts

  -- The loop over the events.
  unfoldable pub watch : List Listener → List TunnelEvent → List Listener
  unfolding spawn_listener
  watch live [] = live
  watch live (added t ∷ events) = watch (spawn_listener live t) events
  watch live (removed id ∷ events) = watch live events

  unfoldable pub run : Db → List TunnelEvent → List Listener
  unfolding list_active_tcp spawn_all watch
  run d events = watch (spawn_all [] (list_active_tcp d)) events
