-- ===== src/Gateway/Health.antt =====
-- crates/hackline-gateway/src/api/devices/health_probe.rs, health.rs and list_health.rs: whether a
-- device is online. The instants of the cache and the wall clock are arguments, and so is what a probe
-- of a key measures. The probes of a list, which run at once, are taken in its order.
pub mod Polled
use hackline.Prelude.{ℕ, Bool, true, false, ◌||◌, List, [], ◌∷◌, Option, none, some}
use hackline.Prelude.Int.{ℤ, pos, leb_ℤ, saturating_sub}
use hackline.Prelude.Text.{Text}
use hackline.Prelude.Chain.{◌>>=◌, to_option}
use hackline.Prelude.Outcome.{Result, ok, err}
use hackline.Proto.Zid
use hackline.Proto.Keyexpr.{health}
use hackline.Gateway.Error.{GatewayError}
use hackline.Gateway.Schema.{User, Device, Db}
use hackline.Gateway.Devices
use hackline.Gateway.Orgs
use hackline.Gateway.RttCache.{Key, RttCache}
use hackline.Gateway.RttCache

abbrev pub online_stale_secs : ℤ
online_stale_secs = pos 60

unfoldable pub online_from_last_seen : Option ℤ → ℤ → Bool
online_from_last_seen none now = false
online_from_last_seen (some seen) now = leb_ℤ (saturating_sub now seen) online_stale_secs

abbrev pub is_some : Option ℤ → Bool
is_some none = false
is_some (some _) = true

pub record DeviceHealth : Type 0 where
  pub online : Bool
  pub last_seen_at : Option ℤ
  pub rtt_ms : Option ℤ

pub record DeviceHealthEntry : Type 0 where
  pub device_id : ℕ
  pub online : Bool
  pub last_seen_at : Option ℤ
  pub rtt_ms : Option ℤ

module _ (liveliness : Text → Option ℤ) where
  -- A ZID that is not valid is no probe.
  unfoldable pub probe_rtt_ms : Text → Text → Option ℤ
  unfolding Zid.new
  probe_rtt_ms org_slug zid_str = do
    zid ← to_option (Zid.new zid_str)
    liveliness (health org_slug zid)

  unfoldable pub cached_rtt_ms : RttCache → ℕ → ℕ → ℕ → Text → Text → Option ℤ × RttCache
  unfolding probe_rtt_ms RttCache.put
  cached_rtt_ms c now org_id device_id org_slug zid_str =
      let key : Key = (org_id, device_id) in
      let measured = probe_rtt_ms org_slug zid_str in
      elim (RttCache.get c now key) [
        | some cached ↦ (cached, c)
        | none ↦ (measured, RttCache.put c now key measured)
      ]

  -- The handler of one device.
  unfoldable pub device_health :
      Db → User → RttCache → ℕ → ℤ → ℕ → Result GatewayError DeviceHealth × RttCache
  unfolding cached_rtt_ms online_from_last_seen Devices.get_in_org Orgs.get
  device_health d caller c now now_secs id = elim (Devices.get_in_org d caller.org_id id) [
    | err e ↦ (err e, c)
    | ok device ↦ elim (Orgs.get d caller.org_id) [
      | err e ↦ (err e, c)
      | ok org ↦
          let (rtt_ms, c') = cached_rtt_ms c now caller.org_id device.id org.slug device.zid in
          (
            ok (record {
              online = is_some rtt_ms || online_from_last_seen device.last_seen_at now_secs;
              last_seen_at = device.last_seen_at;
              rtt_ms = rtt_ms;
            }),
            c',
          )
    ]
  ]

  unfoldable pub entries_of :
      RttCache → ℕ → ℤ → ℕ → Text → List Device → List DeviceHealthEntry × RttCache
  unfolding cached_rtt_ms online_from_last_seen
  entries_of c now now_secs org_id org_slug [] = ([], c)
  entries_of c now now_secs org_id org_slug (v ∷ vs) =
      let (rtt_ms, c') = cached_rtt_ms c now org_id v.id org_slug v.zid in
      let (rest, c'') = entries_of c' now now_secs org_id org_slug vs in
      (
        record {
          device_id = v.id;
          online = is_some rtt_ms || online_from_last_seen v.last_seen_at now_secs;
          last_seen_at = v.last_seen_at;
          rtt_ms = rtt_ms;
        }
            ∷ rest,
        c'',
      )

  -- The handler of the collection.
  unfoldable pub list_health :
      Db → User → RttCache → ℕ → ℤ → Result GatewayError (List DeviceHealthEntry) × RttCache
  unfolding entries_of Devices.list_in_org Orgs.get
  list_health d caller c now now_secs = elim (Orgs.get d caller.org_id) [
    | err e ↦ (err e, c)
    | ok org ↦
        let (items, c') =
          entries_of c now now_secs caller.org_id org.slug (Devices.list_in_org d caller.org_id) in
        (ok items, c')
  ]
