-- ===== src/Gateway/Health/Polled.antt =====
-- When crates/hackline-gateway/src/api/devices reports a device online, and how often it asks.
use hackline.Prelude.{
  ℕ, ◌+◌, ◌-◌, ◌≤◌, All, ◌≡◌, refl, ap, sym, ◌∙◌, ◌↔◌, ◌⊎◌, true, Option, none, some, leb, arith,
}
use hackline.Prelude.Int.{ℤ, pos_part, neg_part}
use hackline.Prelude.Text.{Text}
use hackline.Prelude.Outcome.{Result, ok, err}
use hackline.Gateway.Error.{GatewayError}
use hackline.Gateway.Sql.Laws.{Distinct}
use hackline.Gateway.Schema.{Org, Device}
use hackline.Gateway.Devices
use hackline.Gateway.Orgs
use hackline.Proto.Zid
use hackline.Proto.Zid.{Zid, ProtoError}
use hackline.Proto.Keyexpr.{health}
use hackline.Gateway.HttpRouter.Route.Served.{IsIn}
use hackline.Gateway.RttCache.{Key, Entry, RttCache}
use hackline.Gateway.RttCache
use hackline.Gateway.RttCache.Hits.{get-put}
use hackline.Gateway.RttCache.Found.{Answers, IsStale}
use hackline.Gateway.Health.{is_some, DeviceHealth, probe_rtt_ms, cached_rtt_ms}

-- At most so many seconds before now, on the integers.
abbrev pub Within : ℕ → ℤ → ℤ → Type 0
Within secs now seen = pos_part now + neg_part seen ≤ pos_part seen + neg_part now + secs

-- Seen at most a minute before now.
abbrev pub Recent : ℤ → Option ℤ → Type 0
Recent now seen_at = (seen : ℤ) × (seen_at ≡ some seen) × Within 60 now seen

abbrev answer : Result GatewayError DeviceHealth × RttCache → Result GatewayError DeviceHealth
answer x = x.0

answered :
    (liveliness : Text → Option ℤ) (c : RttCache) (now org_id device_id : ℕ) (slug zid : Text)
    (cached : Option ℤ)
    → RttCache.get c now (org_id, device_id) ≡ some cached
    → cached_rtt_ms liveliness c now org_id device_id slug zid ≡ (cached, c)
unfolding cached_rtt_ms
answered liveliness c now org_id device_id slug zid cached hit = rw (hit, cached_rtt_ms) refl

module _ (liveliness : Text → Option ℤ) where
  -- What a probe of a device measures: what its health key answers, and nothing of a bad identifier.
  abbrev pub Probes : Text → Text → Option ℤ → Type 0
  Probes slug zid rtt =
      ((z : Zid) × (Zid.new zid ≡ ok z) × (rtt ≡ liveliness (health slug z)))
      ⊎ ((e : ProtoError) × (Zid.new zid ≡ err e) × (rtt ≡ none))

  -- Where a round trip comes from: an entry that answers, or a probe where no entry does.
  abbrev pub Measures : RttCache → ℕ → Key → Text → Text → Option ℤ → Type 0
  Measures c now key slug zid rtt =
      ((e : Entry) × IsIn e c.entries × Answers c.ttl now key e × (e.rtt_ms ≡ rtt))
      ⊎ (All (IsStale c.ttl now key) c.entries × Probes slug zid rtt)

  -- What a report shows of its device.
  abbrev pub Shows : RttCache → ℕ → Org → ℤ → ℕ → Device → DeviceHealth → Type 0
  Shows c now o now_secs org_id v h =
      (h.last_seen_at ≡ v.last_seen_at)
      × Measures c now (org_id, v.id) o.slug v.zid h.rtt_ms
      × ((h.online ≡ true) ↔ ((is_some h.rtt_ms ≡ true) ⊎ Recent now_secs h.last_seen_at))

  probed :
      (c : RttCache) (now org_id device_id : ℕ) (slug zid : Text)
      → RttCache.get c now (org_id, device_id) ≡ none
      → cached_rtt_ms liveliness c now org_id device_id slug zid ≡ (
        probe_rtt_ms liveliness slug zid,
        RttCache.put c now (org_id, device_id) (probe_rtt_ms liveliness slug zid),
      )
  unfolding cached_rtt_ms
  probed c now org_id device_id slug zid missed = rw (missed, cached_rtt_ms) refl

  -- After a poll that the cache did not answer, in a cache with one entry for each key, every poll of the
  -- same device within the time of the cache gives the same answer, a failed probe included, whatever a
  -- probe would measure by then, and leaves the cache as it is.
  pub cached_rtt_ms-again :
      (later_liveliness : Text → Option ℤ) (c : RttCache) (now later org_id device_id : ℕ)
      (slug zid slug' zid' : Text)
      → now ≤ later
      → later - now ≤ c.ttl
      → Distinct (λ (e : Entry). e.key) c.entries
      → RttCache.get c now (org_id, device_id) ≡ none
      → let first = cached_rtt_ms liveliness c now org_id device_id slug zid in
        (first.0 ≡ probe_rtt_ms liveliness slug zid)
        × (cached_rtt_ms later_liveliness first.1 later org_id device_id slug' zid' ≡ first)
  cached_rtt_ms-again later_liveliness c now later org_id device_id slug zid slug' zid' after soon
        distinct missed =
      let measured = probe_rtt_ms liveliness slug zid in
      let (stored, _, _) =
        get-put c now later (org_id, device_id) (org_id, device_id) measured after distinct in
      let in_time : leb (later - now) c.ttl ≡ true = ground arith in
      let hit : RttCache.get (RttCache.put c now (org_id, device_id) measured) later
            (org_id, device_id)
          ≡ some measured =
        rw in_time at stored in
      let asked = probed c now org_id device_id slug zid missed in
      (
        ap (λ (x : Option ℤ × RttCache). x.0) asked,
        ap
              (λ (x : Option ℤ × RttCache).
                cached_rtt_ms later_liveliness x.1 later org_id device_id slug' zid')
              asked
            ∙ answered later_liveliness (RttCache.put c now (org_id, device_id) measured) later
                org_id device_id slug' zid' measured hit
            ∙ sym asked,
      )
