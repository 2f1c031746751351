-- ===== src/Gateway/Liveliness/Presence.antt =====
-- What a liveliness token of crates/hackline-gateway/src/liveliness.rs does to its device.
use mathlib.Core.Path.{subst}
use hackline.Prelude.{
  ℕ, ◌≡◌, refl, ap, ◌∙◌, Bool, Option, none, some, anyb, find, ◌==◌, ==_refl, Bool-cases,
  Option-cases, inl, inr, if◌then◌else◌,
}
use hackline.Prelude.Int.{ℤ}
use hackline.Prelude.Text.{Text, text_eq, text_eq_refl, Lacks}
use hackline.Prelude.Outcome.{ok, ok_inj, err_ne_ok, Result-cases}
use hackline.Proto.Zid.{Zid}
use hackline.Proto.Zid.Laws.{IsCanonical}
use hackline.Proto.Keyexpr.{health}
use hackline.Proto.Keyexpr.RoundTrip.{parse_health_keyexpr-health}
use hackline.Gateway.Sql.{fresh}
use hackline.Gateway.Sql.Laws.{find-update, find_holds, map?}
use hackline.Gateway.Schema.{Org, Device, Db}
use hackline.Gateway.Orgs.{get_by_slug}
use hackline.Gateway.Devices.{registered, insert_row, seen_at, register, upsert_seen, mark_offline}
use hackline.Gateway.Liveliness.{put, delete, stamp, handle_sample}

-- The device of an organisation and an identifier, with the time at which it was last seen.
abbrev pub Seen : Db → ℕ → Text → Option ℤ → Type 0
Seen d org_id zid seen =
    (v : Device) × (find (registered org_id zid) d.devices ≡ some v) × (v.last_seen_at ≡ seen)

-- The database after a registration, beside the one before.
abbrev Registered : Db → ℕ → Text → ℤ → Db → Type 0
Registered d org_id zid now d' = Seen d' org_id zid (some now) × (d'.orgs ≡ d.orgs)

seen_at-Seen :
    (d : Db) (org_id : ℕ) (zid : Text) (seen : Option ℤ) (v : Device)
    → find (registered org_id zid) d.devices ≡ some v
    → Seen (seen_at d v.id seen) org_id zid seen
unfolding seen_at
seen_at-Seen d org_id zid seen v found = (
  (if v.id == v.id then record v { last_seen_at = seen } else v),
  find-update (registered org_id zid) (λ w. w.id == v.id) (λ w. record w { last_seen_at = seen })
        d.devices (λ r. refl)
      ∙ ap (map? (λ w. if w.id == v.id then record w { last_seen_at = seen } else w)) found,
  rw (==_refl v.id),
)

seen_at-orgs : (d : Db) (id : ℕ) (seen : Option ℤ) → (seen_at d id seen).orgs ≡ d.orgs
unfolding seen_at
seen_at-orgs d id seen = refl

insert_row-Seen :
    (d : Db) (org_id : ℕ) (zid : Text) (now : ℤ) (x : ℕ × Db)
    → insert_row d org_id zid zid now (some now) ≡ ok x
    → Registered d org_id zid now x.1
unfolding insert_row
insert_row-Seen d org_id zid now x h = elim (Bool-cases (anyb (λ v. text_eq v.zid zid) d.devices)) [
  | inl taken ↦ err_ne_ok (rw taken at h)
  | inr free ↦ elim (Bool-cases (anyb (λ o. o.id == org_id) d.orgs)) [
    | inr orphan ↦ err_ne_ok (rw (free, orphan) at h)
    | inl owned ↦
        subst (λ (y : ℕ × Db). Registered d org_id zid now y.1) (ok_inj (rw (free, owned) at h))
          (
            (
              record {
                id = fresh (λ v. v.id) d.devices;
                org_id = org_id;
                zid = zid;
                label = zid;
                customer_id = none;
                created_at = now;
                last_seen_at = some now;
              },
              rw (==_refl org_id, text_eq_refl zid) refl,
              refl,
            ),
            refl,
          )
  ]
]

upsert_seen-Seen :
    (d d' : Db) (org_id : ℕ) (zid : Text) (now : ℤ) (x : ℕ × Bool)
    → upsert_seen d org_id zid now ≡ ok (x, d')
    → Registered d org_id zid now d'
unfolding upsert_seen register
upsert_seen-Seen d d' org_id zid now x h =
    elim (Option-cases (find (registered org_id zid) d.devices)) [
      | inr (v, found) ↦
          subst (λ (y : (ℕ × Bool) × Db). Registered d org_id zid now y.1) (ok_inj (rw found at h))
            (seen_at-Seen d org_id zid (some now) v found, seen_at-orgs d v.id (some now))
      | inl new ↦
          let h0 = rw new at h in
          elim (Result-cases (insert_row d org_id zid zid now (some now))) [
            | inl (e, p) ↦ err_ne_ok (rw p at h0)
            | inr (y, p) ↦
                subst (λ (z : (ℕ × Bool) × Db). Registered d org_id zid now z.1)
                  (ok_inj (rw p at h0)) (insert_row-Seen d org_id zid now y p)
          ]
    ]

mark_offline-Seen :
    (d : Db) (org_id : ℕ) (zid : Text) (seen : Option ℤ)
    → Seen d org_id zid seen
    → Seen (mark_offline d org_id zid) org_id zid none
unfolding mark_offline
mark_offline-Seen d org_id zid seen (v, found, _) = (
  (if registered org_id zid v then record v { last_seen_at = none } else v),
  find-update (registered org_id zid) (registered org_id zid)
        (λ w. record w { last_seen_at = none }) d.devices (λ r. refl)
      ∙ ap (map? (λ w. if registered org_id zid w then record w { last_seen_at = none } else w))
          found,
  rw (find_holds (registered org_id zid) d.devices v found),
)

mark_offline-orgs : (d : Db) (org_id : ℕ) (zid : Text) → (mark_offline d org_id zid).orgs ≡ d.orgs
unfolding mark_offline
mark_offline-orgs d org_id zid = refl

same_slugs : (d d' : Db) (slug : Text) → d'.orgs ≡ d.orgs → get_by_slug d' slug ≡ get_by_slug d slug
unfolding get_by_slug
same_slugs d d' slug h = rw h

accepted :
    (d d' : Db) (org_id : ℕ) (zid : Text) (now : ℤ)
    → stamp d org_id zid now put ≡ ok d'
    → Registered d org_id zid now d'
unfolding stamp
accepted d d' org_id zid now h = elim (Result-cases (upsert_seen d org_id zid now)) [
  | inl (e, p) ↦ err_ne_ok (rw p at h)
  | inr ((x, d1), p) ↦
      subst (Registered d org_id zid now) (ok_inj (rw p at h))
        (upsert_seen-Seen d d1 org_id zid now x p)
]

-- Take a token under a health key, where the organisation holds no slash and is known, and the
-- device identifier is canonical. Once its declaration is accepted the device is there, in that
-- organisation, and was seen at that time, whether it was known before or not. Its retraction is
-- then accepted, and the device counts as not seen. Neither makes an organisation.
pub handle_sample-Seen :
    (d d' : Db) (org : Text) (zid : Zid) (o : Org) (now later : ℤ)
    → Lacks b'/' org
    → IsCanonical zid.as_str
    → get_by_slug d org ≡ some o
    → handle_sample d (health org zid) put now ≡ ok d'
    → Seen d' o.id zid.as_str (some now)
      × (d'.orgs ≡ d.orgs)
      × ((d'' : Db) × (handle_sample d' (health org zid) delete later ≡ ok d'')
          × Seen d'' o.id zid.as_str none
          × (d''.orgs ≡ d.orgs))
unfolding handle_sample stamp
handle_sample-Seen d d' org zid o now later h c known done =
    let back = parse_health_keyexpr-health org zid h c in
    let h0 = rw (back, known) at done in
    let (seen, same) = accepted d d' o.id zid.as_str now h0 in
    (
      seen,
      same,
      (
        mark_offline d' o.id zid.as_str,
        rw (back, same_slugs d d' org same, known),
        mark_offline-Seen d' o.id zid.as_str (some now) seen,
        mark_offline-orgs d' o.id zid.as_str ∙ same,
      ),
    )
