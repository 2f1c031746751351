-- ===== src/Gateway/Devices/Isolation.antt =====
-- What crates/hackline-gateway/src/db/devices.rs keeps apart, and what a registration leaves.
use hackline.Prelude.{
  ℕ, ◌≡◌, ◌≢◌, refl, ap, ◌∙◌, Bool, true, false, List, [], ◌∷◌, Option, none, some, anyb, find,
  arith, ◌==◌, ==_iff, ==_refl, Bool-cases, Option-cases, ◌⊎◌, inl, inr, if◌then◌else◌,
}
use mathlib.Core.Path.{subst}
use hackline.Prelude.Int.{ℤ}
use hackline.Prelude.Text.{Text, text_eq, text_eq_refl}
use hackline.Prelude.Outcome.{ok, err, ok_inj, err_ne_ok, Result-cases}
use hackline.Gateway.Error.{not_found}
use hackline.Gateway.Sql.{fresh, delete_where}
use hackline.Gateway.Sql.Laws.{find-update, map?}
use hackline.Gateway.Ring.{rows_of}
use hackline.Gateway.Schema.{Device, Tunnel, EventRow, LogRow, CmdRow, Db}
use hackline.Gateway.Devices.{
  owned_by, get_in_org, insert_row, cascade, delete_in_org, registered, seen_at, register,
  upsert_seen,
}

module _ {A : Type 0} (device : A → ℕ) where
  -- Rows that go with a device are all gone, and the others stay.
  none_left :
      (id : ℕ) (rows : List A) → rows_of device id (delete_where (λ r. device r == id) rows) ≡ []
  none_left id [] = refl
  none_left id (r ∷ rows) = ground (arith, none_left id rows)

  others_left :
      (id e : ℕ) (rows : List A)
      → e ≢ id
      → rows_of device e (delete_where (λ r. device r == id) rows) ≡ rows_of device e rows
  others_left id e [] n = refl
  others_left id e (r ∷ rows) n = ground (arith, others_left id e rows n)

-- The tables of one device in two databases.
abbrev pub SameTables : ℕ → Db → Db → Type 0
SameTables e d d' =
    (rows_of (λ (r : Tunnel). r.device_id) e d'.tunnels ≡ rows_of (λ r. r.device_id) e d.tunnels)
    × (rows_of (λ (r : EventRow). r.device_id) e d'.events ≡ rows_of (λ r. r.device_id) e d.events)
    × (rows_of (λ (r : LogRow). r.device_id) e d'.logs ≡ rows_of (λ r. r.device_id) e d.logs)
    × (rows_of (λ (r : CmdRow). r.device_id) e d'.cmd_outbox
        ≡ rows_of (λ r. r.device_id) e d.cmd_outbox)
    × (rows_of (λ (r : Device). r.id) e d'.devices ≡ rows_of (λ r. r.id) e d.devices)

abbrev pub NoTables : ℕ → Db → Type 0
NoTables e d =
    (rows_of (λ (r : Tunnel). r.device_id) e d.tunnels ≡ [])
    × (rows_of (λ (r : EventRow). r.device_id) e d.events ≡ [])
    × (rows_of (λ (r : LogRow). r.device_id) e d.logs ≡ [])
    × (rows_of (λ (r : CmdRow). r.device_id) e d.cmd_outbox ≡ [])
    × (rows_of (λ (r : Device). r.id) e d.devices ≡ [])

cascade-tables :
    (d : Db) (id e : ℕ)
    → ((e ≡ id) × NoTables e (cascade d id)) ⊎ ((e ≢ id) × SameTables e d (cascade d id))
unfolding cascade
cascade-tables d id e = elim (Bool-cases (e == id)) [
  | inl same ↦
      let p : e ≡ id = (==_iff e id).0 same in
      inl (
        p,
        rw p (
          none_left _ id d.tunnels,
          none_left _ id d.events,
          none_left _ id d.logs,
          none_left _ id d.cmd_outbox,
          none_left _ id d.devices,
        ),
      )
  | inr other ↦
      let n : e ≢ id = ground (arith, ==_iff e id) in
      inr (
        n,
        (
          others_left _ id e d.tunnels n,
          others_left _ id e d.events n,
          others_left _ id e d.logs n,
          others_left _ id e d.cmd_outbox n,
          others_left _ id e d.devices n,
        ),
      )
]

pub anyb_of_found :
    (p : Device → Bool) (rs : List Device) (v : Device) → find p rs ≡ some v → anyb p rs ≡ true
anyb_of_found p [] v h = cc
anyb_of_found p (r ∷ rs) v h = ground (arith, anyb_of_found p rs v)

anyb_of_missing : (p : Device → Bool) (rs : List Device) → find p rs ≡ none → anyb p rs ≡ false
anyb_of_missing p [] h = refl
anyb_of_missing p (r ∷ rs) h = ground (arith, anyb_of_missing p rs)

pub delete_found :
    (d : Db) (org_id id : ℕ) (v : Device)
    → find (owned_by org_id id) d.devices ≡ some v
    → delete_in_org d org_id id ≡ (true, cascade d id)
unfolding delete_in_org
delete_found d org_id id v found = rw (anyb_of_found (owned_by org_id id) d.devices v found)

-- A deletion touches no device but its own, and not even that one for another organisation: either
-- the device is not in the caller's organisation and nothing changes, or it is gone with its
-- tunnels, events, logs and commands. Every other device keeps all of these.
pub delete_in_org-tables :
    (d : Db) (org_id id e : ℕ)
    → let answer = delete_in_org d org_id id in
      ((get_in_org d org_id id ≡ err not_found) × (answer ≡ (false, d)))
      ⊎ (((v : Device) × (get_in_org d org_id id ≡ ok v))
          × (answer.0 ≡ true)
          × (((e ≡ id) × NoTables e answer.1) ⊎ ((e ≢ id) × SameTables e d answer.1)))
unfolding delete_in_org get_in_org
delete_in_org-tables d org_id id e = elim (Option-cases (find (owned_by org_id id) d.devices)) [
  | inl missing ↦ inl (rw missing, rw (anyb_of_missing (owned_by org_id id) d.devices missing))
  | inr (v, found) ↦ inr (
    (v, rw found),
    ap (λ (x : Bool × Db). x.0) (delete_found d org_id id v found),
    rw (delete_found d org_id id v found) (cascade-tables d id e),
  )
]

again_of_found :
    (d : Db) (org_id : ℕ) (zid : Text) (later : ℤ) (id : ℕ) (w : Device)
    → find (registered org_id zid) d.devices ≡ some w
    → w.id ≡ id
    → upsert_seen d org_id zid later ≡ ok ((id, false), seen_at d id (some later))
unfolding upsert_seen register
again_of_found d org_id zid later id w found same = rw (found, same)

seen_again :
    (d : Db) (org_id : ℕ) (zid : Text) (seen : Option ℤ) (later : ℤ) (v : Device)
    → find (registered org_id zid) d.devices ≡ some v
    → upsert_seen (seen_at d v.id seen) org_id zid later
      ≡ ok ((v.id, false), seen_at (seen_at d v.id seen) v.id (some later))
unfolding seen_at
seen_again d org_id zid seen later v found =
    again_of_found (seen_at d v.id seen) org_id zid later v.id _
      (find-update (registered org_id zid) (λ w. w.id == v.id)
          (λ w. record w { last_seen_at = seen }) d.devices (λ r. refl)
        ∙ ap (map? (λ w. if w.id == v.id then record w { last_seen_at = seen } else w)) found)
      (rw (==_refl v.id))

-- The database and the answer of a registration, as the next one finds them.
abbrev Again : ℕ → Text → ℤ → (ℕ × Bool) × Db → Type 0
Again org_id zid later ((id, fresh?), d) =
    upsert_seen d org_id zid later ≡ ok ((id, false), seen_at d id (some later))

abbrev new_device : Db → ℕ → Text → ℤ → Device
new_device d org_id zid now = record {
  id = fresh (λ v. v.id) d.devices;
  org_id = org_id;
  zid = zid;
  label = zid;
  customer_id = none;
  created_at = now;
  last_seen_at = some now;
}

first-Again :
    (d : Db) (org_id : ℕ) (zid : Text) (now later : ℤ)
    → Again org_id zid later (
      (fresh (λ v. v.id) d.devices, true),
      record d { devices = new_device d org_id zid now ∷ d.devices },
    )
first-Again d org_id zid now later =
    again_of_found (record d { devices = new_device d org_id zid now ∷ d.devices }) org_id zid later
      (fresh (λ v. v.id) d.devices) (new_device d org_id zid now)
      (rw (==_refl org_id, text_eq_refl zid)) refl

new_again :
    (d d' : Db) (org_id id : ℕ) (zid : Text) (now later : ℤ)
    → insert_row d org_id zid zid now (some now) ≡ ok (id, d')
    → upsert_seen d' org_id zid later ≡ ok ((id, false), seen_at d' id (some later))
unfolding insert_row
new_again d d' org_id id zid now later h =
    elim (Bool-cases (anyb (λ v. text_eq v.zid zid) d.devices)) [
      | inl taken ↦ err_ne_ok (rw taken at h)
      | inr free ↦ elim (Bool-cases (anyb (λ o. o.id == org_id) d.orgs)) [
        | inr orphan ↦ err_ne_ok (rw (free, orphan) at h)
        | inl owned ↦
            let done = ok_inj (rw (free, owned) at h) in
            subst
              (λ (x : ℕ × Db).
                upsert_seen x.1 org_id zid later ≡ ok ((x.0, false), seen_at x.1 x.0 (some later)))
              done (first-Again d org_id zid now later)
      ]
    ]

-- A device that has registered is found again: the next registration under the same organisation
-- and identifier answers with the same device, makes none, and stamps the time.
pub upsert_seen-again :
    (d d' : Db) (org_id id : ℕ) (zid : Text) (now later : ℤ) (fresh? : Bool)
    → upsert_seen d org_id zid now ≡ ok ((id, fresh?), d')
    → upsert_seen d' org_id zid later ≡ ok ((id, false), seen_at d' id (some later))
unfolding upsert_seen register
upsert_seen-again d d' org_id id zid now later fresh? h =
    elim (Option-cases (find (registered org_id zid) d.devices)) [
      | inl new ↦
          let h0 = rw new at h in
          elim (Result-cases (insert_row d org_id zid zid now (some now))) [
            | inl (e, p) ↦ err_ne_ok (rw p at h0)
            | inr ((n, d1), p) ↦
                subst (Again org_id zid later) (ok_inj (rw p at h0))
                  (new_again d d1 org_id n zid now later p)
          ]
      | inr (v, found) ↦
          subst (Again org_id zid later) (ok_inj (rw found at h))
            (seen_again d org_id zid (some now) later v found)
    ]
