-- ===== src/Gateway/Commands/Tenancy.antt =====
-- The cross-organisation gate of crates/hackline-gateway/src/api/cmd.
use hackline.Prelude.{
  ℕ, ◌≡◌, ◌≢◌, ◌==◌, refl, ap, sym, ◌∙◌, some_inj, List, Option, some, find, arith, Option-cases,
  inl, inr,
}
use hackline.Prelude.Int.{ℤ}
use hackline.Prelude.Text.{Text}
use hackline.Prelude.Outcome.{Result, ok, err, ◌>>=◌, ◌>>◌, ok_inj, err_ne_ok, Result-cases}
use hackline.Gateway.Error.{GatewayError, not_found}
use hackline.Gateway.Sql.Laws.{Distinct, find_holds}
use hackline.Gateway.Devices.Owned.{find-owned}
use hackline.Gateway.Schema.{User, CmdRow, Device, Db}
use hackline.Gateway.Scope.{Scopes, check_device}
use hackline.Gateway.Devices.{get_in_org, owned_by}
use hackline.Gateway.Outbox.{get_by_cmd_id}
use hackline.Gateway.Commands.{AppState, SendCmd, send, cancel_cmd, list}

-- The user may operate on the device, which is one of its organisation.
abbrev pub Admits : Scopes → Db → User → ℕ → Type 0
Admits from_str d user device_id =
    (check_device from_str user device_id ≡ ok tt)
    × ((v : Device) × (get_in_org d user.org_id device_id ≡ ok v))

-- The two gates that each handler passes first.
pub gates :
    {A : Type 0} (from_str : Scopes) (d : Db) (user : User) (device_id : ℕ)
    (k : Device → Result GatewayError A) (a : A)
    → (check_device from_str user device_id >> (get_in_org d user.org_id device_id >>= k)) ≡ ok a
    → Admits from_str d user device_id × ((v : Device) × (k v ≡ ok a))
gates from_str d user device_id k a h = elim (Result-cases (check_device from_str user device_id)) [
  | inl (e, p) ↦ err_ne_ok (rw p at h)
  | inr (done, p) ↦ elim (Result-cases (get_in_org d user.org_id device_id)) [
    | inl (e, q) ↦ err_ne_ok (rw (p, q) at h)
    | inr (v, q) ↦ ((p, (v, q)), (v, rw (p, q) at h))
  ]
]

-- The device that a lookup finds is of the organisation that asked.
pub get_in_org-owns :
    (d : Db) (org_id id : ℕ) (v : Device)
    → get_in_org d org_id id ≡ ok v
    → (v.id ≡ id) × (v.org_id ≡ org_id)
unfolding get_in_org
get_in_org-owns d org_id id v h = elim (Option-cases (find (owned_by org_id id) d.devices)) [
  | inl missing ↦ err_ne_ok (rw missing at h)
  | inr (w, p) ↦
      let same : w ≡ v = ok_inj (rw p at h) in
      ground (arith, find_holds (owned_by org_id id) d.devices w p)
]

-- A lookup of a device that another organisation owns finds none.
get_in_org-foreign :
    (d : Db) (org_id id : ℕ) (v : Device)
    → Distinct (λ v. v.id) d.devices
    → find (λ v. v.id == id) d.devices ≡ some v
    → v.org_id ≢ org_id
    → get_in_org d org_id id ≡ err not_found
unfolding get_in_org
get_in_org-foreign d org_id id v distinct there foreign =
    elim (Option-cases (find (owned_by org_id id) d.devices)) [
      | inl missing ↦ rw missing refl
      | inr (w, p) ↦
          let same : w ≡ v = some_inj (sym (find-owned d.devices org_id id w distinct p) ∙ there) in
          let owned : w.org_id ≡ org_id =
            ground (arith, find_holds (owned_by org_id id) d.devices w p) in
          absurd (foreign (sym (ap (λ (k : Device). k.org_id) same) ∙ owned))
    ]

module _ (from_str : Scopes) (user : User) where
  -- Of a device that the user's role admits but that another organisation owns, where a device id
  -- names one device, and of a stored command of it: sending, cancelling and listing each answer not
  -- found, as for a device that is not there.
  pub foreign_not_found :
      (s : AppState) (v : Device) (row : CmdRow) (detail : Text → Text → Text)
      (detail1 : Text → Text) (topic cmd_id : Text) (body : SendCmd) (now unixepoch : ℤ)
      (status : Option Text) (cursor : Option ℤ) (limit : ℤ)
      → check_device from_str user v.id ≡ ok tt
      → Distinct (λ v. v.id) s.db.devices
      → find (λ w. w.id == v.id) s.db.devices ≡ some v
      → v.org_id ≢ user.org_id
      → get_by_cmd_id s.db row.cmd_id ≡ some row
      → row.device_id ≡ v.id
      → (send from_str detail s user v.id topic body cmd_id now unixepoch ≡ err not_found)
        × (cancel_cmd from_str detail1 s user row.cmd_id unixepoch ≡ err not_found)
        × (list from_str s.db user v.id status cursor limit ≡ err not_found)
  unfolding send cancel_cmd list
  foreign_not_found s v row detail detail1 topic cmd_id body now unixepoch status cursor limit check
        distinct there foreign stored own =
      let hidden = get_in_org-foreign s.db user.org_id v.id v distinct there foreign in
      (rw (check, hidden), rw (stored, own, check, hidden), rw (check, hidden))

  -- A listing is of a device that the user may operate on, of its organisation.
  pub list-Admits :
      (d : Db) (device_id : ℕ) (status : Option Text) (cursor : Option ℤ) (limit : ℤ)
      (page : List CmdRow × Option ℤ)
      → list from_str d user device_id status cursor limit ≡ ok page
      → Admits from_str d user device_id
  unfolding list
  list-Admits d device_id status cursor limit page h = (gates from_str d user device_id _ page h).0
