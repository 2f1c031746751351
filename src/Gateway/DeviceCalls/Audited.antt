-- ===== src/Gateway/DeviceCalls/Audited.antt =====
-- What an accepted deletion of api/devices/delete.rs leaves.
use hackline.Prelude.{
  ℕ, List, [], ◌∷◌, none, some, find, ◌==◌, ◌≡◌, refl, sym, ap, ◌∙◌, Bool-cases, inl, inr,
}
use hackline.Prelude.Int.{ℤ}
use hackline.Prelude.Text.{Text, lit}
use hackline.Prelude.Outcome.{ok, err, err_ne_ok, Result-cases}
use hackline.Gateway.Error.{not_found}
use hackline.Gateway.Sql.{delete_where, fresh}
use hackline.Gateway.Schema.{User, Device, AuditEntry, Db}
use hackline.Gateway.Devices.{owned_by, get_in_org, cascade}
use hackline.Gateway.Devices.Isolation.{delete_found}
use hackline.Gateway.Devices.Owned.{get_in_org-found}
use hackline.Gateway.Audit
use hackline.Gateway.DeviceCalls.{audited, delete_device}

-- The row that the handler writes, in the audit table that it is added to.
abbrev pub deletion : List AuditEntry → ℤ → ℕ → Text → AuditEntry
deletion rows now user_id detail = record {
  id = fresh (λ a. a.id) rows;
  ts = now;
  ts_close = none;
  user_id = some user_id;
  device_id = none;
  tunnel_id = none;
  request_id = none;
  action = lit "device.delete";
  peer = none;
  bytes_up = none;
  bytes_down = none;
  detail = some detail;
}

gone :
    (org_id id : ℕ) (vs : List Device)
    → find (owned_by org_id id) (delete_where (λ v. v.id == id) vs) ≡ none
gone org_id id [] = refl
gone org_id id (v ∷ vs) = elim (Bool-cases (v.id == id)) [
  | inl t ↦ rw t (gone org_id id vs)
  | inr f ↦ rw f (rw f (gone org_id id vs))
]

-- What is written where the row is accepted.
inserted_ok :
    (d d' : Db) (now : ℤ) (user_id : ℕ) (detail : Text)
    → audited {A = Unit {0}} tt d
        (Audit.insert d now (some user_id) none none (lit "device.delete") (some detail))
      ≡ (ok tt, d')
    → d' ≡ record d { audit = deletion d.audit now user_id detail ∷ d.audit }
unfolding Audit.insert Audit.insert_entry
inserted_ok d d' now user_id detail e =
    elim (Bool-cases (Audit.refers (λ r. r.user.id) d.users (some user_id))) [
      | inl t ↦ sym (ap (λ x. x.1) (rw t at e))
      | inr f ↦ err_ne_ok (ap (λ x. x.0) (rw f at e))
    ]

absent :
    (d : Db) (org_id id : ℕ) (rows : List AuditEntry)
    → get_in_org (record (cascade d id) { audit = rows }) org_id id ≡ err not_found
unfolding get_in_org cascade
absent d org_id id rows = rw (gone org_id id d.devices) refl

-- A deletion that is accepted was of a device of the caller's organisation, which is gone, and the
-- newest audit row names the caller and the device's identifier.
pub delete_device-audited :
    (json : ℕ → Text → Text) (d d' : Db) (caller : User) (id : ℕ) (now : ℤ)
    → delete_device json d caller id now ≡ (ok tt, d')
    → (device : Device) × (get_in_org d caller.org_id id ≡ ok device)
      × (get_in_org d' caller.org_id id ≡ err not_found)
      × (d'.audit
          ≡ deletion (cascade d id).audit now caller.id (json id device.zid) ∷ (cascade d id).audit)
unfolding delete_device
delete_device-audited json d d' caller id now e =
    elim (Result-cases (get_in_org d caller.org_id id)) [
      | inl (r, p) ↦ err_ne_ok (ap (λ x. x.0) (rw (p, delete_device) at e))
      | inr (device, p) ↦
          let found = get_in_org-found d caller.org_id id device p in
          let e0 = rw (p, delete_device) at e in
          let e1 = rw (delete_found d caller.org_id id device found) at e0 in
          let done = inserted_ok (cascade d id) d' now caller.id (json id device.zid) e1 in
          (
            device,
            p,
            ap (λ x. get_in_org x caller.org_id id) done
                ∙ absent d caller.org_id id (
                    deletion (cascade d id).audit now caller.id (json id device.zid)
                    ∷ (cascade d id).audit),
            ap (λ x. x.audit) done,
          )
    ]
