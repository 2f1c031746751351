-- ===== src/Gateway/DeviceCalls.antt =====
-- The handlers api/devices/create.rs and api/devices/delete.rs of crates/hackline-gateway/src. Their
-- statements are not one transaction, so what was stored before a failure stays. The JSON of the audit
-- row's detail and the clock are arguments.
pub mod Audited
use hackline.Prelude.{ℕ, Bool, true, false, Option, none, some, if◌then◌else◌}
use hackline.Prelude.Int.{ℤ}
use hackline.Prelude.Text.{Text, lit}
use hackline.Prelude.Outcome.{Result, ok, err}
use hackline.Gateway.Error.{GatewayError, not_found}
use hackline.Gateway.Schema.{User, Device, Db}
use hackline.Gateway.Devices.{insert, get_in_org, delete_in_org}
use hackline.Gateway.Audit

-- The end of both: the audit row, in a database that has the change.
abbrev pub audited : {A : Type 0} → A → Db → Result GatewayError Db → Result GatewayError A × Db
audited a d (ok d') = (ok a, d')
audited a d (err e) = (err e, d)

unfoldable pub create_device :
    (Device → Text) → Db → User → Text → Text → ℤ → Result GatewayError Device × Db
unfolding insert Audit.insert
create_device json d caller zid label now = elim (insert d caller.org_id zid label now) [
  | err e ↦ (err e, d)
  | ok (device, d1) ↦
      audited device d1
        (Audit.insert d1 now (some caller.id) none none (lit "device.create") (some (json device)))
]

unfoldable pub delete_device :
    (ℕ → Text → Text) → Db → User → ℕ → ℤ → Result GatewayError (Unit {0}) × Db
unfolding get_in_org delete_in_org Audit.insert
delete_device json d caller id now = elim (get_in_org d caller.org_id id) [
  | err e ↦ (err e, d)
  | ok device ↦
      let (deleted, d1) = delete_in_org d caller.org_id id in
      if deleted
      then audited tt d1 (
          Audit.insert d1 now (some caller.id) none none (lit "device.delete")
            (some (json id device.zid)))
      else (err not_found, d1)
]
