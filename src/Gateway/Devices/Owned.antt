-- ===== src/Gateway/Devices/Owned.antt =====
-- The device that `get_in_org` of crates/hackline-gateway/src/db/devices.rs finds.
use hackline.Prelude.{
  ℕ, ◌≡◌, ◌≢◌, refl, ap, sym, ◌∙◌, Bool, true, false, ◌&&◌, List, [], ◌∷◌, some, find, ◌==◌, ==_iff,
  Bool-cases, Option-cases, inl, inr,
}
use hackline.Prelude.Outcome.{ok, ok_inj, err_ne_ok}
use hackline.Gateway.Sql.Laws.{Distinct, find_holds, All-find}
use hackline.Gateway.Schema.{Device, Db}
use hackline.Gateway.Devices.{owned_by, get_in_org}

and_holds : (a b : Bool) → (a && b) ≡ true → (a ≡ true) × (b ≡ true)
and_holds true b h = (refl, h)
and_holds false b h = absurd cc

-- The device that `get_in_org` finds is the one of that id.
pub find-owned :
    (vs : List Device) (org_id id : ℕ) (v : Device)
    → Distinct (λ v. v.id) vs
    → find (owned_by org_id id) vs ≡ some v
    → find (λ v. v.id == id) vs ≡ some v
find-owned [] org_id id v distinct h = h
find-owned (x ∷ vs) org_id id v (apart, distinct) h = elim (Bool-cases (x.id == id)) [
  | inr other ↦ rw other (find-owned vs org_id id v distinct (rw other at h))
  | inl here ↦ elim (Bool-cases (x.org_id == org_id)) [
    | inl mine ↦ rw here (rw (here, mine) at h)
    | inr foreign ↦
        let h0 = rw (here, foreign) at h in
        let named =
          and_holds (v.id == id) (v.org_id == org_id) (find_holds (owned_by org_id id) vs v h0) in
        absurd (
          All-find (λ (s : Device). s.id ≢ x.id) (owned_by org_id id) vs v apart h0
            ((==_iff v.id id).0 named.0 ∙ sym ((==_iff x.id id).0 here)))
  ]
]

pub get_in_org-found :
    (d : Db) (org_id id : ℕ) (v : Device)
    → get_in_org d org_id id ≡ ok v
    → find (owned_by org_id id) d.devices ≡ some v
unfolding get_in_org
get_in_org-found d org_id id v h = elim (Option-cases (find (owned_by org_id id) d.devices)) [
  | inl missing ↦ err_ne_ok (rw missing at h)
  | inr (u, found) ↦ found ∙ ap some (ok_inj (rw found at h))
]
