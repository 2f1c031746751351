-- ===== src/Gateway/Scope/Roles.antt =====
-- What crates/hackline-gateway/src/auth/scope.rs grants to each role.
use hackline.Prelude.{
  ℕ, ◌≡◌, ◌↔◌, refl, Bool, true, false, List, Option, none, some, anyb, arith, Bool-cases,
  Option-cases, ◌⊎◌, inl, inr, if◌then◌else◌,
}
use hackline.Prelude.Int.{ℤ}
use hackline.Prelude.Text.{Text, lit, text_eq, text_eq_iff}
use hackline.Prelude.Outcome.{ok, require, ok_or, ◌>>=◌, err_ne_ok}
use hackline.Gateway.Error.{config, unauthorized}
use hackline.Gateway.Schema.{User}
use hackline.Gateway.Scope.{Scopes, is_id, sees_all, check_device}

-- A role that sees every device of its organisation.
abbrev pub IsStaff : Text → Type 0
IsStaff role =
    (role ≡ lit "owner") ⊎ (role ≡ lit "admin") ⊎ (role ≡ lit "support") ⊎ (role ≡ lit "viewer")

-- A scope that covers a device: the star, or a JSON array that has its id.
abbrev pub Covers : Scopes → Text → ℕ → Type 0
Covers from_str scope device_id =
    (scope ≡ lit "*")
    ⊎ ((ids : List (Option ℤ)) × (from_str scope ≡ some (some ids))
        × (anyb (is_id device_id) ids ≡ true))

sees_all_iff : (role : Text) → (sees_all role ≡ true) ↔ IsStaff role
sees_all_iff role = ground (
  arith,
  text_eq_iff role (lit "owner"),
  text_eq_iff role (lit "admin"),
  text_eq_iff role (lit "support"),
  text_eq_iff role (lit "viewer"),
)

granted : (b : Bool) → require b unauthorized ≡ ok tt → b ≡ true
granted true h = refl
granted false h = err_ne_ok h

-- What the scope of a customer grants.
scope_iff :
    (from_str : Scopes) (scope : Text) (device_id : ℕ)
    → ((if text_eq scope (lit "*") then ok tt else (do
      parsed ← ok_or (from_str scope) config
      arr ← ok_or parsed config
      require (anyb (is_id device_id) arr) unauthorized))
        ≡ ok tt)
      ↔ Covers from_str scope device_id
scope_iff from_str scope device_id = elim (Bool-cases (text_eq scope (lit "*"))) [
  | inl star ↦ (λ h. inl ((text_eq_iff scope (lit "*")).0 star), λ h. rw star)
  | inr other ↦ elim (Option-cases (from_str scope)) [
    | inl bad ↦ (
      λ h. err_ne_ok (rw (other, bad) at h),
      λ h. elim h [ inl star ↦ ground (arith, text_eq_iff scope (lit "*")) | inr (ids, q, _) ↦ cc ],
    )
    | inr (none, p) ↦ (
      λ h. err_ne_ok (rw (other, p) at h),
      λ h. elim h [ inl star ↦ ground (arith, text_eq_iff scope (lit "*")) | inr (ids, q, _) ↦ cc ],
    )
    | inr (some ids, p) ↦ (
      λ h. inr (ids, p, granted (anyb (is_id device_id) ids) (rw (other, p) at h)),
      λ h. elim h [
        | inl star ↦ ground (arith, text_eq_iff scope (lit "*"))
        | inr (js, q, there) ↦ rw (other, q, there)
      ],
    )
  ]
]

-- A user may operate on a device just if its role sees every device, or it is a customer whose
-- scope covers the device; no other role may operate on any device.
pub check_device_iff :
    (from_str : Scopes) (user : User) (device_id : ℕ)
    → (check_device from_str user device_id ≡ ok tt) ↔ (
        IsStaff user.role
        ⊎ ((user.role ≡ lit "customer") × Covers from_str user.device_scope device_id))
unfolding check_device
check_device_iff from_str user device_id = elim (Bool-cases (sees_all user.role)) [
  | inl all ↦ (λ h. inl ((sees_all_iff user.role).0 all), λ h. rw all)
  | inr some_only ↦ elim (Bool-cases (text_eq user.role (lit "customer"))) [
    | inl customer ↦
        let role = (text_eq_iff user.role (lit "customer")).0 customer in
        (
          λ h. inr (
            role,
            (scope_iff from_str user.device_scope device_id).0 (rw (some_only, customer) at h),
          ),
          λ h. elim h [
            | inl staff ↦ ground (arith, sees_all_iff user.role)
            | inr (_, covers) ↦
                rw (some_only, customer) ((scope_iff from_str user.device_scope device_id).1 covers)
          ],
        )
    | inr unknown ↦ (
      λ h. err_ne_ok (rw (some_only, unknown) at h),
      λ h. elim h [
        | inl staff ↦ ground (arith, sees_all_iff user.role)
        | inr (customer, _) ↦ ground (arith, text_eq_iff user.role (lit "customer"))
      ],
    )
  ]
]
