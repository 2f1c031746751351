-- ===== src/Gateway/Users/Access.antt =====
-- What a created user may do, for crates/hackline-gateway/src/db/users.rs and api/users/create.rs.
use hackline.Prelude.{ℕ, ◌≡◌, refl, some, anyb, ◌==◌, ==_refl, Bool-cases, inl, inr}
use mathlib.Core.Path.{subst}
use hackline.Prelude.Int.{ℤ}
use hackline.Prelude.Text.{Text, lit, text_eq, text_eq_iff, text_eq_refl}
use hackline.Prelude.Outcome.{ok, err, ok_inj, err_ne_ok, Result-cases}
use hackline.Gateway.Error.{unauthorized}
use hackline.Gateway.Sql.{fresh}
use hackline.Gateway.Schema.{User, Db}
use hackline.Gateway.Scope.{Scopes, check_device}
use hackline.Gateway.Users.{
  row_id, get_by_token_hash, get, insert, touch, authenticate, default_role, create,
}

-- A user that is stored with an organisation, a role and a token.
abbrev Stored : ℕ → Text → Text → User × Db → Type 0
Stored org_id role token_hash (u, d) =
    (u.org_id ≡ org_id) × (u.role ≡ role) × (get_by_token_hash d token_hash ≡ some u)

-- What an accepted insertion stores.
pub insert_ok :
    (d : Db) (org_id : ℕ) (name role token_hash : Text) (now : ℤ) (x : User × Db)
    → insert d org_id name role token_hash now ≡ ok x
    → Stored org_id role token_hash x
unfolding insert get get_by_token_hash
insert_ok d org_id name role token_hash now x h =
    elim (Bool-cases (anyb (λ r. text_eq r.token_hash token_hash) d.users)) [
      | inl taken ↦ err_ne_ok (rw taken at h)
      | inr free ↦ elim (Bool-cases (anyb (λ o. o.id == org_id) d.orgs)) [
        | inr orphan ↦ err_ne_ok (rw (free, orphan) at h)
        | inl owned ↦
            let done = ok_inj (rw (free, owned, ==_refl (fresh row_id d.users)) at h) in
            subst (Stored org_id role token_hash) done
              (refl, refl, rw (text_eq_refl token_hash) refl)
      ]
    ]

operator_refused :
    (from_str : Scopes) (u : User) (device_id : ℕ)
    → u.role ≡ default_role
    → check_device from_str u device_id ≡ err unauthorized
unfolding check_device text_eq
operator_refused from_str u device_id h = rw h refl

module _ (sha256_hex : Text → Text) where
  abbrev Granted : User → Text → ℤ → (User × Text) × Db → Type 0
  Granted caller role later ((u, token), d) =
      (u.org_id ≡ caller.org_id)
      × (u.role ≡ role)
      × (authenticate sha256_hex d token later ≡ some (u, touch d u.id later))

  -- Only an owner creates users. The user that is created has the role that was asked for, in the
  -- organisation of the owner, and the token that is answered authenticates it.
  pub create-authenticate :
      (d d' : Db) (caller u : User) (name role raw token : Text) (now later : ℤ)
      → create sha256_hex d caller name role raw now ≡ ok ((u, token), d')
      → (caller.role ≡ lit "owner")
        × (u.org_id ≡ caller.org_id)
        × (u.role ≡ role)
        × (authenticate sha256_hex d' token later ≡ some (u, touch d' u.id later))
  unfolding create authenticate
  create-authenticate d d' caller u name role raw token now later h =
      elim (Bool-cases (text_eq caller.role (lit "owner"))) [
        | inr other ↦ err_ne_ok (rw other at h)
        | inl owner ↦
            let h0 = rw owner at h in
            elim (Result-cases (insert d caller.org_id name role (sha256_hex raw) now)) [
              | inl (e, p) ↦ err_ne_ok (rw p at h0)
              | inr ((v, d1), p) ↦
                  let done = ok_inj (rw p at h0) in
                  let (org, same, found) =
                    insert_ok d caller.org_id name role (sha256_hex raw) now (v, d1) p in
                  let (a, b, c) =
                    subst (Granted caller role later) done (org, same, rw found refl) in
                  ((text_eq_iff caller.role (lit "owner")).0 owner, a, b, c)
            ]
      ]

  -- A user that is created with the default role is refused every device.
  pub create_default-unauthorized :
      (from_str : Scopes) (d d' : Db) (caller u : User) (name raw token : Text) (now : ℤ)
      (device_id : ℕ)
      → create sha256_hex d caller name default_role raw now ≡ ok ((u, token), d')
      → check_device from_str u device_id ≡ err unauthorized
  create_default-unauthorized from_str d d' caller u name raw token now device_id h =
      operator_refused from_str u device_id
        (create-authenticate d d' caller u name default_role raw token now now h).2
