-- ===== src/Gateway/UserCalls/Minted.antt =====
-- Whom a token of api/users/mint_token.rs authenticates.
use hackline.Prelude.{
  ℕ, false, not, ◌&&◌, List, [], ◌∷◌, some, anyb, find, ◌==◌, ◌≡◌, ◌⊎◌, refl, sym, ap, ◌∙◌,
  Bool-cases, Option-cases, inl, inr, ==_iff,
}
use mathlib.Core.Path.{subst}
use hackline.Prelude.Int.{ℤ}
use hackline.Prelude.Text.{Text, lit, text_eq, text_eq_refl, text_eq_iff}
use hackline.Prelude.Outcome.{ok, ◌>>=◌, ◌>>◌, require, ok_inj, err_ne_ok, Result-cases}
use hackline.Gateway.Error.{not_found}
use hackline.Gateway.Sql.{update_where}
use hackline.Gateway.Schema.{User, UserRow, Db}
use hackline.Gateway.Users.{
  row_id, user_of, get_by_token_hash, get, update_token_hash, authenticate, touch,
}
use hackline.Gateway.UserCalls.{mint_token}

abbrev hashed : Text → UserRow → UserRow
hashed h r = record r { token_hash = h }

-- Where no other row has the hash, the row found by it is the row that was given it.
find-hashed :
    (id : ℕ) (h : Text) (rs : List UserRow)
    → anyb (λ r. not (row_id r == id) && text_eq r.token_hash h) rs ≡ false
    → user_of
        (find (λ r. text_eq r.token_hash h) (update_where (λ r. row_id r == id) (hashed h) rs))
      ≡ user_of (find (λ r. row_id r == id) rs)
find-hashed id h [] f = refl
find-hashed id h (r ∷ rs) f = elim (Bool-cases (row_id r == id)) [
  | inl t ↦ rw (t, text_eq_refl h) refl
  | inr n ↦ elim (Bool-cases (text_eq r.token_hash h)) [
    | inl t ↦ absurd (let f' = rw (n, t) at f in cc)
    | inr m ↦ let f' = rw (n, m) at f in rw (n, m) (find-hashed id h rs f')
  ]
]

update_token_hash_found :
    (d d' : Db) (id : ℕ) (h : Text)
    → update_token_hash d id h ≡ ok d'
    → get_by_token_hash d' h ≡ user_of (find (λ r. row_id r == id) d.users)
unfolding update_token_hash get_by_token_hash
update_token_hash_found d d' id h e = elim (Bool-cases (anyb (λ r. row_id r == id) d.users)) [
  | inr f ↦ err_ne_ok (rw f at e)
  | inl t ↦
      let e0 = rw t at e in
      elim (Bool-cases (anyb (λ r. not (row_id r == id) && text_eq r.token_hash h) d.users)) [
        | inl taken ↦ err_ne_ok (rw taken at e0)
        | inr free ↦
            let done = ok_inj (rw free at e0) in
            ap (λ x. user_of (find (λ r. text_eq r.token_hash h) x.users)) (sym done)
            ∙ find-hashed id h d.users free
      ]
]

get_found :
    (d : Db) (id : ℕ) (u : User)
    → get d id ≡ ok u
    → user_of (find (λ r. row_id r == id) d.users) ≡ some u
unfolding get
get_found d id u e = elim (Option-cases (user_of (find (λ r. row_id r == id) d.users))) [
  | inl n ↦ err_ne_ok (rw n at e)
  | inr (v, s) ↦ s ∙ ap some (ok_inj (rw s at e))
]

-- What is minted for a target once the caller is admitted.
abbrev Grants : (Text → Text) → Db → User → ℕ → ℤ → Text × Db → Type 0
Grants sha256_hex d caller user_id now (token, d') =
    (target : User) × (get d user_id ≡ ok target)
    × (target.org_id ≡ caller.org_id)
    × (authenticate sha256_hex d' token now ≡ some (target, touch d' target.id now))

admitted :
    (sha256_hex : Text → Text) (d : Db) (caller : User) (user_id : ℕ) (raw : Text) (now : ℤ)
    (x : Text × Db)
    → (get d user_id >>= λ target.
        require (target.org_id == caller.org_id) not_found
        >> (update_token_hash d user_id (sha256_hex raw) >>= λ d'. ok (raw, d')))
      ≡ ok x
    → Grants sha256_hex d caller user_id now x
unfolding authenticate
admitted sha256_hex d caller user_id raw now x e = elim (Result-cases (get d user_id)) [
  | inl (r, p) ↦ err_ne_ok (rw p at e)
  | inr (target, p) ↦
      let e0 = rw p at e in
      elim (Bool-cases (target.org_id == caller.org_id)) [
        | inr foreign ↦ err_ne_ok (rw foreign at e0)
        | inl own ↦
            let e1 = rw own at e0 in
            elim (Result-cases (update_token_hash d user_id (sha256_hex raw))) [
              | inl (r, q) ↦ err_ne_ok (rw q at e1)
              | inr (d', q) ↦
                  let done = ok_inj (rw q at e1) in
                  let found =
                    update_token_hash_found d d' user_id (sha256_hex raw) q
                    ∙ get_found d user_id target p in
                  subst (Grants sha256_hex d caller user_id now) done
                    (target, p, (==_iff target.org_id caller.org_id).0 own, rw found refl)
            ]
      ]
]

-- A token is minted for a user of the caller's organisation, by an owner or by that user, and it
-- authenticates that user.
pub mint_token-authenticate :
    (sha256_hex : Text → Text) (d d' : Db) (caller : User) (user_id : ℕ) (raw token : Text)
    (now : ℤ)
    → mint_token sha256_hex d caller user_id raw ≡ ok (token, d')
    → ((caller.role ≡ lit "owner") ⊎ (caller.id ≡ user_id))
      × ((target : User) × (get d user_id ≡ ok target)
          × (target.org_id ≡ caller.org_id)
          × (authenticate sha256_hex d' token now ≡ some (target, touch d' target.id now)))
unfolding mint_token
mint_token-authenticate sha256_hex d d' caller user_id raw token now e =
    elim (Bool-cases (text_eq caller.role (lit "owner"))) [
      | inl owner ↦ (
        inl ((text_eq_iff caller.role (lit "owner")).0 owner),
        admitted sha256_hex d caller user_id raw now (token, d') (rw owner at e),
      )
      | inr other ↦ elim (Bool-cases (caller.id == user_id)) [
        | inl self ↦ (
          inr ((==_iff caller.id user_id).0 self),
          admitted sha256_hex d caller user_id raw now (token, d') (rw (other, self) at e),
        )
        | inr stranger ↦ err_ne_ok (rw (other, stranger) at e)
      ]
    ]
