-- ===== src/Gateway/Claim/Once.antt =====
-- A claim of crates/hackline-gateway/src/db/claim.rs works once.
use mathlib.Core.Path.{subst}
use hackline.Prelude.{
  ℕ, ◌≡◌, refl, ap, sym, ◌∙◌, true, Option, none, some, anyb, ◌==◌, ==_refl, Bool-cases,
  Option-cases, inl, inr,
}
use hackline.Prelude.Int.{ℤ}
use hackline.Prelude.Text.{Text, lit, text_eq, text_eq_iff}
use hackline.Prelude.Outcome.{ok, err, ok_inj, err_ne_ok, then_ok, Result-cases}
use hackline.Gateway.Error.{bad_request, no_pending_claim}
use hackline.Gateway.Sql.{fresh}
use hackline.Gateway.Schema.{Org, User, Pending, Db}
use hackline.Gateway.Orgs
use hackline.Gateway.Users
use hackline.Gateway.Users.{get_by_token_hash, authenticate, touch}
use hackline.Gateway.Users.Access.{insert_ok}
use hackline.Gateway.Claim.{is_claimed, ensure_pending, existing_or_new, claimed_org, consume}

-- No step of a claim brings the pending row back.
org_insert-pending :
    (d : Db) (slug name : Text) (now : ℤ) (x : Org × Db)
    → Orgs.insert d slug name now ≡ ok x
    → x.1.claim_pending ≡ d.claim_pending
unfolding Orgs.insert
org_insert-pending d slug name now x h =
    ap (λ (y : Org × Db). y.1.claim_pending) (sym (ok_inj (then_ok _ _ (then_ok _ _ h))))

existing_or_new-pending :
    (d : Db) (slug : Text) (now : ℤ) (o : Option Org) (x : ℕ × Db)
    → existing_or_new d slug now o ≡ ok x
    → x.1.claim_pending ≡ d.claim_pending
unfolding existing_or_new
existing_or_new-pending d slug now (some o) x h =
    ap (λ (y : ℕ × Db). y.1.claim_pending) (sym (ok_inj h))
existing_or_new-pending d slug now none x h = elim (Result-cases (Orgs.insert d slug slug now)) [
  | inl (e, p) ↦ err_ne_ok (rw p at h)
  | inr (y, p) ↦
      ap (λ (z : ℕ × Db). z.1.claim_pending) (sym (ok_inj (rw p at h)))
      ∙ org_insert-pending d slug slug now y p
]

claimed_org-pending :
    (d : Db) (slug : Option Text) (now : ℤ) (x : ℕ × Db)
    → claimed_org d slug now ≡ ok x
    → x.1.claim_pending ≡ d.claim_pending
unfolding claimed_org
claimed_org-pending d none now x h = ap (λ (y : ℕ × Db). y.1.claim_pending) (sym (ok_inj h))
claimed_org-pending d (some slug) now x h = elim (Bool-cases (text_eq slug Orgs.default_org_slug)) [
  | inl default ↦ ap (λ (y : ℕ × Db). y.1.claim_pending) (sym (ok_inj (rw default at h)))
  | inr other ↦ existing_or_new-pending d slug now (Orgs.get_by_slug d slug) x (rw other at h)
]

-- A database with a user and the claim of another.
abbrev Grown : Db → User × Db → Type 0
Grown d (_, d') = (is_claimed d' ≡ true) × (d'.claim_pending ≡ d.claim_pending)

user_insert-Grown :
    (d : Db) (org_id : ℕ) (name role token_hash : Text) (now : ℤ) (x : User × Db)
    → Users.insert d org_id name role token_hash now ≡ ok x
    → Grown d x
unfolding Users.insert Users.get is_claimed
user_insert-Grown d org_id name role token_hash now x h =
    elim (Bool-cases (anyb (λ r. text_eq r.token_hash token_hash) d.users)) [
      | inl taken ↦ err_ne_ok (rw taken at h)
      | inr free ↦ elim (Bool-cases (anyb (λ o. o.id == org_id) d.orgs)) [
        | inr orphan ↦ err_ne_ok (rw (free, orphan) at h)
        | inl owned ↦
            subst (Grown d) (ok_inj (rw (free, owned, ==_refl (fresh Users.row_id d.users)) at h))
              (refl, refl)
      ]
    ]

module _ (sha256_hex : Text → Text) where
  -- What a claim leaves for the next ones, and for the token that it answers.
  abbrev Spent : Text → Text → Text → Option Text → ℤ → Text × Db → Type 0
  Spent again other fresh_token org2 later (token, d) =
      (is_claimed d ≡ true)
      × (ensure_pending sha256_hex d fresh_token later ≡ (none, d))
      × (consume sha256_hex d again other org2 fresh_token later
          ≡ err (bad_request no_pending_claim))
      × ((u : User) × (authenticate sha256_hex d token later ≡ some (u, touch d u.id later))
          × (u.role ≡ lit "owner"))

  spent :
      (d : Db) (u : User) (token again other fresh_token : Text) (org2 : Option Text) (later : ℤ)
      → is_claimed d ≡ true
      → d.claim_pending ≡ none
      → u.role ≡ lit "owner"
      → get_by_token_hash d (sha256_hex token) ≡ some u
      → Spent again other fresh_token org2 later (token, d)
  unfolding consume ensure_pending authenticate
  spent d u token again other fresh_token org2 later claimed pending role found =
      (claimed, rw claimed, rw pending, (u, rw found, role))

  -- Where claims come one after the other, a claim that is accepted was pending, under the hash of
  -- the token that was given. The gateway is
  -- then claimed and no claim is pending: none is made again, and a second one is refused whatever
  -- its token. The token that is answered authenticates a user whose role is owner.
  pub consume_once :
      (d d' : Db) (claim_token name bearer token : Text) (org_slug : Option Text) (now : ℤ)
      (again other fresh_token : Text) (org2 : Option Text) (later : ℤ)
      → consume sha256_hex d claim_token name org_slug bearer now ≡ ok (token, d')
      → ((p : Pending) × (d.claim_pending ≡ some p) × (p.token_hash ≡ sha256_hex claim_token))
        × (is_claimed d' ≡ true)
        × (ensure_pending sha256_hex d' fresh_token later ≡ (none, d'))
        × (consume sha256_hex d' again other org2 fresh_token later
            ≡ err (bad_request no_pending_claim))
        × ((u : User) × (authenticate sha256_hex d' token later ≡ some (u, touch d' u.id later))
            × (u.role ≡ lit "owner"))
  unfolding consume
  consume_once d d' claim_token name bearer token org_slug now again other fresh_token org2 later
        h =
      elim (Option-cases d.claim_pending) [
        | inl missing ↦ err_ne_ok (rw missing at h)
        | inr (p, there) ↦
            let h0 = rw there at h in
            elim (Bool-cases (text_eq (sha256_hex claim_token) p.token_hash)) [
              | inr wrong ↦ err_ne_ok (rw wrong at h0)
              | inl right ↦
                  let h1 = rw right at h0 in
                  elim (Result-cases
                    (claimed_org (record d { claim_pending = none }) org_slug now)) [
                      | inl (e, q) ↦ err_ne_ok (rw q at h1)
                      | inr ((org_id, d1), q) ↦
                          let h2 = rw q at h1 in
                          elim (Result-cases
                            (Users.insert d1 org_id name (lit "owner") (sha256_hex bearer) now)) [
                              | inl (e, r) ↦ err_ne_ok (rw r at h2)
                              | inr ((u, d2), r) ↦
                                  let grown =
                                    user_insert-Grown d1 org_id name (lit "owner")
                                      (sha256_hex bearer) now (u, d2) r in
                                  let stored =
                                    insert_ok d1 org_id name (lit "owner") (sha256_hex bearer) now
                                      (u, d2) r in
                                  let (a, b, c, e) =
                                    subst (Spent again other fresh_token org2 later)
                                      (ok_inj (rw r at h2))
                                      (spent d2 u bearer again other fresh_token org2 later grown.0
                                        (grown.1
                                          ∙ claimed_org-pending (record d { claim_pending = none })
                                              org_slug now (org_id, d1) q)
                                        stored.1 stored.2) in
                                  (
                                    (
                                      p,
                                      there,
                                      sym (
                                          (text_eq_iff (sha256_hex claim_token) p.token_hash).0
                                            right),
                                    ),
                                    a,
                                    b,
                                    c,
                                    e,
                                  )
                            ]
                    ]
            ]
      ]
