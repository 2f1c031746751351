-- ===== src/Gateway/Claim/Post.antt =====
-- The handler of crates/hackline-gateway/src/api/claim/post.rs.
use mathlib.Core.Path.{subst}
use hackline.Prelude.{
  ℕ, ◌≡◌, refl, ap, sym, ◌∙◌, Bool, true, List, [], ◌∷◌, Option, none, some, anyb, find, ◌==◌,
  ==_refl, Bool-cases, Option-cases, inl, inr,
}
use hackline.Prelude.Int.{ℤ}
use hackline.Prelude.Text.{Text, lit, text_eq, text_eq_refl}
use hackline.Prelude.Outcome.{
  Result, ok, err, ok_or, ◌>>=◌, ok_inj, err_ne_ok, then_ok, Result-cases,
}
use hackline.Gateway.Error.{GatewayError, bad_request, claim_failed}
use hackline.Gateway.Sql.{fresh}
use hackline.Gateway.Schema.{Org, User, UserRow, Db}
use hackline.Gateway.Orgs
use hackline.Gateway.Users
use hackline.Gateway.Claim.{existing_or_new, claimed_org, consume}

abbrev is_owner : User → Bool
is_owner u = text_eq u.role (lit "owner")

-- What is answered once the claim is consumed: the first owner, the token and the organisation.
unfoldable pub answer : Db → Text → Result GatewayError (ℕ × Text × Text)
unfolding Users.list Orgs.get
answer d bearer = do
  user ← ok_or (find is_owner (Users.list d)) (bad_request claim_failed)
  org ← Orgs.get d user.org_id
  ok (user.id, bearer, org.slug)

unfoldable pub claim_post :
    (Text → Text)
    → Db
    → Text
    → Text
    → Option Text
    → Text
    → ℤ
    → Result GatewayError (ℕ × Text × Text) × Db
unfolding consume answer
claim_post sha256_hex d token name org bearer now =
    elim (consume sha256_hex d token name org bearer now) [
      | err e ↦ (err e, d)
      | ok (raw, d') ↦ (answer d' raw, d')
    ]

org_insert-users :
    (d : Db) (slug name : Text) (now : ℤ) (x : Org × Db)
    → Orgs.insert d slug name now ≡ ok x
    → x.1.users ≡ d.users
unfolding Orgs.insert
org_insert-users d slug name now x h =
    ap (λ (y : Org × Db). y.1.users) (sym (ok_inj (then_ok _ _ (then_ok _ _ h))))

existing_or_new-users :
    (d : Db) (slug : Text) (now : ℤ) (o : Option Org) (x : ℕ × Db)
    → existing_or_new d slug now o ≡ ok x
    → x.1.users ≡ d.users
unfolding existing_or_new
existing_or_new-users d slug now (some o) x h = ap (λ (y : ℕ × Db). y.1.users) (sym (ok_inj h))
existing_or_new-users d slug now none x h = elim (Result-cases (Orgs.insert d slug slug now)) [
  | inl (e, p) ↦ err_ne_ok (rw p at h)
  | inr (y, p) ↦
      ap (λ (z : ℕ × Db). z.1.users) (sym (ok_inj (rw p at h)))
      ∙ org_insert-users d slug slug now y p
]

claimed_org-users :
    (d : Db) (slug : Option Text) (now : ℤ) (x : ℕ × Db)
    → claimed_org d slug now ≡ ok x
    → x.1.users ≡ d.users
unfolding claimed_org
claimed_org-users d none now x h = ap (λ (y : ℕ × Db). y.1.users) (sym (ok_inj h))
claimed_org-users d (some slug) now x h = elim (Bool-cases (text_eq slug Orgs.default_org_slug)) [
  | inl default ↦ ap (λ (y : ℕ × Db). y.1.users) (sym (ok_inj (rw default at h)))
  | inr other ↦ existing_or_new-users d slug now (Orgs.get_by_slug d slug) x (rw other at h)
]

org_found :
    (os : List Org) (id : ℕ)
    → anyb (λ o. o.id == id) os ≡ true
    → (o : Org) × (find (λ o. o.id == id) os ≡ some o)
org_found [] id h = absurd cc
org_found (o ∷ os) id h = elim (Bool-cases (o.id == id)) [
  | inl t ↦ (o, rw t refl)
  | inr f ↦ let (p, q) = org_found os id (rw f at h) in (p, rw f q)
]

-- A database whose one user is an owner of a stored organisation.
abbrev Answers : Text → User × Db → Type 0
Answers bearer (u, d) = (slug : Text) × (answer d bearer ≡ ok (u.id, bearer, slug))

answer_one :
    (d : Db) (r : UserRow) (bearer : Text) (o : Org)
    → text_eq r.user.role (lit "owner") ≡ true
    → find (λ o. o.id == r.user.org_id) d.orgs ≡ some o
    → answer (record d { users = r ∷ [] }) bearer ≡ ok (r.user.id, bearer, o.slug)
unfolding answer Users.list Orgs.get
answer_one d r bearer o h p = rw (h, p) refl

inserted-Answers :
    (d : Db) (org_id : ℕ) (name token_hash bearer : Text) (now : ℤ) (x : User × Db)
    → d.users ≡ []
    → Users.insert d org_id name (lit "owner") token_hash now ≡ ok x
    → Answers bearer x
unfolding Users.insert Users.get
inserted-Answers d org_id name token_hash bearer now x none_yet h =
    elim (Bool-cases (anyb (λ r. text_eq r.token_hash token_hash) d.users)) [
      | inl taken ↦ err_ne_ok (rw taken at h)
      | inr free ↦ elim (Bool-cases (anyb (λ o. o.id == org_id) d.orgs)) [
        | inr orphan ↦ err_ne_ok (rw (free, orphan) at h)
        | inl owned ↦
            let (o, p) = org_found d.orgs org_id owned in
            subst (Answers bearer)
              (ok_inj (rw (free, owned, ==_refl (fresh Users.row_id d.users)) at h))
              (o.slug, rw none_yet (answer_one d _ bearer o (text_eq_refl (lit "owner")) p))
      ]
    ]

-- What `consume` leaves, once the claim has been recognised.
consumed-Answers :
    (sha256_hex : Text → Text) (d d' : Db) (token name bearer raw : Text) (org_slug : Option Text)
    (now : ℤ)
    → d.users ≡ []
    → consume sha256_hex d token name org_slug bearer now ≡ ok (raw, d')
    → (u : User) × (slug : Text) × (answer d' raw ≡ ok (u.id, bearer, slug))
unfolding consume
consumed-Answers sha256_hex d d' token name bearer raw org_slug now none_yet h =
    elim (Option-cases d.claim_pending) [
      | inl missing ↦ err_ne_ok (rw missing at h)
      | inr (p, there) ↦
          let h' = rw there at h in
          elim (Bool-cases (text_eq (sha256_hex token) p.token_hash)) [
            | inr wrong ↦ err_ne_ok (rw wrong at h')
            | inl right ↦
                let h0 = rw right at h' in
                elim (Result-cases (claimed_org (record d { claim_pending = none }) org_slug now)) [
                  | inl (e, q) ↦ err_ne_ok (rw q at h0)
                  | inr ((org_id, d1), q) ↦
                      let h1 = rw q at h0 in
                      let empty =
                        claimed_org-users (record d { claim_pending = none }) org_slug now
                          (org_id, d1) q
                        ∙ none_yet in
                      elim (Result-cases
                        (Users.insert d1 org_id name (lit "owner") (sha256_hex bearer) now)) [
                          | inl (e, r) ↦ err_ne_ok (rw r at h1)
                          | inr ((u, d2), r) ↦
                              let (slug, a) =
                                inserted-Answers d1 org_id name (sha256_hex bearer) bearer now
                                  (u, d2) empty r in
                              (
                                u,
                                slug,
                                subst (λ (x : Text × Db). answer x.1 x.0 ≡ ok (u.id, bearer, slug))
                                    (ok_inj (rw r at h1)) a,
                              )
                        ]
                ]
          ]
    ]

-- Where the gateway has no user yet, an accepted claim is answered with the new owner and the token.
pub claim_post-consume :
    (sha256_hex : Text → Text) (d d' : Db) (token name bearer raw : Text) (org_slug : Option Text)
    (now : ℤ)
    → d.users ≡ []
    → consume sha256_hex d token name org_slug bearer now ≡ ok (raw, d')
    → (u : User) × (slug : Text) × (claim_post sha256_hex d token name org_slug bearer now
        ≡ (ok (u.id, bearer, slug), d'))
unfolding claim_post
claim_post-consume sha256_hex d d' token name bearer raw org_slug now none_yet h =
    let (u, slug, a) =
      consumed-Answers sha256_hex d d' token name bearer raw org_slug now none_yet h in
    (u, slug, rw (h, claim_post) (ap (λ x. (x, d')) a))
