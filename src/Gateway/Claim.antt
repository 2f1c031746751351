-- ===== src/Gateway/Claim.antt =====
-- crates/hackline-gateway/src/db/claim.rs: how an unclaimed gateway gets its first owner. The token
-- that `generate` makes, its SHA-256 and the clocks are arguments.
pub mod Once
pub mod Post
use hackline.Prelude.{
  ℕ, Bool, true, false, not, List, [], ◌∷◌, Option, none, some, anyb, if◌then◌else◌,
}
use hackline.Prelude.Int.{ℤ}
use hackline.Prelude.Text.{Text, lit, text_eq}
use hackline.Prelude.Outcome.{Result, ok, err, require, ok_or, ◌>>=◌, ◌>>◌}
use hackline.Gateway.Error.{GatewayError, bad_request, unauthorized, no_pending_claim}
use hackline.Gateway.Schema.{Org, User, UserRow, Pending, Db}
use hackline.Gateway.Orgs
use hackline.Gateway.Users

abbrev pub none_yet : {A : Type 0} → List A → Bool
none_yet [] = true
none_yet (_ ∷ _) = false

unfoldable pub is_pending : Db → Bool
is_pending d = some? d.claim_pending
  where
    some? : Option Pending → Bool
    some? none = false
    some? (some _) = true

unfoldable pub is_claimed : Db → Bool
is_claimed d = not (none_yet d.users)

unfoldable pub ensure_pending : (Text → Text) → Db → Text → ℤ → Option Text × Db
unfolding is_pending is_claimed
ensure_pending sha256_hex d raw now =
    if is_claimed d then (none, d) else if is_pending d then (none, d) else (
      some raw,
      record d { claim_pending = some (record { token_hash = sha256_hex raw; created_at = now }) },
    )

-- The organisation of the owner, which is made if it is missing.
existing_or_new : Db → Text → ℤ → Option Org → Result GatewayError (ℕ × Db)
existing_or_new d slug now (some o) = ok (o.id, d)
existing_or_new d slug now none = do (o, d') ← Orgs.insert d slug slug now; ok (o.id, d')

claimed_org : Db → Option Text → ℤ → Result GatewayError (ℕ × Db)
unfolding existing_or_new
claimed_org d none now = ok (Orgs.default_org_id, d)
claimed_org d (some slug) now =
    if text_eq slug Orgs.default_org_slug
    then ok (Orgs.default_org_id, d)
    else existing_or_new d slug now (Orgs.get_by_slug d slug)

-- `consume` of one claim at a time. The pending row is read and its hash compared before the
-- transaction begins, so this is not what two concurrent claims do, which may both pass the check. The
-- transaction covers the rest, and an error leaves the claim pending.
unfoldable pub consume :
    (Text → Text) → Db → Text → Text → Option Text → Text → ℤ → Result GatewayError (Text × Db)
unfolding claimed_org
consume sha256_hex d claim_token owner_name org_slug bearer now = do
  pending ← ok_or d.claim_pending (bad_request no_pending_claim)
  require (text_eq (sha256_hex claim_token) pending.token_hash) unauthorized
  (org_id, d') ← claimed_org (record d { claim_pending = none }) org_slug now
  (_, d'') ← Users.insert d' org_id owner_name (lit "owner") (sha256_hex bearer) now
  ok (bearer, d'')
