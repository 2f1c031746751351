-- ===== src/Gateway/UserCalls.antt =====
-- The handlers api/users/mint_token.rs and api/users/delete.rs of crates/hackline-gateway/src. The token
-- that is generated and the SHA-256 are arguments.
pub mod Minted
use hackline.Prelude.{ℕ, Bool, true, false, not, ◌&&◌, ◌==◌, if◌then◌else◌}
use hackline.Prelude.Text.{Text, lit, text_eq}
use hackline.Prelude.Outcome.{Result, ok, err, require, ◌>>=◌, ◌>>◌}
use hackline.Gateway.Error.{GatewayError, unauthorized, bad_request, not_found, cannot_delete_self}
use hackline.Gateway.Schema.{User, Db}
use hackline.Gateway.Users.{get, update_token_hash, delete_in_org}

unfoldable pub mint_token : (Text → Text) → Db → User → ℕ → Text → Result GatewayError (Text × Db)
unfolding get update_token_hash
mint_token sha256_hex d caller user_id raw = do
  require (not (not (text_eq caller.role (lit "owner")) && not (caller.id == user_id))) unauthorized
  target ← get d user_id
  require (target.org_id == caller.org_id) not_found
  d' ← update_token_hash d user_id (sha256_hex raw)
  ok (raw, d')

unfoldable pub delete_user : Db → User → ℕ → Result GatewayError (Unit {0}) × Db
unfolding delete_in_org
delete_user d caller id =
    if not (text_eq caller.role (lit "owner"))
    then (err unauthorized, d)
    else if caller.id == id
    then (err (bad_request cannot_delete_self), d)
    else (let (deleted, d') = delete_in_org d caller.org_id id in
        (if deleted then ok tt else err not_found, d'))
