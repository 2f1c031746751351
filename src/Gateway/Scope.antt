-- ===== src/Gateway/Scope.antt =====
-- crates/hackline-gateway/src/auth/scope.rs: which devices a user may operate on. `from_str` is what
-- `serde_json` reads a scope as: nothing from text that is not JSON, and then, if it is an array,
-- its elements with their `as_i64`.
pub mod Roles
use hackline.Prelude.{
  ℕ, Bool, true, false, ◌||◌, List, Option, none, some, anyb, ◌==◌, if◌then◌else◌,
}
use hackline.Prelude.Int.{ℤ, pos, negsuc}
use hackline.Prelude.Text.{Text, lit, text_eq}
use hackline.Prelude.Outcome.{Result, ok, err, require, ok_or, ◌>>=◌, ◌>>◌}
use hackline.Gateway.Error.{GatewayError, config, unauthorized}
use hackline.Gateway.Schema.{User}

abbrev pub Scopes : Type 0
Scopes = Text → Option (Option (List (Option ℤ)))

-- `v.as_i64() == Some(device_id)`.
abbrev pub is_id : ℕ → Option ℤ → Bool
is_id device_id none = false
is_id device_id (some (pos n)) = n == device_id
is_id device_id (some (negsuc _)) = false

-- `"owner" | "admin" | "support" | "viewer"`.
abbrev pub sees_all : Text → Bool
sees_all role =
    text_eq role (lit "owner")
    || (text_eq role (lit "admin") || (text_eq role (lit "support") || text_eq role (lit "viewer")))

unfoldable pub check_device : Scopes → User → ℕ → Result GatewayError (Unit {0})
unfolding text_eq
check_device from_str user device_id =
    if sees_all user.role
    then ok tt
    else if text_eq user.role (lit "customer")
    then (if text_eq user.device_scope (lit "*") then ok tt else (do
      scope ← ok_or (from_str user.device_scope) config
      arr ← ok_or scope config
      require (anyb (is_id device_id) arr) unauthorized))
    else err unauthorized
