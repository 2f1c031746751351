-- ===== src/Gateway/Users.antt =====
-- crates/hackline-gateway/src/db/users.rs, with the authentication of auth/middleware.rs and the
-- handler of api/users/create.rs. The clock, the SHA-256 and the token generator are arguments.
pub mod Access
use hackline.Prelude.{
  ℕ, Bool, true, false, not, ◌&&◌, List, [], ◌∷◌, reverse, map, Option, none, some, anyb, find,
  filterb, ◌==◌, if◌then◌else◌,
}
use hackline.Prelude.Int.{ℤ}
use hackline.Prelude.Text.{Text, lit, text_eq}
use hackline.Prelude.Outcome.{Result, ok, err, require, ok_or, ◌>>=◌, ◌>>◌}
use hackline.Gateway.Error.{GatewayError, db, unique, foreign_key, not_found, unauthorized}
use hackline.Gateway.Sql.{fresh, update_where, delete_where}
use hackline.Gateway.Schema.{Org, User, UserRow, AuditEntry, Db}

abbrev pub row_id : UserRow → ℕ
row_id r = r.user.id

abbrev pub user_of : Option UserRow → Option User
user_of none = none
user_of (some r) = some r.user

unfoldable pub get_by_token_hash : Db → Text → Option User
get_by_token_hash d token_hash = user_of (find (λ r. text_eq r.token_hash token_hash) d.users)

unfoldable pub get : Db → ℕ → Result GatewayError User
get d id = ok_or (user_of (find (λ r. row_id r == id) d.users)) not_found

-- `device_scope` and `tunnel_scope` are `*` by default.
unfoldable pub insert : Db → ℕ → Text → Text → Text → ℤ → Result GatewayError (User × Db)
unfolding get
insert d org_id name role token_hash now = do
  require (not (anyb (λ r. text_eq r.token_hash token_hash) d.users)) (db unique)
  require (anyb (λ o. o.id == org_id) d.orgs) (db foreign_key)
  let user : User = record {
    id = fresh row_id d.users;
    org_id = org_id;
    name = name;
    role = role;
    device_scope = lit "*";
    tunnel_scope = lit "*";
    expires_at = none;
    created_at = now;
    last_used_at = none;
  }
  let d' = record d { users = record { user = user; token_hash = token_hash } ∷ d.users }
  stored ← get d' user.id
  ok (stored, d')

unfoldable pub list : Db → List User
list d = map (λ r. r.user) (reverse d.users)

unfoldable pub list_in_org : Db → ℕ → List User
list_in_org d org_id = map (λ r. r.user) (reverse (filterb (λ r. r.user.org_id == org_id) d.users))

abbrev names_user : ℕ → Option ℕ → Bool
names_user id none = false
names_user id (some j) = j == id

-- ON DELETE SET NULL on the audit rows of the user.
forget : Db → (UserRow → Bool) → ℕ → Bool × Db
forget d clause id =
    if anyb clause d.users
    then (
      true,
      record d {
        users = delete_where clause d.users;
        audit =
            update_where (λ a. names_user id a.user_id) (λ a. record a { user_id = none }) d.audit;
      },
    )
    else (false, d)

unfoldable pub delete : Db → ℕ → Bool × Db
unfolding forget
delete d id = forget d (λ r. row_id r == id) id

unfoldable pub delete_in_org : Db → ℕ → ℕ → Bool × Db
unfolding forget
delete_in_org d org_id id = forget d (λ r. row_id r == id && r.user.org_id == org_id) id

abbrev set_used : ℤ → UserRow → UserRow
set_used now r = record r { user = record r.user { last_used_at = some now } }

unfoldable pub touch : Db → ℕ → ℤ → Db
touch d id now = record d { users = update_where (λ r. row_id r == id) (set_used now) d.users }

unfoldable pub update_token_hash : Db → ℕ → Text → Result GatewayError Db
update_token_hash d id token_hash =
    if anyb (λ r. row_id r == id) d.users
    then (do
      require (not (anyb (λ r. not (row_id r == id) && text_eq r.token_hash token_hash) d.users))
          (db unique)
      ok (record d {
        users =
            update_where (λ r. row_id r == id) (λ r. record r { token_hash = token_hash }) d.users;
      }))
    else err not_found

-- `AuthedUser::from_request_parts`, once the token has been read from the request.
unfoldable pub authenticate : (Text → Text) → Db → Text → ℤ → Option (User × Db)
authenticate sha256_hex d raw_token now = seen (get_by_token_hash d (sha256_hex raw_token))
  where
    seen : Option User → Option (User × Db)
    seen none = none
    seen (some u) = some (u, touch d u.id now)

-- `default_role` of `CreateUser`.
abbrev pub default_role : Text
default_role = lit "operator"

unfoldable pub create :
    (Text → Text) → Db → User → Text → Text → Text → ℤ → Result GatewayError ((User × Text) × Db)
create sha256_hex d caller name role raw now = do
  require (text_eq caller.role (lit "owner")) unauthorized
  (user, d') ← insert d caller.org_id name role (sha256_hex raw) now
  ok ((user, raw), d')
