-- ===== src/Gateway/Orgs.antt =====
-- crates/hackline-gateway/src/db/orgs.rs. The clock is an argument.
pub mod Slug
use hackline.Prelude.{
  ℕ, Bool, true, false, not, ◌&&◌, ◌||◌, List, [], ◌∷◌, reverse, Option, none, some, length, anyb,
  allb, find, ltb, leb, ◌==◌, if◌then◌else◌,
}
use hackline.Prelude.Int.{ℤ}
use hackline.Prelude.Text.{Text, lit, text_eq}
use hackline.Prelude.Outcome.{Result, ok, err, require, ok_or, ◌>>=◌, ◌>>◌}
use hackline.Gateway.Error.{
  GatewayError, bad_request, not_found, slug_length, slug_first, slug_rest, slug_invalid_or_taken,
}
use hackline.Gateway.Sql.{fresh}
use hackline.Gateway.Schema.{Org, Db}

abbrev pub default_org_id : ℕ
default_org_id = 1

abbrev pub default_org_slug : Text
default_org_slug = lit "default"

-- `is_ascii_lowercase() || is_ascii_digit()`.
abbrev is_slug_char : ℕ → Bool
is_slug_char c = (leb b'a' c && leb c b'z') || (leb b'0' c && leb c b'9')

unfoldable pub validate_slug : Text → Result GatewayError (Unit {0})
validate_slug [] = err (bad_request slug_length)
validate_slug (first ∷ rest) = do
  require (not (ltb 63 (length (first ∷ rest)))) (bad_request slug_length)
  require (is_slug_char first) (bad_request slug_first)
  require (allb (λ c. is_slug_char c || c == b'-') rest) (bad_request slug_rest)

unfoldable pub get : Db → ℕ → Result GatewayError Org
get d id = ok_or (find (λ o. o.id == id) d.orgs) not_found

unfoldable pub get_by_slug : Db → Text → Option Org
get_by_slug d slug = find (λ o. text_eq o.slug slug) d.orgs

-- `CHECK (length(slug) BETWEEN 1 AND 63 AND slug GLOB '[a-z0-9][a-z0-9-]*')`: in a GLOB `*` stands
-- for any characters, and each bracket for one.
slug_check : Text → Bool
slug_check (a ∷ b ∷ rest) =
    leb (length (a ∷ b ∷ rest)) 63 && (is_slug_char a && (is_slug_char b || b == b'-'))
slug_check _ = false

unfoldable pub insert : Db → Text → Text → ℤ → Result GatewayError (Org × Db)
unfolding validate_slug slug_check
insert d slug name now = do
  validate_slug slug
  require (slug_check slug && not (anyb (λ o. text_eq o.slug slug) d.orgs))
      (bad_request (slug_invalid_or_taken slug))
  let org : Org = record {
    id = fresh (λ o. o.id) d.orgs;
    slug = slug;
    name = name;
    created_at = now;
  }
  ok (org, record d { orgs = org ∷ d.orgs })

unfoldable pub list : Db → List Org
list d = reverse d.orgs
