-- ===== src/Gateway/Orgs/Slug.antt =====
-- `validate_slug` of crates/hackline-gateway/src/db/orgs.rs beside the CHECK of the `orgs` table.
use hackline.Prelude.{ℕ, ◌≡◌, true, ◌||◌, [], ◌∷◌, allb, arith, ◌==◌}
use hackline.Prelude.Int.{ℤ}
use hackline.Prelude.Text.{Text, Lacks}
use hackline.Prelude.Outcome.{ok, err}
use hackline.Gateway.Error.{bad_request, slug_invalid_or_taken}
use hackline.Gateway.Schema.{Db}
use hackline.Gateway.Orgs.{is_slug_char, validate_slug, insert}

-- A slug of one character passes `validate_slug` and is refused by every insertion all the same.
pub insert_single :
    (d : Db) (c : ℕ) (name : Text) (now : ℤ)
    → is_slug_char c ≡ true
    → (validate_slug (c ∷ []) ≡ ok tt)
      × (insert d (c ∷ []) name now ≡ err (bad_request (slug_invalid_or_taken (c ∷ []))))
unfolding insert
insert_single d c name now h = (rw h, rw h)

slug_chars_no_slash : (s : Text) → allb (λ c. is_slug_char c || c == b'-') s ≡ true → Lacks b'/' s
slug_chars_no_slash [] h = tt
slug_chars_no_slash (c ∷ s) h = (ground arith, slug_chars_no_slash s (ground arith))

-- A slug that `validate_slug` accepts holds no slash, so it is one part of a key expression.
pub validate_slug-Lacks : (s : Text) → validate_slug s ≡ ok tt → Lacks b'/' s
unfolding validate_slug
validate_slug-Lacks [] h = tt
validate_slug-Lacks (c ∷ s) h = (ground arith, slug_chars_no_slash s (ground arith))
