-- ===== src/Gateway/Middleware.antt =====
-- crates/hackline-gateway/src/auth/middleware.rs: how a bearer token is read from the query string.
pub mod Query
use Prim.Native.Nat.{◌%◌}
use hackline.Prelude.{
  ℕ, ◌+◌, ◌-◌, ◌*◌, ◌/◌, ◌++◌, ltb, Bool, true, false, ◌&&◌, List, [], ◌∷◌, Option, none, some, leb,
  ◌==◌, if◌then◌else◌,
}
use hackline.Prelude.Text.{Text, lit, text_eq, split}

-- `str::split_once`.
unfoldable pub split_once : ℕ → Text → Option (Text × Text)
split_once c [] = none
split_once c (x ∷ s) = if x == c then some ([], s) else after_first x (split_once c s)
  where
    after_first : ℕ → Option (Text × Text) → Option (Text × Text)
    after_first x none = none
    after_first x (some (k, v)) = some (x ∷ k, v)

unfoldable pub hex_nibble : ℕ → Option ℕ
hex_nibble b =
    if leb b'0' b && leb b b'9'
    then some (b - b'0')
    else if leb b'a' b && leb b b'f'
    then some (b - b'a' + 10)
    else if leb b'A' b && leb b b'F'
    then some (b - b'A' + 10)
    else none

abbrev plain : ℕ → ℕ
plain b = if b == b'+' then b' ' else b

-- `(h << 4 | l) as char`, if both are hexadecimal digits.
abbrev byte_of : Option ℕ → Option ℕ → Option ℕ
byte_of (some h) (some l) = some (h * 16 + l)
byte_of _ none = none
byte_of none _ = none

-- `out.push(b as char)`: a byte above 127 is a character of two bytes.
abbrev push : ℕ → Text → Text
push b out = if ltb b 128 then b ∷ out else (192 + b / 64) ∷ (128 + b % 64) ∷ out

-- The byte that `%` and two digits stand for.
unfoldable pub escape : ℕ → ℕ → ℕ → Option ℕ
unfolding hex_nibble
escape b h l = if b == b'%' then byte_of (hex_nibble h) (hex_nibble l) else none

unfoldable pub percent_decode_minimal : Text → Text
unfolding escape
percent_decode_minimal [] = []
percent_decode_minimal (b ∷ []) = push (plain b) []
percent_decode_minimal (b ∷ h ∷ []) = push (plain b) (percent_decode_minimal (h ∷ []))
percent_decode_minimal (b ∷ h ∷ l ∷ rest) = elim (escape b h l) [
  | some c ↦ push c (percent_decode_minimal rest)
  | none ↦ push (plain b) (percent_decode_minimal (h ∷ l ∷ rest))
]

-- The loop over `q.split('&')`: the `?` leaves the function at the first pair without `=`.
unfoldable pub token_of_pairs : List Text → Option Text
unfolding split_once percent_decode_minimal text_eq
token_of_pairs [] = none
token_of_pairs (pair ∷ pairs) =
    let rest = token_of_pairs pairs in
    elim (split_once b'=' pair) [
      | none ↦ none
      | some (k, v) ↦ if text_eq k (lit "token") then some (percent_decode_minimal v) else rest
    ]

unfoldable pub token_from_query : Text → Option Text
unfolding token_of_pairs split
token_from_query q = token_of_pairs (split b'&' q)
