-- ===== src/Gateway/Middleware/Query.antt =====
-- Which tokens crates/hackline-gateway/src/auth/middleware.rs finds in a query string.
use Prim.Native.Nat.{◌%◌}
use hackline.Prelude.{
  ℕ, ◌+◌, ◌-◌, ◌/◌, ◌<◌, ◌≡◌, ◌≢◌, refl, ap, ◌∙◌, Bool, true, false, ◌&&◌, ◌||◌, List, [], ◌∷◌,
  ◌++◌, none, some, All, arith, ltb, leb, ◌==◌, Bool-cases, inl, inr, if◌then◌else◌,
}
use hackline.Prelude.Text.{
  Text, lit, text_eq, text_eq_of_ne, text_eq_refl, split, split-append, split_of_Lacks, Lacks,
  Lacks-append,
}
use hackline.Gateway.Middleware.{
  split_once, hex_nibble, plain, push, escape, percent_decode_minimal, token_of_pairs,
  token_from_query,
}

-- `encodeURIComponent` on ASCII: letters, digits, `-` and `_` stay, another byte is `%` and its two
-- hexadecimal digits.
abbrev unreserved : ℕ → Bool
unreserved b =
    (leb b'0' b && leb b b'9')
    || (leb b'a' b && leb b b'z')
    || (leb b'A' b && leb b b'Z')
    || b == b'-'
    || b == b'_'

abbrev hex_digit : ℕ → ℕ
hex_digit n = if ltb n 10 then b'0' + n else b'A' + n - 10

abbrev pub encode : Text → Text
encode [] = []
encode (b ∷ s) =
    let rest = encode s in
    if unreserved b then b ∷ rest else b'%' ∷ hex_digit (b / 16) ∷ hex_digit (b % 16) ∷ rest

nibble_back : (n : ℕ) → n < 16 → hex_nibble (hex_digit n) ≡ some n
unfolding hex_nibble
nibble_back n h = ground arith

no_escape : (b x y : ℕ) → unreserved b ≡ true → escape b x y ≡ none
unfolding escape
no_escape b x y h = rw not_percent
  where
    not_percent : (b == b'%') ≡ false
    not_percent = ground arith

push-plain : (b : ℕ) (out : Text) → unreserved b ≡ true → push (plain b) out ≡ b ∷ out
push-plain b out h = ground arith

decode_plain :
    (b : ℕ) (s : Text)
    → unreserved b ≡ true
    → percent_decode_minimal (b ∷ s) ≡ b ∷ percent_decode_minimal s
unfolding percent_decode_minimal
decode_plain b [] h = push-plain b [] h
decode_plain b (x ∷ []) h = push-plain b (percent_decode_minimal (x ∷ [])) h
decode_plain b (x ∷ y ∷ s) h =
    rw (no_escape b x y h, percent_decode_minimal)
      (push-plain b (percent_decode_minimal (x ∷ y ∷ s)) h)

escape_back : (b : ℕ) → b < 128 → escape b'%' (hex_digit (b / 16)) (hex_digit (b % 16)) ≡ some b
unfolding escape
escape_back b h =
    rw (nibble_back (b / 16) (omega arith), nibble_back (b % 16) (omega arith))
      (ap some (omega arith))

decode_escape :
    (b : ℕ) (s : Text)
    → b < 128
    → percent_decode_minimal (b'%' ∷ hex_digit (b / 16) ∷ hex_digit (b % 16) ∷ s)
      ≡ b ∷ percent_decode_minimal s
unfolding percent_decode_minimal
decode_escape b s h = rw (escape_back b h, percent_decode_minimal) (ground arith)

-- Decoding undoes the encoding of a token of ASCII characters.
pub percent_decode_minimal-encode :
    (s : Text) → All (λ b. b < 128) s → percent_decode_minimal (encode s) ≡ s
percent_decode_minimal-encode [] h = unfold percent_decode_minimal in refl
percent_decode_minimal-encode (b ∷ s) (h, hs) = elim (Bool-cases (unreserved b)) [
  | inl keep ↦ rw (keep, decode_plain b (encode s) keep, percent_decode_minimal-encode s hs)
  | inr drop ↦ rw (drop, decode_escape b (encode s) h, percent_decode_minimal-encode s hs)
]

-- A query string of pairs, and what follows them.
abbrev pub query_of : List (Text × Text) → Text → Text
query_of [] rest = rest
query_of ((k, v) ∷ ps) rest = k ++ b'=' ∷ v ++ b'&' ∷ query_of ps rest

-- A pair that is not the token's.
abbrev pub OtherPair : Text × Text → Type 0
OtherPair (k, v) = Lacks b'=' k × Lacks b'&' k × Lacks b'&' v × (k ≢ lit "token")

split_once-append : (c : ℕ) (k v : Text) → Lacks c k → split_once c (k ++ c ∷ v) ≡ some (k, v)
unfolding split_once
split_once-append c [] v h = ground arith
split_once-append c (x ∷ k) v (n, h) = rw (split_once-append c k v h) (ground arith)

split_once_of_Lacks : (c : ℕ) (k : Text) → Lacks c k → split_once c k ≡ none
unfolding split_once
split_once_of_Lacks c [] h = refl
split_once_of_Lacks c (x ∷ k) (n, h) = rw (split_once_of_Lacks c k h) (ground arith)

pair_step :
    (k v : Text) (parts : List Text)
    → Lacks b'=' k
    → token_of_pairs ((k ++ b'=' ∷ v) ∷ parts)
      ≡ (if text_eq k (lit "token") then some (percent_decode_minimal v) else token_of_pairs parts)
unfolding token_of_pairs
pair_step k v parts h = rw (split_once-append b'=' k v h, token_of_pairs)

bare_step :
    (flag : Text) (parts : List Text) → Lacks b'=' flag → token_of_pairs (flag ∷ parts) ≡ none
unfolding token_of_pairs
bare_step flag parts h = rw (split_once_of_Lacks b'=' flag h, token_of_pairs)

token_step :
    (v : Text) (parts : List Text)
    → token_of_pairs ((lit "token" ++ b'=' ∷ v) ∷ parts) ≡ some (percent_decode_minimal v)
token_step v parts =
    pair_step (lit "token") v parts (ground arith) ∙ rw (text_eq_refl (lit "token"))

pairs_skip :
    (ps : List (Text × Text)) (rest : Text)
    → All OtherPair ps
    → token_from_query (query_of ps rest) ≡ token_from_query rest
unfolding token_from_query
pairs_skip [] rest h = refl
pairs_skip ((k, v) ∷ ps) rest ((a, b, c, n), h) =
    rw
      (split-append b'&' (k ++ b'=' ∷ v) (query_of ps rest)
        (Lacks-append b'&' k (b'=' ∷ v) b (omega arith, c)))
      (pair_step k v (split b'&' (query_of ps rest)) a
        ∙ rw (text_eq_of_ne k (lit "token") n) (pairs_skip ps rest h))

-- Behind any pairs for other keys, which hold neither separator where they may not, the token is
-- found, whatever follows it; but a part without `=` that stands there before it hides it.
pub token_from_query-pairs :
    (ps : List (Text × Text)) (v flag rest : Text)
    → All OtherPair ps
    → Lacks b'&' v
    → Lacks b'=' flag
    → Lacks b'&' flag
    → (token_from_query (query_of ps (lit "token" ++ b'=' ∷ v ++ b'&' ∷ rest))
        ≡ some (percent_decode_minimal v))
      × (token_from_query (query_of ps (lit "token" ++ b'=' ∷ v)) ≡ some (percent_decode_minimal v))
      × (token_from_query (query_of ps (flag ++ b'&' ∷ rest)) ≡ none)
token_from_query-pairs ps v flag rest h lv le la = (
  pairs_skip ps (lit "token" ++ b'=' ∷ v ++ b'&' ∷ rest) h ∙ first,
  pairs_skip ps (lit "token" ++ b'=' ∷ v) h ∙ last,
  pairs_skip ps (flag ++ b'&' ∷ rest) h ∙ hidden,
)
  where
    key : Lacks b'&' (lit "token" ++ b'=' ∷ v)
    key =
        (omega arith, (omega arith, (omega arith, (omega arith, (omega arith, (omega arith, lv))))))

    first :
        token_from_query (lit "token" ++ b'=' ∷ v ++ b'&' ∷ rest) ≡ some (percent_decode_minimal v)
    first =
        unfold token_from_query in
        rw (split-append b'&' (lit "token" ++ b'=' ∷ v) rest key) (token_step v (split b'&' rest))

    last : token_from_query (lit "token" ++ b'=' ∷ v) ≡ some (percent_decode_minimal v)
    last =
        unfold token_from_query in
        rw (split_of_Lacks b'&' (lit "token" ++ b'=' ∷ v) key) (token_step v [])

    hidden : token_from_query (flag ++ b'&' ∷ rest) ≡ none
    hidden =
        unfold token_from_query in
        rw (split-append b'&' flag rest la) (bare_step flag (split b'&' rest) le)
