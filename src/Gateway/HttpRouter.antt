-- ===== src/Gateway/HttpRouter.antt =====
-- crates/hackline-gateway/src/tunnel/http_router.rs: which tunnel an HTTP connection is bridged to.
-- A read of the socket is a value: what it gave, or its failure; when the reads are used up, the
-- peer has closed.
pub mod Head
pub mod Reads
pub mod Route
pub mod Bridged
use hackline.Prelude.{
  ℕ, zero, suc, ◌+◌, Bool, true, false, ◌&&◌, ◌||◌, List, [], ◌∷◌, ◌++◌, Option, none, some, length,
  find, ltb, leb, ◌==◌, if◌then◌else◌,
}
use hackline.Prelude.Text.{Text, lit, text_eq, on_first}
use hackline.Prelude.Outcome.{Result, ok, err}
use hackline.Gateway.Error.{
  GatewayError, bad_request, header_section_exceeded, preamble_closed_early, missing_host_header,
}
use hackline.Gateway.Schema.{Bytes, Device, Tunnel, Org, Db}

abbrev pub header_limit : ℕ
header_limit = 8192

within : ℕ → ℕ → ℕ → Bool
within lo hi b = leb lo b && leb b hi

tail_byte : ℕ → Bool
unfolding within
tail_byte = within 128 191

-- The first two bytes of a character of three or four bytes.
starts_three : ℕ → ℕ → Bool
unfolding within tail_byte
starts_three a b =
    (a == 224 && within 160 191 b)
    || (within 225 236 a && tail_byte b)
    || (a == 237 && within 128 159 b)
    || (within 238 239 a && tail_byte b)

starts_four : ℕ → ℕ → Bool
unfolding within tail_byte
starts_four a b =
    (a == 240 && within 144 191 b)
    || (within 241 243 a && tail_byte b)
    || (a == 244 && within 128 143 b)

-- `std::str::from_utf8` succeeds.
unfoldable pub is_utf8 : Bytes → Bool
unfolding within tail_byte starts_three starts_four
is_utf8 [] = true
is_utf8 (a ∷ []) = ltb a 128
is_utf8 (a ∷ b ∷ []) = if ltb a 128 then ltb b 128 else within 194 223 a && tail_byte b
is_utf8 (a ∷ b ∷ c ∷ []) =
    let two = is_utf8 (b ∷ c ∷ []) in
    let one = is_utf8 (c ∷ []) in
    if ltb a 128
    then two
    else if within 194 223 a
    then tail_byte b && one
    else starts_three a b && tail_byte c
is_utf8 (a ∷ b ∷ c ∷ d ∷ s) =
    let three = is_utf8 (b ∷ c ∷ d ∷ s) in
    let two = is_utf8 (c ∷ d ∷ s) in
    let one = is_utf8 (d ∷ s) in
    let rest = is_utf8 s in
    if ltb a 128
    then three
    else if within 194 223 a
    then tail_byte b && two
    else if starts_three a b
    then tail_byte c && one
    else starts_four a b && (tail_byte c && (tail_byte d && rest))

-- `text.split("\r\n")`.
unfoldable pub split_crlf : Text → List Text
split_crlf [] = [] ∷ []
split_crlf (x ∷ []) = (x ∷ []) ∷ []
split_crlf (x ∷ y ∷ s) =
    let rest = split_crlf s in
    let next = split_crlf (y ∷ s) in if x == 13 && y == 10 then [] ∷ rest else on_first x next

unfoldable pub strip_prefix : Text → Text → Option Text
strip_prefix [] s = some s
strip_prefix (x ∷ p) [] = none
strip_prefix (x ∷ p) (y ∷ s) = let rest = strip_prefix p s in if x == y then rest else none

-- White space of one, two or three bytes.
space_one : ℕ → Bool
unfolding within
space_one a = within 9 13 a || a == 32

space_two : ℕ → ℕ → Bool
space_two a b = a == 194 && (b == 133 || b == 160)

space_three : ℕ → ℕ → ℕ → Bool
unfolding within
space_three a b c =
    (a == 225 && (b == 154 && c == 128))
    || (a == 226 && (b == 128 && (within 128 138 c || within 168 169 c || c == 175)))
    || (a == 226 && (b == 129 && c == 159))
    || (a == 227 && (b == 128 && c == 128))

unfoldable pub trim_start : Text → Text
unfolding space_one space_two space_three
trim_start [] = []
trim_start (a ∷ []) = if space_one a then [] else a ∷ []
trim_start (a ∷ b ∷ []) =
    let one = trim_start (b ∷ []) in
    if space_one a then one else if space_two a b then [] else a ∷ b ∷ []
trim_start (a ∷ b ∷ c ∷ s) =
    let one = trim_start (b ∷ c ∷ s) in
    let two = trim_start (c ∷ s) in
    let three = trim_start s in
    if space_one a
    then one
    else if space_two a b
    then two
    else if space_three a b c
    then three
    else a ∷ b ∷ c ∷ s

abbrev is_empty : Text → Bool
is_empty [] = true
is_empty (_ ∷ _) = false

-- What is cut at the end is a suffix of white space only; no byte inside a character starts one.
unfoldable pub trim_end : Text → Text
unfolding trim_start
trim_end [] = []
trim_end (a ∷ s) = let rest = trim_end s in if is_empty (trim_start (a ∷ s)) then [] else a ∷ rest

unfoldable pub trim : Text → Text
unfolding trim_end trim_start
trim s = trim_end (trim_start s)

abbrev or_else : Option Text → Option Text → Option Text
or_else none o = o
or_else (some s) o = some s

-- The loop over the three spellings.
unfoldable pub strip_host : Text → Option Text
unfolding strip_prefix
strip_host line =
    or_else (strip_prefix (lit "Host:") line)
      (or_else (strip_prefix (lit "host:") line) (strip_prefix (lit "HOST:") line))

-- The loop over the lines.
unfoldable pub host_of_lines : List Text → Option Text
unfolding strip_host trim
host_of_lines [] = none
host_of_lines (line ∷ lines) =
    let rest = host_of_lines lines in
    if is_empty line then none else elim (strip_host line) [ some h ↦ some (trim h) | none ↦ rest ]

unfoldable pub parse_host_header : Bytes → Option Text
unfolding is_utf8 split_crlf host_of_lines
parse_host_header buf = if is_utf8 buf then host_of_lines (split_crlf buf) else none

abbrev next_position : Option ℕ → Option ℕ
next_position none = none
next_position (some n) = some (suc n)

unfoldable pub find_double_crlf : Bytes → Option ℕ
unfolding strip_prefix
find_double_crlf [] = none
find_double_crlf (x ∷ s) =
    let rest = find_double_crlf s in
    elim (strip_prefix (13 ∷ 10 ∷ 13 ∷ 10 ∷ []) (x ∷ s)) [
      | some _ ↦ some zero
      | none ↦ next_position rest
    ]

abbrev full : Bytes → Bool
full prefix = ltb header_limit (length prefix)

-- The reads of `handle_connection`: the host, and the bytes that the bridge sends on.
unfoldable pub read_host :
    Bytes → List (Result GatewayError Bytes) → Result GatewayError (Text × Bytes)
unfolding parse_host_header find_double_crlf
read_host prefix [] =
    if full prefix
    then err (bad_request header_section_exceeded)
    else err (bad_request preamble_closed_early)
read_host prefix (err e ∷ reads) =
    if full prefix then err (bad_request header_section_exceeded) else err e
read_host prefix (ok [] ∷ reads) =
    if full prefix
    then err (bad_request header_section_exceeded)
    else err (bad_request preamble_closed_early)
read_host prefix (ok (b ∷ bs) ∷ reads) =
    let now = prefix ++ b ∷ bs in
    let rest = read_host now reads in
    if full prefix
    then err (bad_request header_section_exceeded)
    else elim (parse_host_header now) [
      | some h ↦ ok (h, now)
      | none ↦ elim (find_double_crlf now) [
        | some _ ↦ err (bad_request missing_host_header)
        | none ↦ rest
      ]
    ]
