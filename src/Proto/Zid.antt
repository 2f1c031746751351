-- ===== src/Proto/Zid.antt =====
-- crates/hackline-proto/src/zid.rs and error.rs: the device identifier.
pub mod Laws
use hackline.Prelude.{
  ℕ, ◌+◌, ◌≤◌, Bool, ◌&&◌, ◌||◌, List, map, ltb, leb, length, allb, if◌then◌else◌,
}
use hackline.Prelude.Text.{Text}
use hackline.Prelude.Outcome.{Result, ok, err, ◌>>=◌}

-- `ProtoError`, with the reason of a refusal in place of its wording. `serde_json` raises `json`.
pub data ProtoError : Type 0 where
  length_outside : ℕ → ProtoError
  non_hex : ProtoError
  json : ProtoError

-- The newtype `Zid(String)`.
pub record Zid : Type 0 where
  pub as_str : Text

-- `u8::to_ascii_lowercase`.
unfoldable pub lower : ℕ → ℕ
lower c = if leb b'A' c && leb c b'Z' then c + 32 else c

abbrev pub to_ascii_lowercase : Text → Text
to_ascii_lowercase = map lower

-- `char::is_ascii_hexdigit`.
unfoldable pub is_ascii_hexdigit : ℕ → Bool
is_ascii_hexdigit c =
    (leb b'0' c && leb c b'9') || (leb b'a' c && leb c b'f') || (leb b'A' c && leb c b'F')

-- `Zid::new`.
unfoldable pub new : Text → Result ProtoError Zid
unfolding is_ascii_hexdigit lower
new raw =
    let s = to_ascii_lowercase raw in
    if ltb (length s) 2 || ltb 32 (length s)
    then err (length_outside (length s))
    else if allb is_ascii_hexdigit s
    then ok (record { as_str = s })
    else err non_hex
