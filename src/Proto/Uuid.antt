-- ===== src/Proto/Uuid.antt =====
-- The `uuid` crate, which the program calls and does not contain: identifiers with their printed
-- form, and what the program relies on.
use hackline.Prelude.{◌≡◌, Bool, true, ◌↔◌, Option, some}
use hackline.Prelude.Text.{Text, Lacks}

pub record Uuids : Type 1 where
  pub Uuid : Type 0
  pub eq : Uuid → Uuid → Bool
  pub to_string : Uuid → Text
  pub parse_str : Text → Option Uuid

-- `==` decides equality, a printed identifier is read back, and its form (hexadecimal digits and
-- dashes) holds no slash.
pub record IsUuid (u : Uuids) : Type 0 where
  pub eq_iff : (a b : u.Uuid) → (u.eq a b ≡ true) ↔ (a ≡ b)
  pub parse-to_string : (a : u.Uuid) → u.parse_str (u.to_string a) ≡ some a
  pub no_slash : (a : u.Uuid) → Lacks b'/' (u.to_string a)
