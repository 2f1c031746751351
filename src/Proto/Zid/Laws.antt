-- ===== src/Proto/Zid/Laws.antt =====
-- `Zid::new` of crates/hackline-proto/src/zid.rs against the canonical form it documents.
use hackline.Prelude.{
  ℕ, suc, ◌≤◌, ◌≡◌, refl, sym, ap, ◌↔◌, ◌⊎◌, true, [], ◌∷◌, arith, All, allb, length,
}
use hackline.Prelude.Text.{Text, Lacks}
use hackline.Prelude.Outcome.{ok}
use hackline.Proto.Zid.{Zid, lower, to_ascii_lowercase, is_ascii_hexdigit, new}

-- A lower-case hexadecimal digit.
abbrev pub IsHexLower : ℕ → Type 0
IsHexLower c = ((b'0' ≤ c) × (c ≤ b'9')) ⊎ ((b'a' ≤ c) × (c ≤ b'f'))

-- The canonical form: lower-case hex, no separators, 2 to 32 characters.
pub record IsCanonical (s : Text) : Type 0 where
  pub shortest : 2 ≤ length s
  pub longest : length s ≤ 32
  pub digits : All IsHexLower s

length-lower : (s : Text) → length (to_ascii_lowercase s) ≡ length s
length-lower [] = refl
length-lower (c ∷ s) = ap suc (length-lower s)

-- A lower-cased byte that is a hex digit is a lower-case one.
hex-lower : (c : ℕ) → is_ascii_hexdigit (lower c) ≡ true → IsHexLower (lower c)
unfolding is_ascii_hexdigit lower
hex-lower c h = ground arith

allb-hex :
    (s : Text)
    → allb is_ascii_hexdigit (to_ascii_lowercase s) ≡ true
    → All IsHexLower (to_ascii_lowercase s)
allb-hex [] h = tt
allb-hex (c ∷ s) h = ground (arith, hex-lower c, allb-hex s)

lower_of_hex : (c : ℕ) → IsHexLower c → (lower c ≡ c) × (is_ascii_hexdigit c ≡ true)
unfolding is_ascii_hexdigit lower
lower_of_hex c h = ground arith

lower_of_digits :
    (s : Text) → All IsHexLower s → (to_ascii_lowercase s ≡ s) × (allb is_ascii_hexdigit s ≡ true)
lower_of_digits [] h = (refl, refl)
lower_of_digits (c ∷ s) (h, hs) = ground (arith, lower_of_hex c h, lower_of_digits s hs)

new_sound :
    (raw : Text) (z : Zid)
    → new raw ≡ ok z
    → (z.as_str ≡ to_ascii_lowercase raw) × IsCanonical z.as_str
unfolding new
new_sound raw z h =
    let same : z.as_str ≡ to_ascii_lowercase raw = ground arith in
    let hex : allb is_ascii_hexdigit (to_ascii_lowercase raw) ≡ true = ground arith in
    (
      same,
      record {
        shortest = ground arith;
        longest = ground arith;
        digits = rw same (allb-hex raw hex);
      },
    )

new_complete :
    (raw : Text) (z : Zid)
    → z.as_str ≡ to_ascii_lowercase raw
    → IsCanonical z.as_str
    → new raw ≡ ok z
unfolding new
new_complete raw z same c = ground (arith, (lower_of_digits z.as_str c.digits).1)

-- `Zid::new` accepts exactly the texts whose lower-casing has 2 to 32 characters, all of them
-- lower-case hexadecimal digits, and the identifier it returns is that lower-casing.
pub new_iff :
    (raw : Text) (z : Zid)
    → (new raw ≡ ok z) ↔ ((z.as_str ≡ to_ascii_lowercase raw) × IsCanonical z.as_str)
new_iff raw z = (new_sound raw z, λ h. new_complete raw z h.0 h.1)

-- A canonical text parses to itself.
pub new_of_canonical : (z : Zid) → IsCanonical z.as_str → new z.as_str ≡ ok z
new_of_canonical z c = new_complete z.as_str z (sym (lower_of_digits z.as_str c.digits).0) c

-- No canonical text holds a byte that is no digit.
pub Lacks-of_canonical : (c : ℕ) (s : Text) → ¬ IsHexLower c → All IsHexLower s → Lacks c s
Lacks-of_canonical c [] h hs = tt
Lacks-of_canonical c (x ∷ s) h (d, ds) = (λ e. h (rw e at d), Lacks-of_canonical c s h ds)
