-- ===== src/Prelude/Int.antt =====
-- Signed integers over the native numbers (an `i64` of the source), with the source's comparisons,
-- `clamp`, `saturating_add` and `saturating_sub`.
use Prim.Native.Nat.{ℕ, suc, ◌+◌, ◌-◌, ◌≤◌, ◌<◌, ◌^◌}
use mathlib.Core.Bool.{Bool}
use hackline.Prelude.Tests.{ltb, leb, if◌then◌else◌}

-- `negsuc n` is -(n + 1).
pub data ℤ : Type 0 where
  pos : ℕ → ℤ
  negsuc : ℕ → ℤ

abbrev pub pos_part : ℤ → ℕ
pos_part (pos n) = n
pos_part (negsuc n) = 0

abbrev pub neg_part : ℤ → ℕ
neg_part (pos n) = 0
neg_part (negsuc n) = suc n

abbrev pub sub_ℕ : ℕ → ℕ → ℤ
sub_ℕ a b = if leb b a then pos (a - b) else negsuc (b - a - 1)

infix 50 ◌≤ℤ◌ ◌<ℤ◌
abbrev pub ◌≤ℤ◌ : ℤ → ℤ → Type 0
a ≤ℤ b = pos_part a + neg_part b ≤ pos_part b + neg_part a

abbrev pub ◌<ℤ◌ : ℤ → ℤ → Type 0
a <ℤ b = pos_part a + neg_part b < pos_part b + neg_part a

abbrev pub ltb_ℤ : ℤ → ℤ → Bool
ltb_ℤ a b = ltb (pos_part a + neg_part b) (pos_part b + neg_part a)

abbrev pub leb_ℤ : ℤ → ℤ → Bool
leb_ℤ a b = leb (pos_part a + neg_part b) (pos_part b + neg_part a)

-- `i64::MAX` and `i64::MIN`, as 2^63 - 1 and -2^63.
abbrev pub i64_max : ℤ
i64_max = pos (2 ^ 63 - 1)

abbrev pub i64_min : ℤ
i64_min = negsuc (2 ^ 63 - 1)

-- `v.clamp(lo, hi)`.
abbrev pub clamp : ℤ → ℤ → ℤ → ℤ
clamp lo hi v = if ltb_ℤ v lo then lo else if ltb_ℤ hi v then hi else v

-- `a.max(b)`.
abbrev pub max_ℤ : ℤ → ℤ → ℤ
max_ℤ a b = if ltb_ℤ b a then a else b

abbrev pub saturating_add : ℤ → ℤ → ℤ
saturating_add a b =
    clamp i64_min i64_max (sub_ℕ (pos_part a + pos_part b) (neg_part a + neg_part b))

abbrev pub saturating_sub : ℤ → ℤ → ℤ
saturating_sub a b =
    clamp i64_min i64_max (sub_ℕ (pos_part a + neg_part b) (neg_part a + pos_part b))
