-- ===== src/Prelude/Text.antt =====
-- A text of the source as the list of its UTF-8 bytes. `split` and `replace` take an ASCII
-- character, so working on bytes or on characters gives the same.
use Prim.Native.Char.{code}
use Prim.Native.String.{String}
use Prim.Native.Nat.{ℕ}
use mathlib.Core.Path.{◌≡◌, refl, ap, ◌∙◌}
use mathlib.Core.Logic.{◌↔◌, ◌≢◌, inl, inr}
use mathlib.Core.Bool.{Bool, true, false, ◌&&◌}
use mathlib.Core.List.{List, [], ◌∷◌, ◌++◌, map}
use native.Mathlib.Omega.{arith}
use hackline.Prelude.Tests.{◌==◌, Bool-cases, if◌then◌else◌}
use hackline.Prelude.Lists.{All}

abbrev pub Text : Type 0
Text = List ℕ

-- The bytes of an ASCII literal.
abbrev pub lit : String → Text
lit String.[] = []
lit (String.◌∷◌ c s) = code c ∷ lit s

unfoldable pub text_eq : Text → Text → Bool
text_eq [] [] = true
text_eq [] (_ ∷ _) = false
text_eq (_ ∷ _) [] = false
text_eq (x ∷ s) (y ∷ t) = x == y && text_eq s t

pub eq_of_text_eq : (s t : Text) → text_eq s t ≡ true → s ≡ t
unfolding text_eq
eq_of_text_eq [] [] h = refl
eq_of_text_eq [] (y ∷ t) h = cc
eq_of_text_eq (x ∷ s) [] h = cc
eq_of_text_eq (x ∷ s) (y ∷ t) h = ground (arith, eq_of_text_eq s t)

pub text_eq_refl : (s : Text) → text_eq s s ≡ true
unfolding text_eq
text_eq_refl [] = refl
text_eq_refl (x ∷ s) = ground (arith, text_eq_refl s)

pub text_eq_iff : (s t : Text) → (text_eq s t ≡ true) ↔ (s ≡ t)
text_eq_iff s t = (eq_of_text_eq s t, λ e. rw e (text_eq_refl t))

pub text_eq_of_ne : (s t : Text) → s ≢ t → text_eq s t ≡ false
text_eq_of_ne s t h = ground (arith, text_eq_iff s t)

abbrev pub on_first : ℕ → List Text → List Text
on_first x [] = (x ∷ []) ∷ []
on_first x (p ∷ ps) = (x ∷ p) ∷ ps

-- `s.split(c)`: never empty.
unfoldable pub split : ℕ → Text → List Text
split c [] = [] ∷ []
split c (x ∷ s) = let rest = split c s in if x == c then [] ∷ rest else on_first x rest

-- `parts.join(c)`.
unfoldable pub join : ℕ → List Text → Text
join c [] = []
join c (p ∷ []) = p
join c (p ∷ q ∷ ps) = p ++ c ∷ join c (q ∷ ps)

-- `s.replace(a, b)` of one character by another.
unfoldable pub replace : ℕ → ℕ → Text → Text
replace a b = map λ x. if x == a then b else x

abbrev pub Lacks : ℕ → Text → Type 0
Lacks c = All (λ x. x ≢ c)

pub split_of_Lacks : (c : ℕ) (p : Text) → Lacks c p → split c p ≡ p ∷ []
unfolding split
split_of_Lacks c [] h = refl
split_of_Lacks c (x ∷ p) (n, h) = ground (arith, split_of_Lacks c p h)

pub split-append : (c : ℕ) (p s : Text) → Lacks c p → split c (p ++ c ∷ s) ≡ p ∷ split c s
unfolding split
split-append c [] s h = ground arith
split-append c (x ∷ p) s (n, h) = ground (arith, split-append c p s h)

-- Splitting undoes joining where no part holds the separator.
pub split-join :
    (c : ℕ) (p : Text) (ps : List Text)
    → Lacks c p
    → All (Lacks c) ps
    → split c (join c (p ∷ ps)) ≡ p ∷ ps
unfolding join
split-join c p [] h hs = split_of_Lacks c p h
split-join c p (q ∷ ps) h hs =
    split-append c p (join c (q ∷ ps)) h ∙ ap (λ l. p ∷ l) (split-join c q ps hs.0 hs.1)

join-on_first : (c x : ℕ) (ps : List Text) → ps ≢ [] → join c (on_first x ps) ≡ x ∷ join c ps
unfolding join
join-on_first c x [] h = absurd (h refl)
join-on_first c x (p ∷ []) h = refl
join-on_first c x (p ∷ q ∷ ps) h = refl

join-nil_cons : (c : ℕ) (ps : List Text) → ps ≢ [] → join c ([] ∷ ps) ≡ c ∷ join c ps
unfolding join
join-nil_cons c [] h = absurd (h refl)
join-nil_cons c (p ∷ ps) h = refl

pub split-ne-nil : (c : ℕ) (s : Text) → split c s ≢ []
unfolding split
split-ne-nil c [] e = cc
split-ne-nil c (x ∷ s) e = ground (arith, split-ne-nil c s)

-- Joining what was split puts the new separator in place of the old one.
pub join-split : (c d : ℕ) (s : Text) → join d (split c s) ≡ replace c d s
unfolding split replace
join-split c d [] = unfold join in refl
join-split c d (x ∷ s) = elim (Bool-cases (x == c)) [
  | inl e ↦
      rw e (join-nil_cons d (split c s) (split-ne-nil c s) ∙ ap (λ t. d ∷ t) (join-split c d s))
  | inr e ↦
      rw e (join-on_first d x (split c s) (split-ne-nil c s) ∙ ap (λ t. x ∷ t) (join-split c d s))
]

-- Replacing back gives the first text, if it did not hold the second character.
pub replace_back : (a b : ℕ) (s : Text) → Lacks b s → replace b a (replace a b s) ≡ s
unfolding replace
replace_back a b [] h = refl
replace_back a b (x ∷ s) (n, h) = ground (arith, replace_back a b s h)

pub Lacks-append : (c : ℕ) (s t : Text) → Lacks c s → Lacks c t → Lacks c (s ++ t)
Lacks-append c [] t h k = k
Lacks-append c (x ∷ s) t (n, h) k = (n, Lacks-append c s t h k)

-- No part of a split text holds the separator.
pub Lacks-split : (c : ℕ) (s : Text) → All (Lacks c) (split c s)
unfolding split
Lacks-split c [] = (tt, tt)
Lacks-split c (x ∷ s) = ground (arith, Lacks-split c s)
