-- ===== src/Prelude/Lists.antt =====
-- Lists measured by native numbers, under the library's names, with the Boolean searches that SQL
-- statements and Rust iterators make.
use Prim.Native.Nat.{ℕ, zero, suc, ◌+◌}
use mathlib.Core.Bool.{Bool, true, false, ◌&&◌, ◌||◌}
use mathlib.Core.List.{List, [], ◌∷◌, ◌++◌}
use mathlib.Core.Option.{Option, none, some}
use mathlib.Core.Path.{◌≡◌, refl, ap, ◌∙◌}
use mathlib.Core.Logic.{inl, inr}
use native.Mathlib.Omega.{arith}
use hackline.Prelude.Tests.{if◌then◌else◌, Option-cases}

module _ {ℓ} {A : Type ℓ} where
  abbrev pub length : List A → ℕ
  length [] = 0
  length (x ∷ xs) = suc (length xs)

  pub length-append : (xs ys : List A) → length (xs ++ ys) ≡ length xs + length ys
  length-append [] ys = omega arith
  length-append (x ∷ xs) ys = omega (arith, length-append xs ys)

  abbrev pub take : ℕ → List A → List A
  take zero xs = []
  take (suc n) [] = []
  take (suc n) (x ∷ xs) = x ∷ take n xs

  abbrev pub drop : ℕ → List A → List A
  drop zero xs = xs
  drop (suc n) [] = []
  drop (suc n) (x ∷ xs) = drop n xs

  -- `WHERE`, and `retain`.
  abbrev pub filterb : (A → Bool) → List A → List A
  filterb p [] = []
  filterb p (x ∷ xs) = let rest = filterb p xs in if p x then x ∷ rest else rest

  abbrev pub anyb : (A → Bool) → List A → Bool
  anyb p [] = false
  anyb p (x ∷ xs) = p x || anyb p xs

  abbrev pub allb : (A → Bool) → List A → Bool
  allb p [] = true
  allb p (x ∷ xs) = p x && allb p xs

  abbrev pub find : (A → Bool) → List A → Option A
  find p [] = none
  find p (x ∷ xs) = let rest = find p xs in if p x then some x else rest

  -- `SELECT COUNT(*) … WHERE`.
  abbrev pub countb : (A → Bool) → List A → ℕ
  countb p xs = length (filterb p xs)

module _ {ℓ κ} {A : Type ℓ} (P : A → Type κ) where
  abbrev pub All : List A → Type κ
  All [] = Unit
  All (x ∷ xs) = P x × All xs

-- `filter_map`.
unfoldable pub filter_map : {A B : Type 0} → (A → Option B) → List A → List B
filter_map f [] = []
filter_map f (a ∷ l) = let rest = filter_map f l in elim (f a) [ some b ↦ b ∷ rest | none ↦ rest ]

pub filter_map-append :
    {A B : Type 0} (f : A → Option B) (xs ys : List A)
    → filter_map f (xs ++ ys) ≡ filter_map f xs ++ filter_map f ys
unfolding filter_map
filter_map-append f [] ys = refl
filter_map-append f (x ∷ xs) ys = elim (Option-cases (f x)) [
  | inl dropped ↦ rw (dropped, filter_map) (filter_map-append f xs ys)
  | inr (y, kept) ↦ rw (kept, filter_map) (ap (λ l. y ∷ l) (filter_map-append f xs ys))
]

-- `opt.into_iter().collect()`.
abbrev pub to_list : {A : Type 0} → Option A → List A
to_list none = []
to_list (some a) = a ∷ []

filter_map_one : {A B : Type 0} (f : A → Option B) (x : A) → filter_map f (x ∷ []) ≡ to_list (f x)
unfolding filter_map
filter_map_one f x = elim (Option-cases (f x)) [
  | inl dropped ↦ rw (dropped, filter_map) refl
  | inr (y, kept) ↦ rw (kept, filter_map) refl
]

pub filter_map-last :
    {A B : Type 0} (f : A → Option B) (xs : List A) (x : A)
    → filter_map f (xs ++ x ∷ []) ≡ filter_map f xs ++ to_list (f x)
unfolding filter_map
filter_map-last f xs x =
    filter_map-append f xs (x ∷ []) ∙ ap (λ l. filter_map f xs ++ l) (filter_map_one f x)
