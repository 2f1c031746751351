-- ===== src/Gateway/Stream/Glob.antt =====
-- What the topic patterns of crates/hackline-gateway/src/api/events/stream.rs stand for.
use hackline.Prelude.{
  ne_of_test, ℕ, ◌≡◌, ◌≢◌, refl, ap, sym, ◌↔◌, ◌⊎◌, inl, inr, Bool, true, false, ◌&&◌, [], ◌∷◌,
  ◌++◌, ◌==◌, ==_iff, arith, Bool-cases,
}
use mathlib.Core.Path.{subst}
use hackline.Prelude.Text.{Text}
use hackline.Gateway.Stream.{glob_match}

-- A star stands for any text, a question mark for any one byte, and any other byte for itself.
abbrev pub Matches : Text → Text → Type 0
Matches [] v = v ≡ []
Matches (c ∷ p) v =
    ((c ≡ b'*') × (skipped : Text) × (rest : Text) × (v ≡ skipped ++ rest) × Matches p rest)
    ⊎ ((c ≡ b'?') × (x : ℕ) × (rest : Text) × (v ≡ x ∷ rest) × Matches p rest)
    ⊎ ((c ≢ b'*') × (c ≢ b'?') × (rest : Text) × (v ≡ c ∷ rest) × Matches p rest)

and_holds : (a b : Bool) → (a && b) ≡ true → (a ≡ true) × (b ≡ true)
and_holds true b h = (refl, h)
and_holds false b h = absurd cc

matches : (p v : Text) → glob_match p v ≡ true → Matches p v
unfolding glob_match
matches [] [] h = refl
matches [] (x ∷ v) h = absurd cc
matches (c ∷ p) [] h = elim (Bool-cases (c == b'*')) [
  | inl star ↦ inl ((==_iff c b'*').0 star, [], [], refl, matches p [] (rw star at h))
  | inr other ↦ absurd (let h0 = rw other at h in cc)
]
matches (c ∷ p) (x ∷ v) h = elim (Bool-cases (c == b'*')) [
  | inl star ↦ elim (Bool-cases (glob_match p (x ∷ v))) [
    | inl here ↦ inl ((==_iff c b'*').0 star, [], x ∷ v, refl, matches p (x ∷ v) here)
    | inr later ↦
        let star_is = (==_iff c b'*').0 star in
        elim (matches (c ∷ p) v (rw (star, later) at h)) [
          | inl (_, skipped, rest, e, m) ↦ inl (star_is, x ∷ skipped, rest, ap (λ l. x ∷ l) e, m)
          | inr (inl (mark, _, _, _, _)) ↦ absurd (omega arith)
          | inr (inr (plain, _, _, _, _)) ↦ absurd (plain star_is)
        ]
  ]
  | inr no_star ↦ elim (Bool-cases (c == b'?')) [
    | inl mark ↦
        inr (inl ((==_iff c b'?').0 mark, x, v, refl, matches p v (rw (no_star, mark) at h)))
    | inr plain ↦
        let (same, rest) = and_holds (x == c) (glob_match p v) (rw (no_star, plain) at h) in
        inr (
          inr (
            ne_of_test c b'*' no_star,
            ne_of_test c b'?' plain,
            v,
            ap (λ y. y ∷ v) ((==_iff x c).0 same),
            matches p v rest,
          ))
  ]
]

suffix_of_nil : (skipped rest : Text) → [] ≡ skipped ++ rest → rest ≡ []
suffix_of_nil [] rest e = sym e
suffix_of_nil (x ∷ skipped) rest e = absurd cc

tail_eq : (x y : ℕ) (s t : Text) → x ∷ s ≡ y ∷ t → s ≡ t
tail_eq x y s t e = cc

head_eq : (x y : ℕ) (s t : Text) → x ∷ s ≡ y ∷ t → x ≡ y
head_eq x y s t e = cc

matched : (p v : Text) → Matches p v → glob_match p v ≡ true
unfolding glob_match
matched [] [] m = refl
matched [] (x ∷ v) m = absurd cc
matched (c ∷ p) [] (inl (star, skipped, rest, e, m)) =
    rw ((==_iff c b'*').1 star) (matched p [] (subst (Matches p) (suffix_of_nil skipped rest e) m))
matched (c ∷ p) [] (inr (inl (mark, x, rest, e, m))) = absurd cc
matched (c ∷ p) [] (inr (inr (_, _, rest, e, m))) = absurd cc
matched (c ∷ p) (x ∷ v) (inl (star, [], rest, e, m)) =
    let here = matched p (x ∷ v) (subst (Matches p) (sym e) m) in
    rw ((==_iff c b'*').1 star, here) refl
matched (c ∷ p) (x ∷ v) (inl (star, y ∷ skipped, rest, e, m)) =
    let later =
      matched (c ∷ p) v (inl (star, skipped, rest, tail_eq x y v (skipped ++ rest) e, m)) in
    elim (Bool-cases (glob_match p (x ∷ v))) [
      | inl here ↦ rw ((==_iff c b'*').1 star, here) refl
      | inr missed ↦ rw ((==_iff c b'*').1 star, missed) later
    ]
matched (c ∷ p) (x ∷ v) (inr (inl (mark, y, rest, e, m))) =
    let no_star : (c == b'*') ≡ false = ground arith in
    rw (no_star, (==_iff c b'?').1 mark)
      (matched p v (subst (Matches p) (sym (tail_eq x y v rest e)) m))
matched (c ∷ p) (x ∷ v) (inr (inr (plain, solid, rest, e, m))) =
    let no_star : (c == b'*') ≡ false = ground arith in
    let no_mark : (c == b'?') ≡ false = ground arith in
    rw (no_star, no_mark, (==_iff x c).1 (head_eq x c v rest e))
      (matched p v (subst (Matches p) (sym (tail_eq x c v rest e)) m))

-- A pattern of the live feeds matches a topic just if the topic is made of what the bytes of the
-- pattern stand for, in order: any text for a star, dots included, any one byte for a question mark,
-- and the byte itself for any other, brackets included.
pub glob_match_iff :
    (pattern value : Text) → (glob_match pattern value ≡ true) ↔ Matches pattern value
glob_match_iff pattern value = (matches pattern value, matched pattern value)
