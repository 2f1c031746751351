-- ===== src/Agent/Diag/Recent.antt =====
-- The connection ring of crates/hackline-agent/src/diag/state.rs.
use mathlib.Core.List.{reverse-cons, reverse-append, reverse_aux}
use hackline.Prelude.{
  ℕ, zero, suc, ◌≤◌, ◌≡◌, refl, ap, sym, ◌∙◌, List, [], ◌∷◌, ◌++◌, reverse, length, take, drop, leb,
  arith, Bool-cases, inl, inr, if◌then◌else◌,
}
use hackline.Agent.Diag.{
  connection_ring_cap, ConnectionEvent, DiagState, push_connection, recent_connections,
}

module _ {A : Type 0} where
  reverse-snoc : (xs : List A) (y : A) → reverse (xs ++ y ∷ []) ≡ y ∷ reverse xs
  reverse-snoc xs y = reverse-append xs (y ∷ [])

  length-snoc : (xs : List A) (y : A) → length (xs ++ y ∷ []) ≡ suc (length xs)
  length-snoc [] y = refl
  length-snoc (x ∷ xs) y = ap suc (length-snoc xs y)

  length-reverse : (xs : List A) → length (reverse xs) ≡ length xs
  length-reverse [] = refl
  length-reverse (x ∷ xs) =
      ap length (reverse-cons x xs) ∙ length-snoc (reverse xs) x ∙ ap suc (length-reverse xs)

  take-append : (xs ys : List A) → take (length xs) (xs ++ ys) ≡ xs
  take-append [] ys = refl
  take-append (x ∷ xs) ys = ap (λ l. x ∷ l) (take-append xs ys)

  take-take : (n : ℕ) (xs : List A) → take n (take (suc n) xs) ≡ take n xs
  take-take zero xs = refl
  take-take (suc n) [] = refl
  take-take (suc n) (x ∷ xs) = ap (λ l. x ∷ l) (take-take n xs)

  length-take : (n : ℕ) (xs : List A) → length (take n xs) ≤ n
  length-take zero xs = omega arith
  length-take (suc n) [] = omega arith
  length-take (suc n) (x ∷ xs) = let rest = length-take n xs in omega arith

  take-short : (n : ℕ) (xs : List A) → length (take (suc n) xs) ≤ n → take (suc n) xs ≡ take n xs
  take-short zero [] h = refl
  take-short (suc n) [] h = refl
  take-short zero (x ∷ xs) h = absurd (omega arith)
  take-short (suc n) (x ∷ xs) h = ap (λ l. x ∷ l) (take-short n xs (omega arith))

  -- The longest prefix of `take (suc n) hist` whose last element is cut is `take n hist`.
  reverse-drop :
      (n : ℕ) (xs hist : List A)
      → reverse xs ≡ take (suc n) hist
      → suc n ≤ length xs
      → reverse (drop 1 xs) ≡ take n hist
  reverse-drop n [] hist e le = absurd (omega arith)
  reverse-drop n (x ∷ xs) hist e le =
      let whole = sym (reverse-cons x xs) ∙ e in
      let whole_length = sym (length-snoc (reverse xs) x) ∙ ap length whole in
      let bound = length-take (suc n) hist in
      let size = length-reverse xs in
      let exact : length (reverse xs) ≡ n = omega arith in
      sym (take-append (reverse xs) (x ∷ []))
      ∙ ap (λ k. take k (reverse xs ++ x ∷ [])) exact
      ∙ ap (take n) whole
      ∙ take-take n hist

-- The ring holds the newest of what was pushed.
HoldsNewest : DiagState → List ConnectionEvent → Type 0
HoldsNewest s hist = recent_connections s ≡ take connection_ring_cap hist

ring_push :
    (n : ℕ) (g hist : List ConnectionEvent) (ev : ConnectionEvent)
    → reverse g ≡ take (suc n) hist
    → reverse ((if leb (suc n) (length g) then drop 1 g else g) ++ ev ∷ [])
      ≡ take (suc n) (ev ∷ hist)
ring_push n g hist ev e = elim (Bool-cases (leb (suc n) (length g))) [
  | inl t ↦
      rw t (reverse-snoc (drop 1 g) ev ∙ ap (λ l. ev ∷ l) (reverse-drop n g hist e (ground arith)))
  | inr f ↦
      let le : length g ≤ n = ground arith in
      let few = sym (length-reverse g) ∙ ap length e in
      rw f (reverse-snoc g ev ∙ ap (λ l. ev ∷ l) (e ∙ take-short n hist (omega arith)))
]

unfoldable pub push_all : DiagState → List ConnectionEvent → DiagState
push_all s [] = s
push_all s (ev ∷ evs) = push_all (push_connection s ev) evs

push_connection-HoldsNewest :
    (s : DiagState) (hist : List ConnectionEvent) (ev : ConnectionEvent)
    → HoldsNewest s hist
    → HoldsNewest (push_connection s ev) (ev ∷ hist)
unfolding push_connection recent_connections HoldsNewest
push_connection-HoldsNewest s hist ev e = ring_push 63 s.connections hist ev e

push_all-HoldsNewest :
    (s : DiagState) (hist evs : List ConnectionEvent)
    → HoldsNewest s hist
    → HoldsNewest (push_all s evs) (reverse_aux evs hist)
unfolding push_all
push_all-HoldsNewest s hist [] e = e
push_all-HoldsNewest s hist (ev ∷ evs) e =
    push_all-HoldsNewest (push_connection s ev) (ev ∷ hist) evs
      (push_connection-HoldsNewest s hist ev e)

-- After any connections, the diagnostic page lists the last 64 of them, the newest first.
pub recent_connections-push_all :
    (s : DiagState) (evs : List ConnectionEvent)
    → s.connections ≡ []
    → recent_connections (push_all s evs) ≡ take connection_ring_cap (reverse evs)
unfolding HoldsNewest recent_connections
recent_connections-push_all s evs fresh = push_all-HoldsNewest s [] evs (ap reverse fresh)
