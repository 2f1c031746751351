-- ===== src/Gateway/Page/Complete.antt =====
-- What a client gets that follows the cursors of the list handlers under
-- crates/hackline-gateway/src/api.
use hackline.Prelude.{
  ℕ, zero, suc, ◌-◌, ◌≤◌, ◌<◌, ◌≡◌, ◌≢◌, refl, ap, ◌∙◌, Bool, true, ◌&&◌, List, [], ◌∷◌, ◌++◌,
  Option, none, some, length, take, drop, filterb, All, arith, Bool-cases, Option-cases, inl, inr,
}
use hackline.Prelude.Int.{ℤ, pos, leb_ℤ, ◌<ℤ◌, ◌≤ℤ◌}
use hackline.Gateway.Sql.Laws.{Falling, Falling-mono, Falling-filterb}
use hackline.Gateway.Page.{before, page_size, page, last_id, next_cursor}

module _ {A : Type 0} (id : A → ℕ) where
  -- The client: it asks again with each cursor that it is given.
  unfoldable pub follow : ℕ → (A → Bool) → Option ℤ → ℤ → List A → List A
  follow zero clause cursor limit rows = []
  follow (suc fuel) clause cursor limit rows =
      let items = page id clause cursor limit rows in
      elim (next_cursor id limit items) [
        | none ↦ items
        | some c ↦ items ++ follow fuel clause (some c) limit rows
      ]

  last_bound :
      (m n : ℕ) (rs : List A) (k : ℤ)
      → Falling id n rs
      → last_id id (take m rs) ≡ some k
      → k <ℤ pos n
  last_bound zero n rs k f e = cc
  last_bound (suc m) n [] k f e = cc
  last_bound (suc zero) n (r ∷ rs) k f e = ground arith
  last_bound (suc (suc m)) n (r ∷ []) k f e = ground arith
  last_bound (suc (suc m)) n (r ∷ s ∷ rs) k f e =
      ground (arith, last_bound (suc m) (id r) (s ∷ rs) k f.1 e)

  all_below :
      (n : ℕ) (rs : List A) → Falling id n rs → filterb (λ r. before (some (pos n)) (id r)) rs ≡ rs
  all_below n [] f = refl
  all_below n (r ∷ rs) f =
      ground (arith, all_below n rs (Falling-mono id {m = id r} rs (omega arith) f.1))

  -- In a falling list the rows below the last of the first `m` are those after them.
  below_last :
      (m n : ℕ) (rs : List A) (k : ℤ)
      → Falling id n rs
      → last_id id (take m rs) ≡ some k
      → filterb (λ r. before (some k) (id r)) rs ≡ drop m rs
  below_last zero n rs k f e = cc
  below_last (suc m) n [] k f e = cc
  below_last (suc zero) n (r ∷ rs) k f e = ground (arith, all_below (id r) rs f.1)
  below_last (suc (suc m)) n (r ∷ []) k f e = ground arith
  below_last (suc (suc m)) n (r ∷ s ∷ rs) k f e = ground (
    arith,
    last_bound (suc m) (id r) (s ∷ rs) k f.1 e,
    below_last (suc m) (id r) (s ∷ rs) k f.1 e,
  )

  -- The rows that a query with this cursor selects, before its LIMIT.
  abbrev selected : (A → Bool) → Option ℤ → List A → List A
  selected clause cursor rows = filterb (λ r. clause r && before cursor (id r)) rows

  -- A smaller cursor selects from what a greater one selects.
  selected_again :
      (clause : A → Bool) (cursor : Option ℤ) (k : ℤ) (rows : List A)
      → ((j : ℕ) → before (some k) j ≡ true → before cursor j ≡ true)
      → selected clause (some k) rows
        ≡ filterb (λ r. before (some k) (id r)) (selected clause cursor rows)
  selected_again clause cursor k [] h = refl
  selected_again clause cursor k (r ∷ rows) h =
      ground (arith, selected_again clause cursor k rows h, h (id r))

  selected_All :
      (clause : A → Bool) (c : ℤ) (rows : List A)
      → All (λ r. pos (id r) <ℤ c) (selected clause (some c) rows)
  selected_All clause c [] = tt
  selected_All clause c (r ∷ rows) = ground (arith, selected_All clause c rows)

  last_All :
      (c : ℤ) (m : ℕ) (rs : List A) (k : ℤ)
      → All (λ r. pos (id r) <ℤ c) rs
      → last_id id (take m rs) ≡ some k
      → k <ℤ c
  last_All c zero rs k h e = cc
  last_All c (suc m) [] k h e = cc
  last_All c (suc zero) (r ∷ rs) k h e = ground arith
  last_All c (suc (suc m)) (r ∷ []) k h e = ground arith
  last_All c (suc (suc m)) (r ∷ s ∷ rs) k h e = last_All c (suc m) (s ∷ rs) k h.1 e

  -- A cursor that a page gives lies before the page's own.
  last_before :
      (m : ℕ) (clause : A → Bool) (cursor : Option ℤ) (k : ℤ) (rows : List A)
      → last_id id (take m (selected clause cursor rows)) ≡ some k
      → (j : ℕ) → before (some k) j ≡ true
      → before cursor j ≡ true
  last_before m clause none k rows e j h = refl
  last_before m clause (some c) k rows e j h =
      ground (arith, last_All c m (selected clause (some c) rows) k (selected_All clause c rows) e)

  take_short : (m : ℕ) (xs : List A) → length (take m xs) < m → take m xs ≡ xs
  take_short zero xs h = elim h [ ]
  take_short (suc m) [] h = refl
  take_short (suc m) (x ∷ xs) h = ap (λ ys. x ∷ ys) (take_short m xs (omega arith))

  take-drop : (m : ℕ) (xs : List A) → take m xs ++ drop m xs ≡ xs
  take-drop zero xs = refl
  take-drop (suc m) [] = refl
  take-drop (suc m) (x ∷ xs) = ap (λ ys. x ∷ ys) (take-drop m xs)

  length-drop : (m : ℕ) (xs : List A) → length (drop m xs) ≡ length xs - m
  length-drop zero xs = omega arith
  length-drop (suc m) [] = omega arith
  length-drop (suc m) (x ∷ xs) = omega (arith, length-drop m xs)

  last_none : (xs : List A) → last_id id xs ≡ none → xs ≡ []
  last_none [] e = refl
  last_none (x ∷ []) e = cc
  last_none (x ∷ y ∷ xs) e = absurd (cons-ne (last_none (y ∷ xs) e))
    where
      cons-ne : y ∷ xs ≢ []
      cons-ne p = cc

  some-take :
      (m : ℕ) (xs : List A) (k : ℤ) → last_id id (take m xs) ≡ some k → (0 < m) × (0 < length xs)
  some-take zero xs k e = cc
  some-take (suc m) [] k e = cc
  some-take (suc m) (x ∷ xs) k e = (omega arith, omega arith)

  -- Within the limits the page has the size that was asked for.
  size_asked : (limit : ℤ) → pos 1 ≤ℤ limit → limit ≤ℤ pos 1000 → limit ≡ pos (page_size limit)
  size_asked limit lo hi = ground arith

  last_page :
      (limit : ℤ) (xs : List A)
      → pos 1 ≤ℤ limit
      → limit ≤ℤ pos 1000
      → next_cursor id limit (take (page_size limit) xs) ≡ none
      → take (page_size limit) xs ≡ xs
  unfolding next_cursor
  last_page limit xs lo hi e =
      elim (Bool-cases (leb_ℤ limit (pos (length (take (page_size limit) xs))))) [
        | inl full ↦ absurd (ground (arith, last_none (take (page_size limit) xs) (rw full at e)))
        | inr short ↦ take_short (page_size limit) xs (ground (arith, size_asked limit lo hi))
      ]

  full_page :
      (limit : ℤ) (items : List A) (k : ℤ)
      → next_cursor id limit items ≡ some k
      → last_id id items ≡ some k
  unfolding next_cursor
  full_page limit items k e = ground arith

  length-selected :
      (clause : A → Bool) (rows : List A) → length (selected clause none rows) ≤ length rows
  length-selected clause [] = omega arith
  length-selected clause (r ∷ rows) = ground (arith, length-selected clause rows)

  selected-none :
      (clause : A → Bool) (rows : List A) → selected clause none rows ≡ filterb clause rows
  selected-none clause [] = refl
  selected-none clause (r ∷ rows) = ground (arith, selected-none clause rows)

  -- Following the cursors from any point gives all that is selected from there.
  follow-eq-selected :
      (fuel : ℕ) (clause : A → Bool) (cursor : Option ℤ) (limit : ℤ) (n : ℕ) (rows : List A)
      → pos 1 ≤ℤ limit
      → limit ≤ℤ pos 1000
      → Falling id n rows
      → length (selected clause cursor rows) < fuel
      → follow fuel clause cursor limit rows ≡ selected clause cursor rows
  unfolding follow page
  follow-eq-selected zero clause cursor limit n rows lo hi f enough = absurd (omega arith)
  follow-eq-selected (suc fuel) clause cursor limit n rows lo hi f enough =
      elim (Option-cases (next_cursor id limit (take m rest))) [
        | inl e ↦ rw (e, follow) (last_page limit rest lo hi e)
        | inr (k, e) ↦
            let last = full_page limit (take m rest) k e in
            let ih = follow-eq-selected fuel clause (some k) limit n rows lo hi f (
              rw (ahead k last) (
                omega (
                  arith,
                  length-drop m rest,
                  (some-take m rest k last).0,
                  (some-take m rest k last).1,
                ))) in
            rw (e, follow) (rw (ih, ahead k last) (take-drop m rest))
      ]
    where
      m : ℕ
      m = page_size limit

      rest : List A
      rest = selected clause cursor rows

      ahead :
          (k : ℤ) → last_id id (take m rest) ≡ some k → selected clause (some k) rows ≡ drop m rest
      ahead k e =
          selected_again clause cursor k rows (last_before m clause cursor k rows e)
          ∙ below_last m n rest k (Falling-filterb id n _ rows f) e

  -- Where rowids fall along the table, a client that sends a limit from 1 to 1000 and follows the
  -- cursors, with fuel for one request more than there are rows, receives every row that meets
  -- the clause, once and in order, however the rows fall into pages.
  pub follow_complete :
      (fuel : ℕ) (clause : A → Bool) (limit : ℤ) (n : ℕ) (rows : List A)
      → pos 1 ≤ℤ limit
      → limit ≤ℤ pos 1000
      → Falling id n rows
      → length rows < fuel
      → follow fuel clause none limit rows ≡ filterb clause rows
  follow_complete fuel clause limit n rows lo hi f enough =
      follow-eq-selected fuel clause none limit n rows lo hi f
        (omega (arith, length-selected clause rows))
      ∙ selected-none clause rows

  length-take-le : (m : ℕ) (xs : List A) → length (take m xs) ≤ m
  length-take-le zero xs = omega arith
  length-take-le (suc m) [] = omega arith
  length-take-le (suc m) (x ∷ xs) = omega (arith, length-take-le m xs)

  size_capped : (limit : ℤ) → pos 1000 <ℤ limit → page_size limit ≡ 1000
  size_capped limit h = ground arith

  no_cursor :
      (limit : ℤ) (xs : List A)
      → pos 1000 <ℤ limit
      → next_cursor id limit (take (page_size limit) xs) ≡ none
  unfolding next_cursor
  no_cursor limit xs h = ground (arith, length-take-le (page_size limit) xs, size_capped limit h)

  -- With a limit above 1000 no answer has a cursor, so a client that follows the cursors gets the
  -- first 1000 rows alone.
  pub follow_stops :
      (fuel : ℕ) (clause : A → Bool) (cursor : Option ℤ) (limit : ℤ) (rows : List A)
      → pos 1000 <ℤ limit
      → follow (suc fuel) clause cursor limit rows ≡ take 1000 (selected clause cursor rows)
  unfolding follow page
  follow_stops fuel clause cursor limit rows h =
      rw (no_cursor limit (selected clause cursor rows) h, follow) (rw (size_capped limit h))
