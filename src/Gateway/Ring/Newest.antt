-- ===== src/Gateway/Ring/Newest.antt =====
-- A pruned table keeps the newest rows of its device. This is about `prune` of
-- crates/hackline-gateway/src/db/events.rs and logs.rs.
use hackline.Prelude.{
  ℕ, zero, suc, ◌≤◌, ◌≡◌, ◌≢◌, refl, ap, ◌∙◌, true, false, not, ◌&&◌, List, [], ◌∷◌, map, take,
  drop, filterb, All, arith, ◌==◌, ==_iff, Bool-cases, inl, inr, if◌then◌else◌,
}
use hackline.Gateway.Sql.{delete_where, fresh}
use hackline.Gateway.Sql.Laws.{Falling, Falling-filterb, Falling-fresh, All-imp}
use hackline.Gateway.Ring.{rows_of, listed, prune_rows}

module _ {A : Type 0} (id device : A → ℕ) where
  -- Deleting listed rows of a device, seen by that device.
  rows_of-prune :
      (d : ℕ) (ids : List ℕ) (rows : List A)
      → rows_of device d (delete_where (λ r. device r == d && listed id ids r) rows)
        ≡ filterb (λ r. not (listed id ids r)) (rows_of device d rows)
  rows_of-prune d ids [] = refl
  rows_of-prune d ids (r ∷ rows) = ground (arith, rows_of-prune d ids rows)

  rows_of-other :
      (d e : ℕ) (ids : List ℕ) (rows : List A)
      → e ≢ d
      → rows_of device e (delete_where (λ r. device r == d && listed id ids r) rows)
        ≡ rows_of device e rows
  rows_of-other d e ids [] n = refl
  rows_of-other d e ids (r ∷ rows) n = ground (arith, rows_of-other d e ids rows n)

  listed_self : (rs : List A) → All (λ r. listed id (map id rs) r ≡ true) rs
  listed_self [] = tt
  listed_self (r ∷ rs) = (ground arith, All-imp _ rs (λ s h. ground arith) (listed_self rs))

  all_gone :
      (ids : List ℕ) (rs : List A)
      → All (λ r. listed id ids r ≡ true) rs
      → filterb (λ r. not (listed id ids r)) rs ≡ []
  all_gone ids [] h = refl
  all_gone ids (r ∷ rs) (h, hs) = rw h (all_gone ids rs hs)

  -- A row above all listed ones is not listed.
  not_listed :
      (n cap : ℕ) (x : A) (rs : List A)
      → Falling id n rs
      → n ≤ id x
      → listed id (drop cap (map id rs)) x ≡ false
  not_listed n zero x [] f h = refl
  not_listed n (suc cap) x [] f h = refl
  not_listed n zero x (r ∷ rs) f h = ground (arith, not_listed (id r) zero x rs f.1)
  not_listed n (suc cap) x (r ∷ rs) f h = ground (arith, not_listed (id r) cap x rs f.1)

  keep_newest :
      (n cap : ℕ) (rs : List A)
      → Falling id n rs
      → filterb (λ r. not (listed id (drop cap (map id rs)) r)) rs ≡ take cap rs
  keep_newest n zero rs f = all_gone (map id rs) rs (listed_self rs)
  keep_newest n (suc cap) [] f = refl
  keep_newest n (suc cap) (r ∷ rs) f =
      rw (not_listed (id r) cap r rs f.1 (omega arith))
        (ap (λ l. r ∷ l) (keep_newest (id r) cap rs f.1))

  module _ (n d cap : ℕ) (rows : List A) (f : Falling id n rows) where
    pub rows_of-prune_rows :
        rows_of device d (prune_rows id device d cap rows) ≡ take cap (rows_of device d rows)
    unfolding prune_rows
    rows_of-prune_rows =
        rows_of-prune d _ rows
        ∙ keep_newest n cap (rows_of device d rows) (Falling-filterb id n _ rows f)

    pub rows_of-prune_rows_ne :
        (e : ℕ) → e ≢ d → rows_of device e (prune_rows id device d cap rows) ≡ rows_of device e rows
    unfolding prune_rows
    rows_of-prune_rows_ne e h = rows_of-other d e _ rows h

    pub Falling-prune_rows : Falling id n (prune_rows id device d cap rows)
    unfolding prune_rows
    Falling-prune_rows = Falling-filterb id n _ rows f

  -- A table after an insertion for one device and the pruning that follows it.
  abbrev pub Pushed : ℕ → ℕ → A → List A → List A → Type 0
  Pushed d cap r rows after =
      ((e : ℕ)
        → rows_of device e after
          ≡ (if e == d then take cap (r ∷ rows_of device d rows) else rows_of device e rows))
      × Falling id (fresh id after) after

  pub push-Pushed :
      (d cap : ℕ) (r : A) (rows : List A)
      → device r ≡ d
      → id r ≡ fresh id rows
      → Falling id (fresh id rows) rows
      → Pushed d cap r rows (prune_rows id device d cap (r ∷ rows))
  push-Pushed d cap r rows own new f = (
    λ e. elim (Bool-cases (e == d)) [
      | inl same ↦
          rw (same, (==_iff e d).0 same)
            (rows_of-prune_rows (suc (id r)) d cap (r ∷ rows) falls ∙ ap (take cap) head)
      | inr other ↦
          let n : e ≢ d = ground (arith, ==_iff e d) in
          rw other (rows_of-prune_rows_ne (suc (id r)) d cap (r ∷ rows) falls e n ∙ tail e n)
    ],
    Falling-fresh id (suc (id r)) _ (Falling-prune_rows (suc (id r)) d cap (r ∷ rows) falls),
  )
    where
      falls : Falling id (suc (id r)) (r ∷ rows)
      falls = (omega arith, rw new f)

      head : rows_of device d (r ∷ rows) ≡ r ∷ rows_of device d rows
      head = ground arith

      tail : (e : ℕ) → e ≢ d → rows_of device e (r ∷ rows) ≡ rows_of device e rows
      tail e n = ground arith
