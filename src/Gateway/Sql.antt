-- ===== src/Gateway/Sql.antt =====
-- The statements of crates/hackline-gateway/src/db, on tables. A table is the list of its rows,
-- the greatest rowid first, so `ORDER BY id DESC` is the list as it stands.
pub mod Laws
use hackline.Prelude.{
  ℕ, zero, suc, ◌≤◌, ◌<◌, ◌≡◌, refl, ap, Bool, true, false, not, List, [], ◌∷◌, length, filterb,
  arith, ltb, if◌then◌else◌,
}

module _ {ℓ} {A : Type ℓ} where
  -- `UPDATE … WHERE`.
  abbrev pub update_where : (A → Bool) → (A → A) → List A → List A
  update_where p f [] = []
  update_where p f (r ∷ rs) = (if p r then f r else r) ∷ update_where p f rs

  -- `DELETE … WHERE`.
  abbrev pub delete_where : (A → Bool) → List A → List A
  delete_where p = filterb (λ r. not (p r))

  -- `last_insert_rowid()` of an insertion: one more than the greatest rowid in the table.
  abbrev pub fresh : (A → ℕ) → List A → ℕ
  fresh id [] = 1
  fresh id (r ∷ rs) = let n = fresh id rs in if ltb (id r) n then n else suc (id r)
