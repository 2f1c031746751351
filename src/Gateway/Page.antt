-- ===== src/Gateway/Page.antt =====
-- Cursor pagination, as crates/hackline-gateway/src/db/events.rs, logs.rs and cmd_outbox.rs query it
-- and the list handlers under crates/hackline-gateway/src/api answer it. The filters of a query are
-- one clause on rows, and `id` names the rowid.
pub mod Complete
use hackline.Prelude.{
  ℕ, zero, suc, ◌+◌, ◌≡◌, refl, Bool, true, false, ◌&&◌, List, [], ◌∷◌, ◌++◌, Option, none, some,
  length, take, filterb, if◌then◌else◌,
}
use hackline.Prelude.Int.{ℤ, pos, negsuc, clamp, ltb_ℤ, leb_ℤ}

-- The clause `AND id < ?` that a cursor adds.
abbrev pub before : Option ℤ → ℕ → Bool
before none id = true
before (some c) id = ltb_ℤ (pos id) c

abbrev pub to_ℕ : ℤ → ℕ
to_ℕ (pos n) = n
to_ℕ (negsuc _) = 0

-- `limit.clamp(1, 1000)`.
abbrev pub page_size : ℤ → ℕ
page_size limit = to_ℕ (clamp (pos 1) (pos 1000) limit)

module _ {A : Type 0} (id : A → ℕ) where
  -- `… WHERE clause AND id < ? ORDER BY id DESC LIMIT ?`.
  unfoldable pub page : (A → Bool) → Option ℤ → ℤ → List A → List A
  page clause cursor limit rows =
      take (page_size limit) (filterb (λ r. clause r && before cursor (id r)) rows)

  -- `items.last().map(|r| r.id)`.
  abbrev last_id : List A → Option ℤ
  last_id [] = none
  last_id (r ∷ []) = some (pos (id r))
  last_id (r ∷ s ∷ rs) = last_id (s ∷ rs)

  -- The answer's cursor; `limit` is the number that the client sent.
  unfoldable pub next_cursor : ℤ → List A → Option ℤ
  next_cursor limit items = if leb_ℤ limit (pos (length items)) then last_id items else none
