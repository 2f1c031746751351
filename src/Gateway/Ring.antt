-- ===== src/Gateway/Ring.antt =====
-- The statement by which `prune` of crates/hackline-gateway/src/db/events.rs and logs.rs bounds the
-- rows of one device: `DELETE … WHERE device_id = ?1 AND id IN (SELECT id … WHERE device_id = ?1
-- ORDER BY id DESC LIMIT -1 OFFSET ?2)`.
pub mod Newest
use hackline.Prelude.{ℕ, Bool, ◌&&◌, List, map, drop, filterb, anyb, ◌==◌}
use hackline.Gateway.Sql.{delete_where}

-- `SELECT … WHERE device_id = ? ORDER BY id DESC`.
abbrev pub rows_of : {A : Type 0} → (A → ℕ) → ℕ → List A → List A
rows_of device device_id = filterb (λ r. device r == device_id)

-- `id IN (…)`.
abbrev pub listed : {A : Type 0} → (A → ℕ) → List ℕ → A → Bool
listed id ids r = anyb (λ j. j == id r) ids

unfoldable pub prune_rows : {A : Type 0} → (A → ℕ) → (A → ℕ) → ℕ → ℕ → List A → List A
prune_rows id device device_id cap rows =
    let ids = drop cap (map id (rows_of device device_id rows)) in
    delete_where (λ r. device r == device_id && listed id ids r) rows
