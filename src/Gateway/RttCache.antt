-- ===== src/Gateway/RttCache.antt =====
-- crates/hackline-gateway/src/rtt_cache.rs. An instant is a number of ticks of the monotonic clock,
-- and the map is a list with one entry for each key.
pub mod Hits
pub mod Found
use hackline.Prelude.{
  ℕ, ◌-◌, Bool, true, false, not, ◌&&◌, List, [], ◌∷◌, Option, none, some, length, filterb, find,
  leb, ◌==◌, if◌then◌else◌,
}
use hackline.Prelude.Int.{ℤ}

abbrev pub max_entries : ℕ
max_entries = 4096

-- `(i64, i64)`: the organisation and the device.
abbrev pub Key : Type 0
Key = ℕ × ℕ

abbrev pub key_eq : Key → Key → Bool
key_eq (a, b) (c, d) = a == c && b == d

pub record Entry : Type 0 where
  pub key : Key
  pub at : ℕ
  pub rtt_ms : Option ℤ

pub record RttCache : Type 0 where
  pub entries : List Entry
  pub ttl : ℕ

-- `at.elapsed() <= ttl`; `elapsed` is zero before `at`.
abbrev pub fresh_at : ℕ → ℕ → Entry → Bool
fresh_at ttl now e = leb (now - e.at) ttl

abbrev answer : ℕ → ℕ → Option Entry → Option (Option ℤ)
answer ttl now none = none
answer ttl now (some e) = if fresh_at ttl now e then some e.rtt_ms else none

unfoldable pub get : RttCache → ℕ → Key → Option (Option ℤ)
get c now key = answer c.ttl now (find (λ e. key_eq e.key key) c.entries)

unfoldable pub put : RttCache → ℕ → Key → Option ℤ → RttCache
put c now key rtt_ms =
    let kept = filterb (fresh_at c.ttl now) c.entries in
    let map = if leb max_entries (length kept) then [] else kept in
    let entry : Entry = record { key = key; at = now; rtt_ms = rtt_ms } in
    record c { entries = entry ∷ filterb (λ e. not (key_eq e.key key)) map }
