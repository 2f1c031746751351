-- ===== src/Gateway/RttCache/Hits.antt =====
-- What the cache of crates/hackline-gateway/src/rtt_cache.rs answers after it stores a value.
use hackline.Prelude.{
  ℕ, suc, ◌-◌, ◌≤◌, ◌≡◌, ◌≢◌, ◌↔◌, refl, ap, sym, ◌∙◌, Bool, true, false, not, List, [], ◌∷◌,
  Option, none, some, length, filterb, find, All, arith, leb, ==_iff, ==_refl, Bool-cases, ◌⊎◌, inl,
  inr, if◌then◌else◌,
}
use hackline.Prelude.Int.{ℤ}
use hackline.Gateway.Sql.Laws.{All-filterb, All-imp, find_of_All, Distinct}
use hackline.Gateway.RttCache.{
  max_entries, Key, key_eq, Entry, RttCache, fresh_at, answer, get, put,
}

pub key_eq_iff : (a b : Key) → (key_eq a b ≡ true) ↔ (a ≡ b)
key_eq_iff (a, b) (c, d) = (
  λ h.
      let p : a ≡ c = ground (arith, ==_iff a c) in
      let q : b ≡ d = ground (arith, ==_iff b d) in rw (p, q) refl,
  λ e. rw (ap (λ (k : Key). k.0) e, ap (λ (k : Key). k.1) e, ==_refl c, ==_refl d) refl,
)

no_second :
    (p : Entry → Bool) (k : Key) (e : Entry) (es : List Entry)
    → All (λ s. s.key ≢ e.key) es
    → key_eq e.key k ≡ true
    → find (λ s. key_eq s.key k) (filterb p es) ≡ none
no_second p k e es n hit =
    find_of_All (λ s. key_eq s.key k) (filterb p es)
      (All-filterb (λ s. key_eq s.key k ≡ false) p es
        (All-imp (λ s. key_eq s.key k ≡ false) es
          (λ s m. elim (Bool-cases (key_eq s.key k)) [
            | inl again ↦
                absurd (m ((key_eq_iff s.key k).0 again ∙ sym ((key_eq_iff e.key k).0 hit)))
            | inr other ↦ other
          ])
          n))

-- An entry that is fresh later was fresh before.
find-fresh :
    (ttl now later : ℕ) (k : Key) (es : List Entry)
    → now ≤ later
    → Distinct (λ (e : Entry). e.key) es
    → (answer ttl later (find (λ e. key_eq e.key k) (filterb (fresh_at ttl now) es)))
      ≡ answer ttl later (find (λ e. key_eq e.key k) es)
find-fresh ttl now later k [] h d = refl
find-fresh ttl now later k (e ∷ es) h (n, d) = elim (Bool-cases (fresh_at ttl now e)) [
  | inl young ↦ rw young (elim (Bool-cases (key_eq e.key k)) [
    | inl hit ↦ rw hit
    | inr miss ↦ rw miss (find-fresh ttl now later k es h d)
  ])
  | inr old ↦ rw old (elim (Bool-cases (key_eq e.key k)) [
    | inl hit ↦ rw (hit, no_second (fresh_at ttl now) k e es n hit) (ground arith)
    | inr miss ↦ rw miss (find-fresh ttl now later k es h d)
  ])
]

length-filterb-le : (p : Entry → Bool) (es : List Entry) → length (filterb p es) ≤ length es
length-filterb-le p [] = omega arith
length-filterb-le p (e ∷ es) = ground (arith, length-filterb-le p es)

capped :
    (p : Entry → Bool) (es : List Entry)
    → suc (length (filterb p (if leb max_entries (length es) then [] else es))) ≤ max_entries
capped p es = elim (Bool-cases (leb max_entries (length es))) [
  | inl full ↦ rw full (omega arith)
  | inr room ↦ rw room (ground (arith, length-filterb-le p es))
]

find-dropped :
    (k j : Key) (es : List Entry)
    → key_eq k j ≡ false
    → find (λ e. key_eq e.key j) (filterb (λ e. not (key_eq e.key k)) es)
      ≡ find (λ e. key_eq e.key j) es
find-dropped k j [] n = refl
find-dropped k j (e ∷ es) n = elim (Bool-cases (key_eq e.key k)) [
  | inl gone ↦
      let p : e.key ≡ k = (key_eq_iff e.key k).0 gone in rw gone (find-dropped k j es n ∙ rw (p, n))
  | inr kept ↦ rw kept (ap (λ o. if key_eq e.key j then some e else o) (find-dropped k j es n))
]

-- In a cache with one entry for each key, and at a later time: the value that was stored is
-- answered for its key, `None` included, until its time is over; for another key the answer is
-- the one without the store, or a miss where the cache was full; and the cache holds at most 4096
-- entries.
pub get-put :
    (c : RttCache) (now later : ℕ) (key other : Key) (rtt_ms : Option ℤ)
    → now ≤ later
    → Distinct (λ (e : Entry). e.key) c.entries
    → (get (put c now key rtt_ms) later key
        ≡ (if leb (later - now) c.ttl then some rtt_ms else none))
      × ((key ≡ other)
          ⊎ (get (put c now key rtt_ms) later other ≡ get c later other)
          ⊎ (get (put c now key rtt_ms) later other ≡ none))
      × (length (put c now key rtt_ms).entries ≤ max_entries)
unfolding get put
get-put c now later key other rtt_ms h d = (
  rw ((key_eq_iff key key).1 refl),
  elim (Bool-cases (key_eq key other)) [
    | inl same ↦ inl ((key_eq_iff key other).0 same)
    | inr apart ↦ inr (
        rw
          (
            apart,
            find-dropped key other
                (if leb max_entries (length (filterb (fresh_at c.ttl now) c.entries))
                  then []
                  else filterb (fresh_at c.ttl now) c.entries)
                apart,
          )
          (elim (Bool-cases (leb max_entries (length (filterb (fresh_at c.ttl now) c.entries)))) [
            | inl full ↦ rw full (inr refl)
            | inr room ↦ rw room (inl (find-fresh c.ttl now later other c.entries h d))
          ]))
  ],
  capped (λ e. not (key_eq e.key key)) (filterb (fresh_at c.ttl now) c.entries),
)
