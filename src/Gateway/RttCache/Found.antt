-- ===== src/Gateway/RttCache/Found.antt =====
-- Which entries the cache of crates/hackline-gateway/src/rtt_cache.rs answers from.
use hackline.Prelude.{
  ℕ, ◌-◌, ◌≤◌, ◌<◌, ◌≡◌, ◌≢◌, refl, ap, sym, ◌∙◌, List, [], ◌∷◌, Option, none, some, find, All,
  arith, leb, Bool-cases, ◌⊎◌, inl, inr,
}
use hackline.Prelude.Int.{ℤ}
use hackline.Gateway.Sql.Laws.{All-imp, Distinct}
use hackline.Gateway.HttpRouter.Route.Served.{IsIn}
use hackline.Gateway.RttCache.{Key, key_eq, Entry, RttCache, answer, get}
use hackline.Gateway.RttCache.Hits.{key_eq_iff}

-- An entry answers for a key: it is the key's, and at most the time of the cache old.
abbrev pub Answers : ℕ → ℕ → Key → Entry → Type 0
Answers ttl now key e = (e.key ≡ key) × (now - e.at ≤ ttl)

-- An entry of another key, or one that is too old.
abbrev pub IsStale : ℕ → ℕ → Key → Entry → Type 0
IsStale ttl now key e = (e.key ≢ key) ⊎ (ttl < now - e.at)

abbrev Finds : ℕ → ℕ → Key → List Entry → Option (Option ℤ) → Type 0
Finds ttl now key es o =
    ((e : Entry) × IsIn e es × Answers ttl now key e × (o ≡ some e.rtt_ms))
    ⊎ ((o ≡ none) × All (IsStale ttl now key) es)

others-IsStale :
    (ttl now : ℕ) (key : Key) (e : Entry) (es : List Entry)
    → e.key ≡ key
    → All (λ s. s.key ≢ e.key) es
    → All (IsStale ttl now key) es
others-IsStale ttl now key e es q n =
    All-imp (IsStale ttl now key) es (λ s m. inl (λ k. m (k ∙ sym q))) n

finds :
    (ttl now : ℕ) (key : Key) (es : List Entry)
    → Distinct (λ (e : Entry). e.key) es
    → Finds ttl now key es (answer ttl now (find (λ e. key_eq e.key key) es))
finds ttl now key [] d = inr (refl, tt)
finds ttl now key (e ∷ es) (n, d) = elim (Bool-cases (key_eq e.key key)) [
  | inl hit ↦
      let same : e.key ≡ key = (key_eq_iff e.key key).0 hit in
      elim (Bool-cases (leb (now - e.at) ttl)) [
        | inl young ↦ inl (e, ([], es, refl), (same, ground arith), rw (hit, young) refl)
        | inr old ↦
            inr (rw (hit, old) refl, (inr (ground arith), others-IsStale ttl now key e es same n))
      ]
  | inr miss ↦ elim (finds ttl now key es d) [
    | inl (f, (before, after, q), a, o) ↦
        inl (f, (e ∷ before, after, ap (λ l. e ∷ l) q), a, rw miss o)
    | inr (o, stale) ↦
        inr (rw miss o, (inl (λ k. absurd (let t = (key_eq_iff e.key key).1 k in cc)), stale))
  ]
]

-- In a cache with one entry for each key, the answer is that of an entry that answers for the key, or
-- every entry is of another key or too old and there is no answer.
pub get-Finds :
    (c : RttCache) (now : ℕ) (key : Key)
    → Distinct (λ (e : Entry). e.key) c.entries
    → Finds c.ttl now key c.entries (get c now key)
unfolding get
get-Finds c now key d = finds c.ttl now key c.entries d
