-- ===== src/Gateway/Metrics/Values.antt =====
-- Reading the counters of crates/hackline-gateway/src/metrics.rs that a connection changes.
use hackline.Prelude.{
  ℕ, zero, ◌≡◌, refl, Bool, true, List, [], ◌∷◌, Bool-cases, inl, inr, if◌then◌else◌,
}
use hackline.Prelude.Text.{Text, text_eq, text_eq_refl}
use hackline.Gateway.Metrics.{Metrics, Outcome, as_str, alter, pair_eq}

-- `map.get(label)`, or 0.
unfoldable pub value_at {ℓ} : {K : Type ℓ} → (K → K → Bool) → K → List (K × ℕ) → ℕ
value_at eq k [] = zero
value_at eq k ((j, n) ∷ m) = let rest = value_at eq k m in if eq j k then n else rest

pub value_at-alter {ℓ} :
    {K : Type ℓ} (eq : K → K → Bool) (f : ℕ → ℕ) (k : K) (m : List (K × ℕ))
    → eq k k ≡ true
    → value_at eq k (alter eq f k m) ≡ f (value_at eq k m)
unfolding value_at alter
value_at-alter eq f k [] same = rw same refl
value_at-alter eq f k ((j, n) ∷ m) same = elim (Bool-cases (eq j k)) [
  | inl here ↦ rw (here, here) refl
  | inr other ↦ rw (other, other) (value_at-alter eq f k m same)
]

pub pair_eq_refl : (p : Text × Text) → pair_eq p p ≡ true
pair_eq_refl (a, b) = rw (text_eq_refl a, text_eq_refl b) refl

abbrev pub active : Metrics → Text → ℕ
active m kind = value_at text_eq kind m.tunnel_active

abbrev pub sessions : Metrics → Text → Outcome → ℕ
sessions m kind outcome = value_at pair_eq (kind, as_str outcome) m.tunnel_sessions_total
