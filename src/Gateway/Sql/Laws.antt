-- ===== src/Gateway/Sql/Laws.antt =====
-- What the table statements of crates/hackline-gateway/src/db keep.
use hackline.Prelude.{
  ℕ, ◌≤◌, ◌<◌, ◌≡◌, ◌≢◌, refl, sym, ◌∙◌, Bool, true, false, List, [], ◌∷◌, ◌++◌, reverse, Option,
  none, some, filterb, anyb, find, countb, All, arith, if◌then◌else◌, Bool-cases, inl, inr,
}
use mathlib.Core.Path.{subst}
use mathlib.Core.List.{reverse-cons}
use hackline.Gateway.Sql.{update_where, fresh}

module _ {ℓ κ} {A : Type ℓ} (P : A → Type κ) where
  pub All-update :
      (q : A → Bool) (f : A → A) (rs : List A)
      → ((r : A) → q r ≡ true → P r → P (f r))
      → All P rs
      → All P (update_where q f rs)
  All-update q f [] keep h = tt
  All-update q f (r ∷ rs) keep (h, hs) = elim (Bool-cases (q r)) [
    | inl e ↦ rw e (keep r e h, All-update q f rs keep hs)
    | inr e ↦ rw e (h, All-update q f rs keep hs)
  ]

  pub All-filterb : (q : A → Bool) (rs : List A) → All P rs → All P (filterb q rs)
  All-filterb q [] hs = tt
  All-filterb q (r ∷ rs) (h, hs) = elim (Bool-cases (q r)) [
    | inl e ↦ rw e (h, All-filterb q rs hs)
    | inr e ↦ rw e (All-filterb q rs hs)
  ]

  All-append : (xs ys : List A) → All P xs → All P ys → All P (xs ++ ys)
  All-append [] ys h k = k
  All-append (x ∷ xs) ys (h, hs) k = (h, All-append xs ys hs k)

  pub All-reverse : (rs : List A) → All P rs → All P (reverse rs)
  All-reverse [] h = tt
  All-reverse (r ∷ rs) (h, hs) =
      rw (reverse-cons r rs) (All-append (reverse rs) (r ∷ []) (All-reverse rs hs) (h, tt))

  pub All-imp {μ} : {Q : A → Type μ} (rs : List A) → ((r : A) → Q r → P r) → All Q rs → All P rs
  All-imp [] f hs = tt
  All-imp (r ∷ rs) f (h, hs) = (f r h, All-imp rs f hs)

module _ {ℓ} {A : Type ℓ} (p : A → Bool) where
  pub countb-update-le :
      (q : A → Bool) (f : A → A) (rs : List A)
      → ((r : A) → p (f r) ≡ true → p r ≡ true)
      → countb p (update_where q f rs) ≤ countb p rs
  countb-update-le q f [] h = omega arith
  countb-update-le q f (r ∷ rs) h = ground (arith, countb-update-le q f rs h, h r)

  pub countb-filterb-le : (q : A → Bool) (rs : List A) → countb p (filterb q rs) ≤ countb p rs
  countb-filterb-le q [] = omega arith
  countb-filterb-le q (r ∷ rs) = ground (arith, countb-filterb-le q rs)

  pub All-ne_of_anyb : (rs : List A) → anyb p rs ≡ false → All (λ r. p r ≡ false) rs
  All-ne_of_anyb [] h = tt
  All-ne_of_anyb (r ∷ rs) h = (ground arith, All-ne_of_anyb rs (ground arith))

-- A column whose values are distinct (UNIQUE).
module _ {ℓ κ} {A : Type ℓ} {K : Type κ} (key : A → K) where
  key_if : (q : Bool) (r s : A) → key s ≡ key r → key (if q then s else r) ≡ key r
  key_if true r s e = e
  key_if false r s e = refl

  abbrev pub Distinct : List A → Type κ
  Distinct [] = Unit
  Distinct (r ∷ rs) = All (λ s. key s ≢ key r) rs × Distinct rs

  pub Distinct-update :
      (q : A → Bool) (f : A → A) (rs : List A)
      → ((r : A) → key (f r) ≡ key r)
      → Distinct rs
      → Distinct (update_where q f rs)
  Distinct-update q f [] keep d = tt
  Distinct-update q f (r ∷ rs) keep (h, hs) = (
    rw (key_if (q r) r (f r) (keep r))
        (All-update (λ s. key s ≢ key r) q f rs (λ s _ n e. n (sym (keep s) ∙ e)) h),
    Distinct-update q f rs keep hs,
  )

  pub Distinct-filterb : (q : A → Bool) (rs : List A) → Distinct rs → Distinct (filterb q rs)
  Distinct-filterb q [] d = tt
  Distinct-filterb q (r ∷ rs) (h, hs) = elim (Bool-cases (q r)) [
    | inl e ↦ rw e (All-filterb (λ s. key s ≢ key r) q rs h, Distinct-filterb q rs hs)
    | inr e ↦ rw e (Distinct-filterb q rs hs)
  ]

-- Rowids fall along the table and stay below the next one.
module _ {ℓ} {A : Type ℓ} (id : A → ℕ) where
  abbrev pub Falling : ℕ → List A → Type 0
  Falling n [] = Unit {0}
  Falling n (r ∷ rs) = (id r < n) × Falling (id r) rs

  pub Falling-mono : {m n : ℕ} (rs : List A) → m ≤ n → Falling m rs → Falling n rs
  Falling-mono [] h f = tt
  Falling-mono (r ∷ rs) h f = (omega arith, f.1)

  pub Falling-update :
      (n : ℕ) (q : A → Bool) (f : A → A) (rs : List A)
      → ((r : A) → id (f r) ≡ id r)
      → Falling n rs
      → Falling n (update_where q f rs)
  Falling-update n q f [] keep h = tt
  Falling-update n q f (r ∷ rs) keep (h, hs) =
      rw (key_if id (q r) r (f r) (keep r)) (h, Falling-update (id r) q f rs keep hs)

  pub Falling-filterb :
      (n : ℕ) (q : A → Bool) (rs : List A) → Falling n rs → Falling n (filterb q rs)
  Falling-filterb n q [] h = tt
  Falling-filterb n q (r ∷ rs) (h, hs) = elim (Bool-cases (q r)) [
    | inl e ↦ rw e (h, Falling-filterb (id r) q rs hs)
    | inr e ↦
        rw e (Falling-mono {m = id r} (filterb q rs) (omega arith) (Falling-filterb (id r) q rs hs))
  ]

  -- The rowid that an insertion takes lies above those in the table.
  pub Falling-fresh : (n : ℕ) (rs : List A) → Falling n rs → Falling (fresh id rs) rs
  Falling-fresh n [] h = tt
  Falling-fresh n (r ∷ rs) (h, hs) = (ground arith, hs)

-- `SELECT … WHERE` of one row, after an UPDATE and after a DELETE.
module _ {ℓ} {A : Type ℓ} where
  abbrev pub map? : (A → A) → Option A → Option A
  map? f none = none
  map? f (some r) = some (f r)

  abbrev pub keep_if : (A → Bool) → Option A → Option A
  keep_if q none = none
  keep_if q (some r) = if q r then some r else none

  pub find-update :
      (p q : A → Bool) (f : A → A) (rs : List A)
      → ((r : A) → p (f r) ≡ p r)
      → find p (update_where q f rs) ≡ map? (λ r. if q r then f r else r) (find p rs)
  find-update p q f [] keep = refl
  find-update p q f (r ∷ rs) keep = ground (arith, keep r, find-update p q f rs keep)

  pub find_of_All : (p : A → Bool) (rs : List A) → All (λ r. p r ≡ false) rs → find p rs ≡ none
  find_of_All p [] h = refl
  find_of_All p (r ∷ rs) (h, hs) = rw h (find_of_All p rs hs)

  pub anyb-eq_find : (p : A → Bool) (rs : List A) → anyb p rs ≡ true → find p rs ≢ none
  anyb-eq_find p [] h e = cc
  anyb-eq_find p (r ∷ rs) h e = ground (arith, anyb-eq_find p rs)

  pub find-none_of_anyb : (p : A → Bool) (rs : List A) → anyb p rs ≡ false → find p rs ≡ none
  find-none_of_anyb p rs h = find_of_All p rs (All-ne_of_anyb p rs h)

  -- Where at most one row is selected, deleting commutes with selecting.
  pub find-filterb :
      {K : Type 0} (key : A → K) (p q : A → Bool) (rs : List A)
      → ((r s : A) → p r ≡ true → key s ≢ key r → p s ≡ false)
      → Distinct key rs
      → find p (filterb q rs) ≡ keep_if q (find p rs)
  find-filterb key p q [] sel d = refl
  find-filterb key p q (r ∷ rs) sel (h, hs) = elim (Bool-cases (p r)) [
    | inr e ↦ rw e (ground (arith, find-filterb key p q rs sel hs))
    | inl e ↦ rw e (
        ground (
          arith,
          find_of_All p (filterb q rs) (All-filterb _ q rs (All-imp _ rs (λ s n. sel r s e n) h)),
        ))
  ]

  -- A selected row meets the clause.
  pub find_holds : (p : A → Bool) (rs : List A) (r : A) → find p rs ≡ some r → p r ≡ true
  find_holds p [] r e = cc
  find_holds p (x ∷ rs) r e = ground (arith, find_holds p rs r)

module _ {ℓ κ} {A : Type ℓ} (P : A → Type κ) where
  pub All-find : (p : A → Bool) (rs : List A) (r : A) → All P rs → find p rs ≡ some r → P r
  All-find p [] r hs e = cc
  All-find p (x ∷ rs) r (h, hs) e = elim (Bool-cases (p x)) [
    | inl hit ↦ subst P (ground arith) h
    | inr miss ↦ All-find p rs r hs (ground arith)
  ]
