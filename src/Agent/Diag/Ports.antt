-- ===== src/Agent/Diag/Ports.antt =====
-- The port map of crates/hackline-agent/src/diag/state.rs.
use hackline.Prelude.{
  ℕ, ◌+◌, ◌≤◌, ◌≡◌, refl, ap, sym, ◌∙◌, Bool, false, not, List, [], ◌∷◌, some, countb, find,
  filterb, anyb, arith, Bool-cases, Option-cases, inl, inr, ◌==◌, ==_iff,
}
use hackline.Agent.Diag.{
  for_port, ActivePort, DiagState, has_port, insert_port, removed, remove_port,
}

-- A task is an entry of the map or it was aborted.
abbrev pub tracks : ℕ → ℕ × ActivePort → Bool
tracks h (_, ap) = ap.handle == h

abbrev pub aborts : ℕ → ℕ → Bool
aborts h x = x == h

abbrev pub held : DiagState → ℕ → ℕ
held s h = countb (tracks h) s.ports + countb (aborts h) s.aborted

-- The map has one entry for each port.
abbrev pub OnePerPort : DiagState → Type 0
OnePerPort s = (port : ℕ) → countb (for_port port) s.ports ≤ 1

module _ {A : Type 0} (p : A → Bool) where
  countb_cons : (x : A) (xs : List A) → countb p (x ∷ xs) ≡ countb p (x ∷ []) + countb p xs
  countb_cons x xs = elim (Bool-cases (p x)) [
    | inl t ↦ rw t (omega arith)
    | inr f ↦ rw f (omega arith)
  ]

  pub none_counted : (xs : List A) → anyb p xs ≡ false → countb p xs ≡ 0
  none_counted [] h = refl
  none_counted (x ∷ xs) h = elim (Bool-cases (p x)) [
    | inl t ↦ absurd (cc)
    | inr f ↦ rw f (none_counted xs (rw f at h))
  ]

  pub none_dropped : (xs : List A) → countb p xs ≡ 0 → filterb (λ x. not (p x)) xs ≡ xs
  none_dropped [] h = refl
  none_dropped (x ∷ xs) h = elim (Bool-cases (p x)) [
    | inl t ↦ absurd (let h1 = rw t at h in omega arith)
    | inr f ↦ rw f (ap (λ l. x ∷ l) (none_dropped xs (rw f at h)))
  ]

-- A removal of the entries of a port and the abort of its one task.
filter_held :
    (h port : ℕ) (xs : List (ℕ × ActivePort)) (e : ℕ × ActivePort)
    → countb (for_port port) xs ≤ 1
    → find (for_port port) xs ≡ some e
    → countb (tracks h) xs
      ≡ countb (tracks h) (e ∷ []) + countb (tracks h) (filterb (λ x. not (for_port port x)) xs)
filter_held h port [] e one f = absurd cc
filter_held h port (x ∷ xs) e one f = elim (Bool-cases (for_port port x)) [
  | inl t ↦
      let this : x ≡ e = cc in
      let single : countb (for_port port) (x ∷ []) ≡ 1 = rw t refl in
      let sum = countb_cons (for_port port) x xs in
      let rest : countb (for_port port) xs ≤ 0 = omega arith in
      rw (t, none_dropped (for_port port) xs (omega arith), this) (countb_cons (tracks h) e xs)
  | inr n ↦
      let others = filterb (λ y. not (for_port port y)) in
      let kept : others (x ∷ xs) ≡ x ∷ others xs = rw n refl in
      let ih = filter_held h port xs e (rw n at one) (rw n at f) in
      let before = countb_cons (tracks h) x xs in
      let after = ap (countb (tracks h)) kept ∙ countb_cons (tracks h) x (others xs) in omega arith
]

aborted_once :
    (h port : ℕ) (old : ActivePort)
    → countb (tracks h) ((port, old) ∷ []) ≡ countb (aborts h) (old.handle ∷ [])
aborted_once h port old = elim (Bool-cases (old.handle == h)) [
  | inl t ↦ rw t refl
  | inr f ↦ rw f refl
]

abort_held :
    (h port : ℕ) (old : ActivePort) (done : List ℕ)
    → countb (aborts h) (old.handle ∷ done)
      ≡ countb (tracks h) ((port, old) ∷ []) + countb (aborts h) done
abort_held h port old done =
    countb_cons (aborts h) old.handle done
    ∙ ap (λ n. n + countb (aborts h) done) (sym (aborted_once h port old))

-- What `insert_port` is given is tracked or aborted, and nothing else is touched.
insert_port-held :
    (s : DiagState) (port : ℕ) (info : ActivePort) (h : ℕ)
    → held (insert_port s port info).1 h ≡ countb (tracks h) ((port, info) ∷ []) + held s h
unfolding insert_port
insert_port-held s port info h = elim (Bool-cases (has_port s port)) [
  | inl t ↦
      let once = abort_held h port info s.aborted in
      rw t (ap (λ n. countb (tracks h) s.ports + n) once ∙ omega arith)
  | inr f ↦
      let more = countb_cons (tracks h) (port, info) s.ports in
      rw f (ap (λ n. n + countb (aborts h) s.aborted) more ∙ omega arith)
]

remove_port-held :
    (s : DiagState) (port h : ℕ) → OnePerPort s → held (remove_port s port).1 h ≡ held s h
unfolding remove_port removed
remove_port-held s port h one = elim (Option-cases (find (for_port port) s.ports)) [
  | inl missing ↦ rw missing refl
  | inr ((q, old), there) ↦
      let once = abort_held h q old s.aborted in
      let gone = filter_held h port s.ports (q, old) (one port) there in
      rw there (
        ap (λ n. countb (tracks h) (filterb (λ x. not (for_port port x)) s.ports) + n) once
        ∙ omega arith)
]

insert_port-OnePerPort :
    (s : DiagState) (port : ℕ) (info : ActivePort)
    → OnePerPort s
    → OnePerPort (insert_port s port info).1
unfolding insert_port has_port
insert_port-OnePerPort s port info one p = elim (Bool-cases (anyb (for_port port) s.ports)) [
  | inl t ↦ rw t (one p)
  | inr f ↦
      let sum = countb_cons (for_port p) (port, info) s.ports in
      rw f (elim (Bool-cases (port == p)) [
        | inl same ↦
            let at_p : anyb (for_port p) s.ports ≡ false =
              sym (ap (λ k. anyb (for_port k) s.ports) ((==_iff port p).0 same)) ∙ f in
            let nothing = none_counted (for_port p) s.ports at_p in rw same (omega arith)
        | inr differs ↦ rw differs (one p)
      ])
]

filter_fewer : {A : Type 0} (p q : A → Bool) (xs : List A) → countb p (filterb q xs) ≤ countb p xs
filter_fewer p q [] = omega arith
filter_fewer p q (x ∷ xs) =
    let rest = filter_fewer p q xs in
    let before = countb_cons p x xs in
    let after = countb_cons p x (filterb q xs) in
    elim (Bool-cases (q x)) [ inl t ↦ rw t (omega arith) | inr f ↦ rw f (omega arith) ]

remove_port-OnePerPort :
    (s : DiagState) (port : ℕ) → OnePerPort s → OnePerPort (remove_port s port).1
unfolding remove_port removed
remove_port-OnePerPort s port one p = elim (Option-cases (find (for_port port) s.ports)) [
  | inl missing ↦ rw missing (one p)
  | inr (e, there) ↦
      let fewer = filter_fewer (for_port p) (λ x. not (for_port port x)) s.ports in
      let bound = one p in rw there (omega arith)
]

-- The calls that change the ports.
pub data Call : Type 0 where
  add : ℕ → ActivePort → Call
  remove : ℕ → Call

unfoldable pub run : DiagState → List Call → DiagState
run s [] = s
run s (add port info ∷ calls) = run (insert_port s port info).1 calls
run s (remove port ∷ calls) = run (remove_port s port).1 calls

-- The tasks that were handed over.
abbrev pub handed : List Call → List ℕ
handed [] = []
handed (add port info ∷ calls) = info.handle ∷ handed calls
handed (remove port ∷ calls) = handed calls

regroup : (a b c : ℕ) → a + b + c ≡ b + (a + c)
regroup a b c = omega arith

run_keeps :
    (s : DiagState) (calls : List Call)
    → OnePerPort s
    → OnePerPort (run s calls)
      × ((h : ℕ) → held (run s calls) h ≡ held s h + countb (aborts h) (handed calls))
unfolding run
run_keeps s [] one = (one, λ h. omega arith)
run_keeps s (add port info ∷ calls) one =
    let (kept, rest) =
      run_keeps (insert_port s port info).1 calls (insert_port-OnePerPort s port info one) in
    (
      kept,
      λ h.
          let now = insert_port-held s port info h in
          let once = abort_held h port info (handed calls) in
          let later = rest h in
          later
          ∙ ap (λ n. n + countb (aborts h) (handed calls)) now
          ∙ regroup (countb (tracks h) ((port, info) ∷ [])) (held s h)
              (countb (aborts h) (handed calls))
          ∙ ap (λ n. held s h + n) (sym once),
    )
run_keeps s (remove port ∷ calls) one =
    let (kept, rest) = run_keeps (remove_port s port).1 calls (remove_port-OnePerPort s port one) in
    (
      kept,
      λ h. rest h ∙ ap (λ n. n + countb (aborts h) (handed calls)) (remove_port-held s port h one),
    )

-- Whatever ports are added and removed, from an agent without ports, each port has at most one
-- entry, and a task is tracked or aborted exactly as often as it was handed over.
pub run-held :
    (s : DiagState) (calls : List Call)
    → s.ports ≡ []
    → s.aborted ≡ []
    → OnePerPort (run s calls) × ((h : ℕ) → held (run s calls) h ≡ countb (aborts h) (handed calls))
run-held s calls no_ports no_aborts =
    let (one, all) = run_keeps s calls (λ p. rw no_ports (omega arith)) in
    (one, λ h. all h ∙ rw (no_ports, no_aborts) (omega arith))
