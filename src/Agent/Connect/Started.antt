-- ===== src/Agent/Connect/Started.antt =====
-- Which ports crates/hackline-agent/src/connect.rs serves.
use hackline.Prelude.{
  All, ℕ, Bool, true, false, List, [], ◌∷◌, anyb, ◌==◌, ==_refl, ◌≡◌, ◌↔◌, ◌≢◌, ne_test, refl, sym,
  ap, ◌∙◌, Bool-cases, inl, inr, arith,
}
use hackline.Prelude.Outcome.{Result, ok, err, err_ne_ok}
use hackline.Agent.Diag.{for_port, DiagState, has_port, insert_port, remove_port, removed}
use hackline.Agent.Diag.Ports.{none_counted, none_dropped}
use hackline.Agent.Connect.{
  AgentError, config, zenoh, inserted, spawn_port_queryable, start_initial_ports, api_ports_add,
  api_ports_remove, created, no_content,
}

abbrev added : DiagState → ℕ → ℕ → Bool → DiagState
added s port handle from_config = record s {
  ports = (port, record { handle = handle; from_config = from_config }) ∷ s.ports;
}

insert_port-added :
    (s : DiagState) (port handle : ℕ) (b : Bool)
    → has_port s port ≡ false
    → insert_port s port (record { handle = handle; from_config = b })
      ≡ (true, added s port handle b)
unfolding insert_port
insert_port-added s port handle b h = rw h refl

spawn-added :
    (meanwhile : DiagState → DiagState) (s : DiagState) (port handle : ℕ) (b : Bool)
    → has_port s port ≡ false
    → has_port (meanwhile s) port ≡ false
    → spawn_port_queryable true meanwhile handle s port b
      ≡ (ok tt, added (meanwhile s) port handle b)
unfolding spawn_port_queryable
spawn-added meanwhile s port handle b h g =
    rw h (ap inserted (insert_port-added (meanwhile s) port handle b g))

spawn-taken :
    (declared : Bool) (meanwhile : DiagState → DiagState) (s : DiagState) (port handle : ℕ)
    (b : Bool)
    → has_port s port ≡ true
    → spawn_port_queryable declared meanwhile handle s port b ≡ (err config, s)
unfolding spawn_port_queryable
spawn-taken declared meanwhile s port handle b h = rw h refl

spawn-undeclared :
    (s : DiagState) (port handle : ℕ) (b : Bool)
    → has_port s port ≡ false
    → spawn_port_queryable false (λ x. x) handle s port b ≡ (err zenoh, s)
unfolding spawn_port_queryable
spawn-undeclared s port handle b h = rw h refl

-- How the loop goes on after its first port.
abbrev after :
    List (ℕ × Bool × ℕ)
    → Result AgentError (Unit {0}) × DiagState
    → Result AgentError (Unit {0}) × DiagState
after ports (ok _, s) = start_initial_ports s ports
after ports (err e, s) = (err e, s)

start_after :
    (ports : List (ℕ × Bool × ℕ)) (x : Result AgentError (Unit {0}) × DiagState)
    → (let (r, s') = x in elim r [ ok _ ↦ start_initial_ports s' ports | err e ↦ (err e, s') ])
      ≡ after ports x
start_after ports (ok _, s) = refl
start_after ports (err e, s) = refl

start_cons :
    (s : DiagState) (port : ℕ) (declared : Bool) (handle : ℕ) (ports : List (ℕ × Bool × ℕ))
    {x : Result AgentError (Unit {0}) × DiagState}
    → spawn_port_queryable declared (λ x. x) handle s port true ≡ x
    → start_initial_ports s ((port, declared, handle) ∷ ports) ≡ after ports x
unfolding start_initial_ports
start_cons s port declared handle ports {x = x} q = start_after ports _ ∙ ap (after ports) q

-- Every queryable is declared, and no port stands twice.
abbrev pub Startable : List (ℕ × Bool × ℕ) → Type 0
Startable [] = Unit {0}
Startable ((port, declared, handle) ∷ ports) =
    (declared ≡ true) × (anyb (λ e. port == e.0) ports ≡ false) × Startable ports

abbrev pub Unserved : DiagState → List (ℕ × Bool × ℕ) → Type 0
Unserved s = All λ e. has_port s e.0 ≡ false

Unserved-added :
    (s : DiagState) (port handle : ℕ) (ports : List (ℕ × Bool × ℕ))
    → Unserved (added s port handle true) ports
      ↔ ((anyb (λ e. port == e.0) ports ≡ false) × Unserved s ports)
unfolding has_port
Unserved-added s port handle [] = (λ _. (refl, tt), λ _. tt)
Unserved-added s port handle ((q, _, _) ∷ ports) =
    let (f, g) = Unserved-added s port handle ports in
    (λ (a, us). let (b, vs) = f us in ground arith, λ (b, aus). let (a, us) = aus in ground arith)

abbrev Starts : DiagState → List (ℕ × Bool × ℕ) → Type 0
Starts s ports = (start_initial_ports s ports).0 ≡ ok tt

start_free :
    (s : DiagState) (port : ℕ) (declared : Bool) (handle : ℕ) (ports : List (ℕ × Bool × ℕ))
    → Starts (added s port handle true) ports
      ↔ (Unserved (added s port handle true) ports × Startable ports)
    → has_port s port ≡ false
    → Starts s ((port, declared, handle) ∷ ports) ↔ (
        Unserved s ((port, declared, handle) ∷ ports)
        × Startable ((port, declared, handle) ∷ ports))
start_free s port false handle ports ih f =
    let q =
      ap (λ x. x.0)
        (start_cons s port false handle ports (spawn-undeclared s port handle true f)) in
    (λ e. err_ne_ok (sym q ∙ e), λ (_, st). let d = st.0 in absurd (cc))
start_free s port true handle ports (ih0, ih1) f =
    let q =
      ap (λ x. x.0)
        (start_cons s port true handle ports (spawn-added (λ x. x) s port handle true f f)) in
    let (u0, u1) = Unserved-added s port handle ports in
    (
      λ e. let (us, st) = ih0 (sym q ∙ e) in let (l, vs) = u0 us in ((f, vs), (refl, l, st)),
      λ (us, st). let (_, vs) = us in let l = st.1 in let rest = st.2 in q ∙ ih1 (u1 (l, vs), rest),
    )

-- From any state, the startup set is served just if none of its ports is served yet, each queryable is
-- declared, and no port stands twice in the configuration.
pub start_initial_ports_iff :
    (s : DiagState) (ports : List (ℕ × Bool × ℕ))
    → ((start_initial_ports s ports).0 ≡ ok tt) ↔ (Unserved s ports × Startable ports)
start_initial_ports_iff s [] = unfold start_initial_ports in (λ _. (tt, tt), λ _. refl)
start_initial_ports_iff s ((port, declared, handle) ∷ ports) = elim (Bool-cases (has_port s port)) [
  | inl t ↦
      let q =
        ap (λ x. x.0)
          (start_cons s port declared handle ports
            (spawn-taken declared (λ x. x) s port handle true t)) in
      (λ e. err_ne_ok (sym q ∙ e), λ (us, _). let (u, _) = us in absurd (cc))
  | inr f ↦
      start_free s port declared handle ports
        (start_initial_ports_iff (added s port handle true) ports) f
]

-- What `api_ports_add` then adds is what `api_ports_remove` takes away and aborts.
removed_again :
    (s : DiagState) (port handle : ℕ) (b : Bool)
    → has_port s port ≡ false
    → remove_port (added s port handle b) port ≡ (true, record s { aborted = handle ∷ s.aborted })
unfolding has_port remove_port removed
removed_again s port handle b h = rw (==_refl port) (
    rw (==_refl port, none_dropped (for_port port) s.ports (none_counted (for_port port) s.ports h))
      refl)

-- A port that is not 0, not served at the request and not served when its queryable is declared, is
-- added, and its removal is answered by no content, aborts its task and leaves the other ports.
pub api_ports_add-remove :
    (meanwhile : DiagState → DiagState) (s : DiagState) (port handle : ℕ)
    → port ≢ 0
    → has_port s port ≡ false
    → has_port (meanwhile s) port ≡ false
    → ((api_ports_add true meanwhile handle s port).0 ≡ created)
      × (api_ports_remove (api_ports_add true meanwhile handle s port).1 port
          ≡ (no_content, record (meanwhile s) { aborted = handle ∷ (meanwhile s).aborted }))
unfolding api_ports_add api_ports_remove
api_ports_add-remove meanwhile s port handle n h g =
    let a = spawn-added meanwhile s port handle false h g in
    let z = ne_test port 0 n in
    let r = removed_again (meanwhile s) port handle false g in (rw (z, a) refl, rw (z, a, r) refl)
