-- ===== src/Tests/Agent.antt =====
-- The theorems on the agent's diagnostic state, at a few calls.
use hackline.Prelude.{
  ℕ, ◌≡◌, refl, ◌↔◌, arith, Bool, true, List, [], ◌∷◌, none, reverse, take, countb,
}
use hackline.Prelude.Text.{lit}
use hackline.Prelude.Outcome.{ok, err}
use hackline.Agent.Connect.{
  config, created, no_content, spawn_port_queryable, start_initial_ports, api_ports_add,
  api_ports_remove, active_ports, sort_by_port, insert_sorted,
}
use hackline.Agent.Connect.Started.{
  Unserved, Startable, start_initial_ports_iff, api_ports_add-remove,
}
use hackline.Agent.Diag.{
  connection_ring_cap, ConnectionEvent, ActivePort, DiagState, insert_port, remove_port, removed,
  has_port, recent_connections,
}
use hackline.Agent.Diag.Recent.{push_all, recent_connections-push_all}
use hackline.Agent.Diag.Ports.{Call, add, remove, run, held, aborts, handed, OnePerPort, run-held}

abbrev started : DiagState
started = record { ports = []; connections = []; aborted = [] }

abbrev connection : ℕ → ConnectionEvent
connection t = record {
  at_unix = t;
  port = 22;
  request_id = lit "r";
  peer = none;
  outcome = lit "closed";
}

abbrev connections_made : List ConnectionEvent
connections_made = connection 1 ∷ connection 2 ∷ connection 3 ∷ []

recent_connections-push_all_once :
    recent_connections (push_all started connections_made)
    ≡ take connection_ring_cap (reverse connections_made)
recent_connections-push_all_once = recent_connections-push_all started connections_made refl

abbrev task : ℕ → ActivePort
task n = record { handle = n; from_config = true }

-- Port 22 is added twice and removed once.
abbrev calls_made : List Call
calls_made = add 22 (task 7) ∷ add 22 (task 8) ∷ add 80 (task 9) ∷ remove 22 ∷ []

aborted-run : (run started calls_made).aborted ≡ 7 ∷ 8 ∷ []
unfolding run insert_port remove_port removed has_port
aborted-run = refl

run-held_example :
    OnePerPort (run started calls_made)
    × ((h : ℕ) → held (run started calls_made) h ≡ countb (aborts h) (handed calls_made))
run-held_example = run-held started calls_made refl refl

abbrev two_ports : List (ℕ × Bool × ℕ)
two_ports = (22, true, 7) ∷ (80, true, 8) ∷ []

start_initial_ports_iff_example :
    ((start_initial_ports started two_ports).0 ≡ ok tt)
    ↔ (Unserved started two_ports × Startable two_ports)
start_initial_ports_iff_example = start_initial_ports_iff started two_ports

-- A port that stands twice keeps the agent from starting.
repeated-run : (start_initial_ports started ((22, true, 7) ∷ (22, true, 8) ∷ [])).0 ≡ err config
unfolding start_initial_ports spawn_port_queryable insert_port has_port
repeated-run = refl

abbrev two_served : DiagState
two_served = (start_initial_ports started two_ports).1

listed-run : active_ports two_served ≡ (22, true) ∷ (80, true) ∷ []
unfolding active_ports sort_by_port insert_sorted start_initial_ports spawn_port_queryable
    insert_port has_port
listed-run = refl

added_then_removed :
    ((api_ports_add true (λ x. x) 9 started 443).0 ≡ created)
    × (api_ports_remove (api_ports_add true (λ x. x) 9 started 443).1 443
        ≡ (no_content, record started { aborted = 9 ∷ [] }))
added_then_removed =
    api_ports_add-remove (λ x. x) started 443 9 (λ e. omega arith) (unfold has_port in refl)
      (unfold has_port in refl)
