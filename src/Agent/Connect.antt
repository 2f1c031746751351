-- ===== src/Agent/Connect.antt =====
-- crates/hackline-agent/src/connect.rs, and the handlers of crates/hackline-agent/src/diag/mod.rs that
-- change or list the ports. What other tasks do while a queryable is declared is a function, since the
-- call waits between its look at the map and its insertion.
pub mod Started
use hackline.Prelude.{
  ℕ, Bool, true, false, List, [], ◌∷◌, Option, none, some, map, ltb, leb, ◌==◌, if◌then◌else◌,
}
use hackline.Prelude.Text.{Text, lit}
use hackline.Prelude.Outcome.{Result, ok, err}
use hackline.Agent.Diag.{
  ActivePort, ConnectionEvent, DiagState, has_port, insert_port, remove_port, push_connection,
}

pub data AgentError : Type 0 where
  config zenoh : AgentError

abbrev pub inserted : Bool × DiagState → Result AgentError (Unit {0}) × DiagState
inserted (true, s) = (ok tt, s)
inserted (false, s) = (err config, s)

abbrev pub declare_port :
    Bool
    → Bool
    → (DiagState → DiagState)
    → ℕ
    → DiagState
    → ℕ
    → Bool
    → Result AgentError (Unit {0}) × DiagState
declare_port true declared meanwhile handle s port from_config = (err config, s)
declare_port false false meanwhile handle s port from_config = (err zenoh, meanwhile s)
declare_port false true meanwhile handle s port from_config =
    inserted
      (insert_port (meanwhile s) port (record { handle = handle; from_config = from_config }))

-- `declared` says whether the session declares the queryable, and `handle` is the task of its loop.
unfoldable pub spawn_port_queryable :
    Bool
    → (DiagState → DiagState)
    → ℕ
    → DiagState
    → ℕ
    → Bool
    → Result AgentError (Unit {0}) × DiagState
unfolding has_port insert_port
spawn_port_queryable declared meanwhile handle s port from_config =
    declare_port (has_port s port) declared meanwhile handle s port from_config

-- `conn_event` of main.rs at the time `now`.
abbrev pub conn_event : ℕ → ℕ → Text → Option Text → Text → ConnectionEvent
conn_event now port request_id peer outcome = record {
  at_unix = now;
  port = port;
  request_id = request_id;
  peer = peer;
  outcome = outcome;
}

-- The task of one query: what `accept_bridge` gives becomes an event of the ring.
unfoldable pub on_query :
    {E : Type 0} → DiagState → ℕ → ℕ → Text → Result E (Text × Option Text) → DiagState
unfolding push_connection
on_query s now port selector (ok (request_id, peer)) =
    push_connection s (conn_event now port request_id peer (lit "ok"))
on_query s now port selector (err _) =
    push_connection s (conn_event now port selector none (lit "error"))

-- The loop of `start_initial_ports`, with the task of each port. The other tasks that run by then touch
-- no ports.
unfoldable pub start_initial_ports :
    DiagState → List (ℕ × Bool × ℕ) → Result AgentError (Unit {0}) × DiagState
unfolding spawn_port_queryable
start_initial_ports s [] = (ok tt, s)
start_initial_ports s ((port, declared, handle) ∷ ports) =
    let (r, s') = spawn_port_queryable declared (λ x. x) handle s port true in
    elim r [ ok _ ↦ start_initial_ports s' ports | err e ↦ (err e, s') ]

-- What the handlers answer, by their status.
pub data Answer : Type 0 where
  created bad_request conflict no_content not_found : Answer

abbrev answer_add : Result AgentError (Unit {0}) → Answer
answer_add (ok _) = created
answer_add (err _) = conflict

unfoldable pub api_ports_add :
    Bool → (DiagState → DiagState) → ℕ → DiagState → ℕ → Answer × DiagState
unfolding spawn_port_queryable
api_ports_add declared meanwhile handle s port =
    if port == 0
    then (bad_request, s)
    else (let (r, s') = spawn_port_queryable declared meanwhile handle s port false in
        (answer_add r, s'))

unfoldable pub api_ports_remove : DiagState → ℕ → Answer × DiagState
unfolding remove_port
api_ports_remove s port =
    let (present, s') = remove_port s port in (if present then no_content else not_found, s')

-- The sort of `active_ports` by port.
unfoldable pub insert_sorted : ℕ × Bool → List (ℕ × Bool) → List (ℕ × Bool)
insert_sorted e [] = e ∷ []
insert_sorted e (x ∷ xs) =
    let rest = insert_sorted e xs in if leb e.0 x.0 then e ∷ x ∷ xs else x ∷ rest

unfoldable pub sort_by_port : List (ℕ × Bool) → List (ℕ × Bool)
unfolding insert_sorted
sort_by_port [] = []
sort_by_port (x ∷ xs) = insert_sorted x (sort_by_port xs)

abbrev shown : ℕ × ActivePort → ℕ × Bool
shown (port, ap) = (port, ap.from_config)

-- The list of `api_ports_list`.
unfoldable pub active_ports : DiagState → List (ℕ × Bool)
unfolding sort_by_port
active_ports s = sort_by_port (map shown s.ports)
