-- ===== src/Agent/Diag.antt =====
-- crates/hackline-agent/src/diag/state.rs: what the agent remembers of its ports and connections.
-- A task handle is a number, and what was aborted is kept as a list.
pub mod Recent
pub mod Ports
use hackline.Prelude.{
  ℕ, Bool, true, false, not, List, [], ◌∷◌, ◌++◌, reverse, Option, none, some, length, drop, anyb,
  find, filterb, leb, ◌==◌, if◌then◌else◌,
}
use hackline.Prelude.Text.{Text}

abbrev pub connection_ring_cap : ℕ
connection_ring_cap = 64

pub record ConnectionEvent : Type 0 where
  pub at_unix : ℕ
  pub port : ℕ
  pub request_id : Text
  pub peer : Option Text
  pub outcome : Text

pub record ActivePort : Type 0 where
  pub handle : ℕ
  pub from_config : Bool

-- The mutable part of `DiagState`; the map of ports has one entry for each port.
pub record DiagState : Type 0 where
  pub ports : List (ℕ × ActivePort)
  pub connections : List ConnectionEvent
  pub aborted : List ℕ

abbrev pub for_port : ℕ → ℕ × ActivePort → Bool
for_port port (p, _) = p == port

unfoldable pub has_port : DiagState → ℕ → Bool
has_port s port = anyb (for_port port) s.ports

unfoldable pub insert_port : DiagState → ℕ → ActivePort → Bool × DiagState
unfolding has_port
insert_port s port info =
    if has_port s port
    then (false, record s { aborted = info.handle ∷ s.aborted })
    else (true, record s { ports = (port, info) ∷ s.ports })

unfoldable pub removed : DiagState → ℕ → Option (ℕ × ActivePort) → Bool × DiagState
removed s port none = (false, s)
removed s port (some (_, ap)) = (
  true,
  record s {
    ports = filterb (λ e. not (for_port port e)) s.ports;
    aborted = ap.handle ∷ s.aborted;
  },
)

unfoldable pub remove_port : DiagState → ℕ → Bool × DiagState
unfolding removed
remove_port s port = removed s port (find (for_port port) s.ports)

unfoldable pub push_connection : DiagState → ConnectionEvent → DiagState
push_connection s ev =
    let g = s.connections in
    record s {
      connections = (if leb connection_ring_cap (length g) then drop 1 g else g) ++ ev ∷ [];
    }

unfoldable pub recent_connections : DiagState → List ConnectionEvent
recent_connections s = reverse s.connections
