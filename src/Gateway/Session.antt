-- ===== src/Gateway/Session.antt =====
-- crates/hackline-gateway/src/tunnel/tcp_listener.rs: an accepted connection from its bridge to the
-- rows and counters that report it. What other tasks do to the database and the counters while the
-- connection is bridged is a function, and what the bridge gives is an argument, as are the clocks and
-- the identifier of the row.
pub mod Recorded
pub mod Stale
use hackline.Prelude.{ℕ, List, [], Option, none, some}
use hackline.Prelude.Int.{ℤ}
use hackline.Prelude.Text.{Text}
use hackline.Prelude.Outcome.{Result, ok, err}
use hackline.Proto.Uuid.{Uuids}
use hackline.Core.Bridge.{BridgeError, io, BridgeBytes, Action}
use hackline.Gateway.Schema.{Db}
use hackline.Gateway.Audit.{insert_tunnel_session_open, finalize_tunnel_session}
use hackline.Gateway.Devices.{touch_last_seen}
use hackline.Gateway.Metrics.{
  Metrics, Outcome, inc_tunnel_active, dec_tunnel_active, inc_tunnel_session, add_tunnel_bytes,
}

-- What a connection reports to.
pub record Books : Type 0 where
  pub db : Db
  pub metrics : Metrics

-- `bridge_socket`: the handshake of a listener with TLS, if it has it, and the bridge.
unfoldable pub bridge_socket :
    (u : Uuids)
    → Option (Result Text (Unit {0}))
    → List (Action u) × Result BridgeError BridgeBytes
    → List (Action u) × Result BridgeError BridgeBytes
bridge_socket u none bridged = bridged
bridge_socket u (some (ok _)) bridged = bridged
bridge_socket u (some (err e)) bridged = ([], err (io e))

-- The gauge, and the row; a row that is refused is no obstacle.
unfoldable pub open_session : Books → Text → ℕ → ℕ → Text → Option Text → ℤ → Option ℕ × Books
unfolding inc_tunnel_active insert_tunnel_session_open
open_session b kind tunnel_id device_id request_id peer now_ms_open =
    let m = inc_tunnel_active b.metrics kind in
    elim (insert_tunnel_session_open b.db device_id (some tunnel_id) request_id peer now_ms_open) [
      | err _ ↦ (none, record { db = b.db; metrics = m })
      | ok (id, d) ↦ (some id, record { db = d; metrics = m })
    ]

-- The row at its end, if there is one.
unfoldable pub finish : Db → Option ℕ → ℕ → ℕ → ℤ → Db
unfolding finalize_tunnel_session
finish d none bytes_up bytes_down ts_close = d
finish d (some id) bytes_up bytes_down ts_close =
    finalize_tunnel_session d id bytes_up bytes_down ts_close

abbrev pub outcome_of : {E A : Type 0} → Result E A → Outcome
outcome_of (ok _) = Outcome.ok
outcome_of (err _) = Outcome.error

abbrev pub bytes_of : {E : Type 0} → Result E BridgeBytes → BridgeBytes
bytes_of (ok b) = b
bytes_of (err _) = record { up = 0; down = 0 }

-- The gauge, the counters and the row when the bridge is done.
unfoldable pub close_session :
    {E : Type 0} → Books → Text → Option ℕ → Result E BridgeBytes → ℤ → Books
unfolding dec_tunnel_active inc_tunnel_session add_tunnel_bytes finish
close_session b kind audit_id result ts_close =
    let m = inc_tunnel_session (dec_tunnel_active b.metrics kind) kind (outcome_of result) in
    let bytes = bytes_of result in
    record {
      db = finish b.db audit_id bytes.up bytes.down ts_close;
      metrics = add_tunnel_bytes m bytes.up bytes.down;
    }

-- A bridge that worked shows that the device is there.
unfoldable pub seen_after : {E : Type 0} → Result E BridgeBytes → Db → ℕ → ℤ → Db
unfolding touch_last_seen
seen_after (ok _) d device_id now = touch_last_seen d device_id now
seen_after (err _) d device_id now = d

module _ (meanwhile : Books → Books) where
  unfoldable pub run_bridged_connection :
      Books → ℕ → ℕ → Text → Text → Option Text → ℤ → Result BridgeError BridgeBytes → ℤ → ℤ → Books
  unfolding open_session seen_after close_session
  run_bridged_connection b tunnel_id device_id kind request_id peer now_ms_open result now
        ts_close =
      let (audit_id, opened) =
        open_session b kind tunnel_id device_id request_id peer now_ms_open in
      let left = meanwhile opened in
      let seen : Books = record left { db = seen_after result left.db device_id now } in
      close_session seen kind audit_id result ts_close
