-- ===== src/Gateway/Logs.antt =====
-- crates/hackline-gateway/src/db/logs.rs: the bounded log ring of each device. `to_vec` is the
-- serialised payload, if `serde_json` could serialise it, and `glob` is SQLite's GLOB.
pub mod Bounded
use hackline.Prelude.{
  ℕ, Bool, true, false, ◌&&◌, ◌||◌, List, ◌∷◌, Option, none, some, length, anyb, find, leb, ◌==◌,
}
use hackline.Prelude.Int.{ℤ, leb_ℤ}
use hackline.Prelude.Text.{Text, lit, text_eq}
use hackline.Prelude.Outcome.{Result, ok, err, require, ok_or, ◌>>=◌, ◌>>◌}
use hackline.Gateway.Error.{
  GatewayError, bad_request, db, foreign_key, check, log_payload_not_serialisable,
}
use hackline.Gateway.Sql.{fresh}
use hackline.Gateway.Events.{in_org, given}
use hackline.Gateway.Page.{page}
use hackline.Gateway.Ring.{prune_rows}
use hackline.Gateway.Schema.{Bytes, LogRow, Device, Db}

abbrev pub logs_max_per_device : ℕ
logs_max_per_device = 10000

-- `CHECK (level IN ('trace','debug','info','warn','error'))`.
unfoldable pub known_level : Text → Bool
unfolding text_eq
known_level s =
    text_eq s (lit "trace")
    || (text_eq s (lit "debug")
        || (text_eq s (lit "info") || (text_eq s (lit "warn") || text_eq s (lit "error"))))

prune : Db → ℕ → ℕ → Db
prune d device_id cap = record d {
  logs = prune_rows (λ e. e.id) (λ e. e.device_id) device_id cap d.logs;
}

unfoldable pub insert :
    Db → ℕ → Text → ℤ → Text → Text → Option Bytes → Result GatewayError (ℕ × Db)
unfolding prune known_level
insert d device_id topic ts level content_type to_vec = do
  bytes ← ok_or to_vec (bad_request log_payload_not_serialisable)
  require (leb (length bytes) 65536 && known_level level) (db check)
  require (anyb (λ v. v.id == device_id) d.devices) (db foreign_key)
  let id = fresh (λ e. e.id) d.logs
  let row : LogRow = record {
    id = id;
    device_id = device_id;
    topic = topic;
    ts = ts;
    level = level;
    content_type = content_type;
    payload = bytes;
  }
  ok (id, prune (record d { logs = row ∷ d.logs }) device_id logs_max_per_device)

unfoldable pub list :
    (Text → Text → Bool)
    → Db
    → ℕ
    → Option ℕ
    → Option Text
    → Option Text
    → Option ℤ
    → Option ℤ
    → ℤ
    → List LogRow
list glob d org_id device_id topic_glob level since_ms cursor limit =
    page (λ e. e.id)
      (λ e.
        in_org d.devices org_id e.device_id
        && (given device_id (λ id. e.device_id == id)
            && (given topic_glob (λ t. glob t e.topic)
                && (given level (λ l. text_eq e.level l) && given since_ms (λ s. leb_ℤ s e.ts)))))
      cursor limit d.logs
