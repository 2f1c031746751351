-- ===== src/Gateway/Events.antt =====
-- crates/hackline-gateway/src/db/events.rs: the bounded event ring of each device. `to_vec` is the
-- serialised payload, if `serde_json` could serialise it, and `glob` is SQLite's GLOB.
pub mod Bounded
use hackline.Prelude.{
  ℕ, Bool, true, false, ◌&&◌, List, ◌∷◌, Option, none, some, length, anyb, find, leb, ◌==◌,
}
use hackline.Prelude.Int.{ℤ, leb_ℤ}
use hackline.Prelude.Text.{Text, text_eq}
use hackline.Prelude.Outcome.{Result, ok, err, require, ok_or, ◌>>=◌, ◌>>◌}
use hackline.Gateway.Error.{
  GatewayError, bad_request, db, foreign_key, check, event_payload_not_serialisable,
}
use hackline.Gateway.Sql.{fresh}
use hackline.Gateway.Page.{page}
use hackline.Gateway.Ring.{prune_rows}
use hackline.Gateway.Schema.{Bytes, EventRow, Device, Db}

abbrev pub events_max_per_device : ℕ
events_max_per_device = 10000

prune : Db → ℕ → ℕ → Db
prune d device_id cap = record d {
  events = prune_rows (λ e. e.id) (λ e. e.device_id) device_id cap d.events;
}

unfoldable pub insert : Db → ℕ → Text → ℤ → Text → Option Bytes → Result GatewayError (ℕ × Db)
unfolding prune
insert d device_id topic ts content_type to_vec = do
  bytes ← ok_or to_vec (bad_request event_payload_not_serialisable)
  require (leb (length bytes) 65536) (db check)
  require (anyb (λ v. v.id == device_id) d.devices) (db foreign_key)
  let id = fresh (λ e. e.id) d.events
  let row : EventRow = record {
    id = id;
    device_id = device_id;
    topic = topic;
    ts = ts;
    content_type = content_type;
    payload = bytes;
  }
  ok (id, prune (record d { events = row ∷ d.events }) device_id events_max_per_device)

-- `JOIN devices d ON d.id = … WHERE d.org_id = ?`: rowids are unique.
abbrev pub in_org : List Device → ℕ → ℕ → Bool
in_org devices org_id device_id = anyb (λ v. v.id == device_id && v.org_id == org_id) devices

-- A filter that is there only if the caller gave it.
abbrev pub given {ℓ} : {A : Type ℓ} → Option A → (A → Bool) → Bool
given none clause = true
given (some a) clause = clause a

unfoldable pub list :
    (Text → Text → Bool) → Db → ℕ → Option ℕ → Option Text → Option ℤ → Option ℤ → ℤ → List EventRow
list glob d org_id device_id topic_glob since_ms cursor limit =
    page (λ e. e.id)
      (λ e.
        in_org d.devices org_id e.device_id
        && (given device_id (λ id. e.device_id == id)
            && (given topic_glob (λ t. glob t e.topic) && given since_ms (λ s. leb_ℤ s e.ts))))
      cursor limit d.events

abbrev id_of : Option Device → Option ℕ
id_of none = none
id_of (some v) = some v.id

unfoldable pub device_id_for_zid : Db → Text → Option ℕ
device_id_for_zid d zid = id_of (find (λ v. text_eq v.zid zid) d.devices)
