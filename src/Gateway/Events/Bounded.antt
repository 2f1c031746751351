-- ===== src/Gateway/Events/Bounded.antt =====
-- What an insertion leaves in the ring of crates/hackline-gateway/src/db/events.rs.
use hackline.Prelude.{
  ℕ, ◌≤◌, ◌≡◌, refl, ap, sym, ◌∷◌, Option, none, some, length, anyb, arith, leb, ◌==◌, Bool-cases,
  inl, inr,
}
use hackline.Prelude.Int.{ℤ}
use hackline.Prelude.Text.{Text}
use hackline.Prelude.Outcome.{ok, ok_inj, err_ne_ok}
use hackline.Gateway.Sql.{fresh}
use hackline.Gateway.Sql.Laws.{Falling}
use hackline.Gateway.Ring.{prune_rows}
use hackline.Gateway.Ring.Newest.{Pushed, push-Pushed}
use hackline.Gateway.Schema.{Bytes, EventRow, Db}
use hackline.Gateway.Events.{events_max_per_device, prune, insert}

abbrev pub event_id : EventRow → ℕ
event_id e = e.id

abbrev pub event_device : EventRow → ℕ
event_device e = e.device_id

-- The row that an accepted insertion stores.
abbrev pub new_event_row : Db → ℕ → Text → ℤ → Text → Bytes → EventRow
new_event_row d device_id topic ts content_type bytes = record {
  id = fresh event_id d.events;
  device_id = device_id;
  topic = topic;
  ts = ts;
  content_type = content_type;
  payload = bytes;
}

-- What an accepted insertion has read, and the table it leaves.
insert_ok :
    (d : Db) (device_id : ℕ) (topic : Text) (ts : ℤ) (content_type : Text) (to_vec : Option Bytes)
    (id : ℕ) (d' : Db)
    → insert d device_id topic ts content_type to_vec ≡ ok (id, d')
    → (bytes : Bytes) × (to_vec ≡ some bytes)
      × (length bytes ≤ 65536)
      × (id ≡ fresh event_id d.events)
      × (d'.events
          ≡ prune_rows event_id event_device device_id events_max_per_device
              (new_event_row d device_id topic ts content_type bytes ∷ d.events))
      × (d'.logs ≡ d.logs)
unfolding insert prune
insert_ok d device_id topic ts content_type none id d' h = cc
insert_ok d device_id topic ts content_type (some bytes) id d' h =
    elim (Bool-cases (leb (length bytes) 65536)) [
      | inr big ↦ err_ne_ok (rw big at h)
      | inl small ↦ elim (Bool-cases (anyb (λ v. v.id == device_id) d.devices)) [
        | inr orphan ↦ err_ne_ok (rw (small, orphan) at h)
        | inl owned ↦
            let done = rw (small, owned) at h in
            (
              bytes,
              refl,
              ground arith,
              sym (ap (λ (x : ℕ × Db). x.0) (ok_inj done)),
              ap (λ (x : ℕ × Db). x.1.events) (sym (ok_inj done)),
              ap (λ (x : ℕ × Db). x.1.logs) (sym (ok_inj done)),
            )
      ]
    ]

-- Where rowids fall along the table, an accepted insertion stores the serialised payload, of at
-- most 65536 bytes, in a row of its own with the id that is returned. The device then has that
-- row and its newest others, 10000 in all at most; the rows of every other device are as they
-- were, and so are the logs; and rowids still fall along the table.
pub insert_newest :
    (d : Db) (device_id : ℕ) (topic : Text) (ts : ℤ) (content_type : Text) (to_vec : Option Bytes)
    (id : ℕ) (d' : Db)
    → Falling event_id (fresh event_id d.events) d.events
    → insert d device_id topic ts content_type to_vec ≡ ok (id, d')
    → (bytes : Bytes) × (to_vec ≡ some bytes)
      × (length bytes ≤ 65536)
      × (id ≡ fresh event_id d.events)
      × Pushed event_id event_device device_id events_max_per_device
          (new_event_row d device_id topic ts content_type bytes)
          d.events
          d'.events
      × (d'.logs ≡ d.logs)
insert_newest d device_id topic ts content_type to_vec id d' f h =
    let (bytes, read, small, new, same, others) =
      insert_ok d device_id topic ts content_type to_vec id d' h in
    (
      bytes,
      read,
      small,
      new,
      rw same (
          push-Pushed event_id event_device device_id events_max_per_device
            (new_event_row d device_id topic ts content_type bytes) d.events refl refl f),
      others,
    )
