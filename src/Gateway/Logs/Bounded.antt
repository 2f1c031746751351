-- ===== src/Gateway/Logs/Bounded.antt =====
-- What an insertion leaves in the ring of crates/hackline-gateway/src/db/logs.rs.
use hackline.Prelude.{
  ℕ, ◌≤◌, ◌&&◌, ◌≡◌, refl, ap, sym, true, ◌∷◌, Option, none, some, length, anyb, arith, leb, ◌==◌,
  Bool-cases, inl, inr,
}
use hackline.Prelude.Int.{ℤ}
use hackline.Prelude.Text.{Text}
use hackline.Prelude.Outcome.{ok, ok_inj, err_ne_ok}
use hackline.Gateway.Sql.{fresh}
use hackline.Gateway.Sql.Laws.{Falling}
use hackline.Gateway.Ring.{prune_rows}
use hackline.Gateway.Ring.Newest.{Pushed, push-Pushed}
use hackline.Gateway.Schema.{Bytes, LogRow, Db}
use hackline.Gateway.Logs.{logs_max_per_device, known_level, prune, insert}

abbrev pub log_id : LogRow → ℕ
log_id e = e.id

abbrev pub log_device : LogRow → ℕ
log_device e = e.device_id

-- The row that an accepted insertion stores.
abbrev pub new_log_row : Db → ℕ → Text → ℤ → Text → Text → Bytes → LogRow
new_log_row d device_id topic ts level content_type bytes = record {
  id = fresh log_id d.logs;
  device_id = device_id;
  topic = topic;
  ts = ts;
  level = level;
  content_type = content_type;
  payload = bytes;
}

-- What an accepted insertion has read, and the table it leaves.
insert_ok :
    (d : Db) (device_id : ℕ) (topic : Text) (ts : ℤ) (level content_type : Text)
    (to_vec : Option Bytes) (id : ℕ) (d' : Db)
    → insert d device_id topic ts level content_type to_vec ≡ ok (id, d')
    → (bytes : Bytes) × (to_vec ≡ some bytes)
      × (length bytes ≤ 65536)
      × (known_level level ≡ true)
      × (id ≡ fresh log_id d.logs)
      × (d'.logs
          ≡ prune_rows log_id log_device device_id logs_max_per_device
              (new_log_row d device_id topic ts level content_type bytes ∷ d.logs))
      × (d'.events ≡ d.events)
unfolding insert prune
insert_ok d device_id topic ts level content_type none id d' h = cc
insert_ok d device_id topic ts level content_type (some bytes) id d' h =
    elim (Bool-cases (leb (length bytes) 65536 && known_level level)) [
      | inr big ↦ err_ne_ok (rw big at h)
      | inl small ↦ elim (Bool-cases (anyb (λ v. v.id == device_id) d.devices)) [
        | inr orphan ↦ err_ne_ok (rw (small, orphan) at h)
        | inl owned ↦
            let done = rw (small, owned) at h in
            (
              bytes,
              refl,
              ground arith,
              ground arith,
              sym (ap (λ (x : ℕ × Db). x.0) (ok_inj done)),
              ap (λ (x : ℕ × Db). x.1.logs) (sym (ok_inj done)),
              ap (λ (x : ℕ × Db). x.1.events) (sym (ok_inj done)),
            )
      ]
    ]

-- Where rowids fall along the table, an accepted insertion stores the serialised payload, of at
-- most 65536 bytes and at one of the five levels, in a row of its own with the id that is
-- returned. The device then has that row and its newest others, 10000 in all at most; the rows of
-- every other device are as they were, and so are the events; and rowids still fall along the
-- table.
pub insert_newest_log :
    (d : Db) (device_id : ℕ) (topic : Text) (ts : ℤ) (level content_type : Text)
    (to_vec : Option Bytes) (id : ℕ) (d' : Db)
    → Falling log_id (fresh log_id d.logs) d.logs
    → insert d device_id topic ts level content_type to_vec ≡ ok (id, d')
    → (bytes : Bytes) × (to_vec ≡ some bytes)
      × (length bytes ≤ 65536)
      × (known_level level ≡ true)
      × (id ≡ fresh log_id d.logs)
      × Pushed log_id log_device device_id logs_max_per_device
          (new_log_row d device_id topic ts level content_type bytes)
          d.logs
          d'.logs
      × (d'.events ≡ d.events)
insert_newest_log d device_id topic ts level content_type to_vec id d' f h =
    let (bytes, read, small, known, new, same, others) =
      insert_ok d device_id topic ts level content_type to_vec id d' h in
    (
      bytes,
      read,
      small,
      known,
      new,
      rw same (
          push-Pushed log_id log_device device_id logs_max_per_device
            (new_log_row d device_id topic ts level content_type bytes) d.logs refl refl f),
      others,
    )
