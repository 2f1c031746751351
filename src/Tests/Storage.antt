-- ===== src/Tests/Storage.antt =====
-- The theorems on the tables, at one device.
use hackline.Prelude.{
  ℕ, ◌≤◌, ◌≡◌, ◌≢◌, refl, true, false, List, [], ◌∷◌, none, some, length, take, filterb, anyb,
  arith, ◌==◌, ◌⊎◌,
}
use hackline.Prelude.Int.{pos, negsuc}
use hackline.Prelude.Text.{lit, text_eq}
use hackline.Prelude.Outcome.{ok, err}
use hackline.Gateway.Error.{bad_request, not_found, slug_invalid_or_taken}
use hackline.Gateway.Schema.{Bytes, Device, Db}
use hackline.Gateway.Ring.{prune_rows}
use hackline.Gateway.Ring.Newest.{Pushed}
use hackline.Gateway.Events
use hackline.Gateway.Events.Bounded.{event_id, event_device, new_event_row, insert_newest}
use hackline.Gateway.Logs
use hackline.Gateway.Logs.Bounded.{log_id, log_device, new_log_row, insert_newest_log}
use hackline.Gateway.Page.Complete.{follow, follow_complete, follow_stops}
use hackline.Gateway.Devices.{get_in_org, delete_in_org, seen_at, upsert_seen}
use hackline.Gateway.Devices.Isolation.{
  NoTables, SameTables, delete_in_org-tables, upsert_seen-again,
}
use hackline.Gateway.Audit.{visible, list_recent}
use hackline.Gateway.Audit.Visible.{list_recent-deleted}
use hackline.Gateway.RttCache.{Key, RttCache, max_entries, get, put}
use hackline.Gateway.RttCache.Hits.{get-put}
use hackline.Gateway.Orgs
use hackline.Gateway.Orgs.Slug.{insert_single}
use hackline.Tests.Data.{device, session, db}

abbrev one : ℕ
one = 1

abbrev event_stored : Db
event_stored = record db {
  events = new_event_row db 1 (lit "t") (pos 5) (lit "application/json") (49 ∷ []) ∷ [];
}

event-ok :
    Events.insert db 1 (lit "t") (pos 5) (lit "application/json") (some (49 ∷ []))
    ≡ ok (1, event_stored)
unfolding Events.insert prune_rows
event-ok = refl

insert_newest_example :
    (bytes : Bytes) × (some (49 ∷ []) ≡ some bytes)
    × (length bytes ≤ 65536)
    × (one ≡ 1)
    × Pushed event_id event_device 1 10000
        (new_event_row db 1 (lit "t") (pos 5) (lit "application/json") bytes)
        []
        event_stored.events
    × (event_stored.logs ≡ db.logs)
insert_newest_example =
    insert_newest db 1 (lit "t") (pos 5) (lit "application/json") (some (49 ∷ [])) 1 event_stored tt
      event-ok

abbrev log_stored : Db
log_stored = record db {
  logs = new_log_row db 1 (lit "t") (pos 5) (lit "warn") (lit "application/json") (49 ∷ []) ∷ [];
}

log-ok :
    Logs.insert db 1 (lit "t") (pos 5) (lit "warn") (lit "application/json") (some (49 ∷ []))
    ≡ ok (1, log_stored)
unfolding Logs.insert prune_rows text_eq
log-ok = refl

insert_newest_log_once :
    (bytes : Bytes) × (some (49 ∷ []) ≡ some bytes)
    × (length bytes ≤ 65536)
    × (Logs.known_level (lit "warn") ≡ true)
    × (one ≡ 1)
    × Pushed log_id log_device 1 10000
        (new_log_row db 1 (lit "t") (pos 5) (lit "warn") (lit "application/json") bytes)
        []
        log_stored.logs
    × (log_stored.events ≡ db.events)
insert_newest_log_once =
    insert_newest_log db 1 (lit "t") (pos 5) (lit "warn") (lit "application/json") (some (49 ∷ []))
      1 log_stored tt log-ok

-- Rows that are their own rowids.
abbrev rows : List ℕ
rows = 9 ∷ 7 ∷ 4 ∷ 2 ∷ []

follow_complete_example : follow (λ r. r) 5 (λ _. true) none (pos 2) rows ≡ filterb (λ _. true) rows
follow_complete_example =
    follow_complete (λ r. r) 5 (λ _. true) (pos 2) 10 rows (omega arith) (omega arith)
      (omega arith, (omega arith, (omega arith, (omega arith, tt)))) (omega arith)

follow_stops_once :
    follow (λ r. r) 5 (λ _. true) none (pos 1001) rows ≡ take 1000 (filterb (λ _. true) rows)
follow_stops_once = follow_stops (λ r. r) 4 (λ _. true) none (pos 1001) rows (omega arith)

delete_in_org-tables_example :
    ((get_in_org db 1 1 ≡ err not_found) × (delete_in_org db 1 1 ≡ (false, db)))
    ⊎ (((v : Device) × (get_in_org db 1 1 ≡ ok v))
        × ((delete_in_org db 1 1).0 ≡ true)
        × (((one ≡ 1) × NoTables 1 (delete_in_org db 1 1).1)
            ⊎ ((one ≢ 1) × SameTables 1 db (delete_in_org db 1 1).1)))
delete_in_org-tables_example = delete_in_org-tables db 1 1 1

abbrev registered_db : Db
registered_db = seen_at db 1 (some (pos 8))

registered-ok : upsert_seen db 1 (lit "a1") (pos 8) ≡ ok ((1, false), registered_db)
unfolding upsert_seen text_eq
registered-ok = refl

upsert_seen-again_once :
    upsert_seen registered_db 1 (lit "a1") (pos 9)
    ≡ ok ((1, false), seen_at registered_db 1 (some (pos 9)))
upsert_seen-again_once =
    upsert_seen-again db registered_db 1 1 (lit "a1") (pos 8) (pos 9) false registered-ok

list_recent-deleted_example :
    (visible db 2 session ≡ false)
    × (anyb (λ b. b.id == 1) (list_recent (delete_in_org db 1 1).1 2 (negsuc 0)) ≡ true)
list_recent-deleted_example = list_recent-deleted db 1 1 2 1 device session refl refl refl refl refl

abbrev here : Key
here = (1, 3)

abbrev there : Key
there = (1, 2)

abbrev cache : RttCache
cache = record { entries = record { key = (1, 2); at = 10; rtt_ms = some (pos 7) } ∷ []; ttl = 5 }

get-put_once :
    (get (put cache 12 here none) 14 here ≡ some none)
    × ((here ≡ there)
        ⊎ (get (put cache 12 here none) 14 there ≡ get cache 14 there)
        ⊎ (get (put cache 12 here none) 14 there ≡ none))
    × (length (put cache 12 here none).entries ≤ max_entries)
get-put_once = get-put cache 12 14 here there none (omega arith) (tt, tt)

insert_single_once :
    (Orgs.validate_slug (lit "a") ≡ ok tt)
    × (Orgs.insert db (lit "a") (lit "A") (pos 1)
        ≡ err (bad_request (slug_invalid_or_taken (lit "a"))))
insert_single_once = insert_single db b'a' (lit "A") (pos 1) refl
