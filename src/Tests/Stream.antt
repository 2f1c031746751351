-- ===== src/Tests/Stream.antt =====
-- The theorems on the live feeds.
use hackline.Prelude.{ℕ, ◌≡◌, ◌↔◌, true, [], ◌∷◌, Option, none, some, ◌⊎◌}
use hackline.Prelude.Text.{Text, lit}
use hackline.Proto.Zid.{Zid}
use hackline.Proto.Keyexpr.{event, parse_msg_keyexpr}
use hackline.Gateway.Schema.{Bytes}
use hackline.Gateway.Devices.{get_by_zid}
use hackline.Gateway.Fanin.{Live}
use hackline.Gateway.Stream.{StreamQuery, glob_match}
use hackline.Gateway.Stream.Glob.{Matches, glob_match_iff}
use hackline.Gateway.Stream.Foreign.{events_fed, logs_fed, handle_sample-foreign}
use hackline.Tests.Data.{db}
use hackline.Tests.Network.{from_slice, gateway, after, ke, sample-ok}

glob_match_iff_example :
    (glob_match (lit "a*?") (lit "a.bc") ≡ true) ↔ Matches (lit "a*?") (lit "a.bc")
glob_match_iff_example = glob_match_iff (lit "a*?") (lit "a.bc")

abbrev query : StreamQuery
query = record { device = none; topic = none; level = none }

abbrev row_id : Live Bytes → Option ℕ
row_id row = some row.id

abbrev log_id : Text → Live Bytes → Option ℕ
log_id level row = some row.id

handle_sample-foreign_example :
    (z : Zid) × (topic : Text) × (device_id : ℕ) × (org_id : ℕ) × (slug : Text) × (parse_msg_keyexpr
        ke
      ≡ some (slug, z, event, topic))
    × (get_by_zid db z.as_str ≡ some (device_id, org_id))
    × ((org_id ≡ 2)
        ⊎ ((events_fed from_slice some row_id log_id 2 query after.bus
              ≡ events_fed from_slice some row_id log_id 2 query [])
            × (logs_fed from_slice some row_id log_id 2 query after.bus
                ≡ logs_fed from_slice some row_id log_id 2 query [])))
handle_sample-foreign_example =
    handle_sample-foreign from_slice some row_id log_id 2 query gateway after event ke (49 ∷ [])
      (tt, tt) sample-ok
