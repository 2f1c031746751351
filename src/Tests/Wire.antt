-- ===== src/Tests/Wire.antt =====
-- The theorems on keys, identifiers, envelopes and query strings.
use hackline.Prelude.{◌≡◌, ◌↔◌, true, false, [], ◌∷◌, ◌++◌, none, some, arith}
use hackline.Prelude.Int.{pos}
use hackline.Prelude.Text.{lit}
use hackline.Prelude.Outcome.{ok}
use hackline.Proto.Zid
use hackline.Proto.Zid.{Zid, to_ascii_lowercase}
use hackline.Proto.Zid.Laws.{IsCanonical, new_iff}
use hackline.Proto.Keyexpr.{
  event, log, health, msg_event, msg_log, msg_cmd_ack, parse_health_keyexpr, parse_msg_keyexpr,
  parse_msg_cmd_ack_keyexpr,
}
use hackline.Proto.Keyexpr.RoundTrip.{
  parse_health_keyexpr-health, parse_msg_keyexpr-msg, parse_msg_cmd_ack_keyexpr-msg_cmd_ack,
}
use hackline.Proto.Level.{warn}
use hackline.Proto.Msg.{insert, new_log, log_level, log_level-new_log}
use hackline.Gateway.Middleware.{percent_decode_minimal, token_from_query}
use hackline.Gateway.Middleware.Query.{
  encode, query_of, token_from_query-pairs, percent_decode_minimal-encode,
}
use hackline.Tests.Data.{zid, zid-IsCanonical, two_ids, two_ids-IsUuid}

parse_health_keyexpr-health_once :
    parse_health_keyexpr (health (lit "acme") zid) ≡ some (lit "acme", zid)
parse_health_keyexpr-health_once =
    parse_health_keyexpr-health (lit "acme") zid (ground arith) zid-IsCanonical

parse_msg_keyexpr-msg_example :
    (parse_msg_keyexpr (msg_event (lit "acme") zid (lit "pump.on"))
      ≡ some (lit "acme", zid, event, lit "pump.on"))
    × (parse_msg_keyexpr (msg_log (lit "acme") zid (lit "pump.on"))
        ≡ some (lit "acme", zid, log, lit "pump.on"))
parse_msg_keyexpr-msg_example =
    parse_msg_keyexpr-msg (lit "acme") zid (ground arith) zid-IsCanonical (lit "pump.on")
      (ground arith)

parse_msg_cmd_ack_keyexpr-msg_cmd_ack_once :
    parse_msg_cmd_ack_keyexpr two_ids (msg_cmd_ack two_ids (lit "acme") zid false)
    ≡ some (lit "acme", zid, false)
parse_msg_cmd_ack_keyexpr-msg_cmd_ack_once =
    parse_msg_cmd_ack_keyexpr-msg_cmd_ack two_ids two_ids-IsUuid (lit "acme") zid false
      (ground arith) zid-IsCanonical

new_iff_once :
    (Zid.new (lit "A1") ≡ ok zid)
    ↔ ((zid.as_str ≡ to_ascii_lowercase (lit "A1")) × IsCanonical zid.as_str)
new_iff_once = new_iff (lit "A1") zid

log_level-kept :
    let e = new_log true (pos 5) warn false in
    log_level (record e { headers = insert (lit "trace_id") (lit "9") e.headers }) ≡ warn
log_level-kept = log_level-new_log true (pos 5) warn false (lit "trace_id") (lit "9") (ground arith)

token_from_query-pairs_example :
    (token_from_query (
        query_of ((lit "since", lit "5") ∷ []) (lit "token" ++ b'=' ∷ lit "ab" ++ b'&' ∷ lit "x=1"))
      ≡ some (percent_decode_minimal (lit "ab")))
    × (token_from_query (query_of ((lit "since", lit "5") ∷ []) (lit "token" ++ b'=' ∷ lit "ab"))
        ≡ some (percent_decode_minimal (lit "ab")))
    × (token_from_query (query_of ((lit "since", lit "5") ∷ []) (lit "live" ++ b'&' ∷ lit "x=1"))
        ≡ none)
token_from_query-pairs_example =
    token_from_query-pairs ((lit "since", lit "5") ∷ []) (lit "ab") (lit "live") (lit "x=1")
      ((ground arith, ground arith, ground arith, ground arith), tt) (ground arith) (ground arith)
      (ground arith)

percent_decode_minimal-encode_once : percent_decode_minimal (encode (lit "a+/=")) ≡ lit "a+/="
percent_decode_minimal-encode_once = percent_decode_minimal-encode (lit "a+/=") (ground arith)
