-- ===== src/Gateway/Error.antt =====
-- crates/hackline-gateway/src/error.rs. A message is kept by the fact that it reports, with the
-- values that it prints, and not by its wording.
use hackline.Prelude.{ℕ}
use hackline.Prelude.Text.{Text}

-- What SQLite refuses: a foreign key, a UNIQUE column or a CHECK.
pub data DbFault : Type 0 where
  foreign_key unique check : DbFault

pub data Reason : Type 0 where
  cmd_payload_not_serialisable : Reason
  cmd_payload_exceeds : ℕ → Reason
  cmd_outbox_full : ℕ → ℕ → Reason
  unknown_status : Text → Reason
  event_payload_not_serialisable : Reason
  log_payload_not_serialisable : Reason
  unparsable_keyexpr : Text → Reason
  routed_to_other_subscriber : Text → Reason
  envelope : Reason
  unknown_device_zid : Text → Reason
  foreign_publication : Text → Text → Text → Reason
  cmd_ack_envelope : Reason
  cmd_id_mismatch : Reason
  unknown_org : Text → Reason
  slug_length slug_first slug_rest : Reason
  topic_empty no_pending_claim claim_failed cannot_delete_self : Reason
  slug_invalid_or_taken : Text → Reason
  header_section_exceeded preamble_closed_early missing_host_header bad_zid : Reason
  no_http_tunnel : Text → Reason
  device_ack_timeout ack_decode device_rejected : Reason
  device_ack device_message device_error : Text → Reason
  request_encode reply_decode : Reason

pub data GatewayError : Type 0 where
  config bridge zenoh io proto pool : GatewayError
  db : DbFault → GatewayError
  not_found : GatewayError
  bad_request : Reason → GatewayError
  unauthorized : GatewayError

-- The status code of `into_response`.
unfoldable pub status : GatewayError → ℕ
status not_found = 404
status (bad_request _) = 400
status unauthorized = 401
status config = 500
status (db _) = 500
status bridge = 500
status zenoh = 500
status io = 500
status proto = 500
status pool = 500
