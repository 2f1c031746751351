-- ===== src/Gateway/Schema.antt =====
-- The tables of crates/hackline-gateway/migrations, with the row types of
-- crates/hackline-gateway/src/db. A rowid is positive, and a request's id that is not positive
-- names no row, as one that was never allotted.
use hackline.Prelude.{ℕ, Bool, List, Option}
use hackline.Prelude.Int.{ℤ}
use hackline.Prelude.Text.{Text}

abbrev pub Bytes : Type 0
Bytes = List ℕ

pub record Org : Type 0 where
  pub id : ℕ
  pub slug : Text
  pub name : Text
  pub created_at : ℤ

pub record User : Type 0 where
  pub id : ℕ
  pub org_id : ℕ
  pub name : Text
  pub role : Text
  pub device_scope : Text
  pub tunnel_scope : Text
  pub expires_at : Option ℤ
  pub created_at : ℤ
  pub last_used_at : Option ℤ

-- A row of `users`: what `User` shows, and the hash that it does not.
pub record UserRow : Type 0 where
  pub user : User
  pub token_hash : Text

pub record Device : Type 0 where
  pub id : ℕ
  pub org_id : ℕ
  pub zid : Text
  pub label : Text
  pub customer_id : Option ℤ
  pub created_at : ℤ
  pub last_seen_at : Option ℤ

pub record Tunnel : Type 0 where
  pub id : ℕ
  pub device_id : ℕ
  pub kind : Text
  pub local_port : ℤ
  pub public_hostname : Option Text
  pub public_port : Option ℤ
  pub enabled : Bool
  pub created_at : ℤ

-- Rows of `events` and `logs`; an event has no level.
pub record EventRow : Type 0 where
  pub id : ℕ
  pub device_id : ℕ
  pub topic : Text
  pub ts : ℤ
  pub content_type : Text
  pub payload : Bytes

pub record LogRow : Type 0 where
  pub id : ℕ
  pub device_id : ℕ
  pub topic : Text
  pub ts : ℤ
  pub level : Text
  pub content_type : Text
  pub payload : Bytes

pub record CmdRow : Type 0 where
  pub id : ℕ
  pub cmd_id : Text
  pub device_id : ℕ
  pub topic : Text
  pub content_type : Text
  pub payload : Bytes
  pub enqueued_at : ℤ
  pub expires_at : ℤ
  pub delivered_at : Option ℤ
  pub ack_at : Option ℤ
  pub ack_result : Option Text
  pub ack_detail : Option Text
  pub attempts : ℕ
  pub last_error : Option Text

pub record AuditEntry : Type 0 where
  pub id : ℕ
  pub ts : ℤ
  pub ts_close : Option ℤ
  pub user_id : Option ℕ
  pub device_id : Option ℕ
  pub tunnel_id : Option ℕ
  pub request_id : Option Text
  pub action : Text
  pub peer : Option Text
  pub bytes_up : Option ℤ
  pub bytes_down : Option ℤ
  pub detail : Option Text

pub record Pending : Type 0 where
  pub token_hash : Text
  pub created_at : ℤ

-- The database.
pub record Db : Type 0 where
  pub orgs : List Org
  pub users : List UserRow
  pub devices : List Device
  pub tunnels : List Tunnel
  pub events : List EventRow
  pub logs : List LogRow
  pub cmd_outbox : List CmdRow
  pub audit : List AuditEntry
  pub claim_pending : Option Pending
