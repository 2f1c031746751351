-- ===== src/Gateway/AuditView.antt =====
-- crates/hackline-gateway/src/api/audit/list.rs: the page of the audit trail. `serde_json` is given by
-- what it reads, the object that wraps other text, `null`, and the number under a key of a value.
pub mod Deleted
use hackline.Prelude.{ℕ, suc, List, [], ◌∷◌, ◌++◌, map, Option, none, some}
use hackline.Prelude.Int.{ℤ, pos, negsuc}
use hackline.Prelude.Text.{Text, lit}
use hackline.Proto.Keyexpr.{decimal}
use hackline.Gateway.Schema.{User, AuditEntry, Db}
use hackline.Gateway.Audit.{list_recent}

pub record AuditEntryView (Value : Type 0) : Type 0 where
  pub id : ℕ
  pub at : ℤ
  pub actor_user_id : Option ℕ
  pub action : Text
  pub subject : Text
  pub detail : Value

abbrev pub default_limit : ℤ
default_limit = pos 50

-- `{d}` of an `i64`.
unfoldable pub signed : ℤ → Text
unfolding decimal
signed (pos n) = decimal n
signed (negsuc n) = b'-' ∷ decimal (suc n)

module _ {Value : Type 0} (from_str : Text → Option Value) (raw : Text → Value) (null : Value)
    (detail_id : Value → Text → Option ℤ) where
  -- The detail of a row, as JSON.
  unfoldable pub detail_of : Option Text → Value
  detail_of none = null
  detail_of (some s) = elim (from_str s) [ some v ↦ v | none ↦ raw s ]

  -- The last of the sources of a subject.
  abbrev of_user : Option ℕ → Text
  of_user none = []
  of_user (some u) = lit "user:" ++ decimal u

  abbrev of_detail_device : Option ℤ → Text → Text
  of_detail_device none other = other
  of_detail_device (some d) other = lit "device:" ++ signed d

  abbrev of_detail_tunnel : Option ℤ → Text → Text
  of_detail_tunnel none other = other
  of_detail_tunnel (some t) other = lit "tunnel:" ++ signed t

  abbrev of_device : Option ℕ → Text → Text
  of_device none other = other
  of_device (some d) other = lit "device:" ++ decimal d

  abbrev of_tunnel : Option ℕ → Text → Text
  of_tunnel none other = other
  of_tunnel (some t) other = lit "tunnel:" ++ decimal t

  unfoldable pub subject_of : AuditEntry → Value → Text
  unfolding signed
  subject_of row detail = of_tunnel row.tunnel_id (
      of_device row.device_id (
        of_detail_tunnel (detail_id detail (lit "tunnel_id"))
          (of_detail_device (detail_id detail (lit "device_id")) (of_user row.user_id))))

  unfoldable pub project : AuditEntry → AuditEntryView Value
  unfolding detail_of subject_of
  project row = record {
    id = row.id;
    at = row.ts;
    actor_user_id = row.user_id;
    action = row.action;
    subject = subject_of row (detail_of row.detail);
    detail = detail_of row.detail;
  }

  -- The items of the handler's page.
  unfoldable pub list : Db → User → ℤ → List (AuditEntryView Value)
  unfolding project list_recent
  list d caller limit = map project (list_recent d caller.org_id limit)
