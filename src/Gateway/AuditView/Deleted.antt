-- ===== src/Gateway/AuditView/Deleted.antt =====
-- What the audit page shows of a tunnel that is deleted: crates/hackline-gateway/src/api/tunnels/delete.rs
-- and then api/audit/list.rs.
use hackline.Prelude.{
  ℕ, suc, ◌≡◌, refl, ap, sym, ◌∙◌, true, ◌&&◌, List, ◌∷◌, ◌++◌, map, Option, none, some, anyb,
  filterb, take, ◌==◌,
}
use hackline.Prelude.Int.{ℤ, pos}
use hackline.Prelude.Text.{Text, lit}
use hackline.Prelude.Outcome.{Result, ok}
use hackline.Proto.Keyexpr.{decimal}
use hackline.Gateway.Sql.{fresh}
use hackline.Gateway.Schema.{User, AuditEntry, Db}
use hackline.Gateway.Error.{GatewayError}
use hackline.Gateway.Audit
use hackline.Gateway.Audit.{insert_entry, visible, list_recent}
use hackline.Gateway.Tunnels.{chosen, delete_in_org, delete}
use hackline.Gateway.Session.Stale.{cut, deleted}
use hackline.Gateway.AuditView.{AuditEntryView, signed, detail_of, subject_of, project, list}

-- The caller is a user of its organisation.
abbrev pub IsUser : Db → User → Type 0
IsUser d caller =
    (anyb (λ r. r.user.id == caller.id) d.users ≡ true)
    × (anyb (λ r. r.user.id == caller.id && r.user.org_id == caller.org_id) d.users ≡ true)

-- The row that a deletion writes.
abbrev pub deletion : Db → Text → User → ℕ → ℤ → AuditEntry
deletion d detail caller id now = record {
  id = fresh (λ a. a.id) d.audit;
  ts = now;
  ts_close = none;
  user_id = some caller.id;
  device_id = none;
  tunnel_id = none;
  request_id = none;
  action = lit "tunnel.delete";
  peer = none;
  bytes_up = none;
  bytes_down = none;
  detail = some detail;
}

deleted-audit :
    (detail : ℕ → Text) (d : Db) (caller : User) (id : ℕ) (now : ℤ) (d' : Db)
    → anyb (λ r. r.user.id == caller.id) d.users ≡ true
    → delete detail d caller id now ≡ (ok tt, d')
    → let c = cut d (chosen d caller.org_id id) id in
      d' ≡ record c { audit = deletion c (detail id) caller id now ∷ c.audit }
unfolding delete delete_in_org Audit.insert insert_entry
deleted-audit detail d caller id now d' there h =
    let (any, _) = deleted detail d caller id now d' h in
    sym (ap (λ (x : Result GatewayError (Unit {0}) × Db). x.1) h) ∙ rw (any, there) refl

module _ {Value : Type 0} (from_str : Text → Option Value) (raw : Text → Value) (null : Value)
    (detail_id : Value → Text → Option ℤ) where
  -- Where the JSON of a deletion's detail gives back the number of the tunnel, and the caller is a user of
  -- its organisation: once a deletion succeeds, the first item on every page of the caller's audit trail
  -- is that deletion, by the caller, and its subject is the tunnel by its number, although no row of
  -- that number is left to refer to.
  pub delete-list :
      (detail : ℕ → Text) (d : Db) (caller : User) (id : ℕ) (now : ℤ) (d' : Db) (v : Value)
      (limit : ℕ)
      → from_str (detail id) ≡ some v
      → detail_id v (lit "tunnel_id") ≡ some (pos id)
      → IsUser d caller
      → delete detail d caller id now ≡ (ok tt, d')
      → (rest : List (AuditEntryView Value)) × (list from_str raw null detail_id d' caller
            (pos (suc limit))
          ≡ record {
            id = (deletion (cut d (chosen d caller.org_id id) id) (detail id) caller id now).id;
            at = now;
            actor_user_id = some caller.id;
            action = lit "tunnel.delete";
            subject = lit "tunnel:" ++ decimal id;
            detail = v;
          }
            ∷ rest)
  unfolding list list_recent project detail_of subject_of signed
  delete-list detail d caller id now d' v limit parsed numbered (there, of_org) h =
      let c = cut d (chosen d caller.org_id id) id in
      let row = deletion c (detail id) caller id now in
      let after : Db = record c { audit = row ∷ c.audit } in
      (
        map (project from_str raw null detail_id)
            (take limit (filterb (visible after caller.org_id) c.audit)),
        ap (λ k. list from_str raw null detail_id k caller (pos (suc limit)))
              (deleted-audit detail d caller id now d' there h)
            ∙ rw (of_org, parsed, numbered) refl,
      )
