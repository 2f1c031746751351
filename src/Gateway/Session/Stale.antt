-- ===== src/Gateway/Session/Stale.antt =====
-- A listener that outlives its tunnel: crates/hackline-gateway/src/api/tunnels/delete.rs and then
-- tunnel/tcp_listener.rs.
use hackline.Prelude.{
  ℕ, ◌≡◌, ◌≢◌, refl, ap, sym, ◌∙◌, Bool, true, false, List, [], ◌∷◌, Option, none, some, anyb, ◌==◌,
  ==_iff, ne_test, All, Bool-cases, inl, inr,
}
use hackline.Prelude.Int.{ℤ}
use hackline.Prelude.Text.{Text, lit}
use hackline.Prelude.Outcome.{Result, ok, err, ok_or, err_ne_ok}
use hackline.Core.Bridge.{BridgeError, BridgeBytes}
use hackline.Gateway.Error.{GatewayError, not_found}
use hackline.Gateway.Sql.{delete_where, update_where}
use hackline.Gateway.Devices.{names}
use hackline.Gateway.Tunnels.Listed.{audited_tables}
use hackline.Gateway.Sql.Laws.{Distinct, find-none_of_anyb}
use hackline.Gateway.Schema.{User, Tunnel, Db}
use hackline.Gateway.Audit
use hackline.Gateway.Tunnels
use hackline.Gateway.Tunnels.{belongs, chosen, delete_in_org, delete}
use hackline.Gateway.Session.{Books}
use hackline.Gateway.Session.Recorded.{
  at_open, at_end, after, Counted, run_bridged_connection-unrecorded,
}

abbrev is_id : ℕ → Tunnel → Bool
is_id id t = t.id == id

others :
    (id : ℕ) (q : Tunnel → Bool) (ts : List Tunnel) (t : Tunnel)
    → t.id ≡ id
    → All (λ s. s.id ≢ t.id) ts
    → anyb (is_id id) (delete_where q ts) ≡ false
others id q [] t e h = refl
others id q (x ∷ ts) t e (apart, h) = elim (Bool-cases (q x)) [
  | inl gone ↦ rw gone (others id q ts t e h)
  | inr kept ↦ rw (kept, ne_test x.id id (λ same. apart (same ∙ sym e))) (others id q ts t e h)
]

none_chosen :
    (d : Db) (org_id id : ℕ) (ts : List Tunnel) (t : Tunnel)
    → t.id ≡ id
    → All (λ s. s.id ≢ t.id) ts
    → anyb (chosen d org_id id) ts ≡ false
none_chosen d org_id id [] t e h = refl
none_chosen d org_id id (x ∷ ts) t e (apart, h) =
    rw (ne_test x.id id (λ same. apart (same ∙ sym e))) (none_chosen d org_id id ts t e h)

-- Of the tunnels with distinct ids, none has the id of one that is deleted.
gone :
    (d : Db) (org_id id : ℕ) (ts : List Tunnel)
    → Distinct (λ t. t.id) ts
    → anyb (chosen d org_id id) ts ≡ true
    → anyb (is_id id) (delete_where (chosen d org_id id) ts) ≡ false
gone d org_id id [] distinct h = absurd cc
gone d org_id id (x ∷ ts) (apart, distinct) h = elim (Bool-cases (x.id == id)) [
  | inr other ↦ rw (other, other) (gone d org_id id ts distinct (rw other at h))
  | inl here ↦ elim (Bool-cases (belongs d.devices org_id x)) [
    | inl mine ↦
        rw (here, mine) (others id (chosen d org_id id) ts x ((==_iff x.id id).0 here) apart)
    | inr foreign ↦
        let none_left = none_chosen d org_id id ts x ((==_iff x.id id).0 here) apart in
        let h0 = rw (here, foreign, none_left) at h in absurd cc
  ]
]

-- The database after the DELETE.
abbrev pub cut : Db → (Tunnel → Bool) → ℕ → Db
cut d q id = record d {
  tunnels = delete_where q d.tunnels;
  audit = update_where (λ a. names id a.tunnel_id) (λ a. record a { tunnel_id = none }) d.audit;
}

pub deleted :
    (detail : ℕ → Text) (d : Db) (caller : User) (id : ℕ) (now : ℤ) (d' : Db)
    → delete detail d caller id now ≡ (ok tt, d')
    → (anyb (chosen d caller.org_id id) d.tunnels ≡ true)
      × (d'.tunnels ≡ delete_where (chosen d caller.org_id id) d.tunnels)
unfolding delete delete_in_org Audit.insert
deleted detail d caller id now d' h =
    elim (Bool-cases (anyb (chosen d caller.org_id id) d.tunnels)) [
      | inr missing ↦
          let h0 = rw missing at h in
          err_ne_ok (ap (λ (x : Result GatewayError (Unit {0}) × Db). x.0) h0)
      | inl there ↦ (
        there,
        sym (ap (λ (x : Result GatewayError (Unit {0}) × Db). x.1.tunnels) h)
            ∙ (rw there
                (audited_tables (cut d (chosen d caller.org_id id) id) now (some caller.id) none
                  none (lit "tunnel.delete") (some (detail id))).0),
      )
    ]

module _ (meanwhile : Books → Books) (b : Books) (device_id : ℕ) (kind request_id : Text)
    (peer : Option Text) (now_ms_open : ℤ) (result : Result BridgeError BridgeBytes)
    (now ts_close : ℤ) where
  -- Where tunnel ids are distinct and a caller's deletion of a tunnel succeeds, no tunnel has its id any
  -- more; yet a connection to the listener, which nothing stops, is bridged and counted like any
  -- other, and the audit trail has no row of it, at the beginning or at the end.
  pub delete-unrecorded :
      (detail : ℕ → Text) (d : Db) (caller : User) (id : ℕ) (deleted_at : ℤ)
      → Distinct (λ t. t.id) d.tunnels
      → delete detail d caller id deleted_at ≡ (ok tt, b.db)
      → (Tunnels.get b.db id ≡ err not_found)
        × ((at_open meanwhile b id device_id kind request_id peer now_ms_open result now
              ts_close).db
            ≡ b.db)
        × ((after meanwhile b id device_id kind request_id peer now_ms_open result now
              ts_close).db.audit
            ≡ (at_end meanwhile b id device_id kind request_id peer now_ms_open result now
                ts_close).db.audit)
        × Counted meanwhile b id device_id kind request_id peer now_ms_open result now ts_close
  unfolding Tunnels.get
  delete-unrecorded detail d caller id deleted_at distinct h =
      let (there, left) = deleted detail d caller id deleted_at b.db h in
      let none_left : anyb (is_id id) b.db.tunnels ≡ false =
        ap (anyb (is_id id)) left ∙ gone d caller.org_id id d.tunnels distinct there in
      let (unopened, unwritten, counted) =
        run_bridged_connection-unrecorded meanwhile b id device_id kind request_id peer now_ms_open
          result now ts_close none_left in
      (
        ap (λ o. ok_or o not_found) (find-none_of_anyb (is_id id) b.db.tunnels none_left),
        unopened,
        unwritten,
        counted,
      )
