-- ===== src/Gateway/Commands/Life.antt =====
-- What the accepted requests of crates/hackline-gateway/src/api/cmd do to the outbox.
use hackline.Prelude.{
  ℕ, ◌≡◌, refl, ap, sym, ◌∙◌, Bool, true, false, ◌||◌, List, [], ◌∷◌, find, All, Option, none, some,
  anyb, arith, Bool-cases, Option-cases, inl, inr,
}
use hackline.Prelude.Int.{ℤ, pos, negsuc, ◌<ℤ◌, i64_max, i64_min, ltb_ℤ}
use hackline.Prelude.Text.{Text, lit, text_eq_refl, text_eq_iff}
use hackline.Prelude.Outcome.{ok, ok_inj, err_ne_ok, Result-cases}
use hackline.Gateway.Sql.Laws.{All-imp, All-find, Distinct}
use hackline.Gateway.Outbox
use hackline.Gateway.Schema.{User, CmdRow, Db}
use hackline.Gateway.Scope.{Scopes}
use hackline.Gateway.Audit
use hackline.Gateway.Outbox.{is_none, is_due, named, enqueue, get_by_cmd_id, cancel}
use hackline.Gateway.Outbox.Step.{cancels, step}
use hackline.Gateway.Outbox.Invariant.{IsSound, IsGoodRow}
use hackline.Gateway.Outbox.Accepted.{new_row, enqueue_iff}
use hackline.Gateway.Outbox.Lifecycle.{queued, phase, move, phase-step}
use hackline.Gateway.Commands.{
  AppState, SendCmd, is_empty, unwrap_or, expiry, audited, cancelled, send, cancel_cmd,
}
use hackline.Gateway.Commands.Tenancy.{Admits, gates}

-- An expiry lies after the present, short of the end of time.
expiry_later : (now : ℤ) (ttl : Option ℤ) → i64_min <ℤ now → now <ℤ i64_max → now <ℤ expiry now ttl
expiry_later (pos n) none lo hi = ground arith
expiry_later (negsuc n) none lo hi = ground arith
expiry_later (pos n) (some (pos t)) lo hi = ground arith
expiry_later (pos n) (some (negsuc t)) lo hi = ground arith
expiry_later (negsuc n) (some (pos t)) lo hi = ground arith
expiry_later (negsuc n) (some (negsuc t)) lo hi = ground arith

-- The audit rows stand apart from the outbox.
insert-outbox :
    (d : Db) (now : ℤ) (u v t : Option ℕ) (action : Text) (detail : Option Text)
    → (audited d (Audit.insert d now u v t action detail)).cmd_outbox ≡ d.cmd_outbox
unfolding Audit.insert
insert-outbox d now u v t action detail = ground arith

found_first :
    (d : Db) (row : CmdRow) (rest : List CmdRow) (k : Text)
    → d.cmd_outbox ≡ row ∷ rest
    → row.cmd_id ≡ k
    → get_by_cmd_id d k ≡ some row
unfolding get_by_cmd_id
found_first d row rest k rows same = rw (rows, same, text_eq_refl k)

due_before : (now t : ℤ) → now <ℤ t → ltb_ℤ now t ≡ true
due_before now t h = ground arith

-- A refusal of the handler aside, the outbox is the one that `cancel` leaves.
cancelled-outbox :
    (detail : Text → Text) (s s' : AppState) (user : User) (row : CmdRow) (cmd_id : Text)
    (unixepoch : ℤ) (x : Bool × Db)
    → cancelled detail s user row cmd_id unixepoch x ≡ ok s'
    → (x.0 ≡ true) × (s'.db.cmd_outbox ≡ x.1.cmd_outbox)
unfolding cancelled
cancelled-outbox detail s s' user row cmd_id unixepoch (true, d) h = (
  refl,
  ap (λ (y : AppState). y.db.cmd_outbox) (sym (ok_inj h))
      ∙ insert-outbox d unixepoch (some user.id) (some row.device_id) none (lit "cmd.cancel")
          (some (detail cmd_id)),
)
cancelled-outbox detail s s' user row cmd_id unixepoch (false, d) h = err_ne_ok h

none_cancels :
    (k : Text) (rs : List CmdRow)
    → All (λ r. named k r ≡ false) rs
    → anyb (Outbox.cancels k) rs ≡ false
none_cancels k [] h = refl
none_cancels k (r ∷ rs) (h, hs) = rw h (none_cancels k rs hs)

-- The row that `cancel` removes is the one that the lookup finds.
cancels_found :
    (k : Text) (row : CmdRow) (rs : List CmdRow)
    → Distinct (λ (r : CmdRow). r.cmd_id) rs
    → find (named k) rs ≡ some row
    → anyb (Outbox.cancels k) rs ≡ true
    → is_none row.delivered_at ≡ true
cancels_found k row [] d f h = cc
cancels_found k row (r ∷ rs) (n, d) f h = elim (Bool-cases (named k r)) [
  | inr miss ↦ cancels_found k row rs d (rw miss at f) (rw miss at h)
  | inl hit ↦
      let others : All (λ s. named k s ≡ false) rs =
        All-imp _ rs (λ s m. ground (arith, text_eq_iff s.cmd_id k, text_eq_iff r.cmd_id k)) n in
      let same : some r ≡ some row = rw hit at f in
      let queued? : (is_none r.delivered_at || false) ≡ true =
        rw (hit, none_cancels k rs others) at h in
      ground arith
]

queued_phase :
    (d : Db) (k : Text) (row : CmdRow)
    → get_by_cmd_id d k ≡ some row
    → is_none row.delivered_at ≡ true
    → is_none row.ack_at ≡ true
    → phase d k ≡ some queued
unfolding phase
queued_phase d k row p a b = rw (p, a, b)

phase_by_rows : (d d' : Db) (k : Text) → d.cmd_outbox ≡ d'.cmd_outbox → phase d k ≡ phase d' k
unfolding phase get_by_cmd_id
phase_by_rows d d' k h = rw h

gone : (d : Db) (k : Text) → IsSound d → phase d k ≡ some queued → phase (cancel d k).1 k ≡ none
unfolding step move
gone d k v before = phase-step d (cancels k) k v ∙ rw (text_eq_refl k, before)

module _ (from_str : Scopes) (user : User) where
  -- An accepted command is for a device that the user may operate on, of its organisation. It is the
  -- newest row of the outbox, under the command id that is answered; the pusher is woken; and, the
  -- present being within `i64`, the command is due at once, whatever time to live was asked for.
  pub send-stored :
      (detail : Text → Text → Text) (s s' : AppState) (device_id : ℕ) (topic : Text)
      (body : SendCmd) (cmd_id id : Text) (now unixepoch : ℤ)
      → i64_min <ℤ now
      → now <ℤ i64_max
      → send from_str detail s user device_id topic body cmd_id now unixepoch ≡ ok (id, s')
      → Admits from_str s.db user device_id
        × ((row : CmdRow) × (s'.db.cmd_outbox ≡ row ∷ s.db.cmd_outbox)
            × (get_by_cmd_id s'.db id ≡ some row)
            × (row.device_id ≡ device_id)
            × (row.topic ≡ topic)
            × (is_due now row ≡ true)
            × (s'.notified ≡ true))
  unfolding send
  send-stored detail s s' device_id topic body cmd_id id now unixepoch lo hi h =
      let (admits, (v, h0)) = gates from_str s.db user device_id _ (id, s') h in
      elim (Bool-cases (is_empty topic)) [
        | inl blank ↦ err_ne_ok (rw blank at h0)
        | inr named ↦
            let h1 = rw named at h0 in
            elim (Result-cases (
              enqueue s.db cmd_id device_id topic
                (unwrap_or (lit "application/json") body.content_type) body.payload now
                (expiry now body.expires_in_ms))) [
                  | inl (e, p) ↦ err_ne_ok (rw p at h1)
                  | inr ((rid, d), p) ↦
                      let h2 = ok_inj (rw p at h1) in
                      let (bytes, read, fits, same) =
                        (enqueue_iff s.db cmd_id device_id topic
                            (unwrap_or (lit "application/json") body.content_type) now
                            (expiry now body.expires_in_ms) body.payload (rid, d)).0
                          p in
                      let rows =
                        ap (λ (x : Text × AppState). x.1.db.cmd_outbox) (sym h2)
                        ∙ (insert-outbox d unixepoch (some user.id) (some device_id) none
                              (lit "cmd.send") (some (detail cmd_id topic))
                            ∙ ap (λ (x : ℕ × Db). x.1.cmd_outbox) (sym same)) in
                      (
                        admits,
                        (
                          new_row s.db cmd_id device_id topic
                              (unwrap_or (lit "application/json") body.content_type) bytes now
                              (expiry now body.expires_in_ms),
                          rows,
                          found_first s'.db _ s.db.cmd_outbox id rows
                              (ap (λ (x : Text × AppState). x.0) h2),
                          refl,
                          refl,
                          due_before now (expiry now body.expires_in_ms)
                              (expiry_later now body.expires_in_ms lo hi),
                          ap (λ (x : Text × AppState). x.1.notified) (sym h2),
                        ),
                      )
                ]
      ]

  -- In a sound database, a request that cancels does so to a queued command of a device that the
  -- user may operate on, of its organisation, and the command is then gone.
  pub cancel_cmd-phase :
      (detail : Text → Text) (s s' : AppState) (cmd_id : Text) (unixepoch : ℤ)
      → IsSound s.db
      → cancel_cmd from_str detail s user cmd_id unixepoch ≡ ok s'
      → (row : CmdRow) × (get_by_cmd_id s.db cmd_id ≡ some row)
        × Admits from_str s.db user row.device_id
        × (phase s.db cmd_id ≡ some queued)
        × (phase s'.db cmd_id ≡ none)
  unfolding cancel_cmd
  cancel_cmd-phase detail s s' cmd_id unixepoch v h =
      elim (Option-cases (get_by_cmd_id s.db cmd_id)) [
        | inl missing ↦ err_ne_ok (rw missing at h)
        | inr (row, p) ↦
            let (admits, (dev, h0)) = gates from_str s.db user row.device_id _ s' (rw p at h) in
            let (hit, rows) =
              cancelled-outbox detail s s' user row cmd_id unixepoch (cancel s.db cmd_id) h0 in
            let once : is_none row.delivered_at ≡ true =
              cancels_found cmd_id row s.db.cmd_outbox v.unique (unfold get_by_cmd_id in p)
                (unfold cancel in hit) in
            let good : IsGoodRow s.db.devices row =
              All-find (IsGoodRow s.db.devices) (named cmd_id) s.db.cmd_outbox row v.good
                (unfold get_by_cmd_id in p) in
            let before : phase s.db cmd_id ≡ some queued =
              queued_phase s.db cmd_id row p once (good.acked_delivered once) in
            (
              row,
              p,
              admits,
              before,
              phase_by_rows s'.db (cancel s.db cmd_id).1 cmd_id rows ∙ (gone s.db cmd_id v before),
            )
      ]
