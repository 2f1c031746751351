-- ===== src/Gateway/ApiCall/Answered.antt =====
-- What a call that is answered has done.
use hackline.Prelude.{
  ℕ, ◌+◌, ◌≤◌, ◌≡◌, refl, ap, sym, ◌∙◌, not, true, false, List, ◌∷◌, Option, none, some, anyb,
  Bool-cases, ◌⊎◌, find, ◌==◌, arith, Option-cases, inl, inr,
}
use Prim.Native.Nat.{◌%◌}
use mathlib.Core.Path.{subst}
use hackline.Prelude.Int.{ℤ}
use hackline.Prelude.Text.{Text, lit}
use hackline.Prelude.Outcome.{ok, require, then_ok, ok_inj, err_ne_ok, Result-cases}
use hackline.Proto.Zid.{Zid}
use hackline.Proto.Zid
use hackline.Proto.Keyexpr.{msg_api}
use hackline.Client.{ApiRequest, ApiReply}
use hackline.Gateway.Error.{bad_request, topic_empty}
use hackline.Gateway.Sql.{fresh}
use hackline.Gateway.Sql.Laws.{Distinct}
use hackline.Gateway.Audit
use hackline.Gateway.Schema.{Bytes, Org, User, Device, AuditEntry, Db}
use hackline.Gateway.Metrics.{Outcome, as_str, pair_eq, bump, inc_api_call}
use hackline.Gateway.Metrics.Values.{value_at, value_at-alter, pair_eq_refl}
use hackline.Gateway.Scope.{Scopes, check_device}
use hackline.Gateway.Devices.{get_in_org, get_with_org_slug}
use hackline.Gateway.Devices.Isolation.{anyb_of_found}
use hackline.Gateway.Devices.Owned.{find-owned, get_in_org-found}
use hackline.Gateway.Commands.{AppState, is_empty, unwrap_or, audited}
use hackline.Gateway.Commands.Tenancy.{Admits, get_in_org-owns}
use hackline.Gateway.HttpRouter.Route.{of_zid}
use hackline.Gateway.HttpRouter.Route.Served.{of_zid_ok}
use hackline.Gateway.ApiCall.{
  max_timeout_ms, ApiCallBody, Answer, not_sent, unreachable, timed_out, failed, sample, Response,
  device_unreachable, device_timeout, replied, recorded, on_answer, request_of, timeout_of, call,
}

-- The word for an answer in the audit trail, and how it is counted.
abbrev pub label : {Value : Type 0} → Response Value → Text
label device_unreachable = lit "device_unreachable"
label device_timeout = lit "device_timeout"
label (replied _ _) = lit "ok"

abbrev pub counted : {Value : Type 0} → Response Value → Outcome
counted device_unreachable = Outcome.error
counted device_timeout = Outcome.error
counted (replied _ _) = Outcome.ok

-- How an answer of the network becomes the answer to the caller.
abbrev pub Answers :
    {Value : Type 0} → (Bytes → Option (ApiReply Value)) → Answer → Response Value → Type 0
Answers from_slice a device_unreachable = a ≡ unreachable
Answers from_slice a device_timeout = a ≡ timed_out
Answers from_slice a (replied content_type payload) =
    (bytes : Bytes) × (a ≡ sample bytes)
    × (from_slice bytes ≡ some (record { content_type = content_type; payload = payload }))

-- The audit row of a call, in the table that it is added to.
abbrev pub call_row : List AuditEntry → ℤ → ℕ → ℕ → Text → AuditEntry
call_row rows now user_id device_id detail = record {
  id = fresh (λ a. a.id) rows;
  ts = now;
  ts_close = none;
  user_id = some user_id;
  device_id = some device_id;
  tunnel_id = none;
  request_id = none;
  action = lit "api.call";
  peer = none;
  bytes_up = none;
  bytes_down = none;
  detail = some detail;
}

-- The row is the one change of the database, or the user is stored no longer and nothing changes.
abbrev pub Audits : Db → ℤ → ℕ → ℕ → Text → Db → Type 0
Audits d now user_id device_id detail d' =
    ((anyb (λ r. r.user.id == user_id) d.users ≡ true)
      × (d' ≡ record d { audit = call_row d.audit now user_id device_id detail ∷ d.audit }))
    ⊎ ((anyb (λ r. r.user.id == user_id) d.users ≡ false) × (d' ≡ d))

audited-Audits :
    (d : Db) (now : ℤ) (user_id device_id : ℕ) (detail : Text)
    → anyb (λ v. v.id == device_id) d.devices ≡ true
    → Audits d now user_id device_id detail (
        audited d
          (Audit.insert d now (some user_id) (some device_id) none (lit "api.call") (some detail)))
unfolding Audit.insert Audit.insert_entry
audited-Audits d now user_id device_id detail device =
    elim (Bool-cases (anyb (λ r. r.user.id == user_id) d.users)) [
      | inl there ↦ inl (there, rw (there, device) refl)
      | inr missing ↦ inr (missing, rw missing refl)
    ]

-- The organisation whose slug goes with a device of the caller's.
slug_of_caller :
    (d : Db) (org_id id : ℕ) (v w : Device) (slug : Text)
    → Distinct (λ v. v.id) d.devices
    → get_in_org d org_id id ≡ ok v
    → get_with_org_slug d id ≡ ok (w, slug)
    → (v ≡ w) × (o : Org) × (find (λ o. o.id == org_id) d.orgs ≡ some o) × (o.slug ≡ slug)
unfolding get_with_org_slug
slug_of_caller d org_id id v w slug distinct owned h =
    let found = find-owned d.devices org_id id v distinct (get_in_org-found d org_id id v owned) in
    let h0 = rw found at h in
    elim (Option-cases (find (λ o. o.id == v.org_id) d.orgs)) [
      | inl missing ↦ err_ne_ok (rw missing at h0)
      | inr (o, there) ↦
          let same = ok_inj (rw there at h0) in
          (
            ap (λ (x : Device × Text). x.0) same,
            o,
            ap (λ k. find (λ o. o.id == k) d.orgs) (sym (get_in_org-owns d org_id id v owned).1)
                ∙ there,
            ap (λ (x : Device × Text). x.1) same,
          )
    ]

module _ (from_str : Scopes) {Value : Type 0} (to_vec : ApiRequest Value → Option Bytes)
    (from_slice : Bytes → Option (ApiReply Value)) (detail : Text → Text → Text) where
  -- What is left by an answer to the caller.
  abbrev Left : AppState → User → ℕ → Text → ℤ → Answer → Response Value × AppState → Type 0
  Left s user device_id topic unixepoch a x =
      Answers from_slice a x.0
      × (x.1
          ≡ recorded from_str to_vec from_slice detail s user device_id topic (label x.0)
              (counted x.0) unixepoch)

  answered :
      (s : AppState) (user : User) (device_id : ℕ) (topic : Text) (unixepoch : ℤ) (a : Answer)
      (x : Response Value × AppState)
      → on_answer from_str to_vec from_slice detail s user device_id topic unixepoch a ≡ ok x
      → Left s user device_id topic unixepoch a x
  unfolding on_answer
  answered s user device_id topic unixepoch not_sent x h = err_ne_ok h
  answered s user device_id topic unixepoch unreachable x h =
      subst (Left s user device_id topic unixepoch unreachable) (ok_inj h) (refl, refl)
  answered s user device_id topic unixepoch timed_out x h =
      subst (Left s user device_id topic unixepoch timed_out) (ok_inj h) (refl, refl)
  answered s user device_id topic unixepoch (failed e) x h = err_ne_ok h
  answered s user device_id topic unixepoch (sample bytes) x h =
      elim (Option-cases (from_slice bytes)) [
        | inl unread ↦ err_ne_ok (rw (unread, on_answer) at h)
        | inr (r, read) ↦
            subst (Left s user device_id topic unixepoch (sample bytes))
              (ok_inj (rw (read, on_answer) at h)) ((bytes, refl, read), refl)
      ]

  -- Where a device id names one device, a call that is answered was of a device that the caller
  -- may operate on, in the caller's organisation; the device was asked, with the payload and its
  -- content type or JSON's, under the slug of that organisation, with a time limit of at most a
  -- minute; the answer is what came of that: unreachable, too late, or what was read of the
  -- device's reply; the one change of the database is an audit row of the caller and the device,
  -- with the topic and what the answer was, and nothing where the caller is stored no longer; and
  -- the call is counted once, modulo 2^64, under its topic and whether the device replied.
  pub call-Admits :
      (get : Text → Bytes → ℕ → Answer) (s s' : AppState) (user : User) (device_id : ℕ)
      (topic : Text) (body : ApiCallBody Value) (unixepoch : ℤ) (response : Response Value)
      → Distinct (λ v. v.id) s.db.devices
      → call from_str to_vec from_slice detail get s user device_id topic body unixepoch
        ≡ ok (response, s')
      → Admits from_str s.db user device_id
        × (v : Device) × (o : Org) × (zid : Zid) × (bytes : Bytes) × (get_in_org s.db user.org_id
              device_id
            ≡ ok v)
        × (find (λ o. o.id == user.org_id) s.db.orgs ≡ some o)
        × (Zid.new v.zid ≡ ok zid)
        × (to_vec (record {
          content_type = unwrap_or (lit "application/json") body.content_type;
          payload = body.payload;
        })
            ≡ some bytes)
        × (timeout_of from_str to_vec from_slice detail body ≤ max_timeout_ms)
        × Answers from_slice
            (get
              (msg_api o.slug zid topic)
              bytes
              (timeout_of from_str to_vec from_slice detail body))
            response
        × Audits s.db unixepoch user.id device_id (detail topic (label response)) s'.db
        × (s'.notified ≡ s.notified)
        × (value_at pair_eq (topic, as_str (counted response)) s'.metrics.api_calls_total
            ≡ (value_at pair_eq (topic, as_str (counted response)) s.metrics.api_calls_total + 1)
              % 18446744073709551616)
  unfolding call inc_api_call bump
  call-Admits get s s' user device_id topic body unixepoch response distinct h =
      elim (Result-cases (check_device from_str user device_id)) [
        | inl (e, bad) ↦ err_ne_ok (rw bad at h)
        | inr (_, allowed) ↦
            let h0 =
              then_ok (require (not (is_empty topic)) (bad_request topic_empty)) _
                (rw allowed at h) in
            elim (Result-cases (get_in_org s.db user.org_id device_id)) [
              | inl (e, bad) ↦ err_ne_ok (rw bad at h0)
              | inr (v, owned) ↦
                  let h1 = rw owned at h0 in
                  elim (Result-cases (get_with_org_slug s.db device_id)) [
                    | inl (e, bad) ↦ err_ne_ok (rw bad at h1)
                    | inr ((w, slug), known) ↦
                        let h2 = rw known at h1 in
                        elim (Result-cases (of_zid (Zid.new w.zid))) [
                          | inl (e, bad) ↦ err_ne_ok (rw bad at h2)
                          | inr (zid, fine) ↦
                              let h3 = rw fine at h2 in
                              elim (Option-cases
                                (to_vec (request_of from_str to_vec from_slice detail body))) [
                                  | inl unwritten ↦ err_ne_ok (rw unwritten at h3)
                                  | inr (bytes, wrote) ↦
                                      let h4 = rw wrote at h3 in
                                      let (same, o, there, named) =
                                        slug_of_caller s.db user.org_id device_id v w slug distinct
                                          owned known in
                                      let stored =
                                        anyb_of_found (λ v. v.id == device_id) s.db.devices v
                                          (find-owned s.db.devices user.org_id device_id v distinct
                                            (get_in_org-found s.db user.org_id device_id v
                                              owned)) in
                                      let (answers, left) =
                                        answered s user device_id topic unixepoch
                                          (get (msg_api slug zid topic) bytes
                                            (timeout_of from_str to_vec from_slice detail body))
                                          (response, s') h4 in
                                      (
                                        (allowed, (v, owned)),
                                        v,
                                        o,
                                        zid,
                                        bytes,
                                        owned,
                                        there,
                                        of_zid_ok (Zid.new v.zid) (
                                            ap (λ (k : Device). of_zid (Zid.new k.zid)) same
                                            ∙ fine),
                                        wrote,
                                        ground arith,
                                        rw named answers,
                                        subst
                                            (λ (k : AppState).
                                              Audits s.db unixepoch user.id device_id
                                                (detail topic (label response)) k.db)
                                            (sym left)
                                            (audited-Audits s.db unixepoch user.id device_id
                                              (detail topic (label response)) stored),
                                        ap (λ (k : AppState). k.notified) left,
                                        ap
                                              (λ (k : AppState).
                                                value_at pair_eq (topic, as_str (counted response))
                                                  k.metrics.api_calls_total)
                                              left
                                            ∙ value_at-alter pair_eq
                                                (λ n. (n + 1) % 18446744073709551616)
                                                (topic, as_str (counted response))
                                                s.metrics.api_calls_total
                                                (pair_eq_refl (topic, as_str (counted response))),
                                      )
                                ]
                        ]
                  ]
            ]
      ]
