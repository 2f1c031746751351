-- ===== src/Gateway/Fanin/Routing.antt =====
-- Who may publish what through crates/hackline-gateway/src/msg_fanin.rs.
use hackline.Prelude.{
  ℕ, ◌≡◌, ◌≢◌, refl, ap, sym, ◌∙◌, true, [], ◌∷◌, ◌++◌, Option, some, ◌==◌, ==_iff, Bool-cases,
  Option-cases, ◌⊎◌, inl, inr,
}
use hackline.Prelude.Text.{Text, text_eq, text_eq_iff, Lacks}
use hackline.Prelude.Outcome.{ok, err, ok_inj, err_ne_ok, Result-cases}
use hackline.Proto.Zid.{Zid}
use hackline.Proto.Zid.Laws.{IsCanonical}
use hackline.Proto.Keyexpr.{MsgKind, event, log, parse_msg_keyexpr, msg_event, msg_log}
use hackline.Proto.Keyexpr.RoundTrip.{parse_msg_keyexpr-msg}
use hackline.Proto.Level.{as_str}
use hackline.Proto.Msg.{MsgEnvelope, log_level}
use hackline.Gateway.Error.{bad_request, foreign_publication}
use hackline.Gateway.Sql.{fresh}
use hackline.Gateway.Sql.Laws.{Falling}
use hackline.Gateway.Schema.{Bytes, Org, Db}
use hackline.Gateway.Devices.{get_by_zid}
use hackline.Gateway.Ring.{rows_of}
use hackline.Gateway.Orgs
use hackline.Gateway.Events
use hackline.Gateway.Logs
use hackline.Gateway.Events.Bounded.{event_id, event_device, insert_newest}
use hackline.Gateway.Logs.Bounded.{log_id, log_device, insert_newest_log}
use hackline.Gateway.Fanin.Stored.{Answers, get_by_zid-stored, persist-Answers}
use hackline.Gateway.Fanin.{
  MsgEvent, event_msg, log_msg, Gateway, same_kind, persist, handle_sample,
}

abbrev pub key_of : MsgKind → Text → Zid → Text → Text
key_of event = msg_event
key_of log = msg_log

parse_key :
    (kind : MsgKind) (org : Text) (zid : Zid) (topic : Text)
    → Lacks b'/' org
    → IsCanonical zid.as_str
    → Lacks b'/' topic
    → parse_msg_keyexpr (key_of kind org zid topic) ≡ some (org, zid, kind, topic)
parse_key event org zid topic h c t = (parse_msg_keyexpr-msg org zid h c topic t).0
parse_key log org zid topic h c t = (parse_msg_keyexpr-msg org zid h c topic t).1

same_kind_refl : (kind : MsgKind) → same_kind kind kind ≡ true
same_kind_refl event = refl
same_kind_refl log = refl

of_same_kind : (a b : MsgKind) → same_kind a b ≡ true → a ≡ b
of_same_kind event event h = refl
of_same_kind log log h = refl
of_same_kind event log h = cc
of_same_kind log event h = cc

-- Rowids fall along the event table and along the log table.
abbrev pub IsOrdered : Db → Type 0
IsOrdered d =
    Falling event_id (fresh event_id d.events) d.events
    × Falling log_id (fresh log_id d.logs) d.logs

abbrev pub Untouched : ℕ → Db → Db → Type 0
Untouched device_id d d' =
    (rows_of event_device device_id d'.events ≡ rows_of event_device device_id d.events)
    × (rows_of log_device device_id d'.logs ≡ rows_of log_device device_id d.logs)

abbrev pub org_of : {Value : Type 0} → MsgEvent Value → ℕ
org_of (event_msg org_id _) = org_id
org_of (log_msg org_id _ _) = org_id

abbrev pub device_of : {Value : Type 0} → MsgEvent Value → ℕ
device_of (event_msg _ row) = row.device_id
device_of (log_msg _ _ row) = row.device_id

module _ {Uuid Value : Type 0} (from_slice : Bytes → Option (MsgEnvelope Uuid Value))
    (to_vec : Value → Option Bytes) where
  -- Take a sample with a readable envelope under an event or log key that is built for a device
  -- that is registered, where the organisation and the topic hold no slash and the device
  -- identifier is canonical, and where rowids fall along the event and the log table. If the
  -- organisation in the key owns the device and the payload takes 65536 bytes at most, the sample
  -- is accepted: the device then has its row and its newest others in that ring, 10000 in all at
  -- most, the other devices and the other ring have what they had, one sample more is counted
  -- under its label, modulo 2^64, and the row is put on the bus for that organisation. A longer
  -- payload, or one that is not serialisable, is refused, and so is a sample under the key of
  -- another organisation.
  pub handle_sample-key :
      (g : Gateway Value) (kind : MsgKind) (org topic : Text) (zid : Zid) (payload : Bytes)
      (env : MsgEnvelope Uuid Value) (device_id org_id : ℕ) (owner : Org)
      → IsOrdered g.db
      → Lacks b'/' org
      → IsCanonical zid.as_str
      → Lacks b'/' topic
      → from_slice payload ≡ some env
      → get_by_zid g.db zid.as_str ≡ some (device_id, org_id)
      → Orgs.get g.db org_id ≡ ok owner
      → let answer = handle_sample from_slice to_vec g kind (key_of kind org zid topic) payload in
        ((owner.slug ≡ org) × Answers to_vec kind g org_id device_id topic env answer)
        ⊎ ((owner.slug ≢ org)
            × (answer ≡ err (bad_request (foreign_publication zid.as_str org owner.slug))))
  unfolding handle_sample
  handle_sample-key g kind org topic zid payload env device_id org_id owner (fe, fl) h c t read
        known owned =
      elim (Bool-cases (text_eq owner.slug org)) [
        | inl own ↦ inl (
          (text_eq_iff owner.slug org).0 own,
          rw (parse_key kind org zid topic h c t, same_kind_refl kind, read, known, owned, own)
              (persist-Answers to_vec from_slice g org_id device_id topic env kind fe fl
                (get_by_zid-stored g.db zid.as_str device_id org_id known)),
        )
        | inr foreign ↦ inr (
          λ e. let same = (text_eq_iff owner.slug org).1 e in cc,
          rw (parse_key kind org zid topic h c t, same_kind_refl kind, read, known, owned, foreign)
              refl,
        )
      ]

  persist-Untouched :
      (g g' : Gateway Value) (kind : MsgKind) (org_id device_id : ℕ) (topic : Text)
      (env : MsgEnvelope Uuid Value) (e : ℕ)
      → IsOrdered g.db
      → persist from_slice to_vec g kind org_id device_id topic env ≡ ok g'
      → (msg : MsgEvent Value) × (g'.bus ≡ g.bus ++ msg ∷ [])
        × (org_of msg ≡ org_id)
        × (device_of msg ≡ device_id)
        × ((e ≡ device_id) ⊎ Untouched e g.db g'.db)
  unfolding persist
  persist-Untouched g g' event org_id device_id topic env e (falls, _) h =
      elim (Result-cases
        (Events.insert g.db device_id topic env.ts env.content_type (to_vec env.payload))) [
          | inl (x, p) ↦ err_ne_ok (rw p at h)
          | inr ((id, d), p) ↦
              let (_, _, _, _, (newest, _), others) =
                insert_newest g.db device_id topic env.ts env.content_type (to_vec env.payload) id d
                  falls p in
              let done = ok_inj (rw p at h) in
              (
                _,
                ap (λ (x : Gateway Value). x.bus) (sym done),
                refl,
                refl,
                elim (Bool-cases (e == device_id)) [
                  | inl same ↦ inl ((==_iff e device_id).0 same)
                  | inr other ↦ inr (
                    ap (λ (x : Gateway Value). rows_of event_device e x.db.events) (sym done)
                        ∙ (rw other at (newest e)),
                    ap (λ (x : Gateway Value). rows_of log_device e x.db.logs) (sym done)
                        ∙ ap (rows_of log_device e) others,
                  )
                ],
              )
        ]
  persist-Untouched g g' log org_id device_id topic env e (_, falls) h =
      elim (Result-cases (
        Logs.insert g.db device_id topic env.ts (as_str (log_level env)) env.content_type
          (to_vec env.payload))) [
            | inl (x, p) ↦ err_ne_ok (rw p at h)
            | inr ((id, d), p) ↦
                let (_, _, _, _, _, (newest, _), others) =
                  insert_newest_log g.db device_id topic env.ts (as_str (log_level env))
                    env.content_type (to_vec env.payload) id d falls p in
                let done = ok_inj (rw p at h) in
                (
                  _,
                  ap (λ (x : Gateway Value). x.bus) (sym done),
                  refl,
                  refl,
                  elim (Bool-cases (e == device_id)) [
                    | inl same ↦ inl ((==_iff e device_id).0 same)
                    | inr other ↦ inr (
                      ap (λ (x : Gateway Value). rows_of event_device e x.db.events) (sym done)
                          ∙ ap (rows_of event_device e) others,
                      ap (λ (x : Gateway Value). rows_of log_device e x.db.logs) (sym done)
                          ∙ (rw other at (newest e)),
                    )
                  ],
                )
          ]

  -- Where rowids fall along the event and the log table, a sample that is accepted came under a
  -- key of the organisation that owns its device. It puts one message on the bus, for that
  -- organisation and about that device, and leaves the events and the logs of every other device,
  -- of the same organisation or another, as they were.
  pub handle_sample-isolates :
      (g g' : Gateway Value) (kind : MsgKind) (ke : Text) (payload : Bytes) (e : ℕ)
      → IsOrdered g.db
      → handle_sample from_slice to_vec g kind ke payload ≡ ok g'
      → (zid : Zid) × (topic : Text) × (device_id : ℕ) × (org_id : ℕ) × (owner : Org)
        × (msg : MsgEvent Value) × (parse_msg_keyexpr ke ≡ some (owner.slug, zid, kind, topic))
        × (get_by_zid g.db zid.as_str ≡ some (device_id, org_id))
        × (Orgs.get g.db org_id ≡ ok owner)
        × (g'.bus ≡ g.bus ++ msg ∷ [])
        × (org_of msg ≡ org_id)
        × (device_of msg ≡ device_id)
        × ((e ≡ device_id) ⊎ Untouched e g.db g'.db)
  unfolding handle_sample
  handle_sample-isolates g g' kind ke payload e o h = elim (Option-cases (parse_msg_keyexpr ke)) [
    | inl p0 ↦ err_ne_ok (rw p0 at h)
    | inr ((org, zid, k, topic), p0) ↦
        let h0 = rw p0 at h in
        elim (Bool-cases (same_kind k kind)) [
          | inr p1 ↦ err_ne_ok (rw p1 at h0)
          | inl p1 ↦
              let h1 = rw p1 at h0 in
              elim (Option-cases (from_slice payload)) [
                | inl p2 ↦ err_ne_ok (rw p2 at h1)
                | inr (env, p2) ↦
                    let h2 = rw p2 at h1 in
                    elim (Option-cases (get_by_zid g.db zid.as_str)) [
                      | inl p3 ↦ err_ne_ok (rw p3 at h2)
                      | inr ((device_id, org_id), p3) ↦
                          let h3 = rw p3 at h2 in
                          elim (Result-cases (Orgs.get g.db org_id)) [
                            | inl (x, p4) ↦ err_ne_ok (rw p4 at h3)
                            | inr (owner, p4) ↦
                                let h4 = rw p4 at h3 in
                                elim (Bool-cases (text_eq owner.slug org)) [
                                  | inr p5 ↦ err_ne_ok (rw p5 at h4)
                                  | inl p5 ↦
                                      let (msg, q0, q1, q2, q3) =
                                        persist-Untouched g g' k org_id device_id topic env e o
                                          (rw p5 at h4) in
                                      (
                                        zid,
                                        topic,
                                        device_id,
                                        org_id,
                                        owner,
                                        msg,
                                        rw
                                            (
                                              sym (of_same_kind k kind p1),
                                              (text_eq_iff owner.slug org).0 p5,
                                            )
                                            p0,
                                        p3,
                                        p4,
                                        q0,
                                        q1,
                                        q2,
                                        q3,
                                      )
                                ]
                          ]
                    ]
              ]
        ]
  ]
