-- ===== src/Client/Published.antt =====
-- What a device publishes through crates/hackline-client/src/lib.rs, and what the gateway of
-- crates/hackline-gateway/src/msg_fanin.rs makes of it.
use hackline.Prelude.{
  ne_of_test, ℕ, ◌≡◌, ◌≢◌, refl, ap, sym, ◌∙◌, ◌↔◌, Bool, true, false, ◌||◌, List, [], ◌∷◌, Option,
  some, All, ◌==◌, ==_iff, arith, Bool-cases, Option-cases, ◌⊎◌, inl, inr,
}
use hackline.Prelude.Int.{ℤ}
use hackline.Prelude.Text.{Text, split, on_first, Lacks}
use hackline.Prelude.Outcome.{Result, ok, err, ok_inj, err_ne_ok, Result-cases}
use hackline.Proto.Zid.Laws.{IsCanonical}
use hackline.Proto.Keyexpr.{MsgKind, event, log, msg_event, msg_log}
use hackline.Proto.Level.{LogLevel}
use hackline.Proto.Msg.{MsgEnvelope, new_event, new_log}
use hackline.Gateway.Error.{bad_request, foreign_publication}
use hackline.Gateway.Schema.{Bytes, Org}
use hackline.Gateway.Devices.{get_by_zid}
use hackline.Gateway.Orgs
use hackline.Gateway.Fanin.{Gateway, handle_sample}
use hackline.Gateway.Fanin.Stored.{Answers}
use hackline.Gateway.Fanin.Routing.{key_of, IsOrdered, handle_sample-key}
use hackline.Client.{
  ClientError, empty, contains, check_segments, validate_topic, ClientSession, publish,
  publish_event, publish_log,
}

-- A word of a topic that may be published.
abbrev pub IsWord : Text → Type 0
IsWord seg = (empty seg ≡ false) × (contains b'/' seg ≡ false) × (contains b'*' seg ≡ false)

neither : (a b : Bool) → (a || b) ≡ false → (a ≡ false) × (b ≡ false)
neither true b h = absurd cc
neither false b h = (refl, h)

abbrev reserved : Text → Bool
reserved seg = contains b'/' seg || contains b'*' seg

check_segments_iff : (segs : List Text) → (check_segments reserved segs ≡ ok tt) ↔ All IsWord segs
unfolding check_segments
check_segments_iff [] = (λ h. tt, λ h. refl)
check_segments_iff (seg ∷ segs) = elim (Bool-cases (empty seg)) [
  | inl hole ↦ (λ h. err_ne_ok (rw hole at h), λ h. absurd cc)
  | inr filled ↦ elim (Bool-cases (reserved seg)) [
    | inl bad ↦ (λ h. err_ne_ok (rw (filled, bad) at h), λ h. absurd (ground arith))
    | inr fine ↦
        let (slash, star) = neither (contains b'/' seg) (contains b'*' seg) fine in
        (
          λ h. ((filled, slash, star), (check_segments_iff segs).0 (rw (filled, fine) at h)),
          λ h. rw (filled, fine) ((check_segments_iff segs).1 h.1),
        )
  ]
]

-- A topic is accepted for publication just if it is not empty and none of the words between its
-- dots is empty or holds a slash or a star.
pub validate_topic_iff :
    (topic : Text) → (validate_topic topic ≡ ok tt) ↔ ((topic ≢ []) × All IsWord (split b'.' topic))
unfolding validate_topic
validate_topic_iff [] = (λ h. err_ne_ok h, λ h. absurd (h.0 refl))
validate_topic_iff (x ∷ s) = (
  λ h. (λ e. cc, (check_segments_iff (split b'.' (x ∷ s))).0 h),
  λ h. (check_segments_iff (split b'.' (x ∷ s))).1 h.1,
)

-- A character is in no word and is not the separator.
abbrev Free : ℕ → Text → Type 0
Free d seg = contains d seg ≡ false

on_first-Free :
    (d x : ℕ) (ps : List Text) → All (Free d) (on_first x ps) → (x == d) ≡ false × All (Free d) ps
on_first-Free d x [] h = ((neither (x == d) false h.0).0, tt)
on_first-Free d x (p ∷ ps) (h, hs) =
    let (here, rest) = neither (x == d) (contains d p) h in (here, (rest, hs))

-- What no word of a text holds, the text does not hold.
Lacks_of_words : (c d : ℕ) (s : Text) → c ≢ d → All (Free d) (split c s) → Lacks d s
unfolding split
Lacks_of_words c d [] ne h = tt
Lacks_of_words c d (x ∷ s) ne h = elim (Bool-cases (x == c)) [
  | inl dot ↦
      let h0 = rw dot at h in (λ e. ne (sym ((==_iff x c).0 dot) ∙ e), Lacks_of_words c d s ne h0.1)
  | inr other ↦
      let (apart, rest) = on_first-Free d x (split c s) (rw other at h) in
      (λ e. ne_of_test x d apart e, Lacks_of_words c d s ne rest)
]

All-imp : {A : Type 0} (P Q : A → Type 0) → ((a : A) → P a → Q a) → (l : List A) → All P l → All Q l
All-imp P Q f [] h = tt
All-imp P Q f (x ∷ l) (h, hs) = (f x h, All-imp P Q f l hs)

pub validate_topic-Lacks : (topic : Text) → validate_topic topic ≡ ok tt → Lacks b'/' topic
validate_topic-Lacks topic h =
    Lacks_of_words b'.' b'/' topic (λ e. absurd (omega arith))
      (All-imp IsWord (Free b'/') (λ seg w. w.1) (split b'.' topic)
        ((validate_topic_iff topic).0 h).1)

-- The envelope of an event, or of a log.
abbrev pub envelope_of :
    {Uuid Value : Type 0} → MsgKind → Uuid → ℤ → LogLevel → Value → MsgEnvelope Uuid Value
envelope_of event id now level payload = new_event id now payload
envelope_of log id now level payload = new_log id now level payload

module _ {Uuid Value : Type 0} (to_vec : MsgEnvelope Uuid Value → Option Bytes)
    (put : Text → Bytes → Bool) where
  publish_ok :
      (ke : Text) (env : MsgEnvelope Uuid Value) (ke' : Text) (bytes : Bytes)
      → publish to_vec put ke env ≡ ok (ke', bytes)
      → (ke ≡ ke') × (to_vec env ≡ some bytes)
  unfolding publish
  publish_ok ke env ke' bytes h = elim (Option-cases (to_vec env)) [
    | inl none_yet ↦ err_ne_ok (rw none_yet at h)
    | inr (written, wrote) ↦ elim (Bool-cases (put ke written)) [
      | inr refused ↦ err_ne_ok (rw (wrote, refused) at h)
      | inl taken ↦
          let same = ok_inj (rw (wrote, taken) at h) in
          (ap (λ (y : Text × Bytes). y.0) same, wrote ∙ ap (λ (y : Text × Bytes). some y.1) same)
    ]
  ]

  -- Publishing an event, or a log.
  abbrev pub publish_as :
      MsgKind
      → ClientSession
      → Uuid
      → ℤ
      → LogLevel
      → Text
      → Value
      → Result ClientError (Text × Bytes)
  publish_as event s id now level topic payload = publish_event to_vec put s id now topic payload
  publish_as log s id now level topic payload = publish_log to_vec put s id now level topic payload

  published :
      (kind : MsgKind) (s : ClientSession) (id : Uuid) (now : ℤ) (level : LogLevel) (topic : Text)
      (payload : Value) (ke : Text) (bytes : Bytes)
      → publish_as kind s id now level topic payload ≡ ok (ke, bytes)
      → Lacks b'/' topic
        × (key_of kind s.org s.zid topic ≡ ke)
        × (to_vec (envelope_of kind id now level payload) ≡ some bytes)
  unfolding publish_event publish_log
  published event s id now level topic payload ke bytes h =
      elim (Result-cases (validate_topic topic)) [
        | inl (e, bad) ↦ err_ne_ok (rw bad at h)
        | inr (_, good) ↦
            let (key, wrote) =
              publish_ok (msg_event s.org s.zid topic) (new_event id now payload) ke bytes
                (rw good at h) in
            (validate_topic-Lacks topic good, key, wrote)
      ]
  published log s id now level topic payload ke bytes h =
      elim (Result-cases (validate_topic topic)) [
        | inl (e, bad) ↦ err_ne_ok (rw bad at h)
        | inr (_, good) ↦
            let (key, wrote) =
              publish_ok (msg_log s.org s.zid topic) (new_log id now level payload) ke bytes
                (rw good at h) in
            (validate_topic-Lacks topic good, key, wrote)
      ]

  module _ (from_slice : Bytes → Option (MsgEnvelope Uuid Value))
      (reads : (env : MsgEnvelope Uuid Value) (bytes : Bytes)
        → to_vec env ≡ some bytes
        → from_slice bytes ≡ some env)
      (store : Value → Option Bytes) (g : Gateway Value) (s : ClientSession) (device_id org_id : ℕ)
      (owner : Org) where
    -- Let `serde_json` read back an envelope that it wrote, let rowids fall along the event and the log
    -- table, and let the gateway know the device of a session, whose organisation holds no slash and
    -- whose identifier is canonical. Take an event or a log that the session publishes, and the
    -- gateway's handling of it. If the organisation of the session owns the device and the payload
    -- takes 65536 bytes at most, it is accepted: the device then has a row with the very topic, clock
    -- and payload that were published, and its newest others in that ring, the other devices and the
    -- other ring have what they had, one sample more is counted under its label, modulo 2^64, and the
    -- row is put on the bus for that organisation. A longer payload, or one that is not serialisable,
    -- is refused, although it was published, and so is a sample of a session of another organisation.
    pub publish-handle_sample :
        IsOrdered g.db
        → Lacks b'/' s.org
        → IsCanonical s.zid.as_str
        → get_by_zid g.db s.zid.as_str ≡ some (device_id, org_id)
        → Orgs.get g.db org_id ≡ ok owner
        → (kind : MsgKind) (id : Uuid) (now : ℤ) (level : LogLevel) (topic : Text) (payload : Value)
          (ke : Text) (bytes : Bytes)
        → publish_as kind s id now level topic payload ≡ ok (ke, bytes)
        → let answer = handle_sample from_slice store g kind ke bytes in
          ((owner.slug ≡ s.org)
            × Answers store kind g org_id device_id topic
                (envelope_of kind id now level payload)
                answer)
          ⊎ ((owner.slug ≢ s.org)
              × (answer ≡ err (bad_request (foreign_publication s.zid.as_str s.org owner.slug))))
    publish-handle_sample ordered plain canonical known owned kind id now level topic payload ke
          bytes h =
        let (topic_plain, key, wrote) = published kind s id now level topic payload ke bytes h in
        let env = envelope_of kind id now level payload in
        rw key at (
          handle_sample-key from_slice store g kind s.org topic s.zid bytes env device_id org_id
            owner ordered plain canonical topic_plain (reads env bytes wrote) known owned)
