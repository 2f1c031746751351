-- ===== src/Proto/Keyexpr/RoundTrip.antt =====
-- The parsers of crates/hackline-proto/src/keyexpr.rs read back what the builders write.
use hackline.Prelude.{◌≡◌, ◌≢◌, refl, [], ◌∙◌, ap, List, ◌∷◌, ◌++◌, some, arith}
use hackline.Prelude.Text.{
  Text, lit, text_eq, Lacks, split, split-append, split-ne-nil, split_of_Lacks, join, join-split,
  replace, replace_back,
}
use hackline.Proto.Zid.{Zid}
use hackline.Proto.Zid.Laws.{IsCanonical, new_of_canonical, Lacks-of_canonical}
use hackline.Proto.Uuid.{Uuids, IsUuid}
use hackline.Proto.Keyexpr.{
  under, health, expect, msg_kind, nonempty, topic_to_keyexpr_suffix, parse_health_keyexpr,
  msg_event, msg_log, parse_msg_keyexpr, event, log, MsgKind, msg_cmd_ack,
  parse_msg_cmd_ack_keyexpr,
}

no_slash_in_zid : (zid : Zid) → IsCanonical zid.as_str → Lacks b'/' zid.as_str
no_slash_in_zid zid c = Lacks-of_canonical b'/' zid.as_str (λ h. ground arith) c.digits

pub split-under :
    (org : Text) (zid : Zid) (rest : Text)
    → Lacks b'/' org
    → IsCanonical zid.as_str
    → split b'/' (under org zid rest) ≡ lit "hackline" ∷ org ∷ zid.as_str ∷ split b'/' rest
unfolding split
split-under org zid rest h c =
    ap (λ (l : List Text). lit "hackline" ∷ l)
      (split-append b'/' org (zid.as_str ++ b'/' ∷ rest) h
        ∙ ap (λ (l : List Text). org ∷ l)
            (split-append b'/' zid.as_str rest (no_slash_in_zid zid c)))

-- A health key parses back to its organisation and its device, where the organisation holds no
-- slash and the device identifier is canonical.
pub parse_health_keyexpr-health :
    (org : Text) (zid : Zid)
    → Lacks b'/' org
    → IsCanonical zid.as_str
    → parse_health_keyexpr (health org zid) ≡ some (org, zid)
unfolding parse_health_keyexpr health
parse_health_keyexpr-health org zid h c =
    rw (split-under org zid (lit "health") h c)
      (unfold split expect text_eq in rw (new_of_canonical zid c))

-- A topic is read back from the words of its key.
pub topic_back :
    (topic : Text)
    → Lacks b'/' topic
    → join b'.' (split b'/' (topic_to_keyexpr_suffix topic)) ≡ topic
unfolding topic_to_keyexpr_suffix
topic_back topic h = join-split b'/' b'.' (replace b'.' b'/' topic) ∙ replace_back b'.' b'/' topic h

nonempty_of_ne : (ps : List Text) → ps ≢ [] → nonempty ps ≡ some tt
nonempty_of_ne [] h = absurd (h refl)
nonempty_of_ne (p ∷ ps) h = refl

split_event :
    (s : Text) → split b'/' (lit "msg/event/" ++ s) ≡ lit "msg" ∷ lit "event" ∷ split b'/' s
unfolding split
split_event s = refl

split_log : (s : Text) → split b'/' (lit "msg/log/" ++ s) ≡ lit "msg" ∷ lit "log" ∷ split b'/' s
unfolding split
split_log s = refl

module _ (org : Text) (zid : Zid) (h : Lacks b'/' org) (c : IsCanonical zid.as_str) where
  -- What is left once the prefix and the kind are read.
  parse_rest :
      (kind : MsgKind) (word topic : Text)
      → msg_kind word ≡ some kind
      → split b'/' (lit "msg/" ++ (word ++ b'/' ∷ topic_to_keyexpr_suffix topic))
        ≡ lit "msg" ∷ word ∷ split b'/' (topic_to_keyexpr_suffix topic)
      → Lacks b'/' topic
      → parse_msg_keyexpr
          (under org zid (lit "msg/" ++ (word ++ b'/' ∷ topic_to_keyexpr_suffix topic)))
        ≡ some (org, zid, kind, topic)
  unfolding parse_msg_keyexpr
  parse_rest kind word topic k s t = rw (
    split-under org zid _ h c,
    s,
    k,
    nonempty_of_ne _ (split-ne-nil b'/' (topic_to_keyexpr_suffix topic)),
    new_of_canonical zid c,
    topic_back topic t,
  )

  -- An event or log key parses back to its organisation, device, kind and dotted topic, where
  -- neither the organisation nor the topic holds a slash and the device identifier is canonical.
  pub parse_msg_keyexpr-msg :
      (topic : Text)
      → Lacks b'/' topic
      → (parse_msg_keyexpr (msg_event org zid topic) ≡ some (org, zid, event, topic))
        × (parse_msg_keyexpr (msg_log org zid topic) ≡ some (org, zid, log, topic))
  unfolding msg_event msg_log text_eq
  parse_msg_keyexpr-msg topic t = (
    parse_rest event (lit "event") topic refl (split_event _) t,
    parse_rest log (lit "log") topic refl (split_log _) t,
  )

split_ack :
    (s : Text)
    → Lacks b'/' s
    → split b'/' (lit "msg/cmd-ack/" ++ s) ≡ lit "msg" ∷ lit "cmd-ack" ∷ s ∷ []
unfolding split
split_ack s h = ap (λ (l : List Text). lit "msg" ∷ lit "cmd-ack" ∷ l) (split_of_Lacks b'/' s h)

module _ (u : Uuids) (laws : IsUuid u) where
  open u use {Uuid, to_string}

  -- An acknowledgement key parses back to its organisation, device and command, where the
  -- organisation holds no slash, the device identifier is canonical, and the `uuid` crate reads
  -- back what it prints, which holds no slash.
  pub parse_msg_cmd_ack_keyexpr-msg_cmd_ack :
      (org : Text) (zid : Zid) (cmd_id : Uuid)
      → Lacks b'/' org
      → IsCanonical zid.as_str
      → parse_msg_cmd_ack_keyexpr u (msg_cmd_ack u org zid cmd_id) ≡ some (org, zid, cmd_id)
  unfolding parse_msg_cmd_ack_keyexpr msg_cmd_ack
  parse_msg_cmd_ack_keyexpr-msg_cmd_ack org zid cmd_id h c =
      rw
        (
          split-under org zid (lit "msg/cmd-ack/" ++ to_string cmd_id) h c,
          split_ack (to_string cmd_id) (laws.no_slash cmd_id),
        )
        (unfold expect text_eq in rw (new_of_canonical zid c, laws.parse-to_string cmd_id))
