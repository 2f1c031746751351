-- ===== src/Proto/Keyexpr.antt =====
-- crates/hackline-proto/src/keyexpr.rs: the builders and parsers of key expressions. A parser walks
-- the iterator `ke.split('/')`, here the list of the parts that are left.
pub mod RoundTrip
use hackline.Prelude.{
  ℕ, suc, ◌+◌, ◌/◌, ◌*◌, ◌-◌, List, [], ◌∷◌, ◌++◌, Option, none, some, Bool, true, false, ltb,
  if◌then◌else◌,
}
use Prim.Native.Nat.{zero, ◌%◌}
use hackline.Prelude.Text.{Text, lit, text_eq, split, join, replace}
use hackline.Prelude.Chain.{◌>>=◌, ◌>>◌, to_option}
use hackline.Proto.Zid.{ProtoError, Zid, new}
use hackline.Proto.Uuid.{Uuids}

-- `{n}` of an unsigned integer: its decimal digits. A number has at most as many as itself plus one.
unfoldable pub digits : ℕ → ℕ → Text → Text
digits zero n out = out
digits (suc fuel) n out =
    let longer = (b'0' + n % 10) ∷ out in
    let rest = digits fuel (n / 10) longer in if ltb n 10 then longer else rest

unfoldable pub decimal : ℕ → Text
unfolding digits
decimal n = digits (suc n) n []

-- `hackline/{org}/{zid}/…`.
abbrev under : Text → Zid → Text → Text
under org zid rest = lit "hackline/" ++ (org ++ b'/' ∷ (zid.as_str ++ b'/' ∷ rest))

unfoldable pub connect : Text → Zid → ℕ → Text
connect org zid port = under org zid (lit "tcp/" ++ (decimal port ++ lit "/connect"))

unfoldable pub info : Text → Zid → Text
info org zid = under org zid (lit "info")

unfoldable pub health : Text → Zid → Text
health org zid = under org zid (lit "health")

-- `.` separates the words of a topic, `/` those of a key.
pub topic_to_keyexpr_suffix : Text → Text
topic_to_keyexpr_suffix = replace b'.' b'/'

pub msg_event : Text → Zid → Text → Text
unfolding topic_to_keyexpr_suffix
msg_event org zid topic = under org zid (lit "msg/event/" ++ topic_to_keyexpr_suffix topic)

pub msg_log : Text → Zid → Text → Text
unfolding topic_to_keyexpr_suffix
msg_log org zid topic = under org zid (lit "msg/log/" ++ topic_to_keyexpr_suffix topic)

unfoldable pub msg_cmd : Text → Zid → Text → Text
unfolding topic_to_keyexpr_suffix
msg_cmd org zid topic = under org zid (lit "msg/cmd/" ++ topic_to_keyexpr_suffix topic)

unfoldable pub msg_cmd_sub : Text → Zid → Text → Text
unfolding msg_cmd
msg_cmd_sub org zid topic = msg_cmd org zid topic

unfoldable pub msg_api : Text → Zid → Text → Text
unfolding topic_to_keyexpr_suffix
msg_api org zid topic = under org zid (lit "msg/api/" ++ topic_to_keyexpr_suffix topic)

-- `parts.next()`, with the iterator that is left.
abbrev next : List Text → Option (Text × List Text)
next [] = none
next (p ∷ parts) = some (p, parts)

-- `if parts.next()? != word { return None; }`.
expect : Text → List Text → Option (List Text)
unfolding text_eq
expect word [] = none
expect word (p ∷ parts) = if text_eq p word then some parts else none

-- `if parts.next().is_some() { return None; }`.
abbrev finished : List Text → Option (Unit {0})
finished [] = some tt
finished (_ ∷ _) = none

unfoldable pub parse_health_keyexpr : Text → Option (Text × Zid)
unfolding expect
parse_health_keyexpr ke = do
  parts ← expect (lit "hackline") (split b'/' ke)
  (org, parts) ← next parts
  (zid_raw, parts) ← next parts
  parts ← expect (lit "health") parts
  finished parts
  zid ← to_option (new zid_raw)
  some (org, zid)

pub data MsgKind : Type 0 where
  event log : MsgKind

abbrev msg_kind : Text → Option MsgKind
msg_kind word =
    if text_eq word (lit "event")
    then some event
    else if text_eq word (lit "log")
    then some log
    else none

abbrev nonempty : List Text → Option (Unit {0})
nonempty [] = none
nonempty (_ ∷ _) = some tt

unfoldable pub parse_msg_keyexpr : Text → Option (Text × Zid × MsgKind × Text)
unfolding expect
parse_msg_keyexpr ke = do
  parts ← expect (lit "hackline") (split b'/' ke)
  (org, parts) ← next parts
  (zid_raw, parts) ← next parts
  parts ← expect (lit "msg") parts
  (word, rest) ← next parts
  kind ← msg_kind word
  nonempty rest
  zid ← to_option (new zid_raw)
  some (org, zid, kind, join b'.' rest)

module _ (u : Uuids) where
  open u use {Uuid, to_string, parse_str}

  unfoldable pub stream_gw : Text → Zid → Uuid → Text
  stream_gw org zid request_id =
      under org zid (lit "stream/" ++ (to_string request_id ++ lit "/gw"))

  unfoldable pub stream_dev : Text → Zid → Uuid → Text
  stream_dev org zid request_id =
      under org zid (lit "stream/" ++ (to_string request_id ++ lit "/dev"))

  pub msg_cmd_ack : Text → Zid → Uuid → Text
  msg_cmd_ack org zid cmd_id = under org zid (lit "msg/cmd-ack/" ++ to_string cmd_id)

  pub parse_msg_cmd_ack_keyexpr : Text → Option (Text × Zid × Uuid)
  unfolding expect
  parse_msg_cmd_ack_keyexpr ke = do
    parts ← expect (lit "hackline") (split b'/' ke)
    (org, parts) ← next parts
    (zid_raw, parts) ← next parts
    parts ← expect (lit "msg") parts
    parts ← expect (lit "cmd-ack") parts
    (cmd_id_raw, parts) ← next parts
    finished parts
    zid ← to_option (new zid_raw)
    cmd_id ← parse_str cmd_id_raw
    some (org, zid, cmd_id)
