-- ===== src/Proto/Msg.antt =====
-- crates/hackline-proto/src/msg.rs: the envelopes of the message plane. `Uuid` and `Value` are the
-- types of the `uuid` and `serde_json` crates. `new_v4` and `now_ms` are arguments.
use hackline.Proto.Level.{LogLevel, info, as_str, parse, parse-as_str}
use hackline.Prelude.{
  ◌≡◌, ◌≢◌, refl, arith, inl, inr, Option-cases, List, [], ◌∷◌, Option, none, some, if◌then◌else◌,
}
use hackline.Prelude.Int.{ℤ}
use hackline.Prelude.Text.{Text, lit, text_eq, text_eq_iff, text_eq_refl, text_eq_of_ne}

abbrev pub content_type_json : Text
content_type_json = lit "application/json"

-- `BTreeMap<String, String>`: one entry for each key.
abbrev pub Headers : Type 0
Headers = List (Text × Text)

unfoldable pub get : Text → Headers → Option Text
get k [] = none
get k ((j, v) ∷ m) = if text_eq j k then some v else get k m

pub insert : Text → Text → Headers → Headers
insert k v [] = (k, v) ∷ []
insert k v ((j, w) ∷ m) = if text_eq j k then (k, v) ∷ m else (j, w) ∷ insert k v m

pub record MsgEnvelope (Uuid Value : Type 0) : Type 0 where
  pub id : Uuid
  pub ts : ℤ
  pub content_type : Text
  pub headers : Headers
  pub payload : Value

abbrev pub header_log_level : Text
header_log_level = lit "level"

-- `MsgEnvelope::new_event`, with the fresh identifier and the clock.
unfoldable pub new_event : {Uuid Value : Type 0} → Uuid → ℤ → Value → MsgEnvelope Uuid Value
new_event id ts payload = record {
  id = id;
  ts = ts;
  content_type = content_type_json;
  headers = [];
  payload = payload;
}

-- `MsgEnvelope::new_log`.
unfoldable pub new_log :
    {Uuid Value : Type 0} → Uuid → ℤ → LogLevel → Value → MsgEnvelope Uuid Value
unfolding new_event
new_log id ts level payload =
    let e = new_event id ts payload in
    record e { headers = insert header_log_level (as_str level) e.headers }

or_default : Option LogLevel → LogLevel
or_default none = info
or_default (some l) = l

and_then_parse : Option Text → Option LogLevel
and_then_parse none = none
and_then_parse (some s) = parse s

-- `MsgEnvelope::log_level`: `info` where the header is missing or not a level.
unfoldable pub log_level : {Uuid Value : Type 0} → MsgEnvelope Uuid Value → LogLevel
unfolding or_default and_then_parse
log_level e = or_default (and_then_parse (get header_log_level e.headers))

pub get-insert :
    (k j v : Text) (m : Headers) → get j (insert k v m) ≡ (if text_eq k j then some v else get j m)
unfolding get insert
get-insert k j v [] = refl
get-insert k j v ((i, w) ∷ m) =
    ground (arith, text_eq_iff k j, text_eq_iff i k, text_eq_iff i j, get-insert k j v m)

-- A log envelope keeps its level, whatever header is set under another key.
pub log_level-new_log :
    {Uuid Value : Type 0} (id : Uuid) (ts : ℤ) (level : LogLevel) (payload : Value) (k v : Text)
    → k ≢ header_log_level
    → let e = new_log id ts level payload in
      log_level (record e { headers = insert k v e.headers }) ≡ level
unfolding log_level new_log
log_level-new_log id ts level payload k v h =
    rw
      (
        get-insert k header_log_level v (insert header_log_level (as_str level) []),
        text_eq_of_ne k header_log_level h,
        get-insert header_log_level header_log_level (as_str level) [],
        text_eq_refl header_log_level,
      )
      (rw parse-as_str)

-- Without a readable level in the headers an envelope counts as `info`.
pub log_level_default :
    {Uuid Value : Type 0} (e : MsgEnvelope Uuid Value)
    → ((s : Text) → get header_log_level e.headers ≡ some s → parse s ≡ none)
    → log_level e ≡ info
unfolding log_level
log_level_default e h = elim (Option-cases (get header_log_level e.headers)) [
  | inl missing ↦ rw missing
  | inr (s, found) ↦ rw (found, h s found)
]
