-- ===== src/Gateway/Stream.antt =====
-- crates/hackline-gateway/src/api/events/stream.rs and api/logs/stream.rs: the live feeds. What a
-- subscriber receives from the bus is a list, in which a lag is `none`; `json` is what `serde_json`
-- writes for a row.
pub mod Glob
pub mod Foreign
use hackline.Prelude.{
  ℕ, Bool, true, false, ◌&&◌, List, [], ◌∷◌, Option, none, some, ◌==◌, if◌then◌else◌,
}
use hackline.Prelude.Text.{Text, text_eq}
use hackline.Gateway.Fanin.{Live, MsgEvent, event_msg, log_msg}

abbrev empty : Text → Bool
empty [] = true
empty (_ ∷ _) = false

-- `inner` of `glob_match`, on the bytes of the pattern and of the value.
unfoldable pub glob_match : Text → Text → Bool
glob_match [] v = empty v
glob_match (c ∷ p) [] = let rest = glob_match p [] in if c == b'*' then rest else false
glob_match (c ∷ p) (x ∷ v) =
    let skip = elim (glob_match p (x ∷ v)) as (λ _. Bool) [
      | true ↦ true
      | false ↦ glob_match (c ∷ p) v
    ] in
    let step = glob_match p v in
    if c == b'*' then skip else if c == b'?' then step else x == c && step

-- `StreamQuery` of both feeds; the events have no level.
pub record StreamQuery : Type 0 where
  pub device : Option ℕ
  pub topic : Option Text
  pub level : Option Text

-- The tests of the closures, on a row.
unfoldable pub admits : {Value : Type 0} → StreamQuery → Live Value → Bool
admits q row =
    (elim q.device as (λ _. Bool) [ none ↦ true | some d ↦ row.device_id == d ])
    && (elim q.topic as (λ _. Bool) [ none ↦ true | some glob ↦ glob_match glob row.topic ])

unfoldable pub has_level : StreamQuery → Text → Bool
has_level q level = elim q.level as (λ _. Bool) [ none ↦ true | some l ↦ text_eq level l ]

module _ {Value Frame : Type 0} where
  -- The closure of `filter_map` in the feed of events.
  unfoldable pub event_frame :
      (Live Value → Option Frame) → ℕ → StreamQuery → Option (MsgEvent Value) → Option Frame
  unfolding admits
  event_frame json caller_org q (some (event_msg org_id row)) =
      if org_id == caller_org && admits q row then json row else none
  event_frame json caller_org q (some (log_msg _ _ _)) = none
  event_frame json caller_org q none = none

  -- The closure of `filter_map` in the feed of logs.
  unfoldable pub log_frame :
      (Text → Live Value → Option Frame) → ℕ → StreamQuery → Option (MsgEvent Value) → Option Frame
  unfolding admits has_level
  log_frame json caller_org q (some (log_msg org_id level row)) =
      if org_id == caller_org && (admits q row && has_level q level) then json level row else none
  log_frame json caller_org q (some (event_msg _ _)) = none
  log_frame json caller_org q none = none
