-- ===== src/Proto/AckResult.antt =====
-- `CmdResult` of crates/hackline-proto/src/msg.rs.
use hackline.Prelude.{Option, none, some, ◌≡◌, refl, if◌then◌else◌}
use hackline.Prelude.Text.{Text, lit, text_eq}

pub data CmdResult : Type 0 where
  accepted rejected failed done : CmdResult

unfoldable pub as_str : CmdResult → Text
as_str accepted = lit "accepted"
as_str rejected = lit "rejected"
as_str failed = lit "failed"
as_str done = lit "done"

unfoldable pub parse : Text → Option CmdResult
parse s =
    if text_eq s (lit "accepted")
    then some accepted
    else if text_eq s (lit "rejected")
    then some rejected
    else if text_eq s (lit "failed")
    then some failed
    else if text_eq s (lit "done")
    then some done
    else none

-- Every result is read back from its wire form.
parse-as_str : (r : CmdResult) → parse (as_str r) ≡ some r
unfolding parse as_str text_eq
parse-as_str accepted = refl
parse-as_str _ = refl
