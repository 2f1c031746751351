-- ===== src/Proto/Level.antt =====
-- `LogLevel` of crates/hackline-proto/src/msg.rs.
use hackline.Prelude.{Option, none, some, ◌≡◌, refl, if◌then◌else◌}
use hackline.Prelude.Text.{Text, lit, text_eq}

pub data LogLevel : Type 0 where
  trace debug info warn error : LogLevel

unfoldable pub as_str : LogLevel → Text
as_str trace = lit "trace"
as_str debug = lit "debug"
as_str info = lit "info"
as_str warn = lit "warn"
as_str error = lit "error"

unfoldable pub parse : Text → Option LogLevel
parse s =
    if text_eq s (lit "trace")
    then some trace
    else if text_eq s (lit "debug")
    then some debug
    else if text_eq s (lit "info")
    then some info
    else if text_eq s (lit "warn")
    then some warn
    else if text_eq s (lit "error")
    then some error
    else none

-- Every level is read back from its wire form.
pub parse-as_str : (l : LogLevel) → parse (as_str l) ≡ some l
unfolding parse as_str text_eq
parse-as_str trace = refl
parse-as_str _ = refl
