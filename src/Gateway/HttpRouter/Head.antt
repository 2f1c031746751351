-- ===== src/Gateway/HttpRouter/Head.antt =====
-- What the host router finds in the head of a request.
use hackline.Prelude.{
  ℕ, ◌≡◌, ◌≢◌, refl, ap, ◌∙◌, true, false, List, [], ◌∷◌, ◌++◌, none, some, ◌==◌, arith, All,
}
use hackline.Prelude.Text.{Text, lit, Lacks, Lacks-append, on_first}
use hackline.Gateway.HttpRouter.{
  split_crlf, strip_prefix, strip_host, host_of_lines, is_utf8, is_empty, trim, parse_host_header,
}

not_eq : (a b : ℕ) → a ≢ b → (a == b) ≡ false
not_eq a b n = ground arith

split_crlf_of_Lacks : (p : Text) → Lacks 13 p → split_crlf p ≡ p ∷ []
unfolding split_crlf
split_crlf_of_Lacks [] h = refl
split_crlf_of_Lacks (x ∷ []) h = refl
split_crlf_of_Lacks (x ∷ y ∷ p) (n, h) =
    rw (not_eq x 13 n) (ap (on_first x) (split_crlf_of_Lacks (y ∷ p) h))

split_crlf-append : (p s : Text) → Lacks 13 p → split_crlf (p ++ 13 ∷ 10 ∷ s) ≡ p ∷ split_crlf s
unfolding split_crlf
split_crlf-append [] s h = refl
split_crlf-append (x ∷ []) s (n, h) = rw (not_eq x 13 n) refl
split_crlf-append (x ∷ y ∷ p) s (n, h) =
    rw (not_eq x 13 n) (ap (on_first x) (split_crlf-append (y ∷ p) s h))

-- A line of the head before `Host:`.
unfoldable pub IsOther : Text → Type 0
IsOther l = Lacks 13 l × (is_empty l ≡ false) × (strip_host l ≡ none)

-- Lines, each with its end, and what follows them.
abbrev pub lines_then : List Text → Text → Text
lines_then [] t = t
lines_then (l ∷ ls) t = l ++ 13 ∷ 10 ∷ lines_then ls t

host_of_lines-other :
    (l : Text) (ls : List Text)
    → is_empty l ≡ false
    → strip_host l ≡ none
    → host_of_lines (l ∷ ls) ≡ host_of_lines ls
unfolding host_of_lines
host_of_lines-other l ls filled other = rw (filled, other) refl

host_of_lines-skip :
    (ls : List Text) (t : Text)
    → All IsOther ls
    → host_of_lines (split_crlf (lines_then ls t)) ≡ host_of_lines (split_crlf t)
unfolding IsOther
host_of_lines-skip [] t h = refl
host_of_lines-skip (l ∷ ls) t ((lacks, filled, other), h) =
    ap host_of_lines (split_crlf-append l (lines_then ls t) lacks)
    ∙ host_of_lines-other l (split_crlf (lines_then ls t)) filled other
    ∙ host_of_lines-skip ls t h

host_line :
    (part : Text) (more : List Text)
    → host_of_lines ((lit "Host:" ++ part) ∷ more) ≡ some (trim part)
unfolding host_of_lines strip_host strip_prefix
host_line part more = refl

host-Lacks : (part : Text) → Lacks 13 part → Lacks 13 (lit "Host:" ++ part)
host-Lacks part = Lacks-append 13 (lit "Host:") part (ground arith)

-- If a request is UTF-8 and the lines before its `Host:` line are no `Host:` lines, not empty and
-- without carriage return, the host is what follows `Host:` on that line up to the line's end,
-- without the white space around it.
pub parse_host_header-request :
    (ls : List Text) (part rest : Text)
    → All IsOther ls
    → Lacks 13 part
    → is_utf8 (lines_then ls (lit "Host:" ++ part ++ 13 ∷ 10 ∷ rest)) ≡ true
    → parse_host_header (lines_then ls (lit "Host:" ++ part ++ 13 ∷ 10 ∷ rest)) ≡ some (trim part)
unfolding parse_host_header
parse_host_header-request ls part rest others lacks valid = rw valid (
    host_of_lines-skip ls (lit "Host:" ++ part ++ 13 ∷ 10 ∷ rest) others
    ∙ ap host_of_lines (split_crlf-append (lit "Host:" ++ part) rest (host-Lacks part lacks))
    ∙ host_line part (split_crlf rest))

pub parse_host_header-cut :
    (ls : List Text) (part : Text)
    → All IsOther ls
    → Lacks 13 part
    → is_utf8 (lines_then ls (lit "Host:" ++ part)) ≡ true
    → parse_host_header (lines_then ls (lit "Host:" ++ part)) ≡ some (trim part)
unfolding parse_host_header
parse_host_header-cut ls part others lacks valid = rw valid (
    host_of_lines-skip ls (lit "Host:" ++ part) others
    ∙ ap host_of_lines (split_crlf_of_Lacks (lit "Host:" ++ part) (host-Lacks part lacks))
    ∙ host_line part [])
