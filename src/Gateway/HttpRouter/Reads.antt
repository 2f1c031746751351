-- ===== src/Gateway/HttpRouter/Reads.antt =====
-- What the host router has read when it knows the host.
use mathlib.Core.List.{append_assoc, append-nil}
use hackline.Prelude.{
  ◌≤◌, ◌≡◌, refl, ap, sym, ◌∙◌, true, List, [], ◌∷◌, ◌++◌, map, length, some, arith, Bool-cases,
  Option-cases, inl, inr, All,
}
use hackline.Prelude.Text.{Text, lit, Lacks}
use hackline.Prelude.Outcome.{Result, ok, err, ok_inj, err_ne_ok}
use hackline.Gateway.Error.{GatewayError}
use hackline.Gateway.Schema.{Bytes}
use hackline.Gateway.HttpRouter.{
  header_limit, full, is_utf8, split_crlf, host_of_lines, trim, parse_host_header, find_double_crlf,
  read_host,
}
use hackline.Gateway.HttpRouter.Head.{IsOther, lines_then, parse_host_header-cut}

abbrev pub flatten : List Bytes → Bytes
flatten [] = []
flatten (b ∷ bs) = b ++ flatten bs

-- No read is made with more than the limit in hand.
abbrev pub Bounded : Bytes → List Bytes → Type 0
Bounded prefix [] = Unit
Bounded prefix (chunk ∷ chunks) = (length prefix ≤ header_limit) × Bounded (prefix ++ chunk) chunks

-- The bytes kept are those given and those of the first reads, in order; the host is found in them.
unfoldable pub Took : Bytes → List (Result GatewayError Bytes) → Text → Bytes → Type 0
Took prefix reads host sent =
    (got : List Bytes) × (left : List (Result GatewayError Bytes)) × (reads ≡ map ok got ++ left)
    × (sent ≡ prefix ++ flatten got)
    × Bounded prefix got
    × (parse_host_header sent ≡ some host)

first_of : {A B : Type 0} {x y : A × B} → x ≡ y → (x.0 ≡ y.0) × (x.1 ≡ y.1)
first_of e = (ap (λ p. p.0) e, ap (λ p. p.1) e)

-- A connection is bridged with all the bytes that were read of it, in order and none twice, and by
-- a host found in them; no read was made with more than 8192 bytes in hand.
pub read_host-Took :
    (prefix : Bytes) (reads : List (Result GatewayError Bytes)) (host : Text) (sent : Bytes)
    → read_host prefix reads ≡ ok (host, sent)
    → Took prefix reads host sent
unfolding read_host Took
read_host-Took prefix [] host sent h = elim (Bool-cases (full prefix)) [
  | inl t ↦ err_ne_ok (rw t at h)
  | inr f ↦ err_ne_ok (rw f at h)
]
read_host-Took prefix (err e ∷ reads) host sent h = elim (Bool-cases (full prefix)) [
  | inl t ↦ err_ne_ok (rw t at h)
  | inr f ↦ err_ne_ok (rw f at h)
]
read_host-Took prefix (ok [] ∷ reads) host sent h = elim (Bool-cases (full prefix)) [
  | inl t ↦ err_ne_ok (rw t at h)
  | inr f ↦ err_ne_ok (rw f at h)
]
read_host-Took prefix (ok (b ∷ bs) ∷ reads) host sent h = elim (Bool-cases (full prefix)) [
  | inl t ↦ err_ne_ok (rw t at h)
  | inr f ↦
      let small : length prefix ≤ header_limit = ground arith in
      let h0 = rw f at h in
      elim (Option-cases (parse_host_header (prefix ++ b ∷ bs))) [
        | inr (found, p) ↦
            let (same_host, same_sent) = first_of (ok_inj (rw p at h0)) in
            (
              (b ∷ bs) ∷ [],
              reads,
              refl,
              sym same_sent ∙ ap (λ l. prefix ++ b ∷ l) (sym (append-nil bs)),
              (small, tt),
              ap parse_host_header (sym same_sent) ∙ p ∙ ap some same_host,
            )
        | inl none_yet ↦
            let h1 = rw none_yet at h0 in
            elim (Option-cases (find_double_crlf (prefix ++ b ∷ bs))) [
              | inr (_, ended) ↦ err_ne_ok (rw ended at h1)
              | inl goes_on ↦
                  let (got, left, all, whole, bounded, p) =
                    read_host-Took (prefix ++ b ∷ bs) reads host sent (rw goes_on at h1) in
                  (
                    (b ∷ bs) ∷ got,
                    left,
                    ap (λ l. ok (b ∷ bs) ∷ l) all,
                    whole ∙ append_assoc prefix (b ∷ bs) (flatten got),
                    (small, bounded),
                    p,
                  )
            ]
      ]
]

read_host-now :
    (chunk : Bytes) (reads : List (Result GatewayError Bytes)) (host : Text)
    → parse_host_header chunk ≡ some host
    → read_host [] (ok chunk ∷ reads) ≡ ok (host, chunk)
unfolding read_host parse_host_header is_utf8 split_crlf host_of_lines
read_host-now [] reads host p = absurd cc
read_host-now (b ∷ bs) reads host p = rw p refl

-- If the first read ends inside the `Host:` line, the part of the host that was read is taken for
-- the host, whatever the later reads give: after UTF-8 lines that are no `Host:` lines, not empty
-- and without carriage return.
pub read_host-cut :
    (ls : List Text) (part : Text) (reads : List (Result GatewayError Bytes))
    → All IsOther ls
    → Lacks 13 part
    → is_utf8 (lines_then ls (lit "Host:" ++ part)) ≡ true
    → read_host [] (ok (lines_then ls (lit "Host:" ++ part)) ∷ reads)
      ≡ ok (trim part, lines_then ls (lit "Host:" ++ part))
read_host-cut ls part reads others lacks valid =
    read_host-now (lines_then ls (lit "Host:" ++ part)) reads (trim part)
      (parse_host_header-cut ls part others lacks valid)
