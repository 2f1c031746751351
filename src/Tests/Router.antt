-- ===== src/Tests/Router.antt =====
-- The theorems on the host router, at requests for one tunnel.
use hackline.Prelude.{◌≡◌, refl, true, List, [], ◌∷◌, ◌++◌, none, some, arith, All}
use hackline.Prelude.Int.{pos}
use hackline.Prelude.Text.{Text, lit, text_eq}
use hackline.Prelude.Outcome.{Result, ok}
use hackline.Proto.Zid.{is_ascii_hexdigit, lower}
use hackline.Proto.Zid
use hackline.Gateway.Error.{GatewayError}
use hackline.Gateway.Schema.{Bytes, Tunnel, Db}
use hackline.Gateway.HttpRouter.{
  split_crlf, strip_prefix, strip_host, trim_start, trim_end, trim, is_utf8, host_of_lines,
  parse_host_header, find_double_crlf, read_host,
}
use hackline.Gateway.HttpRouter.Head.{IsOther, lines_then, parse_host_header-request}
use hackline.Gateway.HttpRouter.Reads.{Took, read_host-Took, read_host-cut}
use hackline.Gateway.HttpRouter.Route.{as_u16, find_http_tunnel, Route, select_route}
use hackline.Gateway.HttpRouter.Route.Served.{IsRouted, select_route-IsRouted}
use hackline.Tests.Data.{db, zid}

abbrev pub get_line : Text
get_line = lit "GET /"

lines-IsOther : All IsOther (get_line ∷ [])
unfolding IsOther strip_host strip_prefix
lines-IsOther = ((ground arith, refl, refl), tt)

abbrev pub blank_line : Text
blank_line = 13 ∷ 10 ∷ []

abbrev request : Bytes
request = lines_then (get_line ∷ []) (lit "Host:" ++ lit " d.io " ++ 13 ∷ 10 ∷ blank_line)

request-utf8 : is_utf8 request ≡ true
unfolding is_utf8
request-utf8 = refl

parse_host_header-request_once : parse_host_header request ≡ some (trim (lit " d.io "))
parse_host_header-request_once =
    parse_host_header-request (get_line ∷ []) (lit " d.io ") blank_line lines-IsOther (ground arith)
      request-utf8

trim-run : trim (lit " d.io ") ≡ lit "d.io"
unfolding trim trim_start trim_end
trim-run = refl

-- The host is cut after two letters by the end of a read.
abbrev cut : Bytes
cut = lines_then (get_line ∷ []) (lit "Host:" ++ lit " d.")

cut-utf8 : is_utf8 cut ≡ true
unfolding is_utf8
cut-utf8 = refl

read_host-cut_example : read_host [] (ok cut ∷ ok (lit "io") ∷ []) ≡ ok (trim (lit " d."), cut)
read_host-cut_example =
    read_host-cut (get_line ∷ []) (lit " d.") (ok (lit "io") ∷ []) lines-IsOther (ground arith)
      cut-utf8

abbrev pub two_reads : List (Result GatewayError Bytes)
two_reads = ok (lit "GET /") ∷ ok (13 ∷ 10 ∷ lit "Host: d.io" ++ blank_line) ∷ []

abbrev pub request_read : Bytes
request_read = lit "GET /" ++ 13 ∷ 10 ∷ lit "Host: d.io" ++ blank_line

two_reads-run : read_host [] two_reads ≡ ok (lit "d.io", request_read)
unfolding read_host parse_host_header is_utf8 split_crlf host_of_lines strip_host strip_prefix trim
    trim_start trim_end find_double_crlf
two_reads-run = refl

read_host-Took_once : Took [] two_reads (lit "d.io") request_read
read_host-Took_once = read_host-Took [] two_reads (lit "d.io") request_read two_reads-run

abbrev pub tunnel : Tunnel
tunnel = record {
  id = 1;
  device_id = 1;
  kind = lit "http";
  local_port = pos 80;
  public_hostname = some (lit "d.io");
  public_port = none;
  enabled = true;
  created_at = pos 0;
}

abbrev pub tunnelled : Db
tunnelled = record db { tunnels = tunnel ∷ [] }

abbrev pub route : Route
route = record {
  zid = zid;
  port = 80;
  tunnel_id = 1;
  device_id = 1;
  org_slug = lit "acme";
  prefix = request_read;
}

pub route-run : select_route tunnelled two_reads ≡ ok route
unfolding select_route find_http_tunnel Zid.new as_u16 is_ascii_hexdigit lower read_host
    parse_host_header is_utf8 split_crlf host_of_lines strip_host strip_prefix trim trim_start
    trim_end find_double_crlf text_eq
route-run = refl

select_route-IsRouted_once : IsRouted tunnelled two_reads route
select_route-IsRouted_once = select_route-IsRouted tunnelled two_reads route route-run
