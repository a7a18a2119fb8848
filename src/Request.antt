-- ===== src/Request.antt =====
-- The parsing of a request in bin/proxyClientActiveSocket.c: the target of its first line, and of a
-- `Host` header. A text is the bytes of a C string.
pub mod Print
pub mod FirstLine
pub mod Connect
pub mod HostLine
use proxy_server_http.Base.{
  ℕ, ◌+◌, ◌-◌, ◌%◌, ◌==◌, if◌then◌else◌, Bool, true, false, ◌||◌, List, [], ◌∷◌, ◌++◌, ℤ, pos,
  negsuc, Option, none, some,
}
use proxy_server_http.Settings.{codes}
use proxy_server_http.Helpers.{trim, line_to_lower_case}
use proxy_server_http.Protocol.{str_eq}
use proxy_server_http.Scan.{
  ◌>>=◌, ◌or◌, scan_until, scan_word, scan_int, literal, literals, starts_nocase,
}
use proxy_server_http.Chunked.{skip_spaces}

-- `ssl_states`
pub data SslState : Type 0 where
  no_ssl ssl_connecting ssl_ok : SslState

-- `(unsigned short) iport`
unfoldable pub port_of : ℤ → ℕ
port_of (pos n) = n % 65536
port_of (negsuc k) = 65535 - k % 65536

-- The sets `[^:/]`, `[^/]`, `[^ ]` and `[^:]`.
abbrev pub colon_or_slash : ℕ → Bool
colon_or_slash c = c == b':' || c == b'/'

abbrev pub slash : ℕ → Bool
slash c = c == b'/'

abbrev pub blank : ℕ → Bool
blank c = c == b' '

abbrev pub colon : ℕ → Bool
colon c = c == b':'

-- A host and a port.
abbrev pub Target : Type 0
Target = List ℕ × ℕ

-- `%[^:/]:%d%s`
unfoldable pub form_port_path : List ℕ → Option Target
form_port_path s = do
  (host, r1) ← scan_until colon_or_slash s
  r2 ← literal b':' r1
  (iport, r3) ← scan_int r2
  _ ← scan_word r3
  some (host, port_of iport)

-- `%[^/]%s`
unfoldable pub form_path : List ℕ → Option Target
form_path s = do (host, r) ← scan_until slash s; _ ← scan_word r; some (host, 80)

-- `%[^:/]:%d`
unfoldable pub form_port : List ℕ → Option Target
form_port s = do
  (host, r1) ← scan_until colon_or_slash s
  r2 ← literal b':' r1
  (iport, r3) ← scan_int r2
  some (host, port_of iport)

-- `%[^/]`
unfoldable pub form_host : List ℕ → Option Target
form_host s = do (host, r) ← scan_until slash s; some (host, 80)

-- The four attempts, in their order.
unfoldable pub parse_authority : List ℕ → Option Target
unfolding form_port_path form_path form_port form_host
parse_authority s = form_port_path s or form_path s or form_port s or form_host s

-- The two attempts at the target of `CONNECT`.
unfoldable pub connect_port : List ℕ → Option Target
connect_port url = do
  (host, r1) ← scan_until colon url
  r2 ← literal b':' r1
  (iport, r3) ← scan_int r2
  some (host, port_of iport)

unfoldable pub connect_host : List ℕ → Option Target
connect_host url = do (host, r) ← scan_word url; some (host, 443)

unfoldable pub parse_connect : List ℕ → Option Target
unfolding connect_port connect_host
parse_connect url = connect_port url or connect_host url

-- What a line of a request leads to: nothing yet, a target to connect to, or an answer of 400.
pub data Found : Type 0 where
  no_target : Found
  target : List ℕ → ℕ → SslState → Found
  bad_request : List ℕ → Found

abbrev pub found_or_bad : SslState → Option Target → Found
found_or_bad ssl none = bad_request (codes "Can't parse URL.")
found_or_bad ssl (some (host, port)) = target host port ssl

-- `"%[^ ] %[^ ] %[^ ]"`: the method and the URL
unfoldable pub scan_request : List ℕ → Option (List ℕ × List ℕ)
scan_request line = do
  (method, r1) ← scan_until blank line
  (url, r2) ← scan_until blank (skip_spaces r1)
  (protocol, r3) ← scan_until blank (skip_spaces r2)
  some (method, url)

-- A URL is not empty where it was scanned, so `Null URL.` is never answered.
abbrev pub is_path : List ℕ → Bool
is_path [] = false
is_path (c ∷ cs) = c == b'/'

-- What stands behind `http://`.
abbrev pub behind_scheme : List ℕ → List ℕ
behind_scheme (a ∷ b ∷ c ∷ d ∷ e ∷ f ∷ g ∷ rest) = rest
behind_scheme s = []

unfoldable pub url_target : List ℕ → List ℕ → Found
unfolding parse_authority parse_connect
url_target method url =
    if starts_nocase (codes "http://") url
    then found_or_bad no_ssl (parse_authority (behind_scheme url))
    else if str_eq method (codes "CONNECT")
    then found_or_bad ssl_connecting (parse_connect url)
    else bad_request (codes "Unknown URL type.")

abbrev pub first_line_target : Option (List ℕ × List ℕ) → Found
first_line_target none = no_target
first_line_target (some (method, url)) = if is_path url then no_target else url_target method url

-- The first line of a request.
unfoldable pub parse_first_line : List ℕ → Found
unfolding trim scan_request url_target
parse_first_line aux = first_line_target (scan_request (trim aux))

-- `"host: %s"`
unfoldable pub scan_host_header : List ℕ → Option (List ℕ)
scan_host_header line = do r ← literals (codes "host:") line; (header, _) ← scan_word r; some header

abbrev pub header_target : Option (List ℕ) → Found
header_target none = no_target
header_target (some header) = found_or_bad no_ssl (parse_authority header)

-- A line of a request that is searched for its host.
unfoldable pub parse_host_line : List ℕ → Found
unfolding trim line_to_lower_case scan_host_header parse_authority
parse_host_line aux = header_target (scan_host_header (line_to_lower_case (trim aux)))
