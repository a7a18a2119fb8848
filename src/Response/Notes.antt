-- ===== src/Response/Notes.antt =====
-- What parse_content of bin/proxyOriginActiveSocket.c learns from a line of the header.
use proxy_server_http.Base.{
  ℕ, ◌==◌, if◌then◌else◌, Bool, true, false, ◌||◌, ◌&&◌, List, [], ◌∷◌, ℤ, pos, negsuc, Option,
  none, some, take, drop,
}
use proxy_server_http.Settings.{codes}
use proxy_server_http.Helpers.{trim}
use proxy_server_http.Protocol.{c_string, str_eq}
use proxy_server_http.Scan.{◌>>=◌, scan_until, scan_int, starts_nocase}
use proxy_server_http.Chunked.{ParserData, skip_spaces, crlf, is_unset}
use proxy_server_http.Request.{blank}

-- What the header has said, in the origin's parser and in the connection.
pub record Facts : Type 0 where
  pub parser : ParserData
  pub status_code : ℤ
  pub gzip : Bool
  pub content_type : List ℕ

abbrev pub set_content_length : ℤ → Facts → Facts
set_content_length n f = record f { parser = record f.parser { content_length = n } }

-- `%d` behind `Content-Length:`; the second attempt differs by a space, which `%d` skips anyway.
abbrev pub store_length : Option (ℤ × List ℕ) → Facts → Facts
store_length none f = f
store_length (some (n, rest)) f = set_content_length n f

-- `"%*[^ ] %d %*[^ ]"`
unfoldable pub scan_status : List ℕ → Option (ℤ × List ℕ)
scan_status aux = do (_, r) ← scan_until blank aux; scan_int (skip_spaces r)

abbrev pub is_no_content : ℤ → Bool
is_no_content (pos n) = n == 204
is_no_content (negsuc _) = false

abbrev pub store_status : Option (ℤ × List ℕ) → Facts → Facts
store_status none f = record f { status_code = pos 0 }
store_status (some (status, rest)) f =
    let f' = record f { status_code = status } in
    if is_no_content status then set_content_length (pos 0) f' else f'

-- The prefix with a space or without one.
abbrev pub names : List ℕ → List ℕ → Bool
names word text = starts_nocase (b' ' ∷ word) text || starts_nocase word text

-- The four questions about a line that is passed on, in their order.
unfoldable pub note_type : List ℕ → Facts → Facts
note_type aux f =
    if starts_nocase (codes "Content-Type:") aux
    then record f { content_type = take 99 (drop 13 aux) }
    else f

unfoldable pub note_status : List ℕ → Facts → Facts
unfolding scan_status
note_status aux f = if is_unset f.status_code then store_status (scan_status aux) f else f

unfoldable pub note_chunked : List ℕ → Facts → Facts
note_chunked aux f =
    if starts_nocase (codes "Transfer-Encoding:") aux && names (codes "chunked") (drop 18 aux)
    then record f { parser = record f.parser { chunk_enabled = true } }
    else f

unfoldable pub note_gzip : List ℕ → Facts → Facts
note_gzip aux f =
    if starts_nocase (codes "Content-Encoding:") aux && names (codes "gzip") (drop 17 aux)
    then record f { gzip = true }
    else f

abbrev pub is_length_line : List ℕ → Bool
is_length_line line = starts_nocase (codes "Content-Length:") (c_string line)

abbrev pub is_blank_line : List ℕ → Bool
is_blank_line line = str_eq (c_string line) (b'\n' ∷ []) || str_eq (c_string line) crlf

unfoldable pub note_length : List ℕ → Facts → Facts
note_length line f = store_length (scan_int (drop 15 (c_string line))) f

unfoldable pub note_line : List ℕ → Facts → Facts
unfolding note_type note_status note_chunked note_gzip
note_line line f =
    let aux = trim (c_string line) in
    note_gzip aux (note_chunked aux (note_status aux (note_type aux f)))
