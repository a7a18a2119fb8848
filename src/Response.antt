-- ===== src/Response.antt =====
-- The parsing of a response in bin/proxyOriginActiveSocket.c: its header, which is passed on line by
-- line, its body, and the bytes of a tunnel. The child Notes has what is learnt from a line.
mod Notes
pub mod Lines
pub mod Header
pub mod Says
pub mod Tunnel
pub mod Body
pub mod Keeps
pub mod Plain
pub mod Pieces
pub mod Relayed
pub mod Roundtrip
unfoldable pub use Notes.*
use proxy_server_http.Base.{
  ℕ, zero, suc, ◌+◌, ◌-◌, ◌==◌, ltb, if◌then◌else◌, Bool, true, false, not, ◌||◌, ◌&&◌, List, [],
  ◌∷◌, ◌++◌, ℤ, pos, negsuc, Option, none, some, length, take, drop,
}
use proxy_server_http.Buffer.{
  Buffer, buffer_count, buffer_write_data, buffer_read_data, buffer_peek_line, buffer_clean,
}
use proxy_server_http.Settings.{Settings, codes}
use proxy_server_http.Helpers.{trim}
use proxy_server_http.Protocol.{c_string, str_eq, positive}
use proxy_server_http.Scan.{◌>>=◌, scan_until, scan_int, starts_nocase}
use proxy_server_http.Chunked.{
  Origin, ParserData, Unchunked, no_fuel, malformed, bytes, skip_spaces, crlf, is_unset,
  read_unchunked, write_chunked,
}
use proxy_server_http.Request.{blank}
use proxy_server_http.MediaType.{media_type_match}

-- `parser_states`
pub data ParserState : Type 0 where
  reading_header reading_body ssl_connection : ParserState

-- What `parse_content` reaches: the buffer to the client, that of the parser, and its state.
pub record Exchange : Type 0 where
  pub write_buff : Buffer
  pub parser_buff : Buffer
  pub finished : Bool
  pub state : ParserState
  pub facts : Facts

-- The part that `read_unchunked` and `write_chunked` work on.
abbrev pub origin_of : Exchange → Origin
origin_of e = record {
  write_buff = e.write_buff;
  parser_buff = e.parser_buff;
  parser = e.facts.parser;
  finished = e.finished;
}

abbrev pub put_origin : Origin → Exchange → Exchange
put_origin o e = record e {
  write_buff = o.write_buff;
  parser_buff = o.parser_buff;
  finished = o.finished;
  facts = record e.facts { parser = o.parser };
}

-- `reset_origin_data`, but for the transformation, which it kills.
unfoldable pub reset_exchange : Bool → Exchange → Exchange
unfolding buffer_clean
reset_exchange ssl e = record e {
  parser_buff = buffer_clean e.parser_buff;
  finished = false;
  state = if ssl then ssl_connection else reading_header;
  facts = record e.facts {
    parser = record {
      content_length = negsuc 0;
      chunk_size = negsuc 0;
      chunk_bytes = negsuc 0;
      chunk_enabled = false;
    };
    status_code = negsuc 0;
    gzip = false;
  };
}

-- `buffer_write_data` to the client, all of the bytes offered
unfoldable pub to_client : List ℕ → Exchange → Exchange
to_client text e = record e {
  write_buff = (buffer_write_data e.write_buff text (pos (length text))).1;
}

abbrev pub announcement : List ℕ
announcement = codes "Transfer-Encoding: chunked" ++ (b'\n' ∷ [])

unfoldable pub end_header : List ℕ → Exchange → Exchange
unfolding to_client
end_header line e =
    let announced = if e.facts.parser.chunk_enabled then e else to_client announcement e in
    record (to_client line announced) { state = reading_body }

-- A round of the loop over the lines, for a line that was read.
unfoldable pub on_header_line : List ℕ → Exchange → Bool × Exchange
unfolding note_length end_header note_line to_client
on_header_line line e =
    if is_length_line line
    then (true, record e { facts = note_length line e.facts })
    else if is_blank_line line
    then (false, end_header line e)
    else (true, record (to_client line e) { facts = note_line line e.facts })

-- The loop. A round takes a byte at least, so that as many rounds as there are bytes, and one more, are
-- enough. It ends where no line is there, and where a line is too long.
unfoldable pub header_loop : ℕ → Exchange → Exchange
unfolding on_header_line
header_loop zero e = e
header_loop (suc fuel) e =
    let (ret, aux, b) = buffer_peek_line e.parser_buff 1000 in
    let (n, line, b') = buffer_read_data b ret in
    let (again, e') = on_header_line line (record e { parser_buff = b' }) in
    let later = header_loop fuel e' in
    if positive ret then (if again then later else e') else record e { parser_buff = b }

unfoldable pub take_header : Exchange → Exchange
unfolding header_loop
take_header e = header_loop (buffer_count e.parser_buff + 1) e

-- How the loop over a body ends: the fuel ran out, the return of -1, or with 0.
pub data Copied : Type 0 where
  out_of_fuel : Copied
  failed copied : Exchange → Copied

-- `while ((ret = read_unchunked(data, aux, sizeof(aux))) > 0) write_chunked(data, aux, ret)`; `inner` is
-- the fuel of `read_unchunked`.
abbrev pub on_unchunked : (List ℕ → Origin → Copied) → Exchange → Unchunked → Copied
on_unchunked more e no_fuel = out_of_fuel
on_unchunked more e (malformed xs o) = failed (put_origin o e)
on_unchunked more e (bytes [] o) = copied (put_origin o e)
on_unchunked more e (bytes (x ∷ xs) o) = more (x ∷ xs) o

unfoldable pub body_loop : ℕ → ℕ → Exchange → Copied
body_loop zero inner e = out_of_fuel
body_loop (suc fuel) inner e =
    on_unchunked
      (λ text o. body_loop fuel inner (put_origin (write_chunked o text (length text)) e)) e
      (read_unchunked inner 1000 (origin_of e))

-- A last, empty chunk, where the response has finished.
abbrev pub end_body : Copied → Copied
end_body out_of_fuel = out_of_fuel
end_body (failed e) = failed e
end_body (copied e) =
    copied (if e.finished then put_origin (write_chunked (origin_of e) [] 0) e else e)

unfoldable pub copy_body : ℕ → ℕ → Exchange → Copied
unfolding body_loop
copy_body fuel inner e = end_body (body_loop fuel inner e)

-- The rounds of the loop for a tunnel.
unfoldable pub tunnel_loop : ℕ → Exchange → Exchange
tunnel_loop zero e = e
tunnel_loop (suc fuel) e =
    let (n, text, b) = buffer_read_data e.parser_buff (pos 1000) in
    let later = tunnel_loop fuel (to_client text (record e { parser_buff = b })) in
    if n == 0 then record e { parser_buff = b } else later

unfoldable pub copy_tunnel : Exchange → Exchange
unfolding tunnel_loop to_client
copy_tunnel e = tunnel_loop (buffer_count e.parser_buff + 1) e

-- The conditions of `proxy_transformation_data_init`, with what the array of the media types holds
-- behind the null byte of its text, ahead of the pipes and the process; `none` where
-- the match of the media types has run out of fuel.
abbrev pub status_below : ℕ → ℤ → Bool
status_below n (pos m) = ltb m n
status_below n (negsuc _) = true

unfoldable pub wants_transformation : ℕ → List ℕ → Settings → Exchange → Option Bool
wants_transformation fuel stale s e =
    if e.facts.gzip
      || (status_below 200 e.facts.status_code || not (status_below 300 e.facts.status_code))
    then some false
    else if s.transformation_state == 0 || str_eq s.transformation_command []
    then some false
    else media_type_match fuel (s.media_types ++ (0 ∷ stale)) e.facts.content_type
