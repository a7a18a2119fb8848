-- ===== src/Chunked.antt =====
-- The body of a response in bin/proxyOriginActiveSocket.c: `read_unchunked` takes it out of the
-- origin's parser buffer and `write_chunked` puts it into the client's buffer in chunks.
-- The child Text has the numbers in texts.
mod Text
pub mod Number
pub mod Encode
pub mod Steps
pub mod Decode
pub mod RoundTrip
pub mod Limit
pub mod Consumes
pub mod Progress
unfoldable pub use Text.*
use proxy_server_http.Base.{
  ℕ, zero, suc, ◌+◌, ◌-◌, ◌*◌, ◌/◌, ◌%◌, ◌^◌, ◌==◌, ltb, leb, if◌then◌else◌, Bool, true, false,
  ◌||◌, ◌&&◌, List, [], ◌∷◌, ◌++◌, ℤ, pos, negsuc, sub_int, smaller, is_zero, Option, none, some,
  length,
}
use proxy_server_http.Buffer.{
  Buffer, buffer_space, buffer_count, buffer_write_data, buffer_read_data, buffer_peek_line,
  buffer_reset_peek_line,
}
use proxy_server_http.Protocol.{c_string, str_eq}

-- `parser_data`, without its `state`
pub record ParserData : Type 0 where
  pub content_length : ℤ
  pub chunk_size : ℤ
  pub chunk_bytes : ℤ
  pub chunk_enabled : Bool

-- What the two functions reach: the origin's buffers, its parser, and `response_has_finished` of the
-- connection.
pub record Origin : Type 0 where
  pub write_buff : Buffer
  pub parser_buff : Buffer
  pub parser : ParserData
  pub finished : Bool

-- `available_write_bytes`: `ret - 80`, where that is positive
unfoldable pub available_write_bytes : Origin → ℕ
available_write_bytes o = buffer_space o.write_buff - 80

unfoldable pub available_parser_bytes : Origin → ℕ
available_parser_bytes o =
    let w = buffer_space o.write_buff in
    let p = buffer_space o.parser_buff in (if ltb p w then p else w) - 80

unfoldable pub write_chunked : Origin → List ℕ → ℕ → Origin
unfolding to_hex
write_chunked o bytes size =
    let hex = to_hex size ++ (b'\r' ∷ b'\n' ∷ []) in
    let b1 = (buffer_write_data o.write_buff hex (pos (length hex))).1 in
    let b2 = (buffer_write_data b1 bytes (pos size)).1 in
    record o { write_buff = (buffer_write_data b2 (b'\r' ∷ b'\n' ∷ []) (pos 2)).1 }

abbrev pub crlf : List ℕ
crlf = b'\r' ∷ b'\n' ∷ []

-- -1, which stands for a length or a count that is not known
abbrev pub is_unset : ℤ → Bool
is_unset (pos _) = false
is_unset (negsuc k) = k == 0

-- How one of the two tests ahead of the body goes on: with the error return of -1, with `continue`,
-- or with what follows.
pub data Next : Type 0 where
  fail again go : Next

abbrev pub reset_parser_buff : Origin → Origin
reset_parser_buff o = record o { parser_buff = buffer_reset_peek_line o.parser_buff }

abbrev pub set_parser_buff : Buffer → Origin → Origin
set_parser_buff b o = record o { parser_buff = b }

-- `ret1 > 0`: the line must be the end of a chunk, and is taken.
unfoldable pub chunk_ended : ℕ → List ℕ → Origin → Next × Origin
chunk_ended n line o =
    let parser = record o.parser { chunk_bytes = negsuc 0 } in
    let last = is_zero o.parser.chunk_size in
    if str_eq (c_string line) crlf
    then (
      go,
      record o {
        parser_buff = (buffer_read_data o.parser_buff (pos n)).2;
        parser = parser;
        finished = last || o.finished;
      },
    )
    else (fail, o)

-- A line that was peeked: -1 fails, 0 goes on.
abbrev pub on_line : (ℕ → List ℕ → Origin → Next × Origin) → ℤ → List ℕ → Origin → Next × Origin
on_line found (negsuc _) line o = (fail, o)
on_line found (pos zero) line o = (go, o)
on_line found (pos (suc n)) line o = found (suc n) line o

-- `if (parser_data->chunk_bytes == 0)`
unfoldable pub end_of_chunk : Origin → Next × Origin
unfolding chunk_ended
end_of_chunk o =
    let (ret, line, b) = buffer_peek_line (buffer_reset_peek_line o.parser_buff) 2 in
    let ended = on_line chunk_ended ret line (set_parser_buff b o) in
    if is_zero o.parser.chunk_bytes then ended else (go, o)

-- The word of a size line, as `sscanf` gives it.
unfoldable pub take_size : ℕ → Origin → List ℕ → Next × Origin
take_size n o [] = (fail, o)
take_size n o (c ∷ cs) =
    let size = strtol (c ∷ cs) in
    (
      if is_zero size then again else go,
      record o {
        parser_buff = (buffer_read_data o.parser_buff (pos n)).2;
        parser = record o.parser { chunk_size = size; chunk_bytes = size };
      },
    )

-- `ret2 > 0`: the line must hold a word, which is the size of the chunk, and is taken.
unfoldable pub chunk_began : ℕ → List ℕ → Origin → Next × Origin
unfolding take_size
chunk_began n line o = take_size n o (scan_hex (c_string line))

-- `if (parser_data->chunk_bytes == -1)`
unfoldable pub beginning_of_chunk : Origin → Next × Origin
beginning_of_chunk o =
    let (ret, line, b) = buffer_peek_line (buffer_reset_peek_line o.parser_buff) 12 in
    let began = on_line chunk_began ret line (set_parser_buff b o) in
    if is_unset o.parser.chunk_bytes then began else (go, o)

-- The rest of a round: the bytes taken and how many.
unfoldable pub chunk_body : ℕ → Origin → ℕ × List ℕ × Origin
chunk_body size o =
    let (n, bytes, b) = buffer_read_data o.parser_buff (smaller size o.parser.chunk_bytes) in
    (
      n,
      bytes,
      record o {
        parser_buff = b;
        parser = record o.parser { chunk_bytes = sub_int o.parser.chunk_bytes n };
      },
    )

-- What the loop over chunks gives: the fuel ran out, the return of -1 behind the bytes that were
-- stored ahead of it, or the bytes stored.
pub data Unchunked : Type 0 where
  no_fuel : Unchunked
  malformed : List ℕ → Origin → Unchunked
  bytes : List ℕ → Origin → Unchunked

-- The bytes of a round stand in front of those of the later rounds.
abbrev pub prepend : List ℕ → Unchunked → Unchunked
prepend xs no_fuel = no_fuel
prepend xs (malformed ys o) = malformed (xs ++ ys) o
prepend xs (bytes ys o) = bytes (xs ++ ys) o

abbrev pub on_next : Next → Unchunked → Unchunked → Unchunked → Unchunked
on_next fail failed continued rest = failed
on_next again failed continued rest = continued
on_next go failed continued rest = rest

-- `while (flag == 0)`; the first test has no `continue`.
unfoldable pub unchunk_loop : ℕ → ℕ → Origin → Unchunked
unchunk_loop zero size o = no_fuel
unchunk_loop (suc fuel) size o =
    let (next1, o1) = end_of_chunk o in
    let (next2, o2) = beginning_of_chunk o1 in
    let (n, taken, o3) = chunk_body size o2 in
    let later = prepend taken (unchunk_loop fuel (size - n) o3) in
    let continued = unchunk_loop fuel size o2 in
    on_next next1 (malformed [] o1) no_fuel
      (on_next next2 (malformed [] o2) continued (if n == 0 then bytes [] o3 else later))

-- The two branches for a body that is not in chunks.
unfoldable pub read_plain : Bool → ℕ → Origin → Unchunked
read_plain counted size o =
    let (n, taken, b) = buffer_read_data o.parser_buff (pos size) in
    let left = sub_int o.parser.content_length n in
    let done = is_zero left in
    let o' = record o { parser_buff = b } in
    bytes taken (
      if counted
      then record o' {
        parser = record o.parser { content_length = left };
        finished = done || o.finished;
      }
      else o')

unfoldable pub read_unchunked : ℕ → ℕ → Origin → Unchunked
unfolding read_plain unchunk_loop
read_unchunked fuel size o =
    if is_unset o.parser.content_length
    then (if o.parser.chunk_enabled then unchunk_loop fuel size o else read_plain false size o)
    else read_plain true size o
