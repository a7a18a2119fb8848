-- ===== src/Response/Keeps.antt =====
-- The header's loop and the tunnel's leave the buffers in range, whatever the bytes are.
use proxy_server_http.Base.{ℕ, zero, suc, Bool, if_either, List, length, pos, ◌==◌, ◌+◌}
use proxy_server_http.Buffer.{buffer_count, buffer_read_data, buffer_peek_line}
use proxy_server_http.Buffer.Counts.{write_data-IsValid, read_data-Shrunk, peek_line-IsValid}
use proxy_server_http.Protocol.{positive}
use proxy_server_http.Response.{
  Exchange, to_client, announcement, end_header, on_header_line, header_loop, take_header,
  tunnel_loop, copy_tunnel, is_length_line, is_blank_line,
}
use proxy_server_http.Response.Body.{Operable}

to_client-Operable : (text : List ℕ) (e : Exchange) → Operable e → Operable (to_client text e)
unfolding to_client
to_client-Operable text e r = record {
  client = write_data-IsValid e.write_buff text (pos (length text)) r.client;
  parser = r.parser;
}

end_header-Operable : (line : List ℕ) (e : Exchange) → Operable e → Operable (end_header line e)
unfolding end_header
end_header-Operable line e r =
    let announced =
      if_either Operable e.facts.parser.chunk_enabled r (to_client-Operable announcement e r) in
    let q = to_client-Operable line _ announced in record { client = q.client; parser = q.parser }

on_header_line-Operable :
    (line : List ℕ) (e : Exchange) → Operable e → Operable (on_header_line line e).1
unfolding on_header_line
on_header_line-Operable line e r =
    let q = to_client-Operable line e r in
    if_either (λ (x : Bool × Exchange). Operable (x.1)) (is_length_line line)
      (record { client = r.client; parser = r.parser })
      (if_either (λ (x : Bool × Exchange). Operable (x.1)) (is_blank_line line)
        (end_header-Operable line e r) (record { client = q.client; parser = q.parser }))

header_loop-Operable : (fuel : ℕ) (e : Exchange) → Operable e → Operable (header_loop fuel e)
unfolding header_loop
header_loop-Operable zero e r = r
header_loop-Operable (suc fuel) e r =
    let (ret, aux, b) = buffer_peek_line e.parser_buff 1000 in
    let (n, line, b') = buffer_read_data b ret in
    let peeked = peek_line-IsValid 1000 e.parser_buff r.parser in
    let e1 : Exchange = record e { parser_buff = b' } in
    let q =
      on_header_line-Operable line e1
        (record { client = r.client; parser = (read_data-Shrunk b ret peeked).valid }) in
    if_either Operable (positive ret)
      (if_either Operable (on_header_line line e1).0 (header_loop-Operable fuel _ q) q)
      (record { client = r.client; parser = peeked })

pub take_header-Operable : (e : Exchange) → Operable e → Operable (take_header e)
unfolding take_header
take_header-Operable e r = header_loop-Operable (buffer_count e.parser_buff + 1) e r

tunnel_loop-Operable : (fuel : ℕ) (e : Exchange) → Operable e → Operable (tunnel_loop fuel e)
unfolding tunnel_loop
tunnel_loop-Operable zero e r = r
tunnel_loop-Operable (suc fuel) e r =
    let (n, text, b) = buffer_read_data e.parser_buff (pos 1000) in
    let s = read_data-Shrunk e.parser_buff (pos 1000) r.parser in
    let here : Operable (record e { parser_buff = b }) = record {
      client = r.client;
      parser = s.valid;
    } in
    if_either Operable (n == 0) here
      (tunnel_loop-Operable fuel _ (to_client-Operable text (record e { parser_buff = b }) here))

pub copy_tunnel-Operable : (e : Exchange) → Operable e → Operable (copy_tunnel e)
unfolding copy_tunnel
copy_tunnel-Operable e r = tunnel_loop-Operable (buffer_count e.parser_buff + 1) e r
