-- ===== src/Tests/Connections.antt =====
-- Connections: their beginning, their end, and what passes through them.
use proxy_server_http.Base.{
  ℕ, ◌+◌, ◌≡◌, ◌⊎◌, refl, arith, List, [], ◌++◌, pos, negsuc, false, true, ◌&&◌, not, length,
  length-take, take, drop, some, min, if◌then◌else◌,
}
use proxy_server_http.Buffer.{
  buffer_size, buffer_count, buffer_space, next, transfer_size, read_loop, buffer_read_data,
}
use proxy_server_http.Buffer.Fifo.{contents}
use proxy_server_http.Settings.{codes}
use proxy_server_http.Selector.{op_read}
use proxy_server_http.Chunked.{
  available_parser_bytes, Origin, read_unchunked, available_write_bytes,
}
use proxy_server_http.Chunked.Encode.{encode}
use proxy_server_http.Response.{origin_of}
use proxy_server_http.Connection.{Proxy, closed, kill_client}
use proxy_server_http.Connection.Registered.{in_use}
use proxy_server_http.Connection.Kill.{owns, kill_client-owns}
use proxy_server_http.Relay.{origin_loop, FromSocket, origin_write, client_read, ended}
use proxy_server_http.Relay.Drain.{origin_write-sent}
use proxy_server_http.Relay.Arrivals.{Arrived}
use proxy_server_http.Relay.FromOrigin.{origin_loop-Arrived}
use proxy_server_http.Relay.Receive.{recorded, client_read-Got}
use proxy_server_http.Transformation.{write_body}
use proxy_server_http.Transformation.Flush.{logged}
use proxy_server_http.Transformation.Order.{Stream, dry, flows, Relayed, write_body-Relayed}
use proxy_server_http.OriginRead.{is_unlimited, origin_closed}
use proxy_server_http.OriginRead.Closing.{origin_closed-closed}
use proxy_server_http.Tests.Data.{exchange, connected, holding}

-- The client's descriptor is 5 and the origin's 6.
kill_client-owns_example :
    in_use (kill_client connected).selector 6
    ≡ in_use connected.selector 6 && not (owns connected.connection 6)
kill_client-owns_example = kill_client-owns 6 (omega arith) connected

origin_write-sent_example :
    let p' = origin_write (pos 6) connected in
    (p'.origin_sent ≡ connected.origin_sent ++ contents connected.connection.to_origin)
    × (contents p'.connection.to_origin ≡ [])
    × ((p'.selector.fds 5).interest ≡ op_read)
origin_write-sent_example =
    origin_write-sent (pos 6) 5 connected (omega arith) refl (omega arith) refl

-- A socket with bytes to hand over, which then closes.
abbrev hand_over : List ℕ → ℕ → FromSocket × List ℕ
hand_over waiting n = (some (take n waiting), drop n waiting)

client_read-Got_example :
    (sock : List ℕ) × (got : List ℕ) × (((p' : Proxy) × (client_read
            (recorded hand_over)
            false
            (pos 5)
            (codes "abc", [])
            connected
          ≡ ended false (sock, got) p')
        × (contents p'.connection.to_origin ≡ contents connected.connection.to_origin ++ got))
      ⊎ ((p' : Proxy) × (client_read (recorded hand_over) false (pos 5) (codes "abc", []) connected
            ≡ ended true (sock, got) (kill_client p'))
          × (contents p'.connection.to_origin ≡ contents connected.connection.to_origin ++ got)))
client_read-Got_example =
    client_read-Got hand_over (λ s n. omega (arith, length-take n s)) false (pos 5) (codes "abc") []
      connected (omega arith)

-- A response that has finished makes way for the next one.
abbrev finished_before : Proxy
finished_before = record connected {
  connection = record connected.connection {
    exchange = record (exchange (codes "response") (codes "old")) { finished = true };
  };
}

origin_loop-Arrived_example : Arrived false [] [] (
    origin_loop
      (recorded hand_over)
      (buffer_size + 2)
      false
      (pos 6)
      (codes "abc", [])
      finished_before)
unfolding available_parser_bytes buffer_space buffer_count
origin_loop-Arrived_example =
    origin_loop-Arrived hand_over (λ s n. omega (arith, length-take n s)) (pos 6) (codes "abc") []
      finished_before (omega arith)

-- A body without an end of its own, and a pipe that takes two bytes of each `write`.
abbrev plain : Origin
plain = origin_of (exchange [] (codes "abcd"))

abbrev take_two : ℕ → List ℕ → ℕ × ℕ
take_two calls text = (min 2 (length text), calls + 1)

abbrev after_plain : Origin
after_plain = record plain { parser_buff = record plain.parser_buff { read = 4 } }

plain-Stream : Stream 1 1 plain (codes "abcd") after_plain
unfolding read_unchunked buffer_count transfer_size read_loop buffer_read_data next
plain-Stream = flows b'a' (codes "bcd") refl (dry refl)

write_body-Relayed_example :
    Relayed 1 after_plain
      (codes "xyz" ++ codes "abcd")
      (write_body (logged take_two) 2 1 plain (holding (codes "xyz")) (0, []))
unfolding buffer_count next
write_body-Relayed_example =
    write_body-Relayed take_two (λ s text. omega arith) 1 1 2 plain after_plain (codes "abcd")
      (holding (codes "xyz")) 0 [] (omega arith) plain-Stream (omega arith)

origin_closed-closed_example :
    let p' = origin_closed (pos 6) connected in
    (p'.connection.state ≡ closed)
    × (p'.connection.origin_fd ≡ negsuc 0)
    × (in_use p'.selector 6 ≡ false)
    × (contents p'.connection.exchange.write_buff
        ≡ contents connected.connection.exchange.write_buff
          ++ (if is_unlimited connected.connection.exchange then encode [] else []))
unfolding available_write_bytes buffer_space buffer_count
origin_closed-closed_example =
    origin_closed-closed 6 connected (omega arith) (omega arith) refl refl (omega arith)
