-- ===== src/Relay.antt =====
-- The handlers that copy bytes between the sockets and the buffers of a connection: those of the
-- client in bin/proxyClientActiveSocket.c once a request is under way, and those of the origin in
-- bin/proxyOriginActiveSocket.c.
pub mod Drain
pub mod Receive
pub mod Arrivals
pub mod FromOrigin
use proxy_server_http.Base.{
  ℕ, zero, suc, ◌+◌, ◌-◌, ◌^◌, ◌==◌, ltb, if◌then◌else◌, Bool, true, false, not, ◌||◌, ◌&&◌, List,
  [], ◌∷◌, ◌++◌, ℤ, pos, negsuc, Option, none, some, length,
}
use proxy_server_http.Buffer.{
  Buffer, buffer_count, buffer_space, buffer_write_data, buffer_read_data, buffer_reset_peek_line,
}
use proxy_server_http.Settings.{Settings, codes, add_int}
use proxy_server_http.Selector.{op_noop, op_read, op_write}
use proxy_server_http.Chunked.{Origin, available_parser_bytes, is_unset, write_chunked}
use proxy_server_http.Response.{
  Exchange, ParserState, reading_header, reading_body, ssl_connection, origin_of, put_origin,
  reset_exchange, take_header, Copied, copied, failed, out_of_fuel, copy_body, copy_tunnel,
}
use proxy_server_http.Connection.{
  Connection, ConnectionState, Proxy, alive, closed, transformer_must_close, with_connection,
  set_interest, unregister, kill_transformation, kill_origin, kill_client, send_error,
}

-- `while ((ret = buffer_read_data(b, aux, sizeof(aux))) > 0) send(...)`: the bytes offered to `send`, the
-- counter that grows by each `ret`, and the buffer. The answer of `send` is not looked at.
unfoldable pub drain : ℕ → ℕ → Buffer → List ℕ × ℕ × Buffer
drain zero count b = ([], count, b)
drain (suc fuel) count b =
    let (n, text, b') = buffer_read_data b (pos 1000) in
    let (later, count', b'') = drain fuel (add_int count n) b' in
    if n == 0 then ([], count, b') else (text ++ later, count', b'')

-- A round takes a byte at least.
unfoldable pub drain_all : ℕ → Buffer → List ℕ × ℕ × Buffer
unfolding drain
drain_all count b = drain (buffer_count b + 1) count b

abbrev pub is_closed : ConnectionState → Bool
is_closed alive = false
is_closed closed = true
is_closed transformer_must_close = false

-- `proxy_client_active_socket_write`, on the key's descriptor. `none` is an access to memory that has
-- been freed: of `connection_data`, behind `kill_client`.
unfoldable pub send_to_client : Proxy → Proxy
unfolding drain_all
send_to_client p =
    let e = p.connection.exchange in
    let (text, count, b) = drain_all p.settings.bytes_sent e.write_buff in
    record p {
      settings = record p.settings { bytes_sent = count };
      connection = record p.connection { exchange = record e { write_buff = b } };
      client_sent = p.client_sent ++ text;
    }

-- How the handler for a client that is ready for writing ends: it reads the connection's memory, which
-- has been freed, or it returns.
pub data Written : Type 0 where
  use_after_free written : Proxy → Written

unfoldable pub client_write : ℤ → Proxy → Written
unfolding send_to_client kill_client set_interest
client_write fd p =
    let p1 = send_to_client p in
    let p2 = if is_closed p1.connection.state then kill_client p1 else p1 in
    let p3 = set_interest fd op_read p2 in
    let c = p3.connection in
    let source =
      if is_unset c.client_transformation_fd then c.origin_fd else c.client_transformation_fd in
    if p3.freed then use_after_free p3 else written (set_interest source op_read p3)

-- `proxy_origin_active_socket_write`
unfoldable pub send_to_origin : Proxy → Proxy
unfolding drain_all
send_to_origin p =
    let (text, _, b) = drain_all 0 p.connection.to_origin in
    record p {
      connection = record p.connection { to_origin = b };
      origin_sent = p.origin_sent ++ text;
    }

unfoldable pub origin_write : ℤ → Proxy → Proxy
unfolding send_to_origin set_interest
origin_write fd p =
    set_interest p.connection.client_fd op_read (set_interest fd op_read (send_to_origin p))

-- What `recv` gives: -1, or the bytes stored; no bytes is 0.
abbrev pub FromSocket : Type 0
FromSocket = Option (List ℕ)

-- `sizeof(aux) > space ? space : sizeof(aux)`
abbrev pub bytes_to_send : ℕ → ℕ
bytes_to_send space = if ltb space 1000 then space else 1000

abbrev pub count_received : ℕ → Proxy → Proxy
count_received n p = record p {
  settings = record p.settings { bytes_received = add_int p.settings.bytes_received n };
}

-- How a loop over `recv` ends: without fuel, or with the question whether `ret` is 0.
pub data Ended (S : Type 0) : Type 0 where
  no_fuel : Ended S
  ended : Bool → S → Proxy → Ended S

-- `reset_origin_data`
abbrev pub reset_origin_data : Proxy → Proxy
reset_origin_data p =
    with_connection (λ c. record c { exchange = reset_exchange c.ssl c.exchange })
      (kill_transformation p)

abbrev pub store_response : List ℕ → Proxy → Proxy
store_response text = with_connection (λ c. record c {
  exchange = record c.exchange {
    parser_buff = (buffer_write_data c.exchange.parser_buff text (pos (length text))).1;
  };
})

-- `recv` on a socket of which `S` is what the system and the peer make of it.
module _ {S : Type 0} (recv : S → ℕ → FromSocket × S) where
  -- A round of the client's loop, behind `recv`. The counter grows by -1 where `recv` fails.
  abbrev pub on_client_bytes : (S → Proxy → Ended S) → FromSocket → S → Proxy → Ended S
  on_client_bytes more none s p = ended false s (count_received (2 ^ 32 - 1) p)
  on_client_bytes more (some []) s p = ended true s p
  on_client_bytes more (some (x ∷ xs)) s p =
      let text = x ∷ xs in
      let p1 = count_received (length text) p in
      more s (
        with_connection
          (λ c. record c { to_origin = (buffer_write_data c.to_origin text (pos (length text))).1 })
          p1)

  -- `stale` is whether `ret` is 0 ahead of the round: ahead of the first one it has not been set.
  unfoldable pub client_loop : ℕ → Bool → ℤ → S → Proxy → Ended S
  client_loop zero stale fd s p = no_fuel
  client_loop (suc fuel) stale fd s p =
      let n = bytes_to_send (buffer_space p.connection.to_origin) in
      let (ret, s') = recv s n in
      if n == 0
      then ended stale s (set_interest fd op_noop p)
      else on_client_bytes (client_loop fuel false fd) ret s' p

  -- `proxy_client_active_socket_read` where the content is passed on, and no tunnel is to be opened.
  abbrev pub on_client_end : Ended S → Ended S
  on_client_end no_fuel = no_fuel
  on_client_end (ended zero_bytes s p) =
      if zero_bytes
      then ended true s (kill_client p)
      else ended false s (set_interest p.connection.origin_fd op_write p)

  unfoldable pub client_read : Bool → ℤ → S → Proxy → Ended S
  unfolding client_loop
  client_read stale fd s p =
      on_client_end (client_loop (buffer_space p.connection.to_origin + 2) stale fd s p)

  -- A round of the origin's loop, behind `recv`, with `dataToParse` to go on with.
  abbrev pub on_origin_bytes :
      (S → Proxy → Bool × Ended S) → Bool → FromSocket → S → Proxy → Bool × Ended S
  on_origin_bytes more parse none s p = (parse, ended false s p)
  on_origin_bytes more parse (some []) s p = (parse, ended true s p)
  on_origin_bytes more parse (some (x ∷ xs)) s p =
      more s (
        store_response (x ∷ xs) (if p.connection.exchange.finished then reset_origin_data p else p))

  unfoldable pub origin_loop : ℕ → Bool → ℤ → S → Proxy → Bool × Ended S
  origin_loop zero parse fd s p = (parse, no_fuel)
  origin_loop (suc fuel) parse fd s p =
      let n = bytes_to_send (available_parser_bytes (origin_of p.connection.exchange)) in
      let (ret, s') = recv s n in
      if n == 0
      then (parse, ended false s (set_interest fd op_noop p))
      else on_origin_bytes (origin_loop fuel true fd) parse ret s' p
