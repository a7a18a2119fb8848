-- ===== src/OriginRead.antt =====
-- `proxy_origin_active_socket_read` and `parse_content` of bin/proxyOriginActiveSocket.c, whole: what
-- is received from the origin, what comes of it, and the end of the origin's connection.
pub mod Closing
use proxy_server_http.Base.{
  ℕ, ◌+◌, ◌==◌, if◌then◌else◌, Bool, true, false, not, ◌||◌, ◌&&◌, List, [], ◌∷◌, ℤ, pos, negsuc,
  Option, none, some,
}
use proxy_server_http.Buffer.{buffer_size}
use proxy_server_http.Settings.{codes}
use proxy_server_http.Selector.{op_write}
use proxy_server_http.Chunked.{is_unset, write_chunked}
use proxy_server_http.Response.{
  Exchange, ParserState, reading_header, reading_body, ssl_connection, take_header, Copied, copied,
  failed, out_of_fuel, copy_body, copy_tunnel,
}
use proxy_server_http.Connection.{
  Connection, Proxy, closed, transformer_must_close, with_connection, set_interest, unregister,
  kill_origin, send_error,
}
use proxy_server_http.Relay.{FromSocket, Ended, no_fuel, ended, origin_loop}
use proxy_server_http.Transformation.{
  Pipes, Begin, no_match, died, begun, proxy_transformation_data_init, with_origin,
}

abbrev pub with_exchange : (Exchange → Exchange) → Proxy → Proxy
with_exchange f = with_connection (λ c. record c { exchange = f c.exchange })

abbrev pub wake_client : Proxy → Proxy
wake_client p = set_interest p.connection.client_fd op_write p

-- How `parse_content` ends: a loop ran out of fuel, the program has ended, or a return of -1, or not.
pub data Parsed : Type 0 where
  stuck : Parsed
  exited : List ℕ → Parsed
  unexpected parsed : Proxy → Parsed

-- The header, and the start of the transformation where it has ended.
abbrev pub header_read : Begin → Begin
header_read no_match = no_match
header_read (died text) = died text
header_read (begun p) = begun (wake_client p)

abbrev pub is_reading_body : ParserState → Bool
is_reading_body reading_header = false
is_reading_body reading_body = true
is_reading_body ssl_connection = false

unfoldable pub parse_header : ℕ → Pipes → Proxy → Begin
unfolding take_header proxy_transformation_data_init set_interest
parse_header media_fuel pipes p =
    let p1 = with_exchange take_header p in
    header_read (
      if is_reading_body p1.connection.exchange.state
      then proxy_transformation_data_init media_fuel pipes p1
      else begun p1)

-- The body, in chunks to the client where no command runs.
abbrev pub body_copied : Proxy → Copied → Parsed
body_copied p out_of_fuel = stuck
body_copied p (failed e) = unexpected (with_exchange (λ _. e) p)
body_copied p (copied e) = parsed (wake_client (with_exchange (λ _. e) p))

unfoldable pub parse_body : ℕ → ℕ → Proxy → Parsed
unfolding copy_body set_interest
parse_body fuel inner p =
    if is_unset p.connection.origin_transformation_fd
    then body_copied p (copy_body fuel inner p.connection.exchange)
    else parsed (set_interest p.connection.origin_transformation_fd op_write p)

-- The second and the third test, by the state behind the first.
abbrev pub parse_rest : ℕ → ℕ → ParserState → Proxy → Parsed
parse_rest fuel inner reading_header p = parsed p
parse_rest fuel inner reading_body p = parse_body fuel inner p
parse_rest fuel inner ssl_connection p = parsed (wake_client (with_exchange copy_tunnel p))

abbrev pub parse_behind : ℕ → ℕ → Begin → Parsed
parse_behind fuel inner no_match = stuck
parse_behind fuel inner (died text) = exited text
parse_behind fuel inner (begun p) = parse_rest fuel inner p.connection.exchange.state p

unfoldable pub parse_content : ℕ → ℕ → ℕ → Pipes → Proxy → Parsed
unfolding parse_header parse_body copy_tunnel
parse_content fuel inner media_fuel pipes p = elim p.connection.exchange.state [
  | reading_header ↦ parse_behind fuel inner (parse_header media_fuel pipes p)
  | reading_body ↦ parse_rest fuel inner reading_body p
  | ssl_connection ↦ parse_rest fuel inner ssl_connection p
]

-- `if (ret == 0)`: the origin has closed.
abbrev pub set_state_closed : Proxy → Proxy
set_state_closed = with_connection (λ c. record c { state = closed })

-- Neither a length nor chunks: the end of the body is that of the connection.
abbrev pub is_unlimited : Exchange → Bool
is_unlimited e = not e.facts.parser.chunk_enabled && is_unset e.facts.parser.content_length

abbrev pub end_chunk : Proxy → Proxy
end_chunk p =
    if is_unlimited p.connection.exchange then with_origin (λ o. write_chunked o [] 0) p else p

-- Without a transformation, and with one.
unfoldable pub close_directly : Proxy → Proxy
unfolding kill_origin set_interest write_chunked
close_directly p = wake_client (kill_origin (set_state_closed (end_chunk p)))

unfoldable pub close_through : Proxy → Proxy
unfolding set_interest
close_through p =
    with_connection (λ k. record k { state = transformer_must_close })
      (set_interest p.connection.origin_transformation_fd op_write
        (with_exchange (λ e. record e { finished = true }) p))

unfoldable pub origin_closed : ℤ → Proxy → Proxy
unfolding close_directly close_through unregister
origin_closed fd p =
    unregister fd
      (if is_unset p.connection.origin_transformation_fd then close_directly p else close_through p)

-- How the handler ends: a loop ran out of fuel, the program has ended, or it returns, with whether
-- `ret` is 0.
pub data ReadEnd (S : Type 0) : Type 0 where
  out_of_rounds : ReadEnd S
  ended_program : List ℕ → ReadEnd S
  returned : Bool → S → Proxy → ReadEnd S

module _ {S : Type 0} (recv : S → ℕ → FromSocket × S) where
  abbrev pub behind_parse : List ℕ → ℤ → Bool → S → Parsed → ReadEnd S
  behind_parse date fd zero_bytes s stuck = out_of_rounds
  behind_parse date fd zero_bytes s (exited text) = ended_program text
  behind_parse date fd zero_bytes s (unexpected p) =
      returned zero_bytes s
        (send_error date 500 (codes "Internal server error") (codes "Unexpected body format") p)
  behind_parse date fd zero_bytes s (parsed p) =
      returned zero_bytes s (if zero_bytes then origin_closed fd p else p)

  abbrev pub behind_loop : (Proxy → Parsed) → List ℕ → ℤ → Bool → Ended S → ReadEnd S
  behind_loop parse date fd to_parse no_fuel = out_of_rounds
  behind_loop parse date fd to_parse (ended zero_bytes s p) =
      behind_parse date fd zero_bytes s (if to_parse then parse p else parsed p)

  -- `ret` is -1 ahead of the loop, so that a full buffer is not taken for an end.
  unfoldable pub origin_read : ℕ → ℕ → ℕ → Pipes → List ℕ → ℤ → S → Proxy → ReadEnd S
  unfolding origin_loop parse_content origin_closed send_error
  origin_read fuel inner media_fuel pipes date fd s p =
      let (to_parse, r) = origin_loop recv (buffer_size + 2) false fd s p in
      behind_loop (parse_content fuel inner media_fuel pipes) date fd to_parse r
