-- ===== src/Accept.antt =====
-- How a connection begins: the data of a new client and of its origin, the thread that connects to
-- the origin and the handler that is told of it (bin/proxyClientActiveSocket.c,
-- bin/proxyOriginActiveSocket.c), and the acceptance of a client (bin/proxyPassiveSocket.c).
pub mod Limit
pub mod Clients
pub mod Passive
pub mod Sessions
use proxy_server_http.Base.{
  ℕ, zero, suc, ◌+◌, ◌%◌, ◌^◌, ◌==◌, ltb, if◌then◌else◌, Bool, true, false, not, List, [], ◌∷◌,
  ◌++◌, ℤ, pos, negsuc, Option, none, some,
}
use proxy_server_http.Buffer.{new_buffer, buffer_reset_peek_line}
use proxy_server_http.Settings.{Settings, codes, add_int}
use proxy_server_http.Selector.{
  success, FdSelector, op_read, op_write, selector_register, selector_notify_block,
}
use proxy_server_http.Request.{SslState, no_ssl, ssl_connecting, ssl_ok}
use proxy_server_http.Response.{Exchange, reset_exchange}
use proxy_server_http.Connection.{
  Handler, client_handler, origin_handler, Client, ClientState, reading_header_first_line,
  passing_content, Connection, alive, Multiplexer, Proxy, with_connection, set_interest, send_error,
  kill_transformation,
}
use proxy_server_http.Relay.{reset_origin_data}
use proxy_server_http.ClientRead.{with_client, server_error, process_ssl}

-- `a > b` on `int`s, as bit patterns
abbrev pub greater_int : ℕ → ℕ → Bool
greater_int a b = ltb ((b + 2 ^ 31) % 2 ^ 32) ((a + 2 ^ 31) % 2 ^ 32)

-- What `malloc` leaves where nothing is assigned: the two buffers' memory, the facts of a response
-- and the client's target.
pub record Memory : Type 0 where
  pub to_origin : ℕ → ℕ
  pub to_client : ℕ → ℕ
  pub exchange : Exchange
  pub client : Client
  pub ssl : Bool

abbrev pub new_connection : ℤ → Memory → Connection
new_connection client_fd memory = record {
  client_fd = client_fd;
  client = record memory.client { state = reading_header_first_line };
  to_origin = new_buffer memory.to_origin;
  origin_fd = negsuc 0;
  origin = false;
  exchange = record memory.exchange { write_buff = new_buffer memory.to_client };
  client_transformation_fd = negsuc 0;
  origin_transformation_fd = negsuc 0;
  transformation = none;
  ssl = memory.ssl;
  state = alive;
}

abbrev pub count_client : Settings → Settings
count_client s = record s {
  current_connections = add_int s.current_connections 1;
  total_connections = add_int s.total_connections 1;
}

-- `proxy_client_active_socket_data_init`, where `malloc` gives memory: whether it returns the data, or
-- a null pointer behind an answer that the proxy is too busy.
unfoldable pub client_data_init : List ℕ → Memory → Multiplexer → Settings → ℤ → Bool × Proxy
unfolding new_buffer send_error
client_data_init date memory s settings client_fd =
    let p : Proxy = record {
      selector = s;
      settings = count_client settings;
      connection = new_connection client_fd memory;
      freed = false;
      client_sent = [];
      origin_sent = [];
    } in
    if greater_int p.settings.current_connections settings.max_connections
    then (false, server_error date (codes "Proxy is too busy") p)
    else (true, p)

-- The calls of `proxy_passive_socket_read` that reach the selector, for a descriptor that `accept` gave
-- and that was set to non-blocking. Whether the client was registered.
unfoldable pub accept_client : List ℕ → Memory → Multiplexer → Settings → ℤ → Bool × Proxy
unfolding client_data_init selector_register
accept_client date memory s settings client_fd =
    let (made, p) = client_data_init date memory s settings client_fd in
    let (status, s') =
      selector_register true p.selector client_fd (some client_handler) op_read tt in
    if made
    then (elim status [ success ↦ true | _ ↦ false ], record p { selector = s' })
    else (false, p)

-- The addresses of a host, each with what `socket` gives (`none` for -1) and whether `connect` succeeds.
abbrev pub Addresses : Type 0
Addresses = List (Option ℕ × Bool)

-- The loop over them, up to the first that connects.
unfoldable pub connect_loop : Addresses → Option ℕ
connect_loop [] = none
connect_loop ((none, connects) ∷ rest) = connect_loop rest
connect_loop ((some sockfd, connects) ∷ rest) = if connects then some sockfd else connect_loop rest

abbrev pub after_connect : List ℕ → ℕ → Option ℕ → Proxy → Proxy
after_connect date fd none p =
    send_error date 503 (codes "Service Unavailable") (codes "Connection refused.") p
after_connect date fd (some sockfd) p =
    let p1 = with_connection (λ c. record c { origin_fd = pos sockfd }) p in
    record p1 { selector = (selector_notify_block true p1.selector fd).1 }

-- `open_origin_socket`, from what `getaddrinfo` gives on.
unfoldable pub open_origin_socket : List ℕ → ℕ → Option Addresses → Proxy → Proxy
unfolding connect_loop send_error selector_notify_block
open_origin_socket date fd none p =
    send_error date 404 (codes "Not Found") (codes "Unknown host.") p
open_origin_socket date fd (some addresses) p = after_connect date fd (connect_loop addresses) p

-- `proxy_origin_active_socket_data_init`
unfoldable pub origin_data_init : (ℕ → ℕ) → Proxy → Proxy
unfolding new_buffer reset_exchange kill_transformation
origin_data_init memory p = reset_origin_data (
    with_connection
      (λ c. record c {
        origin = true;
        exchange = record c.exchange { parser_buff = new_buffer memory };
        origin_transformation_fd = negsuc 0;
        transformation = none;
      })
      p)

abbrev pub is_tunnel : SslState → Bool
is_tunnel no_ssl = false
is_tunnel ssl_connecting = true
is_tunnel ssl_ok = true

abbrev pub answer_connect : Proxy → Proxy
answer_connect p = elim p.connection.client.ssl [
  | ssl_connecting ↦
      process_ssl
        (with_connection (λ c. record c { to_origin = buffer_reset_peek_line c.to_origin }) p)
  | _ ↦ p
]

-- The origin's descriptor is registered.
abbrev pub register_origin : List ℕ → Proxy → Proxy
register_origin date p =
    let (status, s) =
      selector_register true p.selector p.connection.origin_fd (some origin_handler) op_write tt in
    let p1 = record p { selector = s } in
    elim status [ success ↦ p1 | _ ↦ server_error date (codes "Fatal error") p1 ]

-- `proxy_client_active_socket_block`; `nio` is whether `selector_fd_set_nio` succeeds, and `memory` that
-- of the parser's buffer, where there is some.
unfoldable pub client_block : List ℕ → Bool → Option (ℕ → ℕ) → ℤ → Proxy → Proxy
unfolding origin_data_init process_ssl selector_register send_error buffer_reset_peek_line
client_block date nio memory fd p =
    let p1 = set_interest fd op_read (with_client (λ c. record c { state = passing_content }) p) in
    let p2 = with_connection (λ c. record c { ssl = is_tunnel c.client.ssl }) p1 in
    if not nio then server_error date (codes "Fatal error") p1 else elim memory [
      | none ↦ server_error date (codes "Ran out of memory") p2
      | some m ↦ register_origin date (answer_connect (origin_data_init m p2))
    ]
