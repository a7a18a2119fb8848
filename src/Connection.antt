-- ===== src/Connection.antt =====
-- A connection: bin/include/connectionData.h, the data of the three kinds of handlers
-- (bin/proxyClientActiveSocket.c, bin/proxyOriginActiveSocket.c, bin/proxyTransformation.c), and the
-- functions that end it.
--
-- The client's buffers are the origin's, the other way round: what the client names `write_buff` and
-- the origin `read_buff` is `to_origin` here, and the other one is `write_buff` of the exchange.
pub mod Registered
pub mod Kill
use proxy_server_http.Base.{
  ℕ, zero, suc, ◌+◌, ◌-◌, ◌^◌, ◌==◌, ltb, if◌then◌else◌, Bool, true, false, not, ◌||◌, ◌&&◌, List,
  [], ◌∷◌, ◌++◌, ℤ, pos, negsuc, Option, none, some, length,
}
use proxy_server_http.Buffer.{Buffer, new_buffer}
use proxy_server_http.Settings.{Settings, codes, add_int}
use proxy_server_http.Chunked.{is_unset}
use proxy_server_http.Request.{SslState}
use proxy_server_http.Response.{Exchange}
use proxy_server_http.Page.{error_page}
use proxy_server_http.Selector.{FdSelector, selector_unregister_fd, selector_set_interest}

-- The tables of callbacks.
pub data Handler : Type 0 where
  client_handler origin_handler transformation_handler : Handler

-- `connection_states`
pub data ConnectionState : Type 0 where
  alive closed transformer_must_close : ConnectionState

-- `client_states`
pub data ClientState : Type 0 where
  reading_header_first_line searching_for_header_host connecting passing_content : ClientState

-- `proxy_client_active_socket_data`, without its buffers
pub record Client : Type 0 where
  pub hostname : List ℕ
  pub port : ℕ
  pub state : ClientState
  pub ssl : SslState

-- `proxy_transformation_data`: the ends of the pipes that are open once the command runs, -1 where
-- they are closed, and the bytes that the pipe did not take.
pub record Transformation : Type 0 where
  pub origin_write : ℤ
  pub client_read : ℤ
  pub tmp_buff : Buffer

-- `connection_data`, with what it leads to. `origin` is whether `origin_data` is not null.
pub record Connection : Type 0 where
  pub client_fd : ℤ
  pub client : Client
  pub to_origin : Buffer
  pub origin_fd : ℤ
  pub origin : Bool
  pub exchange : Exchange
  pub client_transformation_fd : ℤ
  pub origin_transformation_fd : ℤ
  pub transformation : Option Transformation
  pub ssl : Bool
  pub state : ConnectionState

-- The key's data always leads to the one connection.
abbrev pub Multiplexer : Type 0
Multiplexer = FdSelector Handler (Unit {0})

-- All that the handlers of a connection change: the selector, the settings' counters, the connection,
-- whether its memory has been freed, and the bytes offered to `send` on the two sockets so far.
pub record Proxy : Type 0 where
  pub selector : Multiplexer
  pub settings : Settings
  pub connection : Connection
  pub freed : Bool
  pub client_sent : List ℕ
  pub origin_sent : List ℕ

abbrev pub with_connection : (Connection → Connection) → Proxy → Proxy
with_connection f p = record p { connection = f p.connection }

-- `selector_set_interest`, the answer unused
unfoldable pub set_interest : ℤ → ℕ → Proxy → Proxy
unfolding selector_set_interest
set_interest fd interest p = record p {
  selector = (selector_set_interest p.selector fd interest).1;
}

-- `selector_unregister_fd`: the three `handle_close` only close the descriptor.
unfoldable pub unregister : ℤ → Proxy → Proxy
unfolding selector_unregister_fd
unregister fd p = record p {
  selector = (selector_unregister_fd (λ h fd' user s. s) p.selector fd).1;
}

abbrev pub unregister_open : ℤ → Proxy → Proxy
unregister_open fd p = if is_unset fd then p else unregister fd p

abbrev pub forget_transformation : Connection → Connection
forget_transformation c = record c {
  transformation = none;
  client_transformation_fd = negsuc 0;
  origin_transformation_fd = negsuc 0;
}

abbrev pub close_pipes : Option Transformation → Proxy → Proxy
close_pipes none p = p
close_pipes (some t) p =
    with_connection forget_transformation
      (unregister_open t.origin_write (unregister_open t.client_read p))

unfoldable pub kill_transformation : Proxy → Proxy
unfolding unregister
kill_transformation p = close_pipes p.connection.transformation p

abbrev pub is_alive : ConnectionState → Bool
is_alive alive = true
is_alive closed = false
is_alive transformer_must_close = false

abbrev pub forget_origin : Connection → Connection
forget_origin c = record c { origin = false; origin_fd = negsuc 0 }

unfoldable pub kill_origin : Proxy → Proxy
unfolding kill_transformation
kill_origin p =
    let p1 = kill_transformation p in
    let p2 = if is_alive p1.connection.state then unregister p1.connection.origin_fd p1 else p1 in
    if p.connection.origin then with_connection forget_origin p2 else p

-- `int` subtraction of 1, on bit patterns
abbrev pub minus_one : ℕ → ℕ
minus_one n = add_int n (2 ^ 32 - 1)

unfoldable pub kill_client : Proxy → Proxy
unfolding kill_origin
kill_client p =
    let p1 = kill_origin p in
    let p2 = unregister p1.connection.client_fd p1 in
    record p2 {
      settings = record p2.settings {
        current_connections = minus_one p2.settings.current_connections;
      };
      freed = true;
    }

-- `send_error`, with the text of the time
unfoldable pub send_error : List ℕ → ℕ → List ℕ → List ℕ → Proxy → Proxy
unfolding error_page kill_client
send_error date status title text p =
    kill_client (record p { client_sent = p.client_sent ++ error_page status title none text date })
