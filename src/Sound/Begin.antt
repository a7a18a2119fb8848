-- ===== src/Sound/Begin.antt =====
-- The beginning of a connection (bin/proxyPassiveSocket.c, bin/proxyClientActiveSocket.c and
-- bin/proxyOriginActiveSocket.c) makes a sound state and keeps it.
use proxy_server_http.Base.{
  ℕ, refl, Bool, true, false, not, if_either, List, [], ℤ, negsuc, Option, none, some,
}
use proxy_server_http.Buffer.{new_buffer, buffer_reset_peek_line}
use proxy_server_http.Buffer.Fifo.{new_buffer-IsValid}
use proxy_server_http.Buffer.Counts.{reset-IsValid}
use proxy_server_http.Settings.{Settings, codes}
use proxy_server_http.Selector.{Status, success, op_read, op_write, selector_register}
use proxy_server_http.Selector.Table.{WellFormed}
use proxy_server_http.Selector.Runs.{notify-WellFormed}
use proxy_server_http.Connection.{
  client_handler, origin_handler, Proxy, Multiplexer, passing_content, with_connection,
  set_interest,
}
use proxy_server_http.ClientRead.{with_client, server_error}
use proxy_server_http.Accept.{
  Memory, new_connection, count_client, client_data_init, accept_client, Addresses, connect_loop,
  after_connect, open_origin_socket, origin_data_init, is_tunnel, answer_connect, register_origin,
  client_block, greater_int,
}
use proxy_server_http.Sound.{Sound, set_interest-Sound, register-Sound, send_error-Sound}
use proxy_server_http.Sound.OriginLoop.{reset_origin_data-Live}
use proxy_server_http.Sound.ClientSocket.{set_to_origin-Sound, with_client-Sound}
use proxy_server_http.Sound.ClientRequest.{server_error-Sound, process_ssl-Sound, by_ssl}

-- A new client, in a consistent table.
pub client_data_init-Sound :
    (date : List ℕ) (memory : Memory) (s : Multiplexer) (settings : Settings) (client_fd : ℤ)
    → WellFormed s
    → Sound (client_data_init date memory s settings client_fd).1
unfolding client_data_init
client_data_init-Sound date memory s settings client_fd w =
    let made : Proxy = record {
      selector = s;
      settings = count_client settings;
      connection = new_connection client_fd memory;
      freed = false;
      client_sent = [];
      origin_sent = [];
    } in
    let k : Sound made = record {
      table = w;
      buffers = record {
        to_origin = new_buffer-IsValid memory.to_origin;
        to_client = new_buffer-IsValid memory.to_client;
        parser = λ e. absurd (cc);
        pipe = tt;
      };
    } in
    if_either (λ (r : Bool × Proxy). Sound (r.1))
      (greater_int made.settings.current_connections settings.max_connections)
      (server_error-Sound date (codes "Proxy is too busy") made k) k

pub accept_client-Sound :
    (date : List ℕ) (memory : Memory) (s : Multiplexer) (settings : Settings) (client_fd : ℤ)
    → WellFormed s
    → Sound (accept_client date memory s settings client_fd).1
unfolding accept_client
accept_client-Sound date memory s settings client_fd w =
    let (made, p) = client_data_init date memory s settings client_fd in
    let k = client_data_init-Sound date memory s settings client_fd w in
    if_either (λ (r : Bool × Proxy). Sound (r.1)) made
      (register-Sound client_fd client_handler op_read p k) k

after_connect-Sound :
    (date : List ℕ) (fd : ℕ) (socket : Option ℕ) (p : Proxy)
    → Sound p
    → Sound (after_connect date fd socket p)
after_connect-Sound date fd none p k =
    send_error-Sound date 503 (codes "Service Unavailable") (codes "Connection refused.") p k
after_connect-Sound date fd (some sockfd) p k = record {
  table = notify-WellFormed true p.selector fd k.table;
  buffers = record {
    to_origin = k.buffers.to_origin;
    to_client = k.buffers.to_client;
    parser = k.buffers.parser;
    pipe = k.buffers.pipe;
  };
}

pub open_origin_socket-Sound :
    (date : List ℕ) (fd : ℕ) (addresses : Option Addresses) (p : Proxy)
    → Sound p
    → Sound (open_origin_socket date fd addresses p)
unfolding open_origin_socket
open_origin_socket-Sound date fd none p k =
    send_error-Sound date 404 (codes "Not Found") (codes "Unknown host.") p k
open_origin_socket-Sound date fd (some addresses) p k =
    after_connect-Sound date fd (connect_loop addresses) p k

-- The origin's data: there is an origin from here on.
origin_data_init-Sound : (memory : ℕ → ℕ) (p : Proxy) → Sound p → Sound (origin_data_init memory p)
unfolding origin_data_init
origin_data_init-Sound memory p k =
    let q =
      with_connection
        (λ c. record c {
          origin = true;
          exchange = record c.exchange { parser_buff = new_buffer memory };
          origin_transformation_fd = negsuc 0;
          transformation = none;
        })
        p in
    (reset_origin_data-Live q (record {
      sound = record {
        table = k.table;
        buffers = record {
          to_origin = k.buffers.to_origin;
          to_client = k.buffers.to_client;
          parser = λ _. new_buffer-IsValid memory;
          pipe = tt;
        };
      };
      origin = refl;
    })).0.sound

answer_connect-Sound : (p : Proxy) → Sound p → Sound (answer_connect p)
answer_connect-Sound p k =
    by_ssl p.connection.client.ssl
      (process_ssl-Sound _ (
        set_to_origin-Sound (buffer_reset_peek_line p.connection.to_origin) p
          (reset-IsValid k.buffers.to_origin) k))
      k

by_status :
    (status : Status) {a b : Proxy}
    → Sound a
    → Sound b
    → Sound (elim status [ success ↦ a | _ ↦ b ])
by_status success x y = x
by_status Status.enomem x y = y
by_status Status.maxfd x y = y
by_status Status.iargs x y = y
by_status Status.fdinuse x y = y
by_status Status.io x y = y

register_origin-Sound : (date : List ℕ) (p : Proxy) → Sound p → Sound (register_origin date p)
register_origin-Sound date p k =
    let (status, s) =
      selector_register true p.selector p.connection.origin_fd (some origin_handler) op_write tt in
    let p1 = record p { selector = s } in
    let k1 = register-Sound p.connection.origin_fd origin_handler op_write p k in
    by_status status k1 (server_error-Sound date (codes "Fatal error") p1 k1)

by_memory :
    (memory : Option (ℕ → ℕ)) (a : Proxy) (b : (ℕ → ℕ) → Proxy)
    → Sound a
    → ((m : ℕ → ℕ) → Sound (b m))
    → Sound (elim memory [ none ↦ a | some m ↦ b m ])
by_memory none a b x y = x
by_memory (some m) a b x y = y m

pub client_block-Sound :
    (date : List ℕ) (nio : Bool) (memory : Option (ℕ → ℕ)) (fd : ℤ) (p : Proxy)
    → Sound p
    → Sound (client_block date nio memory fd p)
unfolding client_block
client_block-Sound date nio memory fd p k =
    let p0 = with_client (λ c. record c { state = passing_content }) p in
    let p1 = set_interest fd op_read p0 in
    let k1 =
      set_interest-Sound fd op_read p0
        (with_client-Sound (λ c. record c { state = passing_content }) p k) in
    let p2 = with_connection (λ c. record c { ssl = is_tunnel c.client.ssl }) p1 in
    let k2 : Sound p2 = record {
      table = k1.table;
      buffers = record {
        to_origin = k1.buffers.to_origin;
        to_client = k1.buffers.to_client;
        parser = k1.buffers.parser;
        pipe = k1.buffers.pipe;
      };
    } in
    if_either Sound (not nio) (server_error-Sound date (codes "Fatal error") p1 k1) (
      by_memory memory (server_error date (codes "Ran out of memory") p2)
        (λ m. register_origin date (answer_connect (origin_data_init m p2)))
        (server_error-Sound date (codes "Ran out of memory") p2 k2)
        (λ m.
          register_origin-Sound date _ (answer_connect-Sound _ (origin_data_init-Sound m p2 k2))))
