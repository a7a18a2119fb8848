-- ===== src/ClientRead.antt =====
-- The reading of a request in bin/proxyClientActiveSocket.c, up to the connection to the origin: the
-- states of a client that are not yet passing content, and the answer to `CONNECT`.
pub mod FirstRequest
use proxy_server_http.Base.{
  ℕ, zero, suc, ◌+◌, ◌==◌, if◌then◌else◌, Bool, true, false, ◌||◌, ◌&&◌, List, [], ◌∷◌, ◌++◌, ℤ,
  pos, negsuc, Option, none, some, length,
}
use proxy_server_http.Buffer.{
  Buffer, buffer_count, buffer_write_data, buffer_read_data, buffer_peek_line, buffer_clean,
}
use proxy_server_http.Settings.{codes}
use proxy_server_http.Selector.{op_noop}
use proxy_server_http.Protocol.{c_string, positive}
use proxy_server_http.Request.{
  SslState, no_ssl, ssl_connecting, ssl_ok, Found, no_target, target, bad_request, parse_first_line,
  parse_host_line,
}
use proxy_server_http.Response.{is_blank_line}
use proxy_server_http.Connection.{
  Client, ClientState, reading_header_first_line, searching_for_header_host, connecting,
  passing_content, Connection, Proxy, with_connection, set_interest, kill_client, send_error,
}
use proxy_server_http.Relay.{FromSocket, Ended, no_fuel, ended, count_received, client_read}

abbrev pub with_client : (Client → Client) → Proxy → Proxy
with_client f = with_connection (λ c. record c { client = f c.client })

-- What a read event does besides reading: whether `malloc` gives memory for the thread's key, and
-- whether `pthread_create` answers -1.
pub data Thread : Type 0 where
  no_memory not_created created : Thread

abbrev pub refuse : List ℕ → List ℕ → Proxy → Proxy
refuse date text = send_error date 400 (codes "Bad Request") text

abbrev pub server_error : List ℕ → List ℕ → Proxy → Proxy
server_error date text = send_error date 500 (codes "Internal server error") text

-- The thread that opens the socket to the origin is started.
unfoldable pub open_target : List ℕ → ℤ → Thread → List ℕ → ℕ → SslState → Proxy → Proxy
unfolding send_error set_interest
open_target date fd thread hostname port ssl p =
    let p1 = with_client (λ c. record c { hostname = hostname; port = port; ssl = ssl }) p in
    elim thread [
      | no_memory ↦ server_error date (codes "Ran out of memory") p1
      | not_created ↦ server_error date (codes "Couldn't process request") p1
      | created ↦ with_client (λ c. record c { state = connecting }) (set_interest fd op_noop p1)
    ]

-- What a line has led to. Only the first line moves on to the search for a host.
abbrev pub act : List ℕ → ℤ → Thread → Bool → Found → Proxy → Proxy
act date fd thread first no_target p =
    if first
    then with_client (λ c. record c { state = searching_for_header_host; ssl = no_ssl }) p
    else p
act date fd thread first (target hostname port ssl) p =
    open_target date fd thread hostname port ssl p
act date fd thread first (bad_request text) p = refuse date text p

abbrev pub line_target : Bool → List ℕ → Found
line_target first line = if first then parse_first_line line else parse_host_line line

-- What was peeked: -1 is refused, and 0 waits for more.
abbrev pub take_peeked : List ℕ → ℤ → Thread → Bool → ℤ → List ℕ → Buffer → Proxy → Proxy
take_peeked date fd thread first (negsuc _) aux b p =
    refuse date (codes "Can't parse request.") (with_connection (λ c. record c { to_origin = b }) p)
take_peeked date fd thread first (pos zero) aux b p =
    with_connection (λ c. record c { to_origin = b }) p
take_peeked date fd thread first (pos (suc n)) aux b p =
    act date fd thread first (line_target first (c_string aux))
      (with_connection (λ c. record c { to_origin = b }) p)

unfoldable pub peek_request_line : List ℕ → ℤ → Thread → Bool → Proxy → Proxy
unfolding open_target parse_first_line parse_host_line
peek_request_line date fd thread first p =
    let (ret, aux, b) = buffer_peek_line p.connection.to_origin 1000 in
    take_peeked date fd thread first ret aux b p

-- The lines up to a blank one are dropped. Whether there was one, and the buffer.
unfoldable pub skip_header : ℕ → Buffer → Bool × Buffer
skip_header zero b = (false, b)
skip_header (suc fuel) b =
    let (ret, aux, b1) = buffer_peek_line b 1000 in
    let (n, line, b2) = buffer_read_data b1 ret in
    let later = skip_header fuel b2 in
    if positive ret then (if is_blank_line line then (true, b2) else later) else (false, b2)

-- `process_ssl`, which ends with an answer to the client where the header has come whole.
abbrev pub established : List ℕ
established = codes "HTTP/1.0 200 Connection established\r\n\r\n"

unfoldable pub process_ssl : Proxy → Proxy
unfolding skip_header
process_ssl p =
    let (whole, b) = skip_header (buffer_count p.connection.to_origin + 1) p.connection.to_origin in
    let p1 = with_connection (λ c. record c { to_origin = b }) p in
    let answered = record p1 { client_sent = p1.client_sent ++ established } in
    elim p.connection.client.ssl [
      | ssl_connecting ↦
          if whole
          then with_client (λ c. record c { ssl = ssl_ok })
              (with_connection (λ c. record c { to_origin = buffer_clean b }) answered)
          else p1
      | _ ↦ p
    ]

module _ {S : Type 0} (recv : S → ℕ → FromSocket × S) where
  -- The loop that receives a request. It does not ask for the space that the buffer has.
  abbrev pub on_request_bytes : (S → Proxy → Ended S) → FromSocket → S → Proxy → Ended S
  on_request_bytes more none s p = ended false s p
  on_request_bytes more (some []) s p = ended true s p
  on_request_bytes more (some (x ∷ xs)) s p =
      let text = x ∷ xs in
      more s (
        with_connection
          (λ c. record c { to_origin = (buffer_write_data c.to_origin text (pos (length text))).1 })
          (count_received (length text) p))

  unfoldable pub request_loop : ℕ → S → Proxy → Ended S
  request_loop zero s p = no_fuel
  request_loop (suc fuel) s p =
      let (ret, s') = recv s 1000 in on_request_bytes (request_loop fuel) ret s' p

  -- The two parts that read lines; the second follows the first in the same call.
  abbrev pub behind_request : (S → Proxy → Ended S) → Ended S → Ended S
  behind_request more no_fuel = no_fuel
  behind_request more (ended zero_bytes s p) =
      if zero_bytes then ended true s (kill_client p) else more s p

  unfoldable pub search_host : ℕ → List ℕ → ℤ → Thread → S → Proxy → Ended S
  unfolding request_loop peek_request_line kill_client
  search_host fuel date fd thread s p =
      behind_request (λ s' p'. ended false s' (peek_request_line date fd thread false p'))
        (request_loop fuel s p)

  abbrev pub is_searching : ClientState → Bool
  is_searching searching_for_header_host = true
  is_searching _ = false

  unfoldable pub read_first_line : ℕ → List ℕ → ℤ → Thread → S → Proxy → Ended S
  unfolding search_host
  read_first_line fuel date fd thread s p =
      behind_request
        (λ s' p'.
          let q = peek_request_line date fd thread true p' in
          if is_searching q.connection.client.state
          then search_host fuel date fd thread s' q
          else ended false s' q)
        (request_loop fuel s p)

  -- `proxy_client_active_socket_read`
  unfoldable pub client_socket_read : ℕ → List ℕ → ℤ → Thread → Bool → S → Proxy → Ended S
  unfolding read_first_line client_read process_ssl
  client_socket_read fuel date fd thread stale s p = elim p.connection.client.state [
    | reading_header_first_line ↦ read_first_line fuel date fd thread s p
    | searching_for_header_host ↦ search_host fuel date fd thread s p
    | connecting ↦ ended false s p
    | passing_content ↦ elim p.connection.client.ssl [
      | ssl_connecting ↦ ended false s (process_ssl p)
      | _ ↦ client_read recv stale fd s p
    ]
  ]
