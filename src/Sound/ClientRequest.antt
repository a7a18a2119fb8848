-- ===== src/Sound/ClientRequest.antt =====
-- The reading of a request in bin/proxyClientActiveSocket.c keeps the state sound.
use proxy_server_http.Base.{
  ℕ, zero, suc, ◌+◌, Bool, true, false, if◌then◌else◌, if_either, List, [], ◌∷◌, ◌++◌, length, ℤ,
  pos, negsuc, none, some,
}
use proxy_server_http.Buffer.{
  Buffer, buffer_count, buffer_write_data, buffer_read_data, buffer_peek_line, buffer_clean,
}
use proxy_server_http.Buffer.Fifo.{IsValid, clean-IsValid}
use proxy_server_http.Buffer.Counts.{write_data-IsValid, read_data-Shrunk, peek_line-IsValid}
use proxy_server_http.Settings.{codes}
use proxy_server_http.Selector.{op_noop}
use proxy_server_http.Protocol.{c_string, positive}
use proxy_server_http.Request.{
  SslState, no_ssl, ssl_connecting, ssl_ok, Found, no_target, target, bad_request,
}
use proxy_server_http.Response.{is_blank_line}
use proxy_server_http.Connection.{
  Client, ClientState, reading_header_first_line, searching_for_header_host, connecting,
  passing_content, Proxy, with_connection, set_interest,
}
use proxy_server_http.Relay.{FromSocket, Ended, no_fuel, ended, count_received}
use proxy_server_http.ClientRead.{
  with_client, Thread, no_memory, not_created, created, refuse, server_error, open_target, act,
  line_target, take_peeked, peek_request_line, skip_header, established, process_ssl,
  on_request_bytes, request_loop, behind_request, search_host, is_searching, read_first_line,
  client_socket_read,
}
use proxy_server_http.Sound.ClientSocket.{set_to_origin-Sound, with_client-Sound, client_read-Sound}
use proxy_server_http.Sound.{
  Sound, Returns, SoundEnd, set_interest-Sound, kill_client-Sound, send_error-Sound,
}

pub server_error-Sound :
    (date text : List ℕ) (p : Proxy) → Sound p → Sound (server_error date text p)
server_error-Sound date text p s =
    send_error-Sound date 500 (codes "Internal server error") text p s

refuse-Sound : (date text : List ℕ) (p : Proxy) → Sound p → Sound (refuse date text p)
refuse-Sound date text p s = send_error-Sound date 400 (codes "Bad Request") text p s

by_thread :
    (thread : Thread) {a b c : Proxy}
    → Sound a
    → Sound b
    → Sound c
    → Sound (elim thread [ no_memory ↦ a | not_created ↦ b | created ↦ c ])
by_thread no_memory x y z = x
by_thread not_created x y z = y
by_thread created x y z = z

open_target-Sound :
    (date : List ℕ) (fd : ℤ) (thread : Thread) (hostname : List ℕ) (port : ℕ) (ssl : SslState)
    (p : Proxy)
    → Sound p
    → Sound (open_target date fd thread hostname port ssl p)
unfolding open_target
open_target-Sound date fd thread hostname port ssl p s =
    by_thread thread
      (server_error-Sound date (codes "Ran out of memory") (aimed p) (with_client-Sound aim p s))
      (server_error-Sound date (codes "Couldn't process request") (aimed p)
        (with_client-Sound aim p s))
      (with_client-Sound (λ c. record c { state = connecting }) (set_interest fd op_noop (aimed p))
        (set_interest-Sound fd op_noop (aimed p) (with_client-Sound aim p s)))
  where
    aim : Client → Client
    aim c = record c { hostname = hostname; port = port; ssl = ssl }

    aimed : Proxy → Proxy
    aimed p = with_client aim p

act-Sound :
    (date : List ℕ) (fd : ℤ) (thread : Thread) (first : Bool) (found : Found) (p : Proxy)
    → Sound p
    → Sound (act date fd thread first found p)
act-Sound date fd thread true no_target p s =
    with_client-Sound (λ c. record c { state = searching_for_header_host; ssl = no_ssl }) p s
act-Sound date fd thread false no_target p s = s
act-Sound date fd thread first (target hostname port ssl) p s =
    open_target-Sound date fd thread hostname port ssl p s
act-Sound date fd thread first (bad_request text) p s = refuse-Sound date text p s

take_peeked-Sound :
    (date : List ℕ) (fd : ℤ) (thread : Thread) (first : Bool) (ret : ℤ) (aux : List ℕ) (b : Buffer)
    (p : Proxy)
    → IsValid b
    → Sound p
    → Sound (take_peeked date fd thread first ret aux b p)
take_peeked-Sound date fd thread first (negsuc k) aux b p v s =
    refuse-Sound date (codes "Can't parse request.") _ (set_to_origin-Sound b p v s)
take_peeked-Sound date fd thread first (pos zero) aux b p v s = set_to_origin-Sound b p v s
take_peeked-Sound date fd thread first (pos (suc n)) aux b p v s =
    act-Sound date fd thread first (line_target first (c_string aux)) _
      (set_to_origin-Sound b p v s)

peek_request_line-Sound :
    (date : List ℕ) (fd : ℤ) (thread : Thread) (first : Bool) (p : Proxy)
    → Sound p
    → Sound (peek_request_line date fd thread first p)
unfolding peek_request_line
peek_request_line-Sound date fd thread first p s =
    let (ret, aux, b) = buffer_peek_line p.connection.to_origin 1000 in
    take_peeked-Sound date fd thread first ret aux b p
      (peek_line-IsValid 1000 p.connection.to_origin s.buffers.to_origin) s

skip_header-IsValid : (fuel : ℕ) (b : Buffer) → IsValid b → IsValid (skip_header fuel b).1
unfolding skip_header
skip_header-IsValid zero b v = v
skip_header-IsValid (suc fuel) b v =
    let (ret, aux, b1) = buffer_peek_line b 1000 in
    let (n, line, b2) = buffer_read_data b1 ret in
    let v2 = (read_data-Shrunk b1 ret (peek_line-IsValid 1000 b v)).valid in
    if_either (λ (r : Bool × Buffer). IsValid (r.1)) (positive ret)
      (if_either (λ (r : Bool × Buffer). IsValid (r.1)) (is_blank_line line) v2
        (skip_header-IsValid fuel b2 v2))
      v2

-- Only a client that waits for its tunnel is answered.
pub by_ssl :
    (t : SslState) {a b : Proxy} → Sound a → Sound b → Sound (elim t [ ssl_connecting ↦ a | _ ↦ b ])
by_ssl no_ssl x y = y
by_ssl ssl_connecting x y = x
by_ssl ssl_ok x y = y

pub process_ssl-Sound : (p : Proxy) → Sound p → Sound (process_ssl p)
unfolding process_ssl
process_ssl-Sound p s =
    let (whole, b) = skip_header (buffer_count p.connection.to_origin + 1) p.connection.to_origin in
    let p1 = with_connection (λ c. record c { to_origin = b }) p in
    let s1 =
      set_to_origin-Sound b p (skip_header-IsValid _ p.connection.to_origin s.buffers.to_origin)
        s in
    let answered = record p1 { client_sent = p1.client_sent ++ established } in
    let emptied = with_connection (λ c. record c { to_origin = buffer_clean b }) answered in
    by_ssl p.connection.client.ssl
      (if_either Sound whole
        (with_client-Sound (λ c. record c { ssl = ssl_ok }) emptied
          (set_to_origin-Sound (buffer_clean b) answered (clean-IsValid b)
            (record { table = s1.table; buffers = s1.buffers })))
        s1)
      s

module _ {S : Type 0} (recv : S → ℕ → FromSocket × S) where
  request_answered :
      (more : S → Proxy → Ended S) (r : FromSocket) (s : S) (p : Proxy)
      → ((s' : S) (p' : Proxy) → Sound p' → SoundEnd (more s' p'))
      → Sound p
      → SoundEnd (on_request_bytes recv more r s p)
  request_answered more none s p h k = k
  request_answered more (some []) s p h k = k
  request_answered more (some (x ∷ xs)) s p h k =
      let text = x ∷ xs in
      let b = p.connection.to_origin in
      h s _ (
        set_to_origin-Sound (buffer_write_data b text (pos (length text))).1
          (count_received (length text) p)
          (write_data-IsValid b text (pos (length text)) k.buffers.to_origin)
          (record { table = k.table; buffers = k.buffers }))

  request_loop-Sound :
      (fuel : ℕ) (s : S) (p : Proxy) → Sound p → SoundEnd (request_loop recv fuel s p)
  unfolding request_loop
  request_loop-Sound zero s p k = tt
  request_loop-Sound (suc fuel) s p k =
      request_answered (request_loop recv fuel) (recv s 1000).0 (recv s 1000).1 p
        (request_loop-Sound fuel) k

  behind_request-Sound :
      (more : S → Proxy → Ended S) (r : Ended S)
      → ((s' : S) (p' : Proxy) → Sound p' → SoundEnd (more s' p'))
      → SoundEnd r
      → SoundEnd (behind_request recv more r)
  behind_request-Sound more no_fuel h k = tt
  behind_request-Sound more (ended true s p) h k = kill_client-Sound p k
  behind_request-Sound more (ended false s p) h k = h s p k

  search_host-Sound :
      (fuel : ℕ) (date : List ℕ) (fd : ℤ) (thread : Thread) (s : S) (p : Proxy)
      → Sound p
      → SoundEnd (search_host recv fuel date fd thread s p)
  unfolding search_host
  search_host-Sound fuel date fd thread s p k =
      behind_request-Sound (λ s' p'. ended false s' (peek_request_line date fd thread false p')) _
        (λ s' p' k'. peek_request_line-Sound date fd thread false p' k')
        (request_loop-Sound fuel s p k)

  read_first_line-Sound :
      (fuel : ℕ) (date : List ℕ) (fd : ℤ) (thread : Thread) (s : S) (p : Proxy)
      → Sound p
      → SoundEnd (read_first_line recv fuel date fd thread s p)
  unfolding read_first_line
  read_first_line-Sound fuel date fd thread s p k =
      let next = λ (s' : S) (p' : Proxy).
        let q = peek_request_line date fd thread true p' in
        if is_searching recv q.connection.client.state
        then search_host recv fuel date fd thread s' q
        else ended false s' q in
      behind_request-Sound next _
        (λ s' p' k'.
          let l = peek_request_line-Sound date fd thread true p' k' in
          let q = peek_request_line date fd thread true p' in
          if_either SoundEnd (is_searching recv q.connection.client.state) {y = ended false s' q}
            (search_host-Sound fuel date fd thread s' q l) l)
        (request_loop-Sound fuel s p k)

  by_state :
      (st : ClientState) (a b c d : Ended S)
      → SoundEnd a
      → SoundEnd b
      → SoundEnd c
      → SoundEnd d
      → SoundEnd (elim st [
        | reading_header_first_line ↦ a
        | searching_for_header_host ↦ b
        | connecting ↦ c
        | passing_content ↦ d
      ])
  by_state reading_header_first_line a b c d w x y z = w
  by_state searching_for_header_host a b c d w x y z = x
  by_state connecting a b c d w x y z = y
  by_state passing_content a b c d w x y z = z

  passing-Sound :
      (t : SslState) (a b : Ended S)
      → SoundEnd a
      → Returns b
      → SoundEnd (elim t [ ssl_connecting ↦ a | _ ↦ b ])
  passing-Sound no_ssl a (ended z s p) x y = y
  passing-Sound ssl_connecting a b x y = x
  passing-Sound ssl_ok a (ended z s p) x y = y
  passing-Sound no_ssl a no_fuel x y = tt
  passing-Sound ssl_ok a no_fuel x y = tt

  -- In every state of a client, and whatever `recv` gives, the handler that reads from the client
  -- leaves a sound state where its fuel is enough to return.
  pub client_socket_read-Sound :
      (fuel : ℕ) (date : List ℕ) (fd : ℤ) (thread : Thread) (stale : Bool) (s : S) (p : Proxy)
      → Sound p
      → SoundEnd (client_socket_read recv fuel date fd thread stale s p)
  unfolding client_socket_read
  client_socket_read-Sound fuel date fd thread stale s p k =
      by_state p.connection.client.state _ _ (ended false s p) _
        (read_first_line-Sound fuel date fd thread s p k)
        (search_host-Sound fuel date fd thread s p k) k
        (passing-Sound p.connection.client.ssl _ _ (process_ssl-Sound p k)
          (client_read-Sound recv stale fd s p k))
