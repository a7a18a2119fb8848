-- ===== src/ClientRead/FirstRequest.antt =====
-- A first request that has come, from the buffer to the thread that connects to its origin.
use proxy_server_http.Base.{
  ℕ, suc, ◌<◌, ◌≡◌, refl, sym, ap, subst, ◌∙◌, arith, true, List, [], ◌∷◌, ◌++◌, length,
  length-append, append_assoc, pos, ℤ,
}
use proxy_server_http.Settings.{codes}
use proxy_server_http.Helpers.{is_newline}
use proxy_server_http.Buffer.{Buffer, buffer_peek_line}
use proxy_server_http.Buffer.Fifo.{contents}
use proxy_server_http.Buffer.Peek.{PeekAt}
use proxy_server_http.Buffer.Strings.{Avoids, peek_line_lem}
use proxy_server_http.Protocol.{c_string}
use proxy_server_http.Protocol.Credentials.{c_string-append}
use proxy_server_http.Chunked.{is_space, crlf}
use proxy_server_http.Scan.Spans.{Without}
use proxy_server_http.Request.{SslState, no_ssl, colon_or_slash, target, parse_first_line}
use proxy_server_http.Request.Print.{Address, host, address_text, port_or, IsInt}
use proxy_server_http.Request.FirstLine.{
  request_line, IsWord, Without-request_line, parse_first_line-http,
}
use proxy_server_http.Connection.{connecting, Proxy}
use proxy_server_http.ClientRead.{created, open_target, act, take_peeked, peek_request_line}

-- The thread has been started for the target, and the buffer holds what it held.
pub record Connecting (hostname : List ℕ) (port : ℕ) (ssl : SslState) (p p' : Proxy) : Type 0 where
  pub client :
      p'.connection.client
      ≡ record { hostname = hostname; port = port; state = connecting; ssl = ssl }
  pub held : contents p'.connection.to_origin ≡ contents p.connection.to_origin

Avoids-append : (d : ℕ) (xs ys : List ℕ) → Avoids d xs → Avoids d ys → Avoids d (xs ++ ys)
Avoids-append d [] ys h k = k
Avoids-append d (x ∷ xs) ys h k = (h.0, Avoids-append d xs ys h.1 k)

Avoids-newline : (xs : List ℕ) → Without is_newline xs → Avoids b'\n' xs
Avoids-newline [] h = tt
Avoids-newline (x ∷ xs) h = (ground (arith, h.0), Avoids-newline xs h.1)

open_target-Connecting :
    (date : List ℕ) (fd : ℤ) (hostname : List ℕ) (port : ℕ) (ssl : SslState) (p : Proxy)
    → Connecting hostname port ssl p (open_target date fd created hostname port ssl p)
unfolding open_target
open_target-Connecting date fd hostname port ssl p = record { client = refl; held = refl }

-- A whole line that names a target.
line_found :
    (date : List ℕ) (fd : ℤ) (p : Proxy) (n : ℕ) {aux : List ℕ} {b : Buffer} (hostname : List ℕ)
    (port : ℕ) (ssl : SslState)
    → buffer_peek_line p.connection.to_origin 1000 ≡ (pos (suc n), aux, b)
    → parse_first_line (c_string aux) ≡ target hostname port ssl
    → peek_request_line date fd created true p
      ≡ open_target date fd created hostname port ssl
          (record p { connection = record p.connection { to_origin = b } })
unfolding peek_request_line
line_found date fd p n {aux} {b} hostname port ssl e parsed =
    ap (λ r. take_peeked date fd created true r.0 r.1 r.2 p) e
    ∙ ap
        (λ t.
          act date fd created true t
            (record p { connection = record p.connection { to_origin = b } }))
        parsed

peek_request_line-Connecting :
    (date : List ℕ) (fd : ℤ) (line rest : List ℕ) (hostname : List ℕ) (port : ℕ) (ssl : SslState)
    (p : Proxy)
    → PeekAt p.connection.to_origin 0
    → contents p.connection.to_origin ≡ line ++ (b'\n' ∷ rest)
    → Avoids b'\n' line
    → Avoids 0 line
    → length line < 1000
    → parse_first_line (line ++ (b'\n' ∷ [])) ≡ target hostname port ssl
    → Connecting hostname port ssl p (peek_request_line date fd created true p)
peek_request_line-Connecting date fd line rest hostname port ssl p at h a z l parsed =
    let f = peek_line_lem b'\n' 1000 line rest at h a l in
    let text : c_string (line ++ (b'\n' ∷ 0 ∷ [])) ≡ line ++ (b'\n' ∷ []) =
      ap c_string (sym (append_assoc line (b'\n' ∷ []) (0 ∷ [])))
      ∙ c_string-append (line ++ (b'\n' ∷ [])) []
          (Avoids-append 0 line (b'\n' ∷ []) z (refl, tt)) in
    let p1 = record p { connection = record p.connection { to_origin = f.after } } in
    let opened = open_target-Connecting date fd hostname port ssl p1 in
    let peeked : buffer_peek_line p.connection.to_origin 1000
        ≡ (pos (suc (length line)), line ++ (b'\n' ∷ 0 ∷ []), f.after) =
      unfold buffer_peek_line in f.is in
    subst (Connecting hostname port ssl p)
      (sym (
        line_found date fd p (length line) {b = f.after} hostname port ssl peeked
          (ap parse_first_line text ∙ parsed)))
      (record { client = opened.client; held = opened.held ∙ f.same })

-- The buffer for the origin is in range with the next scan at its first byte, and starts with a
-- method, an http URL and a protocol, separated by spaces, and a carriage return and a newline.
-- Method and protocol have a byte at least and no space, the URL's address has no space, its host
-- no colon and slash, its port is below 2^31, and the line no null byte and fewer than 999 bytes.
-- Then the handler, if the thread is created, sets the client to connecting, to the host and to the
-- port, taken modulo 65536 and 80 if none is given, without a tunnel, and the buffer holds what it
-- held.
pub peek_request_line-http :
    (date : List ℕ) (fd : ℤ) (method protocol : List ℕ) (a : Address) (rest : List ℕ) (p : Proxy)
    → PeekAt p.connection.to_origin 0
    → contents p.connection.to_origin
      ≡ (request_line method (codes "http://" ++ address_text a) protocol ++ crlf) ++ rest
    → IsWord method
    → IsWord protocol
    → Without is_space (address_text a)
    → Without colon_or_slash (host a)
    → IsInt a.port
    → Avoids 0 (request_line method (codes "http://" ++ address_text a) protocol)
    → length (request_line method (codes "http://" ++ address_text a) protocol) < 999
    → Connecting (host a) (port_or 80 a.port) no_ssl p (peek_request_line date fd created true p)
peek_request_line-http date fd method protocol a rest p at h hm hp hs hh small z l =
    let text = request_line method (codes "http://" ++ address_text a) protocol in
    let line = text ++ (b'\r' ∷ []) in
    let word : IsWord (codes "http://" ++ address_text a) =
      (refl, (refl, (refl, (refl, (refl, (refl, (refl, hs))))))) in
    let plain =
      Avoids-newline text
        (Without-request_line method (codes "http://" ++ address_text a) protocol hm word hp) in
    let whole : line ++ (b'\n' ∷ []) ≡ text ++ crlf = append_assoc text (b'\r' ∷ []) (b'\n' ∷ []) in
    peek_request_line-Connecting date fd line rest (host a) (port_or 80 a.port) no_ssl p at
      (h ∙ append_assoc text crlf rest ∙ sym (append_assoc text (b'\r' ∷ []) (b'\n' ∷ rest)))
      (Avoids-append b'\n' text (b'\r' ∷ []) plain (refl, tt))
      (Avoids-append 0 text (b'\r' ∷ []) z (refl, tt))
      (omega (arith, length-append text (b'\r' ∷ [])))
      (ap parse_first_line whole ∙ parse_first_line-http method protocol a hm hp hs hh small)
