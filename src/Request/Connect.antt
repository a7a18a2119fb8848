-- ===== src/Request/Connect.antt =====
-- The first line of a request for a tunnel.
use proxy_server_http.Base.{
  ℕ, ◌≡◌, refl, arith, Bool, true, false, ◌==◌, ◌&&◌, List, [], ◌∷◌, ◌++◌, Option, none, some,
}
use proxy_server_http.Settings.{codes}
use proxy_server_http.Helpers.{to_lower}
use proxy_server_http.Chunked.{is_space, crlf}
use proxy_server_http.Scan.{scan_word, starts_nocase, to_decimal}
use proxy_server_http.Scan.Spans.{Without, Without-append, Without-weaken, scan_until-append}
use proxy_server_http.Scan.Decimal.{scan_int-to_decimal}
use proxy_server_http.Request.{
  ssl_connecting, port_of, colon_or_slash, slash, colon, parse_connect, target, url_target,
  parse_first_line,
}
use proxy_server_http.Request.Print.{port_text, port_or, IsInt, Without-slash, Without-to_decimal}
use proxy_server_http.Request.FirstLine.{IsWord, request_line, scanned_line}

and-false : (b : Bool) → (b && false) ≡ false
and-false true = refl
and-false false = refl

-- A text with no slash does not start with one that has.
starts_nocase-slash :
    (bs cs s : List ℕ) → Without slash s → starts_nocase (bs ++ (b'/' ∷ cs)) s ≡ false
unfolding starts_nocase
starts_nocase-slash [] cs [] h = refl
starts_nocase-slash [] cs (x ∷ s) h = ground (arith, h.0)
starts_nocase-slash (b ∷ bs) cs [] h = refl
starts_nocase-slash (b ∷ bs) cs (x ∷ s) h =
    rw (starts_nocase-slash bs cs s h.1) (and-false (to_lower b == to_lower x))

module _ (c : ℕ) (cs : List ℕ) (h : Without colon_or_slash (c ∷ cs))
    (hs : Without is_space (c ∷ cs)) where
  plain : Without colon (c ∷ cs)
  plain = Without-weaken colon_or_slash colon (c ∷ cs) (λ x e. ground arith) h

  parse_connect-port_text :
      (port : Option ℕ)
      → IsInt port
      → parse_connect (c ∷ cs ++ port_text port []) ≡ some (c ∷ cs, port_or 443 port)
  unfolding parse_connect port_of scan_word
  parse_connect-port_text none small =
      rw (scan_until-append colon c cs [] plain tt, hs.0, scan_until-append is_space c cs [] hs tt)
  parse_connect-port_text (some n) small = rw (
    scan_until-append colon c cs (b':' ∷ (to_decimal n ++ [])) plain refl,
    scan_int-to_decimal n [] small tt,
  )

  no_scheme :
      (port : Option ℕ) → starts_nocase (codes "http://") (c ∷ cs ++ port_text port []) ≡ false
  no_scheme port =
      starts_nocase-slash (codes "http:") (codes "/") (c ∷ cs ++ port_text port [])
        (Without-append slash (c ∷ cs) (port_text port []) (Without-slash (c ∷ cs) h) (tail port))
    where
      tail : (port : Option ℕ) → Without slash (port_text port [])
      tail none = tt
      tail (some n) = (refl, Without-append slash (to_decimal n) [] (Without-to_decimal n) tt)

  -- For a host with a byte at least and no space, colon or slash, and a protocol with a byte and
  -- no space, the first line of a CONNECT request, with a port or without, gives the host and the
  -- port, one of an `int`, modulo 65536 and 443 if none is given, for a tunnel.
  parse_first_line-connect :
      (protocol : List ℕ) (port : Option ℕ)
      → IsWord protocol
      → IsWord (c ∷ cs ++ port_text port [])
      → IsInt port
      → parse_first_line
          (request_line (codes "CONNECT") (c ∷ cs ++ port_text port []) protocol ++ crlf)
        ≡ target (c ∷ cs) (port_or 443 port) ssl_connecting
  unfolding parse_first_line url_target
  parse_first_line-connect protocol port hp hu small =
      let word : IsWord (codes "CONNECT") =
        (refl, (refl, (refl, (refl, (refl, (refl, (refl, tt))))))) in
      let not_path : (c == b'/') ≡ false = ground (arith, h.0) in
      rw (
        scanned_line (codes "CONNECT") (c ∷ cs ++ port_text port []) protocol word hu hp,
        not_path,
        no_scheme port,
        parse_connect-port_text port small,
      )
