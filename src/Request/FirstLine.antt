-- ===== src/Request/FirstLine.antt =====
-- The first line of a request, as a client writes it to a proxy.
use proxy_server_http.Base.{
  ℕ, ◌≡◌, refl, sym, ap, ◌∙◌, arith, false, List, [], ◌∷◌, ◌++◌, append-nil, some,
}
use proxy_server_http.Settings.{codes}
use proxy_server_http.Helpers.{is_newline, trim}
use proxy_server_http.Chunked.{is_space, crlf}
use proxy_server_http.Scan.{scan_until, starts_nocase}
use proxy_server_http.Scan.Spans.{Without, Without-append, Without-weaken, scan_until-append}
use proxy_server_http.Request.{
  no_ssl, colon_or_slash, blank, colon, target, scan_request, url_target, parse_first_line,
}
use proxy_server_http.Request.Print.{
  Address, host, address_text, port_or, IsInt, parse_authority-address_text,
}

weaken_blank : (c : ℕ) → is_space c ≡ false → blank c ≡ false
weaken_blank c h = ground arith

weaken_newline : (c : ℕ) → is_space c ≡ false → is_newline c ≡ false
weaken_newline c h = ground arith

weaken_colon : (c : ℕ) → colon_or_slash c ≡ false → colon c ≡ false
weaken_colon c h = ground arith

pub trim-crlf : (s : List ℕ) → Without is_newline s → trim (s ++ crlf) ≡ s
unfolding trim
trim-crlf [] h = refl
trim-crlf (c ∷ []) h = rw h.0
trim-crlf (c ∷ d ∷ s) h = rw (trim-crlf (d ∷ s) h.1)

-- A method, a URL and a protocol.
abbrev pub request_line : List ℕ → List ℕ → List ℕ → List ℕ
request_line method url protocol = method ++ (b' ' ∷ (url ++ (b' ' ∷ protocol)))

-- A word of a line: bytes that are no spaces, and one at least.
abbrev pub IsWord : List ℕ → Type 0
IsWord [] = ⊥
IsWord (c ∷ cs) = Without is_space (c ∷ cs)

scan_request-request_line :
    (method url protocol : List ℕ)
    → IsWord method
    → IsWord url
    → IsWord protocol
    → scan_request (request_line method url protocol) ≡ some (method, url)
unfolding scan_request
scan_request-request_line [] url protocol hm hu hp = absurd hm
scan_request-request_line (m ∷ ms) [] protocol hm hu hp = absurd hu
scan_request-request_line (m ∷ ms) (u ∷ us) [] hm hu hp = absurd hp
scan_request-request_line (m ∷ ms) (u ∷ us) (p ∷ ps) hm hu hp =
    let plain =
      λ (xs : List ℕ) (h : Without is_space xs). Without-weaken is_space blank xs weaken_blank h in
    let last : scan_until blank (p ∷ ps) ≡ some (p ∷ ps, []) =
      ap (scan_until blank) (sym (append-nil (p ∷ ps)))
      ∙ scan_until-append blank p ps [] (plain (p ∷ ps) hp) tt in
    rw (
      scan_until-append blank m ms (b' ' ∷ (u ∷ us ++ (b' ' ∷ p ∷ ps))) (plain (m ∷ ms) hm) refl,
      hu.0,
      scan_until-append blank u us (b' ' ∷ p ∷ ps) (plain (u ∷ us) hu) refl,
      hp.0,
      last,
    )

pub Without-request_line :
    (method url protocol : List ℕ)
    → IsWord method
    → IsWord url
    → IsWord protocol
    → Without is_newline (request_line method url protocol)
Without-request_line [] url protocol hm hu hp = absurd hm
Without-request_line (m ∷ ms) [] protocol hm hu hp = absurd hu
Without-request_line (m ∷ ms) (u ∷ us) [] hm hu hp = absurd hp
Without-request_line (m ∷ ms) (u ∷ us) (p ∷ ps) hm hu hp =
    let plain = λ (xs : List ℕ) (h : Without is_space xs).
      Without-weaken is_space is_newline xs weaken_newline h in
    Without-append is_newline (m ∷ ms) (b' ' ∷ (u ∷ us ++ (b' ' ∷ p ∷ ps))) (plain (m ∷ ms) hm) (
      refl,
      Without-append is_newline (u ∷ us) (b' ' ∷ p ∷ ps) (plain (u ∷ us) hu)
          (refl, plain (p ∷ ps) hp),
    )

pub scanned_line :
    (method url protocol : List ℕ)
    → IsWord method
    → IsWord url
    → IsWord protocol
    → scan_request (trim (request_line method url protocol ++ crlf)) ≡ some (method, url)
scanned_line method url protocol hm hu hp =
    ap scan_request (
      trim-crlf (request_line method url protocol)
        (Without-request_line method url protocol hm hu hp))
    ∙ scan_request-request_line method url protocol hm hu hp

-- The first line for an http URL gives the host and the port that it was written with.
pub parse_first_line-http :
    (method protocol : List ℕ) (a : Address)
    → IsWord method
    → IsWord protocol
    → Without is_space (address_text a)
    → Without colon_or_slash (host a)
    → IsInt a.port
    → parse_first_line (request_line method (codes "http://" ++ address_text a) protocol ++ crlf)
      ≡ target (host a) (port_or 80 a.port) no_ssl
unfolding parse_first_line url_target starts_nocase
parse_first_line-http method protocol a hm hp hs h small =
    let word : IsWord (codes "http://" ++ address_text a) =
      (refl, (refl, (refl, (refl, (refl, (refl, (refl, hs))))))) in
    rw (
      scanned_line method (codes "http://" ++ address_text a) protocol hm word hp,
      parse_authority-address_text a small h,
    )
