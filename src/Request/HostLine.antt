-- ===== src/Request/HostLine.antt =====
-- The `Host` header of a request that does not name its host in the first line.
use proxy_server_http.Base.{
  ℕ, zero, suc, ◌+◌, ◌/◌, ◌%◌, ◌≡◌, refl, sym, ap, ap₂, ◌∙◌, subst, arith, Bool, false, List, [],
  ◌∷◌, ◌++◌, append-nil, Option, none, some, Bool-cases, inl, inr, ltb, ltb→lt,
}
use proxy_server_http.Settings.{codes}
use proxy_server_http.Helpers.{to_lower, line_to_lower_case, is_newline}
use proxy_server_http.Chunked.{is_space, crlf}
use proxy_server_http.Scan.{scan_until, scan_word, to_decimal, decimal_digits}
use proxy_server_http.Scan.Spans.{Without, Without-weaken, scan_until-append}
use proxy_server_http.Request.{
  no_ssl, header_target, found_or_bad, colon_or_slash, target, scan_host_header, parse_host_line,
}
use proxy_server_http.Request.Print.{
  Address, host, address_text, port_text, path_text, port_or, IsInt, parse_authority-address_text,
}
use proxy_server_http.Request.FirstLine.{trim-crlf}

-- The address in small letters.
abbrev pub lower_path : Option (List ℕ) → Option (List ℕ)
lower_path none = none
lower_path (some p) = some (line_to_lower_case p)

abbrev pub lower_address : Address → Address
lower_address a = record {
  first = to_lower a.first;
  later = line_to_lower_case a.later;
  port = a.port;
  path = lower_path a.path;
}

lower-append :
    (xs ys : List ℕ)
    → line_to_lower_case (xs ++ ys) ≡ line_to_lower_case xs ++ line_to_lower_case ys
unfolding line_to_lower_case
lower-append [] ys = refl
lower-append (x ∷ xs) ys = ap (◌∷◌ (to_lower x)) (lower-append xs ys)

lower-decimal_digits :
    (fuel n : ℕ) → line_to_lower_case (decimal_digits fuel n) ≡ decimal_digits fuel n
unfolding decimal_digits line_to_lower_case
lower-decimal_digits zero n = refl
lower-decimal_digits (suc fuel) n = elim (Bool-cases (ltb n 10)) [
  | inl small ↦ rw small (ap (λ d. d ∷ []) (ground (arith, ltb→lt n 10 small)))
  | inr big ↦ rw big (
      lower-append (decimal_digits fuel (n / 10)) ((n % 10 + 48) ∷ [])
      ∙ ap₂ ◌++◌ (lower-decimal_digits fuel (n / 10)) (ap (λ d. d ∷ []) (ground arith)))
]

lower-to_decimal : (n : ℕ) → line_to_lower_case (to_decimal n) ≡ to_decimal n
unfolding to_decimal
lower-to_decimal n = lower-decimal_digits (n + 1) n

lower-path_text :
    (p : Option (List ℕ)) → line_to_lower_case (path_text p) ≡ path_text (lower_path p)
unfolding line_to_lower_case
lower-path_text none = refl
lower-path_text (some p) = refl

lower-port_text :
    (port : Option ℕ) (rest : List ℕ)
    → line_to_lower_case (port_text port rest) ≡ port_text port (line_to_lower_case rest)
unfolding line_to_lower_case
lower-port_text none rest = refl
lower-port_text (some n) rest =
    ap (◌∷◌ b':') (
      lower-append (to_decimal n) rest
      ∙ ap (λ d. d ++ line_to_lower_case rest) (lower-to_decimal n))

lower-address_text :
    (a : Address) → line_to_lower_case (address_text a) ≡ address_text (lower_address a)
unfolding line_to_lower_case
lower-address_text a =
    lower-append (host a) (port_text a.port (path_text a.path))
    ∙ ap (λ r. host (lower_address a) ++ r)
        (lower-port_text a.port (path_text a.path) ∙ ap (port_text a.port) (lower-path_text a.path))

Without-lower :
    (stop : ℕ → Bool) (xs : List ℕ)
    → ((c : ℕ) → stop c ≡ false → stop (to_lower c) ≡ false)
    → Without stop xs
    → Without stop (line_to_lower_case xs)
unfolding line_to_lower_case
Without-lower stop [] f h = tt
Without-lower stop (x ∷ xs) f h = (f x h.0, Without-lower stop xs f h.1)

space-lower : (c : ℕ) → is_space c ≡ false → is_space (to_lower c) ≡ false
unfolding to_lower
space-lower c h = ground arith

colon_or_slash-lower : (c : ℕ) → colon_or_slash c ≡ false → colon_or_slash (to_lower c) ≡ false
unfolding to_lower
colon_or_slash-lower c h = ground arith

scan_host_header-word :
    (c : ℕ) (cs : List ℕ)
    → Without is_space (c ∷ cs)
    → scan_host_header (codes "host: " ++ (c ∷ cs)) ≡ some (c ∷ cs)
unfolding scan_host_header scan_word
scan_host_header-word c cs h =
    let whole : scan_until is_space (c ∷ cs) ≡ some (c ∷ cs, []) =
      ap (scan_until is_space) (sym (append-nil (c ∷ cs)))
      ∙ scan_until-append is_space c cs [] h tt in
    rw (h.0, whole)

-- For an address without spaces whose host has no colon and slash, with a port below 2^31 and a
-- path or without, its Host line gives the host in small letters and the port, modulo 65536 and 80
-- if none is given.
pub parse_host_line-address_text :
    (a : Address)
    → Without is_space (address_text a)
    → Without colon_or_slash (host a)
    → IsInt a.port
    → parse_host_line ((codes "Host: " ++ address_text a) ++ crlf)
      ≡ target (line_to_lower_case (host a)) (port_or 80 a.port) no_ssl
unfolding parse_host_line line_to_lower_case
parse_host_line-address_text a hs h small =
    let line : Without is_newline (codes "Host: " ++ address_text a) = (
      refl,
      (
        refl,
        (
          refl,
          (
            refl,
            (
              refl,
              (refl, Without-weaken is_space is_newline (address_text a) (λ c e. ground arith) hs),
            ),
          ),
        ),
      ),
    ) in
    let lower = lower_address a in
    let spaces : Without is_space (address_text lower) =
      subst (Without is_space) (lower-address_text a)
        (Without-lower is_space (address_text a) space-lower hs) in
    let lowered : line_to_lower_case (codes "Host: " ++ address_text a)
        ≡ codes "host: " ++ address_text lower =
      lower-append (codes "Host: ") (address_text a)
      ∙ ap (λ r. codes "host: " ++ r) (lower-address_text a) in
    let header =
      scan_host_header-word lower.first (lower.later ++ port_text lower.port (path_text lower.path))
        spaces in
    let named =
      parse_authority-address_text lower small
        (Without-lower colon_or_slash (host a) colon_or_slash-lower h) in
    ap (λ t. header_target (scan_host_header (line_to_lower_case t)))
      (trim-crlf (codes "Host: " ++ address_text a) line)
    ∙ ap (λ t. header_target (scan_host_header t)) lowered
    ∙ ap header_target header
    ∙ ap (found_or_bad no_ssl) named
