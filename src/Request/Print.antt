-- ===== src/Request/Print.antt =====
-- Requests as a client writes them, and what the parser finds in them.
use proxy_server_http.Base.{
  ℕ, ◌^◌, ◌<◌, zero, suc, ◌+◌, ◌/◌, ◌%◌, ◌≡◌, refl, sym, ap, ◌∙◌, arith, true, List, [], ◌∷◌, ◌++◌,
  append_assoc, Option, none, some, ltb, Bool-cases, inl, inr, ltb→lt,
}
use proxy_server_http.Scan.{span, scan_until, scan_word, decimal_digits, to_decimal}
use proxy_server_http.Scan.Spans.{Without, Without-append, scan_until-append}
use proxy_server_http.Scan.Decimal.{scan_int-to_decimal}
use proxy_server_http.Request.{port_of, colon_or_slash, slash, parse_authority}

-- A host with a byte at least, and the port and the path where there are any. The path is what stands
-- behind its first slash.
pub record Address : Type 0 where
  pub first : ℕ
  pub later : List ℕ
  pub port : Option ℕ
  pub path : Option (List ℕ)

abbrev pub host : Address → List ℕ
host a = a.first ∷ a.later

abbrev pub path_text : Option (List ℕ) → List ℕ
path_text none = []
path_text (some p) = b'/' ∷ p

abbrev pub port_text : Option ℕ → List ℕ → List ℕ
port_text none rest = rest
port_text (some n) rest = b':' ∷ (to_decimal n ++ rest)

abbrev pub address_text : Address → List ℕ
address_text a = host a ++ port_text a.port (path_text a.path)

-- The port that is meant, and how much of it is left in 16 bits.
abbrev pub port_or : ℕ → Option ℕ → ℕ
port_or default none = default
port_or default (some n) = n % 65536

-- A port that an `int` can hold, or none.
abbrev pub IsInt : Option ℕ → Type 0
IsInt none = Unit {0}
IsInt (some n) = n < 2 ^ 31

pub Without-slash : (xs : List ℕ) → Without colon_or_slash xs → Without slash xs
Without-slash [] h = tt
Without-slash (x ∷ xs) h = (ground (arith, h.0), Without-slash xs h.1)

Without-decimal_digits : (fuel n : ℕ) → Without slash (decimal_digits fuel n)
unfolding decimal_digits
Without-decimal_digits zero n = tt
Without-decimal_digits (suc fuel) n = elim (Bool-cases (ltb n 10)) [
  | inl small ↦ rw small (ground (arith, ltb→lt n 10 small), tt)
  | inr big ↦ rw big (
      Without-append slash (decimal_digits fuel (n / 10)) ((n % 10 + 48) ∷ [])
        (Without-decimal_digits fuel (n / 10)) (ground arith, tt))
]

pub Without-to_decimal : (n : ℕ) → Without slash (to_decimal n)
unfolding to_decimal
Without-to_decimal n = Without-decimal_digits (n + 1) n

scan_word-slash : (p : List ℕ) → (r : List ℕ × List ℕ) × (scan_word (b'/' ∷ p) ≡ some r)
unfolding scan_word scan_until span
scan_word-slash p = (_, refl)

scan_word-nil : scan_word [] ≡ none
unfolding scan_word scan_until span
scan_word-nil = refl

-- The attempts at each of the four forms.
module _ (c : ℕ) (cs : List ℕ) (h : Without colon_or_slash (c ∷ cs)) where
  until :
      (b : ℕ) (rest : List ℕ)
      → colon_or_slash b ≡ true
      → scan_until colon_or_slash (c ∷ cs ++ (b ∷ rest)) ≡ some (c ∷ cs, b ∷ rest)
  until b rest e = scan_until-append colon_or_slash c cs (b ∷ rest) h e

  until_end : scan_until colon_or_slash (c ∷ cs ++ []) ≡ some (c ∷ cs, [])
  until_end = scan_until-append colon_or_slash c cs [] h tt

  port_and_path :
      (n : ℕ) (p : List ℕ)
      → n < 2 ^ 31
      → parse_authority (c ∷ cs ++ (b':' ∷ (to_decimal n ++ (b'/' ∷ p)))) ≡ some (c ∷ cs, n % 65536)
  unfolding parse_authority port_of
  port_and_path n p small = rw (
    until b':' (to_decimal n ++ (b'/' ∷ p)) refl,
    scan_int-to_decimal n (b'/' ∷ p) small refl,
    (scan_word-slash p).1,
  )

  only_path : (p : List ℕ) → parse_authority (c ∷ cs ++ (b'/' ∷ p)) ≡ some (c ∷ cs, 80)
  unfolding parse_authority
  only_path p = rw (
    until b'/' p refl,
    scan_until-append slash c cs (b'/' ∷ p) (Without-slash (c ∷ cs) h) refl,
    (scan_word-slash p).1,
  )

  only_port :
      (n : ℕ)
      → n < 2 ^ 31
      → parse_authority (c ∷ cs ++ (b':' ∷ (to_decimal n ++ []))) ≡ some (c ∷ cs, n % 65536)
  unfolding parse_authority port_of
  only_port n small =
      let whole = cs ++ (b':' ∷ to_decimal n) in
      let plain : Without slash (c ∷ whole) =
        Without-append slash (c ∷ cs) (b':' ∷ to_decimal n) (Without-slash (c ∷ cs) h)
          (refl, Without-to_decimal n) in
      let path : scan_until slash (c ∷ cs ++ (b':' ∷ (to_decimal n ++ []))) ≡ some (c ∷ whole, []) =
        ap (λ xs. scan_until slash (c ∷ xs)) (sym (append_assoc cs (b':' ∷ to_decimal n) []))
        ∙ scan_until-append slash c whole [] plain tt in
      rw (
        until b':' (to_decimal n ++ []) refl,
        scan_int-to_decimal n [] small tt,
        scan_word-nil,
        path,
        scan_word-nil,
      )

  only_host : parse_authority (c ∷ cs ++ []) ≡ some (c ∷ cs, 80)
  unfolding parse_authority
  only_host =
      rw (until_end, scan_until-append slash c cs [] (Without-slash (c ∷ cs) h) tt, scan_word-nil)

pub parse_authority-address_text :
    (a : Address)
    → IsInt a.port
    → Without colon_or_slash (host a)
    → parse_authority (address_text a) ≡ some (host a, port_or 80 a.port)
parse_authority-address_text a small h = go a.port a.path small
  where
    go :
        (port : Option ℕ) (path : Option (List ℕ))
        → IsInt port
        → parse_authority (host a ++ port_text port (path_text path))
          ≡ some (host a, port_or 80 port)
    go none none small = only_host a.first a.later h
    go none (some p) small = only_path a.first a.later h p
    go (some n) none small = only_port a.first a.later h n small
    go (some n) (some p) small = port_and_path a.first a.later h n p small
