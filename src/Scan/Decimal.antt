-- ===== src/Scan/Decimal.antt =====
-- A number in decimal digits, printed and scanned.
use proxy_server_http.Base.{
  ℕ, zero, suc, ◌+◌, ◌-◌, ◌*◌, ◌/◌, ◌%◌, ◌<◌, ◌^◌, ◌≡◌, leb, refl, sym, ap, ◌∙◌, arith, Bool, true,
  false, ltb, ◌==◌, Bool-cases, inl, inr, List, [], ◌∷◌, ◌++◌, append_assoc, pos, some, ltb→lt,
  ltb→ge,
}
use proxy_server_http.Chunked.{is_space}
use proxy_server_http.Scan.{
  is_digit, read_digits, scan_number, scan_signed, scan_int, decimal_digits, to_decimal, positively,
}
use proxy_server_http.Scan.Spans.{Stops}

-- Where digits end.
abbrev pub not_digit : ℕ → Bool
not_digit c = elim (is_digit c) [ true ↦ false | false ↦ true ]

read_digits-one :
    (acc d : ℕ) (rest : List ℕ)
    → d < 10
    → read_digits acc ((d + 48) ∷ rest) ≡ read_digits (acc * 10 + d) rest
unfolding read_digits
read_digits-one acc d rest h =
    let digit : is_digit (d + 48) ≡ true = ground arith in
    let value : d + 48 - 48 ≡ d = omega arith in rw (digit, value)

read_digits-decimal :
    (fuel n : ℕ) (rest : List ℕ)
    → n < fuel
    → read_digits 0 (decimal_digits fuel n ++ rest) ≡ read_digits n rest
unfolding decimal_digits
read_digits-decimal zero n rest h = absurd (omega arith)
read_digits-decimal (suc fuel) n rest h = elim (Bool-cases (ltb n 10)) [
  | inl small ↦
      rw small
        (read_digits-one 0 n rest (ltb→lt n 10 small) ∙ ap (λ k. read_digits k rest) (omega arith))
  | inr big ↦
      let more = ltb→ge n 10 big in
      rw (big, append_assoc (decimal_digits fuel (n / 10)) ((n % 10 + 48) ∷ []) rest)
        (read_digits-decimal fuel (n / 10) ((n % 10 + 48) ∷ rest) (omega arith)
          ∙ read_digits-one (n / 10) (n % 10) rest (omega arith)
          ∙ ap (λ k. read_digits k rest) (omega arith))
]

read_digits-Stops : (n : ℕ) (rest : List ℕ) → Stops not_digit rest → read_digits n rest ≡ (n, rest)
unfolding read_digits
read_digits-Stops n [] h = refl
read_digits-Stops n (c ∷ rest) h = ground arith

-- The digits start with one.
pub record StartsWithDigit (s : List ℕ) : Type 0 where
  pub first : ℕ
  pub later : List ℕ
  pub is : s ≡ first ∷ later
  pub digit : is_digit first ≡ true

decimal_digits-StartsWithDigit : (fuel n : ℕ) → n < fuel → StartsWithDigit (decimal_digits fuel n)
unfolding decimal_digits
decimal_digits-StartsWithDigit zero n h = absurd (omega arith)
decimal_digits-StartsWithDigit (suc fuel) n h = elim (Bool-cases (ltb n 10)) [
  | inl small ↦
      rw small (record {
        first = n + 48;
        later = [];
        is = refl;
        digit = ground (arith, ltb→lt n 10 small);
      })
  | inr big ↦
      let s = decimal_digits-StartsWithDigit fuel (n / 10) (omega (arith, ltb→ge n 10 big)) in
      rw big (record {
        first = s.first;
        later = s.later ++ ((n % 10 + 48) ∷ []);
        is = ap (λ xs. xs ++ ((n % 10 + 48) ∷ [])) s.is;
        digit = s.digit;
      })
]

scan_int-digit :
    (c : ℕ) (cs : List ℕ)
    → is_digit c ≡ true
    → scan_int (c ∷ cs) ≡ positively (read_digits 0 (c ∷ cs))
unfolding scan_int scan_signed scan_number
scan_int-digit c cs h =
    let space : is_space c ≡ false = ground arith in
    let minus : (c == b'-') ≡ false = ground arith in
    let plus : (c == b'+') ≡ false = ground arith in rw (space, minus, plus, h)

-- A number that an `int` can hold is kept.
positively-int : (n : ℕ) (rest : List ℕ) → n < 2 ^ 31 → positively (n, rest) ≡ some (pos n, rest)
positively-int n rest h =
    let fits : leb n (2 ^ 63 - 1) ≡ true = ground arith in
    let bits : n % 2 ^ 32 ≡ n = omega arith in
    let plain : ltb n (2 ^ 31) ≡ true = ground arith in rw (fits, bits, plain) refl

-- A number of an `int`, printed by `%d`, is scanned back by `%d`, where no digit follows.
pub scan_int-to_decimal :
    (n : ℕ) (rest : List ℕ)
    → n < 2 ^ 31
    → Stops not_digit rest
    → scan_int (to_decimal n ++ rest) ≡ some (pos n, rest)
unfolding to_decimal
scan_int-to_decimal n rest small h =
    let s = decimal_digits-StartsWithDigit (n + 1) n (omega arith) in
    let value = read_digits-decimal (n + 1) n rest (omega arith) ∙ read_digits-Stops n rest h in
    rw s.is (scan_int-digit s.first (s.later ++ rest) s.digit)
    ∙ ap positively (ap (λ xs. read_digits 0 (xs ++ rest)) (sym s.is) ∙ value)
    ∙ positively-int n rest small

-- The digits of a number are digits.
pub to_decimal-StartsWithDigit : (n : ℕ) → StartsWithDigit (to_decimal n)
unfolding to_decimal
to_decimal-StartsWithDigit n = decimal_digits-StartsWithDigit (n + 1) n (omega arith)
