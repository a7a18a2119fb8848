-- ===== src/Chunked/Number.antt =====
-- A chunk's size in digits to the base 16, printed and read back.
use native.Mathlib.Nat.{pow-suc}
use proxy_server_http.Base.{
  ℕ, zero, suc, ◌+◌, ◌*◌, ◌/◌, ◌%◌, ◌^◌, ◌≤◌, ◌<◌, ◌≡◌, refl, ◌∙◌, arith, Bool-cases, inl, inr, ltb,
  ltb→lt, ltb→ge, List, [], ◌∷◌, ◌++◌, length, length-append, some, pos,
}
use proxy_server_http.Buffer.Strings.{Avoids}
use proxy_server_http.Protocol.{c_string}
use proxy_server_http.Chunked.{
  hex_digit, hex_digits, to_hex, skip_spaces, word, scan_hex, digit_value, digits_value,
  drop_prefix, to_int, strtol, crlf,
}

-- What the readers need to know of a digit.
record IsDigit (c : ℕ) : Type 0 where
  value : (d : ℕ) × (digit_value c ≡ some d)
  printable : 48 ≤ c
  below : c < b'X'

abbrev Digits : List ℕ → Type 0
Digits [] = Unit {0}
Digits (c ∷ cs) = IsDigit c × Digits cs

hex_digit_value : (d : ℕ) → d < 16 → digit_value (hex_digit d) ≡ some d
hex_digit_value d h = ground arith

hex_digit-IsDigit : (d : ℕ) → d < 16 → IsDigit (hex_digit d)
hex_digit-IsDigit d h = record {
  value = (d, hex_digit_value d h);
  printable = ground arith;
  below = ground arith;
}

Digits-append : (xs ys : List ℕ) → Digits xs → Digits ys → Digits (xs ++ ys)
Digits-append [] ys h k = k
Digits-append (x ∷ xs) ys h k = (h.0, Digits-append xs ys h.1 k)

hex_digits-Digits : (fuel n : ℕ) → Digits (hex_digits fuel n)
unfolding hex_digits
hex_digits-Digits zero n = tt
hex_digits-Digits (suc fuel) n = elim (Bool-cases (ltb n 16)) [
  | inl small ↦ rw small (hex_digit-IsDigit n (ltb→lt n 16 small), tt)
  | inr large ↦ rw large (
      Digits-append (hex_digits fuel (n / 16)) (hex_digit (n % 16) ∷ [])
        (hex_digits-Digits fuel (n / 16)) (hex_digit-IsDigit (n % 16) (omega arith), tt))
]

digits_value-append :
    (acc : ℕ) (xs : List ℕ) (c d : ℕ)
    → Digits xs
    → digit_value c ≡ some d
    → digits_value acc (xs ++ (c ∷ [])) ≡ digits_value acc xs * 16 + d
unfolding digits_value
digits_value-append acc [] c d h e = rw (e, digits_value)
digits_value-append acc (x ∷ xs) c d h e =
    let (v, q) = h.0.value in rw (q, digits_value) (digits_value-append (acc * 16 + v) xs c d h.1 e)

digits_value-hex_digits : (fuel n : ℕ) → n < fuel → digits_value 0 (hex_digits fuel n) ≡ n
unfolding hex_digits
digits_value-hex_digits zero n h = absurd (omega arith)
digits_value-hex_digits (suc fuel) n h = elim (Bool-cases (ltb n 16)) [
  | inl small ↦ rw small (
      digits_value-append 0 [] (hex_digit n) n tt (hex_digit_value n (ltb→lt n 16 small))
      ∙ (unfold digits_value in omega arith))
  | inr large ↦ rw large (
      digits_value-append 0 (hex_digits fuel (n / 16)) (hex_digit (n % 16)) (n % 16)
        (hex_digits-Digits fuel (n / 16)) (hex_digit_value (n % 16) (omega arith))
      ∙ omega (arith, digits_value-hex_digits fuel (n / 16), ltb→ge n 16 large))
]

length-hex_digits : (k fuel n : ℕ) → n < 16 ^ k → 0 < k → length (hex_digits fuel n) ≤ k
unfolding hex_digits
length-hex_digits k zero n h p = omega arith
length-hex_digits zero (suc fuel) n h p = absurd (omega arith)
length-hex_digits (suc zero) (suc fuel) n h p = elim (Bool-cases (ltb n 16)) [
  | inl small ↦ rw small (omega arith)
  | inr large ↦ absurd (omega (arith, rw (pow-suc 16 0) at h, ltb→ge n 16 large))
]
length-hex_digits (suc (suc k)) (suc fuel) n h p = elim (Bool-cases (ltb n 16)) [
  | inl small ↦ rw small (omega arith)
  | inr large ↦
      let below : n / 16 < 16 ^ suc k = omega (arith, rw (pow-suc 16 (suc k)) at h) in
      rw large (
        omega (
          arith,
          length-append (hex_digits fuel (n / 16)) (hex_digit (n % 16) ∷ []),
          length-hex_digits (suc k) fuel (n / 16) below (omega arith),
        ))
]

-- The digits of an `int` are at most eight.
pub length-to_hex : (n : ℕ) → n < 2 ^ 31 → length (to_hex n) ≤ 8
unfolding to_hex
length-to_hex n h = length-hex_digits 8 (n + 1) n (omega arith) (omega arith)

-- The digits of a number below 4096 are at most three.
pub short-to_hex : (n : ℕ) → n < 4096 → length (to_hex n) ≤ 3
unfolding to_hex
short-to_hex n h = length-hex_digits 3 (n + 1) n (omega arith) (omega arith)

snoc-cons : (xs : List ℕ) (d : ℕ) → (c : ℕ) × (cs : List ℕ) × (xs ++ (d ∷ []) ≡ c ∷ cs)
snoc-cons [] d = (d, [], refl)
snoc-cons (x ∷ xs) d = (x, xs ++ (d ∷ []), refl)

hex_digits-cons : (fuel n : ℕ) → (c : ℕ) × (cs : List ℕ) × (hex_digits (suc fuel) n ≡ c ∷ cs)
unfolding hex_digits
hex_digits-cons fuel n = elim (Bool-cases (ltb n 16)) [
  | inl small ↦ rw small (hex_digit n, [], refl)
  | inr large ↦ rw large (snoc-cons (hex_digits fuel (n / 16)) (hex_digit (n % 16)))
]

c_string-Digits :
    (xs rest : List ℕ) → Digits xs → c_string (xs ++ (b'\r' ∷ b'\n' ∷ 0 ∷ rest)) ≡ xs ++ crlf
c_string-Digits [] rest h = refl
c_string-Digits (x ∷ xs) rest h =
    let q = h.0.printable in ground (arith, c_string-Digits xs rest h.1, q)

word-Digits :
    (n : ℕ) (xs rest : List ℕ) → Digits xs → length xs < n → word n (xs ++ (b'\r' ∷ rest)) ≡ xs
word-Digits zero xs rest h l = absurd (omega arith)
word-Digits (suc n) [] rest h l = refl
word-Digits (suc n) (x ∷ xs) rest h l =
    let q = h.0.printable in ground (arith, word-Digits n xs rest h.1, q)

skip_spaces-Digits :
    (c : ℕ) (xs rest : List ℕ) → IsDigit c → skip_spaces ((c ∷ xs) ++ rest) ≡ (c ∷ xs) ++ rest
skip_spaces-Digits c xs rest h = let q = h.printable in ground (arith, q)

drop_prefix-Digits : (xs : List ℕ) → Digits xs → drop_prefix xs ≡ xs
drop_prefix-Digits [] h = refl
drop_prefix-Digits (a ∷ []) h = refl
drop_prefix-Digits (a ∷ b ∷ []) h = refl
drop_prefix-Digits (a ∷ b ∷ c ∷ cs) h = let q = h.1.0.below in ground (arith, q)

strtol-Digits :
    (c : ℕ) (cs : List ℕ) → Digits (c ∷ cs) → strtol (c ∷ cs) ≡ to_int (digits_value 0 (c ∷ cs))
unfolding strtol
strtol-Digits c cs h = let q = h.0.printable in ground (arith, drop_prefix-Digits (c ∷ cs) h, q)

-- For a number below 2^31, the line that `write_chunked` prints for it is scanned to a word, and
-- `strtol` reads the number from that word.
pub strtol-to_hex :
    (n : ℕ)
    → n < 2 ^ 31
    → (c : ℕ) × (cs : List ℕ) × (scan_hex (c_string (to_hex n ++ (b'\r' ∷ b'\n' ∷ 0 ∷ [])))
        ≡ c ∷ cs)
      × (strtol (c ∷ cs) ≡ pos n)
unfolding to_hex scan_hex
strtol-to_hex n h =
    let e : n + 1 ≡ suc n = omega arith in
    let (c, cs, shape) = hex_digits-cons n n in
    let ds = rw (e, shape) at (hex_digits-Digits (n + 1) n) in
    let v = rw (e, shape) at (digits_value-hex_digits (n + 1) n (omega arith)) in
    let l = rw (e, shape) at (length-to_hex n h) in
    (
      c,
      cs,
      rw (e, shape, c_string-Digits (c ∷ cs) [] ds, skip_spaces-Digits c cs crlf ds.0)
          (word-Digits 9 (c ∷ cs) (b'\n' ∷ []) ds (omega (arith, l))),
      strtol-Digits c cs ds ∙ rw v (ground arith),
    )

Digits-Avoids : (xs : List ℕ) → Digits xs → Avoids b'\n' (xs ++ (b'\r' ∷ []))
Digits-Avoids [] h = (refl, tt)
Digits-Avoids (x ∷ xs) h = let q = h.0.printable in (ground (arith, q), Digits-Avoids xs h.1)

-- A size line has no newline before its end.
pub to_hex-Avoids : (n : ℕ) → Avoids b'\n' (to_hex n ++ (b'\r' ∷ []))
unfolding to_hex
to_hex-Avoids n = Digits-Avoids (hex_digits (n + 1) n) (hex_digits-Digits (n + 1) n)
