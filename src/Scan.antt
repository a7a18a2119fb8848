-- ===== src/Scan.antt =====
-- The conversions of `sscanf` and the comparisons of strings that the parsers of requests and responses
-- use: `%[^...]`, `%d`, `%s`, a literal byte, `strncasecmp`; and the `%d` of `sprintf`. Each takes the
-- rest of the text and gives what it stores and the rest behind it, or `none` where it does not match.
pub mod Spans
pub mod Decimal
use proxy_server_http.Base.{
  ℕ, zero, suc, ◌+◌, ◌-◌, ◌*◌, ◌/◌, ◌%◌, ◌^◌, ◌-◌, ◌==◌, ltb, leb, if◌then◌else◌, Bool, true, false,
  ◌||◌, ◌&&◌, List, [], ◌∷◌, ◌++◌, ℤ, pos, negsuc, Option, none, some,
}
use proxy_server_http.Helpers.{to_lower}
use proxy_server_http.Chunked.{is_space, skip_spaces, to_int, negated}

infixl 5 ◌>>=◌
abbrev pub ◌>>=◌ {ℓ κ} : {A : Type ℓ} {B : Type κ} → Option A → (A → Option B) → Option B
none >>= f = none
some a >>= f = f a

-- The first of two attempts that matches.
infixr 30 ◌or◌
abbrev pub ◌or◌ {ℓ} : {A : Type ℓ} → Option A → Option A → Option A
none or b = b
some a or b = some a

-- The bytes before the first that stops, and those from there on.
abbrev pub cons_first : ℕ → List ℕ × List ℕ → List ℕ × List ℕ
cons_first c (xs, rest) = (c ∷ xs, rest)

unfoldable pub span : (ℕ → Bool) → List ℕ → List ℕ × List ℕ
span stop [] = ([], [])
span stop (c ∷ cs) = if stop c then ([], c ∷ cs) else cons_first c (span stop cs)

abbrev pub nonempty : List ℕ × List ℕ → Option (List ℕ × List ℕ)
nonempty ([], rest) = none
nonempty (c ∷ cs, rest) = some (c ∷ cs, rest)

-- `%[^...]`: one byte at least
unfoldable pub scan_until : (ℕ → Bool) → List ℕ → Option (List ℕ × List ℕ)
unfolding span
scan_until stop s = nonempty (span stop s)

-- `%s`
unfoldable pub scan_word : List ℕ → Option (List ℕ × List ℕ)
unfolding scan_until
scan_word s = scan_until is_space (skip_spaces s)

-- A byte that must be next.
abbrev pub literal : ℕ → List ℕ → Option (List ℕ)
literal b [] = none
literal b (c ∷ cs) = if c == b then some cs else none

abbrev pub literals : List ℕ → List ℕ → Option (List ℕ)
literals [] s = some s
literals (b ∷ bs) s = literal b s >>= literals bs

abbrev pub is_digit : ℕ → Bool
is_digit c = leb b'0' c && leb c b'9'

-- The digits that are next, behind those that have given `acc`.
unfoldable pub read_digits : ℕ → List ℕ → ℕ × List ℕ
read_digits acc [] = (acc, [])
read_digits acc (c ∷ cs) =
    if is_digit c then read_digits (acc * 10 + (c - 48)) cs else (acc, c ∷ cs)

unfoldable pub scan_number : List ℕ → Option (ℕ × List ℕ)
unfolding read_digits
scan_number [] = none
scan_number (c ∷ cs) = if is_digit c then some (read_digits 0 (c ∷ cs)) else none

-- A number above the greatest `long`, or its negative below the least, is taken for that.
abbrev pub at_most : ℕ → ℕ → ℕ
at_most limit n = if leb n limit then n else limit

abbrev pub positively : ℕ × List ℕ → Option (ℤ × List ℕ)
positively (n, rest) = some (to_int (at_most (2 ^ 63 - 1) n), rest)

abbrev pub negatively : ℕ × List ℕ → Option (ℤ × List ℕ)
negatively (n, rest) = some (negated (at_most (2 ^ 63) n), rest)

unfoldable pub scan_signed : List ℕ → Option (ℤ × List ℕ)
unfolding scan_number
scan_signed [] = none
scan_signed (c ∷ cs) =
    if c == b'-'
    then scan_number cs >>= negatively
    else if c == b'+'
    then scan_number cs >>= positively
    else scan_number (c ∷ cs) >>= positively

-- `%d`. What is stored for a number that no `int` can hold is not defined by C; it is what the GNU
-- library does here, which reads a `long` and keeps its last 32 bits.
unfoldable pub scan_int : List ℕ → Option (ℤ × List ℕ)
unfolding scan_signed
scan_int s = scan_signed (skip_spaces s)

-- `strncasecmp(s, t, n) == 0`, where `t` has `n` bytes and none of them is null
unfoldable pub starts_nocase : List ℕ → List ℕ → Bool
unfolding to_lower
starts_nocase [] s = true
starts_nocase (b ∷ bs) [] = false
starts_nocase (b ∷ bs) (c ∷ cs) = to_lower b == to_lower c && starts_nocase bs cs

-- The digits of `%d` of `sprintf`, for a number that is not negative, with fuel for them.
unfoldable pub decimal_digits : ℕ → ℕ → List ℕ
decimal_digits zero n = []
decimal_digits (suc fuel) n =
    let before = decimal_digits fuel (n / 10) in
    if ltb n 10 then (n + 48) ∷ [] else before ++ ((n % 10 + 48) ∷ [])

unfoldable pub to_decimal : ℕ → List ℕ
unfolding decimal_digits
to_decimal n = decimal_digits (n + 1) n
