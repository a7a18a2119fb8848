-- ===== src/Chunked/Text.antt =====
-- The uses that the functions on a body make of the C library: `sprintf` with `%X`, `sscanf` with `%9s`,
-- and `strtol` to the base 16 with the conversion of its `long` to `int`.
use proxy_server_http.Base.{
  ℕ, zero, suc, ◌+◌, ◌-◌, ◌*◌, ◌/◌, ◌%◌, ◌^◌, ◌==◌, ltb, leb, if◌then◌else◌, Bool, ◌||◌, ◌&&◌, List,
  [], ◌∷◌, ◌++◌, ℤ, pos, negsuc, Option, none, some,
}

-- A digit as `%X` prints it.
abbrev pub hex_digit : ℕ → ℕ
hex_digit d = if ltb d 10 then d + 48 else d + 55

-- The digits of `%X`, with fuel for them.
unfoldable pub hex_digits : ℕ → ℕ → List ℕ
hex_digits zero n = []
hex_digits (suc fuel) n =
    let before = hex_digits fuel (n / 16) in
    if ltb n 16 then hex_digit n ∷ [] else before ++ (hex_digit (n % 16) ∷ [])

-- A number has no more digits than itself and one.
unfoldable pub to_hex : ℕ → List ℕ
unfolding hex_digits
to_hex n = hex_digits (n + 1) n

-- `isspace`
abbrev pub is_space : ℕ → Bool
is_space c = c == b' ' || (leb 9 c && leb c 13)

abbrev pub skip_spaces : List ℕ → List ℕ
skip_spaces [] = []
skip_spaces (c ∷ cs) = if is_space c then skip_spaces cs else c ∷ cs

-- At most `n` bytes, up to a space.
abbrev pub word : ℕ → List ℕ → List ℕ
word zero cs = []
word (suc n) [] = []
word (suc n) (c ∷ cs) = if is_space c then [] else c ∷ word n cs

-- `sscanf(s, "%9s\r\n", hex)`: the word stored, which is empty where the call does not return 1
unfoldable pub scan_hex : List ℕ → List ℕ
scan_hex s = word 9 (skip_spaces s)

-- The value of a digit to the base 16.
abbrev pub digit_value : ℕ → Option ℕ
digit_value c =
    if leb 48 c && leb c 57
    then some (c - 48)
    else if leb 65 c && leb c 70
    then some (c - 55)
    else if leb 97 c && leb c 102
    then some (c - 87)
    else none

-- The digits up to the first byte that is none.
unfoldable pub digits_value : ℕ → List ℕ → ℕ
digits_value acc [] = acc
digits_value acc (c ∷ cs) = elim (digit_value c) [
  | none ↦ acc
  | some d ↦ digits_value (acc * 16 + d) cs
]

-- The prefix `0x`, which must have a digit behind it.
abbrev pub drop_prefix : List ℕ → List ℕ
drop_prefix (a ∷ b ∷ c ∷ cs) =
    if a == b'0' && (b == b'x' || b == b'X')
    then elim (digit_value c) [ none ↦ a ∷ b ∷ c ∷ cs | some _ ↦ c ∷ cs ]
    else a ∷ b ∷ c ∷ cs
drop_prefix cs = cs

-- The value of a `long` as an `int`.
abbrev pub to_int : ℕ → ℤ
to_int n = let m = n % 2 ^ 32 in if ltb m (2 ^ 31) then pos m else negsuc (2 ^ 32 - m - 1)

abbrev pub negated : ℕ → ℤ
negated n = to_int ((2 ^ 32 - n % 2 ^ 32) % 2 ^ 32)

-- `strtol(s, 0, 16)` as an `int`. What `scan_hex` gives has no spaces and at most nine bytes, so no
-- `long` is exceeded.
unfoldable pub strtol : List ℕ → ℤ
strtol [] = pos 0
strtol (c ∷ cs) =
    if c == b'-'
    then negated (digits_value 0 (drop_prefix cs))
    else if c == b'+'
    then to_int (digits_value 0 (drop_prefix cs))
    else to_int (digits_value 0 (drop_prefix (c ∷ cs)))
