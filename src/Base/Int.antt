-- ===== src/Base/Int.antt =====
-- C's signed `int` where a value can be negative.
use Prim.Native.Nat.{ℕ, ◌+◌, ◌-◌}
use mathlib.Core.Bool.{Bool, false}
use proxy_server_http.Base.Tests.{◌==◌, ltb, leb, if◌then◌else◌}

-- `negsuc n` is -(n + 1).
pub data ℤ : Type 0 where
  pos : ℕ → ℤ
  negsuc : ℕ → ℤ

-- `a -= n`
abbrev pub sub_int : ℤ → ℕ → ℤ
sub_int (pos a) n = if leb n a then pos (a - n) else negsuc (n - a - 1)
sub_int (negsuc a) n = negsuc (a + n)

-- `size > a ? a : size`
abbrev pub smaller : ℕ → ℤ → ℤ
smaller size (pos a) = if ltb a size then pos a else pos size
smaller size (negsuc a) = negsuc a

abbrev pub is_zero : ℤ → Bool
is_zero (pos n) = n == 0
is_zero (negsuc _) = false
