-- ===== src/Selector/Capacity.antt =====
-- `next_capacity` and `ensure_capacity`.
use native.Mathlib.Nat.{pow-suc}
use native.Mathlib.Numerals.{add-one}
use proxy_server_http.Base.{
  ℕ, zero, suc, ◌+◌, ◌/◌, ◌^◌, ◌≤◌, ◌<◌, arith, ◌==◌, ==_iff, Bool-cases, inl, inr,
}
use proxy_server_http.Selector.{items_max_size, bit_count, next_capacity}

lt-pow-bit_count : (fuel n : ℕ) → n ≤ fuel → n < 2 ^ bit_count fuel n
unfolding bit_count
lt-pow-bit_count zero n h = omega arith
lt-pow-bit_count (suc fuel) n h = elim (Bool-cases (n == 0)) [
  | inl z ↦ rw z (omega (arith, (==_iff n 0).0 z))
  | inr nz ↦
      rw (nz, add-one, pow-suc)
        (let some : 0 < n = ground arith in
          omega (arith, lt-pow-bit_count fuel (n / 2) (omega arith), some))
]

-- For an index of at most 1024, the power of two that `next_capacity` finds is above the index,
-- which its assertion asks for, and the capacity is above the index and at most one above 1024.
pub next_capacity_bounds :
    (n : ℕ)
    → n ≤ items_max_size
    → (n < 2 ^ bit_count n n) × (n < next_capacity n) × (next_capacity n ≤ items_max_size + 1)
unfolding next_capacity
next_capacity_bounds n h = ground (arith, lt-pow-bit_count n n)
