-- ===== src/Buffer/Outcomes.antt =====
-- The two ways in which a scan can end: it takes a line, or it leaves the buffer as it was.
use proxy_server_http.Base.{
  ℕ, zero, suc, ◌+◌, ◌-◌, ◌≤◌, ◌<◌, ◌≡◌, refl, ◌⊎◌, inl, inr, List, [], ◌∷◌, ◌++◌, arith, length,
  take, ℤ, pos, negsuc, none, some, Option-cases, Bool-cases, ltb, length-take, length-append, ◌≢◌,
  ==_iff, ap, ◌∙◌, ltb→lt, ltb→ge, ◌==◌,
}
use proxy_server_http.Buffer.{Buffer, buffer_count, peek_until}
use proxy_server_http.Buffer.Window.{advance}
use proxy_server_http.Buffer.Lines.{line_length, line_length-some, line_length-none}
use proxy_server_http.Buffer.Peek.{
  PeekAt, unscanned, peek_found, peek_unfinished, peek_too_long, length-unscanned,
  line_length_bounds,
}

-- A line that is not there, or is longer than `n` bytes, does not end within `n` bytes.
no_line-take :
    (d n : ℕ) (xs : List ℕ)
    → (line_length d xs ≡ none) ⊎ ((k : ℕ) × (line_length d xs ≡ some k) × (n < k))
    → line_length d (take n xs) ≡ none
unfolding line_length
no_line-take d zero xs h = refl
no_line-take d (suc n) [] h = refl
no_line-take d (suc n) (x ∷ xs) (inl e) =
    let (t, r) = line_length-none d x xs e in rw (t, no_line-take d n xs (inl r))
no_line-take d (suc n) (x ∷ xs) (inr (k, e, l)) = elim (line_length-some d x xs k e) [
  | inl (t, q) ↦ absurd (omega arith)
  | inr (j, t, q, r) ↦ rw (t, no_line-take d n xs (inr (j, r, omega arith)))
]

-- The scan found a line of `k` bytes.
pub record Found (d size : ℕ) (b : Buffer) (m k : ℕ) : Type 0 where
  pub line : line_length d (unscanned b m) ≡ some k
  pub fits : k ≤ size
  pub is :
      peek_until d b size
      ≡ (pos k, take k (unscanned b m) ++ (0 ∷ []), record b { peek_line = advance b.peek_line k })

-- The scan found none: `ret` is 0 or -1.
pub record Missed (d size : ℕ) (b : Buffer) (m : ℕ) : Type 0 where
  pub ret : ℤ
  pub dest : List ℕ
  pub not_positive : (ret ≡ pos 0) ⊎ (ret ≡ negsuc 0)
  pub short : length dest ≤ size
  pub is : peek_until d b size ≡ (ret, dest, b)

missed :
    {b : Buffer} {m : ℕ} (d size : ℕ)
    → PeekAt b m
    → (line_length d (unscanned b m) ≡ none)
      ⊎ ((k : ℕ) × (line_length d (unscanned b m) ≡ some k) × (size < k))
    → Missed d size b m
missed {b} {m} d size p h = elim (Bool-cases (ltb size (buffer_count b - m))) [
  | inl more ↦ record {
    ret = negsuc 0;
    dest = take size (unscanned b m);
    not_positive = inr refl;
    short = omega (arith, length-take size (unscanned b m));
    is =
        peek_too_long p d size (no_line-take d size (unscanned b m) h)
          (ltb→lt size (buffer_count b - m) more);
  }
  | inr all ↦ elim h [
    | inl e ↦ record {
      ret = pos 0;
      dest = unscanned b m;
      not_positive = inl refl;
      short = omega (arith, length-unscanned b m, ltb→ge size (buffer_count b - m) all);
      is = peek_unfinished p d size e (ltb→ge size (buffer_count b - m) all);
    }
    | inr (k, e, l) ↦ absurd (
        omega (
          arith,
          length-unscanned b m,
          ltb→ge size (buffer_count b - m) all,
          line_length_bounds d (unscanned b m) k e,
        ))
  ]
]

pub peek_outcomes :
    {b : Buffer} {m : ℕ} (d size : ℕ)
    → PeekAt b m
    → ((k : ℕ) × Found d size b m k) ⊎ Missed d size b m
peek_outcomes {b} {m} d size p = elim (Option-cases (line_length d (unscanned b m))) [
  | inl e ↦ inr (missed d size p (inl e))
  | inr (k, e) ↦ elim (Bool-cases (ltb size k)) [
    | inl long ↦ inr (missed d size p (inr (k, e, ltb→lt size k long)))
    | inr fits ↦ inl (
      k,
      record {
        line = e;
        fits = ltb→ge size k fits;
        is = peek_found p d size k e (ltb→ge size k fits);
      },
    )
  ]
]

stored :
    (d k : ℕ) (xs : List ℕ) → line_length d xs ≡ some k → length (take k xs ++ (0 ∷ [])) ≡ k + 1
stored d k xs e =
    omega (arith, length-append (take k xs) (0 ∷ []), length-take k xs, line_length_bounds d xs k e)

-- From a peeking position within the contents, a scan given room for `size` bytes stores at most
-- `size`, if the line that it looks for has not exactly `size` bytes with its delimiter. If it has,
-- the scan stores one byte more.
pub peek_stores :
    {b : Buffer} {m : ℕ} (d size : ℕ)
    → PeekAt b m
    → ((length (peek_until d b size).1 ≤ size) × (line_length d (unscanned b m) ≢ some size))
      ⊎ ((length (peek_until d b size).1 ≡ size + 1) × (line_length d (unscanned b m) ≡ some size))
peek_stores {b} {m} d size p = elim (Option-cases (line_length d (unscanned b m))) [
  | inl e ↦ let f = missed d size p (inl e) in inl (rw f.is f.short, λ q. cc)
  | inr (k, e) ↦ elim (Bool-cases (ltb size k)) [
    | inl long ↦
        let l = ltb→lt size k long in
        let f = missed d size p (inr (k, e, l)) in inl (rw f.is f.short, λ q. ground arith)
    | inr fits ↦
        let l = ltb→ge size k fits in
        let n = stored d k (unscanned b m) e in
        elim (Bool-cases (k == size)) [
          | inl same ↦
              let q = (==_iff k size).0 same in
              inr (rw (peek_found p d size k e l) (omega (arith, n, q)), e ∙ ap some q)
          | inr less ↦ inl (rw (peek_found p d size k e l) (ground (arith, n)), λ q. ground arith)
        ]
  ]
]
