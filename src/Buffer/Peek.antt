-- ===== src/Buffer/Peek.antt =====
-- `buffer_peek_line` and `buffer_peek_until_null` on the bytes that a buffer holds, and the moves of
-- the reading position that follow a scan.
use proxy_server_http.Base.{
  ℕ, zero, suc, ◌+◌, ◌-◌, ◌≤◌, ◌<◌, ◌≡◌, refl, sym, ap, subst, ◌∙◌, List, [], ◌∷◌, ◌++◌, arith, min,
  length, take, drop, pos, negsuc, none, some, inl, inr, length-drop,
}
use proxy_server_http.Buffer.{
  Buffer, buffer_size, buffer_count, next, peek_loop, buffer_peek_data, peek_until,
  buffer_reset_peek_line, buffer_advance_read_to_peek,
}
use proxy_server_http.Buffer.Window.{
  window, advance, advance-next, next-lt, take-window, drop-window,
}
use proxy_server_http.Buffer.Fifo.{
  IsValid, contents, length-contents, write-eq-advance, buffer_count-lt, Took, advanced-Took,
  transfer_size-min,
}
use proxy_server_http.Buffer.Lines.{
  line_length, line_length-some, scan_found, scan_unfinished, scan_too_long,
}

-- The next scan starts behind the first `m` bytes that the buffer holds.
pub record PeekAt (b : Buffer) (m : ℕ) : Type 0 where
  pub valid : IsValid b
  pub held : m ≤ buffer_count b
  pub place : b.peek_line ≡ advance b.read m

-- The bytes that the next scan looks at.
abbrev pub unscanned : Buffer → ℕ → List ℕ
unscanned b m = drop m (contents b)

module _ {b : Buffer} {m : ℕ} (p : PeekAt b m) where
  unscanned-window : unscanned b m ≡ window b.cells b.peek_line (buffer_count b - m)
  unscanned-window =
      drop-window b.cells m b.read (buffer_count b) p.valid.read_in p.held
      ∙ ap (λ h. window b.cells h (buffer_count b - m)) (sym p.place)

  ahead :
      (b.peek_line < buffer_size)
      × (buffer_count b - m < buffer_size)
      × (b.write ≡ advance b.peek_line (buffer_count b - m))
  ahead = (
    p.valid.peek_in,
    omega (arith, buffer_count-lt p.valid),
    omega (arith, write-eq-advance p.valid, p.place, p.held),
  )

  -- A whole line of at most `size` bytes: its length is returned, it is stored with a null byte
  -- behind it, and the next scan starts behind it.
  pub peek_found :
      (d size k : ℕ)
      → line_length d (unscanned b m) ≡ some k
      → k ≤ size
      → peek_until d b size ≡ (
        pos k,
        take k (unscanned b m) ++ (0 ∷ []),
        record b { peek_line = advance b.peek_line k },
      )
  unfolding peek_until
  peek_found d size k e h =
      rw
        (
          scan_found d b p.valid b.peek_line size 0 b.peek_line (buffer_count b - m) k ahead
              (rw unscanned-window at e) h,
          unscanned-window,
        )
        (let z : 0 + k ≡ k = omega arith in rw z)

  -- No delimiter among fewer than `size` bytes: 0 is returned and the buffer is as before.
  pub peek_unfinished :
      (d size : ℕ)
      → line_length d (unscanned b m) ≡ none
      → buffer_count b - m ≤ size
      → peek_until d b size ≡ (pos 0, unscanned b m, b)
  unfolding peek_until
  peek_unfinished d size e h = rw (
    scan_unfinished d b p.valid b.peek_line size 0 b.peek_line (buffer_count b - m) ahead
        (rw unscanned-window at e) h,
    unscanned-window,
  )

  -- No delimiter in `size` bytes, and more bytes there: -1, and the buffer is as before.
  pub peek_too_long :
      (d size : ℕ)
      → line_length d (take size (unscanned b m)) ≡ none
      → size < buffer_count b - m
      → peek_until d b size ≡ (negsuc 0, take size (unscanned b m), b)
  unfolding peek_until
  peek_too_long d size e h = rw (
    scan_too_long d b p.valid b.peek_line size 0 b.peek_line (buffer_count b - m) ahead
        (rw
          (
            unscanned-window,
            take-window b.cells size b.peek_line (buffer_count b - m) (omega arith),
          )
          at e)
        h,
    unscanned-window,
    take-window b.cells size b.peek_line (buffer_count b - m) (omega arith),
  )

pub line_length_bounds :
    (d : ℕ) (xs : List ℕ) (k : ℕ) → line_length d xs ≡ some k → (0 < k) × (k ≤ length xs)
unfolding line_length
line_length_bounds d [] k e = absurd (cc)
line_length_bounds d (x ∷ xs) k e = elim (line_length-some d x xs k e) [
  | inl (t, q) ↦ omega arith
  | inr (j, t, q, r) ↦ omega (arith, line_length_bounds d xs j r)
]

pub length-unscanned : (b : Buffer) (m : ℕ) → length (unscanned b m) ≡ buffer_count b - m
length-unscanned b m = omega (arith, length-drop m (contents b), length-contents b)

pub count-peek_line :
    (b : Buffer) (j : ℕ) → buffer_count (record b { peek_line = j }) ≡ buffer_count b
unfolding buffer_count
count-peek_line b j = refl

-- Where a scan that found a line leaves the position.
pub found-PeekAt :
    {b : Buffer} {m : ℕ} (d k : ℕ)
    → PeekAt b m
    → line_length d (unscanned b m) ≡ some k
    → PeekAt (record b { peek_line = advance b.peek_line k }) (m + k)
found-PeekAt {b} {m} d k p e =
    let bound = line_length_bounds d (unscanned b m) k e in
    record {
      valid = record {
        read_in = p.valid.read_in;
        write_in = p.valid.write_in;
        peek_in = omega arith;
      };
      held = rw count-peek_line (omega (arith, bound, length-unscanned b m, p.held));
      place = omega (arith, p.place);
    }

pub reset-PeekAt : {b : Buffer} → IsValid b → PeekAt (buffer_reset_peek_line b) 0
unfolding buffer_reset_peek_line
reset-PeekAt {b} v = record {
  valid = record { read_in = v.read_in; write_in = v.write_in; peek_in = v.read_in };
  held = omega arith;
  place = omega (arith, v.read_in);
}

-- Moving the reading position up to the scanned one takes the scanned bytes off.
pub advance_read_to_peek-Took :
    {b : Buffer} {m : ℕ}
    → PeekAt b m
    → Took b m (window b.cells b.read m) (buffer_advance_read_to_peek b)
unfolding buffer_advance_read_to_peek
advance_read_to_peek-Took {b} {m} p =
    subst (λ r. Took b m (window b.cells b.read m) (record b { read = r })) (sym p.place)
      (advanced-Took b m p.valid p.held)

peek_loop_lem :
    (n : ℕ) (b : Buffer)
    → b.peek_line < buffer_size
    → peek_loop n b ≡ (window b.cells b.peek_line n, record b { peek_line = advance b.peek_line n })
unfolding peek_loop
peek_loop_lem zero b h = ap (λ p. ([], record b { peek_line = p })) (omega arith)
peek_loop_lem (suc n) b h =
    rw (peek_loop_lem n (record b { peek_line = next b.peek_line }) (next-lt b.peek_line h)) (
      ap
        (λ p.
          (b.cells b.peek_line ∷ window b.cells (next b.peek_line) n, record b { peek_line = p }))
        (advance-next b.peek_line n h))

-- `buffer_peek_data` hands over the next `n` unscanned bytes and moves the scanned position by as
-- many, where there are as many.
pub peek_data_lem :
    {b : Buffer} {m : ℕ} (n : ℕ)
    → PeekAt b m
    → m + n ≤ buffer_count b
    → buffer_peek_data b (pos n)
      ≡ (n, take n (unscanned b m), record b { peek_line = advance b.peek_line n })
unfolding buffer_peek_data
peek_data_lem {b} {m} n p h =
    let e : min n (buffer_count b) ≡ n = omega arith in
    rw (
      transfer_size-min (buffer_count b) n,
      e,
      peek_loop_lem n b p.valid.peek_in,
      unscanned-window p,
      take-window b.cells n b.peek_line (buffer_count b - m) (omega arith),
    )

pub peek_data-PeekAt :
    {b : Buffer} {m : ℕ} (n : ℕ)
    → PeekAt b m
    → m + n ≤ buffer_count b
    → PeekAt (record b { peek_line = advance b.peek_line n }) (m + n)
peek_data-PeekAt {b} {m} n p h = record {
  valid = record { read_in = p.valid.read_in; write_in = p.valid.write_in; peek_in = omega arith };
  held = rw count-peek_line h;
  place = omega (arith, p.place);
}
