-- ===== src/Buffer/Counts.antt =====
-- What every operation does to the positions and to the number of bytes held, whatever it is asked.
use proxy_server_http.Base.{
  ◌∙◌, ◌≤◌, ℕ, zero, suc, ◌+◌, ◌<◌, min, ◌≡◌, refl, ap, arith, List, [], ◌∷◌, length, length-drop,
  length-take, length-append, take, ℤ, pos, negsuc, inl, inr, ◌==◌, if_either,
}
use proxy_server_http.Buffer.{
  Buffer, peek_loop, buffer_peek_data, transfer_size, buffer_count, buffer_space, buffer_write_data,
  buffer_read_data, write_loop, put, peek_until, buffer_peek_line, buffer_reset_peek_line,
  buffer_size, Scan, scan_loop, next,
}
use proxy_server_http.Buffer.Fifo.{
  transfer_size-min, write_data-Wrote, space-count, IsValid, contents, length-contents,
  read_data-Took, read_data_negative, put-IsValid,
}
use proxy_server_http.Buffer.Peek.{
  reset-PeekAt, length-unscanned, line_length_bounds, count-peek_line, found-PeekAt, unscanned,
}
use proxy_server_http.Buffer.Window.{next-lt}
use proxy_server_http.Buffer.Outcomes.{peek_outcomes}

-- `n` bytes have left the buffer.
pub record Shrunk (b : Buffer) (n : ℕ) (b' : Buffer) : Type 0 where
  pub valid : IsValid b'
  pub count : buffer_count b' + n ≡ buffer_count b

pub read_data-Shrunk :
    (b : Buffer) (size : ℤ)
    → IsValid b
    → let (n, bytes, b') = buffer_read_data b size in Shrunk b n b'
read_data-Shrunk b (pos size) v =
    let (n, t) = read_data-Took b size v in
    let b' = (buffer_read_data b (pos size)).2 in
    record {
      valid = t.valid;
      count = omega (
        arith,
        n,
        ap length t.leaves,
        length-contents b',
        length-contents b,
        length-drop (buffer_read_data b (pos size)).0 (contents b),
      );
    }
read_data-Shrunk b (negsuc k) v =
    rw (read_data_negative b k) (record { valid = v; count = omega arith })

-- Bytes are there, and some are asked for.
pub read_some :
    (b : Buffer) (n : ℕ) → IsValid b → 0 < buffer_count b → 0 < (buffer_read_data b (pos (suc n))).0
read_some b n v h = omega (arith, (read_data-Took b (suc n) v).0)

-- A scan from the reading position.
pub record Peeked (b : Buffer) (r : ℤ × List ℕ × Buffer) : Type 0 where
  pub valid : IsValid (r.2)
  pub count : buffer_count (r.2) ≡ buffer_count b
  pub held : (k : ℕ) → r.0 ≡ pos (suc k) → k < buffer_count b

pub count_reset : (b : Buffer) → buffer_count (buffer_reset_peek_line b) ≡ buffer_count b
unfolding buffer_reset_peek_line buffer_count
count_reset b = refl

pub peek-Peeked :
    (d size : ℕ) (b : Buffer) → IsValid b → Peeked b (peek_until d (buffer_reset_peek_line b) size)
peek-Peeked d size b v =
    let p = reset-PeekAt v in
    let b0 = buffer_reset_peek_line b in
    elim (peek_outcomes d size p) [
      | inl (k, f) ↦
          let bound = line_length_bounds d (unscanned b0 0) k f.line in
          let all = length-unscanned b0 0 in
          rw f.is (record {
            valid = (found-PeekAt d k p f.line).valid;
            count = rw count-peek_line (count_reset b);
            held = λ j e. ground (arith, bound, all, count_reset b);
          })
      | inr m ↦ rw m.is (record {
        valid = p.valid;
        count = count_reset b;
        held = λ j e. elim m.not_positive [ inl z ↦ absurd (cc) | inr z ↦ absurd (cc) ];
      })
    ]

write_loop-IsValid :
    (n : ℕ) (source : List ℕ) (b : Buffer) → IsValid b → IsValid (write_loop n source b)
unfolding write_loop
write_loop-IsValid zero source b v = v
write_loop-IsValid (suc n) [] b v = write_loop-IsValid n [] (put 0 b) (put-IsValid 0 v)
write_loop-IsValid (suc n) (x ∷ source) b v =
    write_loop-IsValid n source (put x b) (put-IsValid x v)

pub write_data-IsValid :
    (b : Buffer) (source : List ℕ) (size : ℤ)
    → IsValid b
    → IsValid (buffer_write_data b source size).1
unfolding buffer_write_data
write_data-IsValid b source size v = write_loop-IsValid _ source b v

pub reset-IsValid : {b : Buffer} → IsValid b → IsValid (buffer_reset_peek_line b)
reset-IsValid v = (reset-PeekAt v).valid

-- A scan from wherever the peeking position stands.
scan_loop-in :
    (d room i : ℕ) (b : Buffer) (start aux : ℕ)
    → start < buffer_size
    → aux < buffer_size
    → (scan_loop d room i b start aux).aux < buffer_size
unfolding scan_loop
scan_loop-in d zero i b start aux h k =
    if_either (λ (s : Scan). s.aux < buffer_size) (aux == b.write) h h
scan_loop-in d (suc room) i b start aux h k =
    if_either (λ (s : Scan). s.aux < buffer_size) (aux == b.write) h
      (if_either (λ (s : Scan). s.aux < buffer_size) (b.cells aux == d) (next-lt aux k)
        (scan_loop-in d room (i + 1) b start (next aux) h (next-lt aux k)))

scan-IsValid : (d size : ℕ) (b : Buffer) → IsValid b → IsValid (peek_until d b size).2
unfolding peek_until
scan-IsValid d size b v = record {
  read_in = v.read_in;
  write_in = v.write_in;
  peek_in = scan_loop-in d size 0 b b.peek_line b.peek_line v.peek_in v.peek_in;
}

pub peek_line-IsValid : (size : ℕ) (b : Buffer) → IsValid b → IsValid (buffer_peek_line b size).2
unfolding buffer_peek_line
peek_line-IsValid size b v = scan-IsValid b'\n' size b v

-- What a write of whole bytes takes from the space: some, where there are some and there is space.
pub write_less :
    (b : Buffer) (text : List ℕ)
    → IsValid b
    → let b' = (buffer_write_data b text (pos (length text))).1 in
      (buffer_space b' ≤ buffer_space b)
      × (0 < length text → 0 < buffer_space b → buffer_space b' < buffer_space b)
write_less b text v =
    let (n, w) = write_data-Wrote b text (length text) v (omega arith) in
    let b' = (buffer_write_data b text (pos (length text))).1 in
    let k = min (length text) (buffer_space b) in
    let grown : buffer_count b' ≡ buffer_count b + k = omega (
      arith,
      ap length w.holds,
      length-append (contents b) (take k text),
      length-take k text,
      length-contents b,
      length-contents b',
    ) in
    let before = space-count v in
    let after = space-count w.valid in
    (omega (arith, grown, before, after), λ h l. omega (arith, grown, before, after))

peek_loop-Kept :
    (n : ℕ) (b : Buffer)
    → IsValid b
    → IsValid (peek_loop n b).1 × (buffer_count (peek_loop n b).1 ≡ buffer_count b)
unfolding peek_loop
peek_loop-Kept zero b v = (v, refl)
peek_loop-Kept (suc n) b v =
    let b1 : Buffer = record b { peek_line = next b.peek_line } in
    let (v', e) = peek_loop-Kept n b1 (record {
      read_in = v.read_in;
      write_in = v.write_in;
      peek_in = next-lt b.peek_line v.peek_in;
    }) in
    (v', e ∙ count-peek_line b (next b.peek_line))

-- A peek leaves what is there, and sees some bytes where there are some.
pub peek_data-Kept :
    (b : Buffer) (size : ℕ)
    → IsValid b
    → let (n, bytes, b') = buffer_peek_data b (pos (suc size)) in
      IsValid b' × (buffer_count b' ≡ buffer_count b) × (0 < buffer_count b → 0 < n)
unfolding buffer_peek_data
peek_data-Kept b size v =
    let n = transfer_size (buffer_count b) (pos (suc size)) in
    let (v', e) = peek_loop-Kept n b v in
    (v', e, λ h. omega (arith, transfer_size-min (buffer_count b) (suc size)))
