-- ===== src/Buffer/Fifo.antt =====
-- Writing and reading, as a queue.
use proxy_server_http.Base.{
  ℕ, zero, suc, ◌+◌, ◌-◌, ◌≤◌, ◌<◌, min, ◌≡◌, refl, sym, ap, ◌∙◌, List, [], ◌∷◌, ◌++◌, arith,
  length, take, drop, pos, negsuc, append_assoc, append-nil,
}
use proxy_server_http.Buffer.{
  Buffer, buffer_size, new_buffer, buffer_count, buffer_space, transfer_size, next, put, write_loop,
  buffer_write_data, read_loop, buffer_read_data, buffer_clean,
}
use proxy_server_http.Buffer.Window.{
  window, next-lt, next-mod, length-window, window-update, take-window, drop-window, advance,
  advance-next,
}

-- The three positions are indices of `data`.
pub record IsValid (b : Buffer) : Type 0 where
  pub read_in : b.read < buffer_size
  pub write_in : b.write < buffer_size
  pub peek_in : b.peek_line < buffer_size

-- The bytes written and not yet read.
abbrev pub contents : Buffer → List ℕ
contents b = window b.cells b.read (buffer_count b)

pub length-contents : (b : Buffer) → length (contents b) ≡ buffer_count b
length-contents b = length-window b.cells b.read (buffer_count b)

pub buffer_count-lt : {b : Buffer} → IsValid b → buffer_count b < buffer_size
unfolding buffer_count
buffer_count-lt v = ground arith

pub write-eq-advance : {b : Buffer} → IsValid b → b.write ≡ advance b.read (buffer_count b)
unfolding buffer_count
write-eq-advance v = ground arith

pub count_of_advance :
    {b : Buffer} (n : ℕ)
    → IsValid b
    → n < buffer_size
    → b.write ≡ advance b.read n
    → buffer_count b ≡ n
unfolding buffer_count
count_of_advance n v h e = ground arith

pub put-IsValid : {b : Buffer} (x : ℕ) → IsValid b → IsValid (put x b)
put-IsValid {b} x v = ground (arith, next-lt b.write)

put-count :
    {b : Buffer} (x : ℕ)
    → IsValid b
    → buffer_count b + 1 < buffer_size
    → buffer_count (put x b) ≡ suc (buffer_count b)
put-count {b} x v h =
    count_of_advance (suc (buffer_count b)) (put-IsValid x v) (omega arith)
      (omega (arith, next-mod b.write v.write_in, write-eq-advance v))

put-contents :
    {b : Buffer} (x : ℕ)
    → IsValid b
    → buffer_count b + 1 < buffer_size
    → contents (put x b) ≡ contents b ++ (x ∷ [])
put-contents {b} x v h =
    ap (window (put x b).cells b.read) (put-count x v h)
    ∙ window-update b.cells x (buffer_count b) b.read b.write v.read_in (omega arith)
        (write-eq-advance v)

-- What the write loop leaves after `n` rounds.
pub record Wrote (b : Buffer) (bytes : List ℕ) (b' : Buffer) : Type 0 where
  pub valid : IsValid b'
  pub holds : contents b' ≡ contents b ++ bytes
  pub read_same : b'.read ≡ b.read
  pub peek_same : b'.peek_line ≡ b.peek_line

write_loop-Wrote :
    (n : ℕ) (source : List ℕ) (b : Buffer)
    → IsValid b
    → buffer_count b + n < buffer_size
    → n ≤ length source
    → Wrote b (take n source) (write_loop n source b)
unfolding write_loop
write_loop-Wrote zero source b v h p = record {
  valid = v;
  holds = sym (append-nil (contents b));
  read_same = refl;
  peek_same = refl;
}
write_loop-Wrote (suc n) [] b v h p = absurd (omega arith)
write_loop-Wrote (suc n) (x ∷ source) b v h p =
    let later =
      write_loop-Wrote n source (put x b) (put-IsValid x v)
        (omega (arith, put-count x v (omega arith))) (omega arith) in
    record {
      valid = later.valid;
      holds =
          later.holds
          ∙ ap (λ c. c ++ take n source) (put-contents x v (omega arith))
          ∙ append_assoc (contents b) (x ∷ []) (take n source);
      read_same = later.read_same;
      peek_same = later.peek_same;
    }

pub space-count : {b : Buffer} → IsValid b → buffer_space b + buffer_count b + 1 ≡ buffer_size
unfolding buffer_space
space-count v = omega (arith, buffer_count-lt v)

pub transfer_size-min :
    (available size : ℕ) → transfer_size available (pos size) ≡ min size available
unfolding transfer_size
transfer_size-min available size = ground arith

-- With the positions in range, a write of `size` bytes, of which there are that many, stores the
-- first `size` of them or as many as there is space for, returns how many, and appends them to the
-- contents. The positions stay in range, and the reading and the peeking position are as before.
pub write_data-Wrote :
    (b : Buffer) (source : List ℕ) (size : ℕ)
    → IsValid b
    → size ≤ length source
    → let (n, b') = buffer_write_data b source (pos size) in
      (n ≡ min size (buffer_space b)) × Wrote b (take (min size (buffer_space b)) source) b'
unfolding buffer_write_data
write_data-Wrote b source size v h = rw (transfer_size-min (buffer_space b) size) (
  refl,
  write_loop-Wrote (min size (buffer_space b)) source b v (omega (arith, space-count v))
      (omega arith),
)

-- A write of a negative size, such as the -1 of a failed `recv`, changes nothing.
pub write_data_negative :
    (b : Buffer) (source : List ℕ) (k : ℕ) → buffer_write_data b source (negsuc k) ≡ (0, b)
unfolding buffer_write_data
write_data_negative b source k = refl

read_loop-bytes : (n : ℕ) (b : Buffer) → (read_loop n b).0 ≡ window b.cells b.read n
unfolding read_loop
read_loop-bytes zero b = refl
read_loop-bytes (suc n) b =
    ap (◌∷◌ (b.cells b.read)) (read_loop-bytes n (record b { read = next b.read }))

read_loop-state :
    (n : ℕ) (b : Buffer)
    → b.read < buffer_size
    → (read_loop n b).1 ≡ record b { read = advance b.read n }
unfolding read_loop
read_loop-state zero b h = ap (λ r. record b { read = r }) (omega arith)
read_loop-state (suc n) b h =
    read_loop-state n (record b { read = next b.read }) (next-lt b.read h)
    ∙ ap (λ r. record b { read = r }) (advance-next b.read n h)

-- What a read of `n` bytes returns and leaves.
pub record Took (b : Buffer) (n : ℕ) (bytes : List ℕ) (b' : Buffer) : Type 0 where
  pub took : bytes ≡ take n (contents b)
  pub leaves : contents b' ≡ drop n (contents b)
  pub valid : IsValid b'
  pub is : b' ≡ record b { read = advance b.read n }

advanced-count :
    (b : Buffer) (n : ℕ)
    → IsValid b
    → n ≤ buffer_count b
    → buffer_count (record b { read = advance b.read n }) ≡ buffer_count b - n
advanced-count b n v h =
    count_of_advance (buffer_count b - n)
      (record { read_in = omega arith; write_in = v.write_in; peek_in = v.peek_in })
      (omega (arith, buffer_count-lt v)) (omega (arith, write-eq-advance v))

pub advanced-Took :
    (b : Buffer) (n : ℕ)
    → IsValid b
    → n ≤ buffer_count b
    → Took b n (window b.cells b.read n) (record b { read = advance b.read n })
advanced-Took b n v h = record {
  took = sym (take-window b.cells n b.read (buffer_count b) h);
  leaves =
      ap (window b.cells (advance b.read n)) (advanced-count b n v h)
      ∙ sym (drop-window b.cells n b.read (buffer_count b) v.read_in h);
  valid = record { read_in = omega arith; write_in = v.write_in; peek_in = v.peek_in };
  is = refl;
}

read_loop-Took :
    (n : ℕ) (b : Buffer)
    → IsValid b
    → n ≤ buffer_count b
    → Took b n (read_loop n b).0 (read_loop n b).1
read_loop-Took n b v h =
    rw (read_loop-bytes n b, read_loop-state n b v.read_in) (advanced-Took b n v h)

-- With the positions in range, a read of `size` bytes returns how many it takes, `size` or as many
-- as there are. It hands over that many of the oldest bytes, which leave the contents, and only the
-- reading position moves.
pub read_data-Took :
    (b : Buffer) (size : ℕ)
    → IsValid b
    → let (n, bytes, b') = buffer_read_data b (pos size) in
      (n ≡ min size (buffer_count b)) × Took b n bytes b'
unfolding buffer_read_data
read_data-Took b size v =
    rw (transfer_size-min (buffer_count b) size)
      (refl, read_loop-Took (min size (buffer_count b)) b v (omega arith))

pub read_data_negative : (b : Buffer) (k : ℕ) → buffer_read_data b (negsuc k) ≡ (0, [], b)
unfolding buffer_read_data
read_data_negative b k = refl

pub new_buffer-IsValid : (memory : ℕ → ℕ) → IsValid (new_buffer memory)
unfolding new_buffer
new_buffer-IsValid memory = omega arith

pub contents-new_buffer : (memory : ℕ → ℕ) → contents (new_buffer memory) ≡ []
unfolding new_buffer buffer_count
contents-new_buffer memory = refl

pub clean-IsValid : (b : Buffer) → IsValid (buffer_clean b)
unfolding buffer_clean
clean-IsValid b = omega arith

pub contents-clean : (b : Buffer) → contents (buffer_clean b) ≡ []
unfolding buffer_clean buffer_count
contents-clean b = refl

-- A read of no more bytes than there are takes them all.
pub read_exact :
    (b : Buffer) (n : ℕ)
    → IsValid b
    → n ≤ buffer_count b
    → Took b n (buffer_read_data b (pos n)).1 (buffer_read_data b (pos n)).2
read_exact b n v h =
    let (e, t) = read_data-Took b n v in
    let e' : (buffer_read_data b (pos n)).0 ≡ n = omega (arith, e) in rw e' at t

pub write_data_full :
    (b : Buffer) (source : List ℕ) (size : ℕ)
    → buffer_space b ≡ 0
    → (buffer_write_data b source (pos size)).1 ≡ b
unfolding buffer_write_data
write_data_full b source size e =
    let z : min size (buffer_space b) ≡ 0 = omega arith in
    rw (transfer_size-min (buffer_space b) size, z, write_loop)
