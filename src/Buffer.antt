-- ===== src/Buffer.antt =====
-- bin/buffer.c and bin/include/buffer.h: the ring buffer that every socket reads into and writes
-- from. The array `data[BUFFER_SIZE]` is a function from indices to bytes.
pub mod Window
pub mod Fifo
pub mod Queue
pub mod Refine
pub mod Lines
pub mod Peek
pub mod Outcomes
pub mod Strings
pub mod Counts
use proxy_server_http.Base.{
  ℕ, zero, suc, ◌+◌, ◌-◌, ◌==◌, ltb, leb, if◌then◌else◌, List, [], ◌∷◌, ℤ, pos, negsuc,
}

abbrev pub buffer_size : ℕ
buffer_size = 8000

pub record Buffer : Type 0 where
  -- `data`, a reserved word here
  pub cells : ℕ → ℕ
  pub read : ℕ
  pub write : ℕ
  pub peek_line : ℕ

-- `malloc` leaves `data` as it finds the memory.
unfoldable pub new_buffer : (ℕ → ℕ) → Buffer
new_buffer memory = record { cells = memory; read = 0; write = 0; peek_line = 0 }

-- `write - read`, or `BUFFER_SIZE + (write - read)` where that is negative
unfoldable pub buffer_count : Buffer → ℕ
buffer_count b = if leb b.read b.write then b.write - b.read else buffer_size + b.write - b.read

unfoldable pub buffer_space : Buffer → ℕ
unfolding buffer_count
buffer_space b = buffer_size - buffer_count b - 1

-- The three loops' bound, which they return: `available > size ? size : available`, and 0 where
-- that is negative.
unfoldable pub transfer_size : ℕ → ℤ → ℕ
transfer_size available (pos size) = if ltb size available then size else available
transfer_size available (negsuc _) = 0

-- `p++; if (p == BUFFER_SIZE) p = 0;`
unfoldable pub next : ℕ → ℕ
next p = if p + 1 == buffer_size then 0 else p + 1

abbrev pub update : (ℕ → ℕ) → ℕ → ℕ → ℕ → ℕ
update cells i x j = if i == j then x else cells j

abbrev pub put : ℕ → Buffer → Buffer
put x b = record b { cells = update b.cells b.write x; write = next b.write }

-- The rounds left, and the bytes of `data` from index `i` on. An array that ends early would be
-- read past its end: the model then writes 0.
unfoldable pub write_loop : ℕ → List ℕ → Buffer → Buffer
write_loop zero source b = b
write_loop (suc n) [] b = write_loop n [] (put 0 b)
write_loop (suc n) (x ∷ source) b = write_loop n source (put x b)

unfoldable pub buffer_write_data : Buffer → List ℕ → ℤ → ℕ × Buffer
unfolding buffer_space transfer_size write_loop next
buffer_write_data b source size =
    let n = transfer_size (buffer_space b) size in (n, write_loop n source b)

-- The bytes stored in `dest_buffer`, and the buffer behind them.
unfoldable pub read_loop : ℕ → Buffer → List ℕ × Buffer
read_loop zero b = ([], b)
read_loop (suc n) b =
    let (bytes, b') = read_loop n (record b { read = next b.read }) in (b.cells b.read ∷ bytes, b')

unfoldable pub buffer_read_data : Buffer → ℤ → ℕ × List ℕ × Buffer
unfolding buffer_count transfer_size read_loop next
buffer_read_data b size =
    let n = transfer_size (buffer_count b) size in let (bytes, b') = read_loop n b in (n, bytes, b')

unfoldable pub peek_loop : ℕ → Buffer → List ℕ × Buffer
peek_loop zero b = ([], b)
peek_loop (suc n) b =
    let (bytes, b') = peek_loop n (record b { peek_line = next b.peek_line }) in
    (b.cells b.peek_line ∷ bytes, b')

-- The bound counts from `read`, the bytes are taken from `peek_line`.
unfoldable pub buffer_peek_data : Buffer → ℤ → ℕ × List ℕ × Buffer
unfolding buffer_count transfer_size peek_loop next
buffer_peek_data b size =
    let n = transfer_size (buffer_count b) size in let (bytes, b') = peek_loop n b in (n, bytes, b')

-- What a scan for a delimiter leaves: the value returned (the line's length with its delimiter, 0
-- for none yet, -1 for none in `size` bytes), the bytes stored in `dest_buff`, and where the next
-- scan starts.
pub record Scan : Type 0 where
  pub ret : ℤ
  pub dest : List ℕ
  pub aux : ℕ

-- The bytes stored so far are `size - room` many; `start` is `peek_line`, which an unfinished scan
-- leaves.
unfoldable pub scan_loop : ℕ → ℕ → ℕ → Buffer → ℕ → ℕ → Scan
scan_loop delimiter zero i b start aux =
    if aux == b.write
    then record { ret = pos 0; dest = []; aux = start }
    else record { ret = negsuc 0; dest = []; aux = start }
scan_loop delimiter (suc room) i b start aux =
    let x = b.cells aux in
    let rest = scan_loop delimiter room (i + 1) b start (next aux) in
    if aux == b.write
    then record { ret = pos 0; dest = []; aux = start }
    else if x == delimiter
    then record { ret = pos (i + 1); dest = x ∷ 0 ∷ []; aux = next aux }
    else record rest { dest = x ∷ rest.dest }

unfoldable pub peek_until : ℕ → Buffer → ℕ → ℤ × List ℕ × Buffer
unfolding scan_loop next
peek_until delimiter b size =
    let s = scan_loop delimiter size 0 b b.peek_line b.peek_line in
    (s.ret, s.dest, record b { peek_line = s.aux })

unfoldable pub buffer_peek_line : Buffer → ℕ → ℤ × List ℕ × Buffer
buffer_peek_line = peek_until b'\n'

unfoldable pub buffer_peek_until_null : Buffer → ℕ → ℤ × List ℕ × Buffer
buffer_peek_until_null = peek_until 0

unfoldable pub buffer_advance_read_to_peek : Buffer → Buffer
buffer_advance_read_to_peek b = record b { read = b.peek_line }

unfoldable pub buffer_reset_peek_line : Buffer → Buffer
buffer_reset_peek_line b = record b { peek_line = b.read }

unfoldable pub buffer_clean : Buffer → Buffer
buffer_clean b = record b { write = 0; read = 0; peek_line = 0 }
