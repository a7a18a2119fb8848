-- ===== src/Chunked/Limit.antt =====
-- How many bytes `read_unchunked` stores.
use proxy_server_http.Base.{
  if◌then◌else◌, ℕ, zero, suc, ◌-◌, ◌≤◌, ◌≡◌, refl, ap, arith, Bool, true, false, ◌==◌, List, [],
  length, length-append, ℤ, pos, negsuc, smaller,
}
use proxy_server_http.Buffer.{Buffer, transfer_size, read_loop, next, buffer_read_data}
use proxy_server_http.Chunked.{
  Origin, Unchunked, Next, fail, again, go, no_fuel, malformed, bytes, prepend, on_next,
  end_of_chunk, beginning_of_chunk, chunk_body, unchunk_loop, read_plain, read_unchunked, is_unset,
}

-- No more bytes than there is room for.
abbrev pub FitsIn : ℕ → Unchunked → Type 0
FitsIn size no_fuel = Unit {0}
FitsIn size (malformed xs o) = length xs ≤ size
FitsIn size (bytes xs o) = length xs ≤ size

read_loop-length : (n : ℕ) (b : Buffer) → length (read_loop n b).0 ≡ n
unfolding read_loop
read_loop-length zero b = refl
read_loop-length (suc n) b = ap suc (read_loop-length n (record b { read = next b.read }))

pub read_data-length :
    (b : Buffer) (size : ℕ) (limit : ℤ)
    → ((k : ℕ) → limit ≡ pos k → k ≤ size)
    → ((buffer_read_data b limit).0 ≤ size)
      × (length (buffer_read_data b limit).1 ≡ (buffer_read_data b limit).0)
unfolding buffer_read_data transfer_size
read_data-length b size (negsuc k) h = (omega arith, refl)
read_data-length b size (pos k) h = (ground (arith, h k refl), read_loop-length _ b)

smaller_le : (size : ℕ) (a : ℤ) (k : ℕ) → smaller size a ≡ pos k → k ≤ size
smaller_le size (pos a) k e = ground arith
smaller_le size (negsuc a) k e = absurd (cc)

pub chunk_body-length :
    (size : ℕ) (o : Origin)
    → ((chunk_body size o).0 ≤ size) × (length (chunk_body size o).1 ≡ (chunk_body size o).0)
unfolding chunk_body
chunk_body-length size o =
    read_data-length o.parser_buff size (smaller size o.parser.chunk_bytes)
      (smaller_le size o.parser.chunk_bytes)

on_next-FitsIn :
    (next1 : Next) (size : ℕ) (a b c : Unchunked)
    → FitsIn size a
    → FitsIn size b
    → FitsIn size c
    → FitsIn size (on_next next1 a b c)
on_next-FitsIn fail size a b c x y z = x
on_next-FitsIn again size a b c x y z = y
on_next-FitsIn go size a b c x y z = z

if-FitsIn :
    (t : Bool) (size : ℕ) (a b : Unchunked)
    → FitsIn size a
    → FitsIn size b
    → FitsIn size (if t then a else b)
if-FitsIn true size a b x y = x
if-FitsIn false size a b x y = y

prepend-FitsIn :
    (xs : List ℕ) (size n : ℕ) (u : Unchunked)
    → length xs ≡ n
    → n ≤ size
    → FitsIn (size - n) u
    → FitsIn size (prepend xs u)
prepend-FitsIn xs size n no_fuel e h f = tt
prepend-FitsIn xs size n (malformed ys o) e h f = omega (arith, length-append xs ys)
prepend-FitsIn xs size n (bytes ys o) e h f = omega (arith, length-append xs ys)

unchunk_loop-FitsIn : (fuel size : ℕ) (o : Origin) → FitsIn size (unchunk_loop fuel size o)
unfolding unchunk_loop
unchunk_loop-FitsIn zero size o = tt
unchunk_loop-FitsIn (suc fuel) size o =
    let (next1, o1) = end_of_chunk o in
    let (next2, o2) = beginning_of_chunk o1 in
    let (n, taken, o3) = chunk_body size o2 in
    let (le, exact) = chunk_body-length size o2 in
    let later = prepend taken (unchunk_loop fuel (size - n) o3) in
    let last : FitsIn size (if n == 0 then bytes [] o3 else later) =
      if-FitsIn (n == 0) size (bytes [] o3) later (omega arith) (
        prepend-FitsIn taken size n (unchunk_loop fuel (size - n) o3) exact le
          (unchunk_loop-FitsIn fuel (size - n) o3)) in
    let inner : FitsIn size (
        on_next next2 (malformed [] o2) (unchunk_loop fuel size o2)
          (if n == 0 then bytes [] o3 else later)) =
      on_next-FitsIn next2 size (malformed [] o2) (unchunk_loop fuel size o2)
        (if n == 0 then bytes [] o3 else later) (omega arith) (unchunk_loop-FitsIn fuel size o2)
        last in
    on_next-FitsIn next1 size (malformed [] o1) no_fuel
      (on_next next2 (malformed [] o2) (unchunk_loop fuel size o2)
        (if n == 0 then bytes [] o3 else later))
      (omega arith) tt inner

read_plain-FitsIn :
    (counted : Bool) (size : ℕ) (o : Origin) → FitsIn size (read_plain counted size o)
unfolding read_plain
read_plain-FitsIn counted size o =
    let (le, exact) = read_data-length o.parser_buff size (pos size) (λ k e. ground arith) in
    omega (arith, le, exact)

-- Whatever the buffers and the parser hold, and with any fuel, where `read_unchunked` stores bytes
-- they are no more than the room it is given.
pub read_unchunked-FitsIn : (fuel size : ℕ) (o : Origin) → FitsIn size (read_unchunked fuel size o)
unfolding read_unchunked
read_unchunked-FitsIn fuel size o =
    let in_chunks = unchunk_loop fuel size o in
    if-FitsIn (is_unset o.parser.content_length) size
      (if o.parser.chunk_enabled then in_chunks else read_plain false size o)
      (read_plain true size o)
      (if-FitsIn o.parser.chunk_enabled size in_chunks (read_plain false size o)
        (unchunk_loop-FitsIn fuel size o) (read_plain-FitsIn false size o))
      (read_plain-FitsIn true size o)
