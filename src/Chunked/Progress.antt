-- ===== src/Chunked/Progress.antt =====
-- The loop over chunks returns: a round that goes on takes a byte at least.
use proxy_server_http.Base.{
  ℕ, zero, suc, ◌+◌, ◌-◌, ◌<◌, ◌≡◌, refl, sym, subst, ◌∙◌, arith, Bool, true, false, ◌==◌,
  if◌then◌else◌, List, [], length, length-append, pos, Bool-cases, inl, inr,
}
use proxy_server_http.Buffer.{buffer_count}
use proxy_server_http.Buffer.Fifo.{IsValid}
use proxy_server_http.Buffer.Counts.{read_data-Shrunk}
use proxy_server_http.Chunked.{
  Origin, Next, fail, again, go, Unchunked, no_fuel, malformed, bytes, prepend, on_next,
  end_of_chunk, beginning_of_chunk, chunk_body, unchunk_loop, read_plain, read_unchunked, is_unset,
}
use proxy_server_http.Chunked.Consumes.{
  Less, Tested, weaker, end_of_chunk-Tested, beginning_of_chunk-Tested, chunk_body-Less,
}
use proxy_server_http.Chunked.Limit.{
  FitsIn, read_unchunked-FitsIn, chunk_body-length, read_data-length,
}

-- The function has returned, with the parser's buffer in range, no fewer bytes taken out of it than
-- are stored, and the client's buffer untouched.
abbrev pub Returned : Origin → Unchunked → Type 0
Returned o no_fuel = ⊥
Returned o (malformed xs o') = Less o 0 o'
Returned o (bytes xs o') = Less o (length xs) o'

pub chain : {o o1 o2 : Origin} (m n : ℕ) → Less o m o1 → Less o1 n o2 → Less o (m + n) o2
chain m n l k = record {
  valid = k.valid;
  count = omega (arith, l.count, k.count);
  client_same = k.client_same ∙ l.client_same;
}

later-Returned :
    {o o' : Origin} (xs : List ℕ) (u : Unchunked)
    → Less o (length xs) o'
    → Returned o' u
    → Returned o (prepend xs u)
later-Returned xs no_fuel l r = absurd r
later-Returned xs (malformed ys o2) l r = weaker (chain (length xs) 0 l r)
later-Returned {o} xs (bytes ys o2) l r =
    subst (λ n. Less o n o2) (sym (length-append xs ys)) (chain (length xs) (length ys) l r)

-- What the two tests lead to.
tests-Returned :
    (may : Bool) (o : Origin) (t : Next × Origin) (b : Origin → Unchunked) (c : Origin → Unchunked)
    → Tested may o t
    → ((o' : Origin) → may ≡ true → Less o 1 o' → Returned o (b o'))
    → ((o' : Origin) → Less o 0 o' → Returned o (c o'))
    → Returned o (on_next (t.0) (malformed [] (t.1)) (b (t.1)) (c (t.1)))
tests-Returned may o (fail, o') b c t h k = t
tests-Returned may o (again, o') b c t h k = h o' (t.0) (t.1)
tests-Returned may o (go, o') b c t h k = k o' t

-- The rest of a round.
abbrev body_round : ℕ → ℕ → Origin → Unchunked
body_round fuel size o2 =
    let (n, taken, o3) = chunk_body size o2 in
    if n == 0 then bytes [] o3 else prepend taken (unchunk_loop fuel (size - n) o3)

abbrev FromRound : ℕ → Type 0
FromRound fuel =
    (size : ℕ) (o : Origin)
    → IsValid o.parser_buff
    → buffer_count o.parser_buff < fuel
    → Returned o (unchunk_loop fuel size o)

body_round-Returned :
    (fuel size : ℕ) (o : Origin)
    → IsValid o.parser_buff
    → buffer_count o.parser_buff < suc fuel
    → FromRound fuel
    → Returned o (body_round fuel size o)
body_round-Returned fuel size o v f loop =
    let (n, taken, o3) = chunk_body size o in
    let l = chunk_body-Less size o v in
    let exact = (chunk_body-length size o).1 in
    elim (Bool-cases (n == 0)) [
      | inl t ↦
          rw t (record {
            valid = l.valid;
            count = omega (arith, l.count);
            client_same = l.client_same;
          })
      | inr t ↦
          let some_byte : 0 < n = ground arith in
          rw t (
            later-Returned taken (unchunk_loop fuel (size - n) o3)
              (subst (λ k. Less o k o3) (sym exact) l)
              (loop (size - n) o3 l.valid (omega (arith, l.count, some_byte))))
    ]

from : {o o' : Origin} (u : Unchunked) → Less o 0 o' → Returned o' u → Returned o u
from no_fuel l r = absurd r
from (malformed xs o2) l r = chain 0 0 l r
from {o} (bytes ys o2) l r =
    subst (λ n. Less o n o2) (let e : 0 + length ys ≡ length ys = omega arith in e)
      (chain 0 (length ys) l r)

unchunk_loop-Returned : (fuel : ℕ) → FromRound fuel
unfolding unchunk_loop
unchunk_loop-Returned zero size o v f = absurd (omega arith)
unchunk_loop-Returned (suc fuel) size o v f =
    let loop = unchunk_loop-Returned fuel in
    tests-Returned false o (end_of_chunk o) (λ o1. no_fuel)
      (λ o1.
        let t = beginning_of_chunk o1 in
        on_next (t.0) (malformed [] (t.1)) (unchunk_loop fuel size (t.1))
          (body_round fuel size (t.1)))
      (end_of_chunk-Tested o v) (λ o1 e l. absurd (cc))
      (λ o1 l. from _ l (
        tests-Returned true o1 (beginning_of_chunk o1) (unchunk_loop fuel size)
          (body_round fuel size) (beginning_of_chunk-Tested o1 l.valid)
          (λ o2 e k. from _ (weaker k) (loop size o2 k.valid (omega (arith, l.count, k.count))))
          (λ o2 k.
            from _ k
              (body_round-Returned fuel size o2 k.valid (omega (arith, l.count, k.count)) loop))))

read_plain-Returned :
    (counted : Bool) (size : ℕ) (o : Origin)
    → IsValid o.parser_buff
    → Returned o (read_plain counted size o)
unfolding read_plain
read_plain-Returned counted size o v =
    let s = read_data-Shrunk o.parser_buff (pos size) v in
    let e = (read_data-length o.parser_buff size (pos size) (λ k e. ground arith)).1 in
    elim (Bool-cases counted) [
      | inl t ↦
          rw t (record { valid = s.valid; count = omega (arith, s.count, e); client_same = refl })
      | inr t ↦
          rw t (record { valid = s.valid; count = omega (arith, s.count, e); client_same = refl })
    ]

if-Returned :
    (t : Bool) (o : Origin) (a b : Unchunked)
    → Returned o a
    → Returned o b
    → Returned o (if t then a else b)
if-Returned true o a b x y = x
if-Returned false o a b x y = y

-- Whatever the parser's buffer holds, in range, and whatever is known of the body, with more fuel
-- than bytes in the buffer the function returns, and no fewer bytes have left the buffer than are
-- stored.
pub read_unchunked-Returned :
    (fuel size : ℕ) (o : Origin)
    → IsValid o.parser_buff
    → buffer_count o.parser_buff < fuel
    → Returned o (read_unchunked fuel size o)
unfolding read_unchunked
read_unchunked-Returned fuel size o v f =
    let in_chunks = unchunk_loop fuel size o in
    if-Returned (is_unset o.parser.content_length) o
      (if o.parser.chunk_enabled then in_chunks else read_plain false size o)
      (read_plain true size o)
      (if-Returned o.parser.chunk_enabled o in_chunks (read_plain false size o)
        (unchunk_loop-Returned fuel size o v f) (read_plain-Returned false size o v))
      (read_plain-Returned true size o v)

-- With the parser's buffer in range and fuel for more rounds than it holds bytes, `read_unchunked`
-- returns, whatever else the buffers and the parser hold. It has stored no more bytes than the room
-- it is given, where it returns -1 as well, has left the client's buffer alone and the parser's in
-- range, and where it returns how many bytes it has stored, no fewer have left the parser's buffer.
pub read_unchunked_bounds :
    (fuel size : ℕ) (o : Origin)
    → IsValid o.parser_buff
    → buffer_count o.parser_buff < fuel
    → Returned o (read_unchunked fuel size o) × FitsIn size (read_unchunked fuel size o)
read_unchunked_bounds fuel size o v f =
    (read_unchunked-Returned fuel size o v f, read_unchunked-FitsIn fuel size o)
