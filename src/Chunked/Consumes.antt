-- ===== src/Chunked/Consumes.antt =====
-- What the parts of a round of `read_unchunked` take from the parser's buffer.
use proxy_server_http.Base.{
  ℕ, zero, suc, ◌+◌, ◌≤◌, ◌<◌, ◌≡◌, refl, sym, ap, subst, ◌∙◌, arith, Bool, true, false,
  if◌then◌else◌, List, [], ◌∷◌, ℤ, pos, negsuc, Bool-cases, inl, inr, is_zero, smaller,
}
use proxy_server_http.Buffer.{
  Buffer, buffer_count, buffer_read_data, buffer_peek_line, buffer_reset_peek_line,
}
use proxy_server_http.Buffer.Fifo.{IsValid}
use proxy_server_http.Buffer.Counts.{read_data-Shrunk, read_some, Peeked, peek-Peeked}
use proxy_server_http.Protocol.{c_string, str_eq}
use proxy_server_http.Chunked.{
  Origin, Next, fail, again, go, on_line, chunk_ended, end_of_chunk, take_size, chunk_began,
  beginning_of_chunk, chunk_body, is_unset, set_parser_buff, scan_hex, strtol, crlf,
}

-- The parser's buffer is in range and has lost `n` bytes at least; the client's is untouched.
pub record Less (o : Origin) (n : ℕ) (o' : Origin) : Type 0 where
  pub valid : IsValid o'.parser_buff
  pub count : buffer_count o'.parser_buff + n ≤ buffer_count o.parser_buff
  pub client_same : o'.write_buff ≡ o.write_buff

-- What a test ahead of the body gives: it is `continue` only where a byte has been taken.
abbrev pub Tested : Bool → Origin → Next × Origin → Type 0
Tested may o (fail, o') = Less o 0 o'
Tested may o (again, o') = (may ≡ true) × Less o 1 o'
Tested may o (go, o') = Less o 0 o'

-- A line has been peeked; `found` is what follows.
on_line-Tested :
    (may : Bool) (size : ℕ) (found : ℕ → List ℕ → Origin → Next × Origin) (o : Origin)
    → IsValid o.parser_buff
    → ((n : ℕ) (line : List ℕ) (o' : Origin)
        → 0 < buffer_count o'.parser_buff
        → Less o 0 o'
        → Tested may o (found (suc n) line o'))
    → let (ret, line, b) = buffer_peek_line (buffer_reset_peek_line o.parser_buff) size in
      Tested may o (on_line found ret line (set_parser_buff b o))
unfolding buffer_peek_line
on_line-Tested may size found o v follow =
    go_on (buffer_peek_line (buffer_reset_peek_line o.parser_buff) size)
      (peek-Peeked b'\n' size o.parser_buff v)
  where
    go_on :
        (r : ℤ × List ℕ × Buffer)
        → Peeked o.parser_buff r
        → Tested may o (on_line found (r.0) (r.1) (set_parser_buff (r.2) o))
    go_on (negsuc k, line, b) p = record {
      valid = p.valid;
      count = omega (arith, p.count);
      client_same = refl;
    }
    go_on (pos zero, line, b) p = record {
      valid = p.valid;
      count = omega (arith, p.count);
      client_same = refl;
    }
    go_on (pos (suc n), line, b) p =
        follow n line (set_parser_buff b o) (omega (arith, p.count, p.held n refl))
          (record { valid = p.valid; count = omega (arith, p.count); client_same = refl })

-- A read behind it.
read-Less :
    {o o' : Origin} (n : ℕ)
    → 0 < buffer_count o'.parser_buff
    → Less o 0 o'
    → (o'' : Origin) → o''.parser_buff ≡ (buffer_read_data o'.parser_buff (pos (suc n))).2
    → o''.write_buff ≡ o'.write_buff
    → Less o 1 o''
read-Less {o} {o'} n h l o'' e w =
    let s = read_data-Shrunk o'.parser_buff (pos (suc n)) l.valid in
    let r = read_some o'.parser_buff n l.valid h in
    let same = ap (λ b. buffer_count b) e in
    record {
      valid = subst IsValid (sym e) s.valid;
      count = omega (arith, same, s.count, r, l.count);
      client_same = w ∙ l.client_same;
    }

pub weaker : {o o' : Origin} {n : ℕ} → Less o n o' → Less o 0 o'
weaker l = record { valid = l.valid; count = omega (arith, l.count); client_same = l.client_same }

chunk_ended-Tested :
    (o : Origin) (n : ℕ) (line : List ℕ) (o' : Origin)
    → 0 < buffer_count o'.parser_buff
    → Less o 0 o'
    → Tested false o (chunk_ended (suc n) line o')
unfolding chunk_ended
chunk_ended-Tested o n line o' h l = elim (Bool-cases (str_eq (c_string line) crlf)) [
  | inl t ↦ rw t (weaker (read-Less n h l _ refl refl))
  | inr t ↦ rw t l
]

take_size-Tested :
    (o : Origin) (n : ℕ) (word : List ℕ) (o' : Origin)
    → 0 < buffer_count o'.parser_buff
    → Less o 0 o'
    → Tested true o (take_size (suc n) o' word)
unfolding take_size
take_size-Tested o n [] o' h l = l
take_size-Tested o n (c ∷ cs) o' h l = elim (Bool-cases (is_zero (strtol (c ∷ cs)))) [
  | inl t ↦ rw t (refl, read-Less n h l _ refl refl)
  | inr t ↦ rw t (weaker (read-Less n h l _ refl refl))
]

chunk_began-Tested :
    (o : Origin) (n : ℕ) (line : List ℕ) (o' : Origin)
    → 0 < buffer_count o'.parser_buff
    → Less o 0 o'
    → Tested true o (chunk_began (suc n) line o')
unfolding chunk_began
chunk_began-Tested o n line o' h l = take_size-Tested o n (scan_hex (c_string line)) o' h l

if-Tested :
    (t may : Bool) (o : Origin) (r r' : Next × Origin)
    → Tested may o r
    → Tested may o r'
    → Tested may o (if t then r else r')
if-Tested true may o r r' x y = x
if-Tested false may o r r' x y = y

pub itself : (o : Origin) → IsValid o.parser_buff → Less o 0 o
itself o v = record { valid = v; count = omega arith; client_same = refl }

pub end_of_chunk-Tested : (o : Origin) → IsValid o.parser_buff → Tested false o (end_of_chunk o)
unfolding end_of_chunk
end_of_chunk-Tested o v =
    if-Tested (is_zero o.parser.chunk_bytes) false o _ (go, o)
      (on_line-Tested false 2 chunk_ended o v (chunk_ended-Tested o)) (itself o v)

pub beginning_of_chunk-Tested :
    (o : Origin) → IsValid o.parser_buff → Tested true o (beginning_of_chunk o)
unfolding beginning_of_chunk
beginning_of_chunk-Tested o v =
    if-Tested (is_unset o.parser.chunk_bytes) true o _ (go, o)
      (on_line-Tested true 12 chunk_began o v (chunk_began-Tested o)) (itself o v)

pub chunk_body-Less :
    (size : ℕ) (o : Origin)
    → IsValid o.parser_buff
    → Less o (chunk_body size o).0 (chunk_body size o).2
unfolding chunk_body
chunk_body-Less size o v =
    let s = read_data-Shrunk o.parser_buff (smaller size o.parser.chunk_bytes) v in
    record { valid = s.valid; count = omega (arith, s.count); client_same = refl }
