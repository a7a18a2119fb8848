-- ===== src/Chunked/Steps.antt =====
-- What each of the three parts of a round of `read_unchunked` does with a chunk that has come whole.
use proxy_server_http.Base.{
  ℕ, suc, ◌^◌, ◌≤◌, ◌<◌, ◌≡◌, refl, sym, ap, ◌∙◌, arith, List, [], ◌∷◌, ◌++◌, length, take, drop,
  length-append, append_assoc, pos, negsuc, true, ◌||◌, if◌then◌else◌, ◌==◌, smaller, sub_int,
  is_zero, take-append, ltb, ltb→ge, drop-append, Bool-cases, inl, inr,
}
use proxy_server_http.Buffer.{
  Buffer, buffer_count, buffer_read_data, buffer_peek_line, buffer_reset_peek_line,
}
use proxy_server_http.Buffer.Fifo.{IsValid, contents, length-contents, read_exact, read_data-Took}
use proxy_server_http.Buffer.Peek.{reset-PeekAt}
use proxy_server_http.Buffer.Strings.{Avoids, peek_line_lem, drop_line, contents_reset}
use proxy_server_http.Protocol.{c_string}
use proxy_server_http.Chunked.{
  Origin, again, go, to_hex, crlf, scan_hex, strtol, end_of_chunk, chunk_began, take_size,
  beginning_of_chunk, chunk_body, is_unset, set_parser_buff,
}
use proxy_server_http.Chunked.Number.{strtol-to_hex, to_hex-Avoids, length-to_hex}

-- A line that was peeked from the reading position, and is then read.
record Taken (b : Buffer) (size : ℕ) (u tail : List ℕ) : Type 0 where
  after : Buffer
  is :
      buffer_peek_line (buffer_reset_peek_line b) size
      ≡ (pos (suc (length u)), u ++ (b'\n' ∷ 0 ∷ []), after)
  valid : IsValid (buffer_read_data after (pos (suc (length u)))).2
  left : contents (buffer_read_data after (pos (suc (length u)))).2 ≡ tail

line-Taken :
    (b : Buffer) (size : ℕ) (u tail : List ℕ)
    → IsValid b
    → contents b ≡ u ++ (b'\n' ∷ tail)
    → Avoids b'\n' u
    → length u < size
    → Taken b size u tail
unfolding buffer_peek_line
line-Taken b size u tail v e h l =
    let p = reset-PeekAt v in
    let f = peek_line_lem b'\n' size u tail p (contents_reset b ∙ e) h l in
    let held : suc (length u) ≤ buffer_count f.after = omega (arith, f.at.held) in
    let t = read_exact f.after (suc (length u)) f.at.valid held in
    record {
      after = f.after;
      is = f.is;
      valid = t.valid;
      left =
          t.leaves
          ∙ ap (drop (suc (length u))) (f.same ∙ contents_reset b ∙ e)
          ∙ drop_line b'\n' u tail;
    }

-- What the first test of a round leads to: the size line of a chunk is next in the buffer.
pub record Between (o : Origin) (more : List ℕ) : Type 0 where
  pub next : Origin
  pub is : end_of_chunk o ≡ (go, next)
  pub unset : next.parser.chunk_bytes ≡ negsuc 0
  pub valid : IsValid next.parser_buff
  pub holds : contents next.parser_buff ≡ more

pub Between-start :
    (o : Origin) (more : List ℕ)
    → IsValid o.parser_buff
    → o.parser.chunk_bytes ≡ negsuc 0
    → contents o.parser_buff ≡ more
    → Between o more
unfolding end_of_chunk
Between-start o more v e h = record { next = o; is = rw e; unset = e; valid = v; holds = h }

pub end_taken :
    (o : Origin) (more : List ℕ)
    → IsValid o.parser_buff
    → o.parser.chunk_bytes ≡ pos 0
    → contents o.parser_buff ≡ crlf ++ more
    → (b : Buffer) × IsValid b
      × (contents b ≡ more)
      × (end_of_chunk o ≡ (
        go,
        record o {
          parser_buff = b;
          parser = record o.parser { chunk_bytes = negsuc 0 };
          finished = is_zero o.parser.chunk_size || o.finished;
        },
      ))
unfolding end_of_chunk
end_taken o more v e h =
    let t = line-Taken o.parser_buff 2 (b'\r' ∷ []) more v h (refl, tt) (omega arith) in
    ((buffer_read_data t.after (pos 2)).2, t.valid, t.left, rw (e, t.is))

pub Between-next :
    (o : Origin) (more : List ℕ)
    → IsValid o.parser_buff
    → o.parser.chunk_bytes ≡ pos 0
    → contents o.parser_buff ≡ crlf ++ more
    → Between o more
Between-next o more v e h =
    let (b, v', l, is) = end_taken o more v e h in
    record { next = _; is = is; unset = refl; valid = v'; holds = l }

chunk_began_lem :
    (k : ℕ) (line : List ℕ) (a : ℕ) (as' : List ℕ) (n : ℕ) (o : Origin)
    → scan_hex (c_string line) ≡ a ∷ as'
    → strtol (a ∷ as') ≡ pos n
    → chunk_began k line o ≡ (
      if n == 0 then again else go,
      record o {
        parser_buff = (buffer_read_data o.parser_buff (pos k)).2;
        parser = record o.parser { chunk_size = pos n; chunk_bytes = pos n };
      },
    )
unfolding chunk_began take_size
chunk_began_lem k line a as' n o scanned value = rw (scanned, value)

pub size_taken :
    (o : Origin) (n : ℕ) (more : List ℕ)
    → IsValid o.parser_buff
    → o.parser.chunk_bytes ≡ negsuc 0
    → n < 2 ^ 31
    → contents o.parser_buff ≡ (to_hex n ++ crlf) ++ more
    → (b : Buffer) × IsValid b
      × (contents b ≡ more)
      × (beginning_of_chunk o ≡ (
        if n == 0 then again else go,
        record o {
          parser_buff = b;
          parser = record o.parser { chunk_size = pos n; chunk_bytes = pos n };
        },
      ))
unfolding beginning_of_chunk
size_taken o n more v e h c =
    let u = to_hex n ++ (b'\r' ∷ []) in
    let shape : contents o.parser_buff ≡ u ++ (b'\n' ∷ more) =
      c
      ∙ append_assoc (to_hex n) crlf more
      ∙ sym (append_assoc (to_hex n) (b'\r' ∷ []) (b'\n' ∷ more)) in
    let short : length u < 12 =
      omega (arith, length-to_hex n h, length-append (to_hex n) (b'\r' ∷ [])) in
    let t = line-Taken o.parser_buff 12 u more v shape (to_hex-Avoids n) short in
    let unset : is_unset o.parser.chunk_bytes ≡ true = ap is_unset e in
    let (a, as', scanned, value) = strtol-to_hex n h in
    (
      (buffer_read_data t.after (pos (suc (length u)))).2,
      t.valid,
      t.left,
      rw (unset, t.is)
          (chunk_began_lem (suc (length u)) (u ++ (b'\n' ∷ 0 ∷ [])) a as' n
            (set_parser_buff t.after o)
            (ap (λ l. scan_hex (c_string l)) (append_assoc (to_hex n) (b'\r' ∷ []) (b'\n' ∷ 0 ∷ []))
              ∙ scanned)
            value),
    )

smaller_pos : (size n : ℕ) → n ≤ size → smaller size (pos n) ≡ pos n
smaller_pos size n h = elim (Bool-cases (ltb n size)) [
  | inl e ↦ rw e
  | inr e ↦ let s : size ≡ n = omega (arith, ltb→ge n size e) in rw (e, s)
]

sub_int_self : (n : ℕ) → sub_int (pos n) n ≡ pos 0
sub_int_self n = ground arith

-- A round that takes a whole chunk.
pub body_taken :
    (o : Origin) (c more : List ℕ) (size : ℕ)
    → IsValid o.parser_buff
    → o.parser.chunk_bytes ≡ pos (length c)
    → length c ≤ size
    → contents o.parser_buff ≡ c ++ more
    → (b : Buffer) × IsValid b
      × (contents b ≡ more)
      × (chunk_body size o ≡ (
        length c,
        c,
        record o { parser_buff = b; parser = record o.parser { chunk_bytes = pos 0 } },
      ))
unfolding chunk_body
body_taken o c more size v e l h =
    let bound : smaller size o.parser.chunk_bytes ≡ pos (length c) =
      ap (smaller size) e ∙ smaller_pos size (length c) l in
    let left : sub_int o.parser.chunk_bytes (length c) ≡ pos 0 =
      ap (λ z. sub_int z (length c)) e ∙ sub_int_self (length c) in
    let held : length c ≤ buffer_count o.parser_buff =
      omega (arith, length-append c more, ap length h, length-contents o.parser_buff) in
    let t = read_exact o.parser_buff (length c) v held in
    let length_taken : (buffer_read_data o.parser_buff (pos (length c))).0 ≡ length c =
      omega (arith, (read_data-Took o.parser_buff (length c) v).0) in
    (
      (buffer_read_data o.parser_buff (pos (length c))).2,
      t.valid,
      t.leaves ∙ ap (drop (length c)) h ∙ drop-append c more,
      rw bound (rw (length_taken, t.took, ap (take (length c)) h, take-append c more, left) refl),
    )
