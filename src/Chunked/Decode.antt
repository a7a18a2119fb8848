-- ===== src/Chunked/Decode.antt =====
-- `read_unchunked` on chunks that have come whole.
use proxy_server_http.Base.{
  ℕ, Bool, if◌then◌else◌, is_zero, ◌||◌, suc, ◌+◌, ◌-◌, ◌^◌, ◌≤◌, ◌<◌, ◌≡◌, refl, sym, ap, ◌∙◌,
  arith, List, [], ◌∷◌, ◌++◌, length, length-append, append_assoc, pos, negsuc, true, false, ◌==◌,
}
use proxy_server_http.Buffer.{
  Buffer, transfer_size, read_loop, buffer_count, buffer_read_data, buffer_peek_line,
  buffer_reset_peek_line,
}
use proxy_server_http.Buffer.Fifo.{IsValid, contents, length-contents}
use proxy_server_http.Buffer.Lines.{line_length}
use proxy_server_http.Buffer.Peek.{reset-PeekAt, peek_unfinished}
use proxy_server_http.Buffer.Strings.{contents_reset}
use proxy_server_http.Chunked.{
  Origin, is_unset, go, again, bytes, prepend, to_hex, crlf, set_parser_buff, beginning_of_chunk,
  end_of_chunk, chunk_body, unchunk_loop, read_unchunked,
}
use proxy_server_http.Chunked.Encode.{encode}
use proxy_server_http.Chunked.Steps.{
  Between, Between-start, Between-next, end_taken, size_taken, body_taken,
}

-- The bodies of chunks, and the chunks on the wire with the empty one that ends them.
abbrev pub joined : List (List ℕ) → List ℕ
joined [] = []
joined (c ∷ cs) = c ++ joined cs

abbrev pub encode_all : List (List ℕ) → List ℕ
encode_all [] = encode []
encode_all (c ∷ cs) = encode c ++ encode_all cs

-- Every chunk has a byte: an empty one would be the last.
abbrev pub Nonempty : List (List ℕ) → Type 0
Nonempty [] = Unit
Nonempty (c ∷ cs) = (0 < length c) × Nonempty cs

-- A round for each chunk and two for the empty one, and `fuel` more.
abbrev pub rounds_of : List (List ℕ) → ℕ → ℕ
rounds_of [] fuel = suc (suc fuel)
rounds_of (c ∷ cs) fuel = suc (rounds_of cs fuel)

-- A round whose two tests go on.
round_on :
    (fuel size n : ℕ) (taken : List ℕ) (o : Origin) {o1 o2 o3 : Origin} {t : Bool}
    → end_of_chunk o ≡ (go, o1)
    → beginning_of_chunk o1 ≡ (go, o2)
    → chunk_body size o2 ≡ (n, taken, o3)
    → (n == 0) ≡ t
    → unchunk_loop (suc fuel) size o
      ≡ (if t then bytes [] o3 else prepend taken (unchunk_loop fuel (size - n) o3))
unfolding unchunk_loop
round_on fuel size n taken o e1 e2 e3 e4 = rw (e1, e2, e3, e4)

-- The state behind a size line.
abbrev sized : Buffer → ℕ → Origin → Origin
sized b n o = record o {
  parser_buff = b;
  parser = record o.parser { chunk_size = pos n; chunk_bytes = pos n };
}

-- A round that takes a chunk.
record Round (fuel size : ℕ) (o : Origin) (c more : List ℕ) : Type 0 where
  after : Origin
  is : unchunk_loop (suc fuel) size o ≡ prepend c (unchunk_loop fuel (size - length c) after)
  valid : IsValid after.parser_buff
  zero_left : after.parser.chunk_bytes ≡ pos 0
  holds : contents after.parser_buff ≡ crlf ++ more

chunk-Round :
    (fuel size : ℕ) (o : Origin) (c more : List ℕ)
    → Between o (encode c ++ more)
    → 0 < length c
    → length c ≤ size
    → length c < 2 ^ 31
    → Round fuel size o c more
chunk-Round fuel size o c more b some_byte h small =
    let shape = append_assoc (to_hex (length c) ++ crlf) (c ++ crlf) more in
    let (b2, v2, l2, is2) =
      size_taken b.next (length c) ((c ++ crlf) ++ more) b.valid b.unset small (b.holds ∙ shape) in
    let nonzero : (length c == 0) ≡ false = ground arith in
    let begun = sized b2 (length c) b.next in
    let (b3, v3, l3, is3) =
      body_taken begun c (crlf ++ more) size v2 refl h (l2 ∙ append_assoc c crlf more) in
    let after = record begun {
      parser_buff = b3;
      parser = record begun.parser { chunk_bytes = pos 0 };
    } in
    record {
      after = after;
      is = round_on fuel size (length c) c o b.is (rw nonzero at is2) is3 nonzero;
      valid = v3;
      zero_left = refl;
      holds = l3;
    }

-- What is left when a whole body has been read.
record Done (o : Origin) : Type 0 where
  finished : o.finished ≡ true
  emptied : contents o.parser_buff ≡ []

nothing_begins :
    (o : Origin)
    → IsValid o.parser_buff
    → contents o.parser_buff ≡ []
    → beginning_of_chunk o ≡ (
      go,
      if is_unset o.parser.chunk_bytes
          then set_parser_buff (buffer_reset_peek_line o.parser_buff) o
          else o,
    )
unfolding beginning_of_chunk buffer_peek_line line_length
nothing_begins o v h =
    let b = o.parser_buff in
    let empty = contents_reset b ∙ h in
    let count : buffer_count b ≡ 0 = sym (length-contents b) ∙ ap length h in
    let few : buffer_count (buffer_reset_peek_line b) - 0 ≤ 12 =
      omega (arith, ap length empty, length-contents (buffer_reset_peek_line b)) in
    let peek = peek_unfinished (reset-PeekAt v) b'\n' 12 (ap (line_length b'\n') empty) few in
    rw peek (ground arith)

nothing_taken :
    (size : ℕ) (o : Origin)
    → chunk_body size (record o { parser = record o.parser { chunk_bytes = negsuc 0 } })
      ≡ (0, [], record o { parser = record o.parser { chunk_bytes = negsuc 0 } })
unfolding chunk_body buffer_read_data transfer_size read_loop
nothing_taken size o = refl

-- The round on an empty buffer behind the end of the last chunk.
round_last :
    (fuel size : ℕ) (o : Origin)
    → IsValid o.parser_buff
    → o.parser.chunk_bytes ≡ pos 0
    → o.parser.chunk_size ≡ pos 0
    → contents o.parser_buff ≡ crlf
    → (o' : Origin) × (unchunk_loop (suc fuel) size o ≡ bytes [] o') × Done o'
round_last fuel size o v z zs h =
    let (b, v', l, is) = end_taken o [] v z h in
    let ended = record o {
      parser_buff = b;
      parser = record o.parser { chunk_bytes = negsuc 0 };
      finished = is_zero o.parser.chunk_size || o.finished;
    } in
    let begun = nothing_begins ended v' l in
    (
      record ended { parser_buff = buffer_reset_peek_line b },
      round_on fuel size 0 [] o is begun
          (nothing_taken size (set_parser_buff (buffer_reset_peek_line b) ended)) refl,
      record { finished = ap (λ c. is_zero c || o.finished) zs; emptied = contents_reset b ∙ l },
    )

-- A round that takes the size line of the last chunk.
round_again :
    (fuel size : ℕ) (o : Origin) {o1 o2 : Origin}
    → end_of_chunk o ≡ (go, o1)
    → beginning_of_chunk o1 ≡ (again, o2)
    → unchunk_loop (suc fuel) size o ≡ unchunk_loop fuel size o2
unfolding unchunk_loop
round_again fuel size o e1 e2 = rw (e1, e2)

round_end :
    (fuel size : ℕ) (o : Origin)
    → Between o (encode [])
    → (o' : Origin) × (unchunk_loop (suc (suc fuel)) size o ≡ bytes [] o') × Done o'
round_end fuel size o b =
    let (b2, v2, l2, is2) = size_taken b.next 0 crlf b.valid b.unset (omega arith) b.holds in
    let (o', is3, done) = round_last fuel size (sized b2 0 b.next) v2 refl refl l2 in
    (o', round_again (suc fuel) size o b.is is2 ∙ is3, done)

rounds :
    (cs : List (List ℕ)) (fuel size : ℕ) (o : Origin)
    → Nonempty cs
    → length (joined cs) ≤ size
    → size < 2 ^ 31
    → Between o (encode_all cs)
    → (o' : Origin) × (unchunk_loop (rounds_of cs fuel) size o ≡ bytes (joined cs) o') × Done o'
rounds [] fuel size o ne h small b = round_end fuel size o b
rounds (c ∷ cs) fuel size o ne h small b =
    let l = length-append c (joined cs) in
    let r =
      chunk-Round (rounds_of cs fuel) size o c (encode_all cs) b ne.0 (omega (arith, l))
        (omega (arith, l)) in
    let (o', is, done) =
      rounds cs fuel (size - length c) r.after ne.1 (omega (arith, l)) (omega arith)
        (Between-next r.after (encode_all cs) r.valid r.zero_left r.holds) in
    (o', r.is ∙ ap (prepend c) is, done)

rounds_of_lem : (cs : List (List ℕ)) (fuel : ℕ) → rounds_of cs fuel ≡ length cs + 2 + fuel
rounds_of_lem [] fuel = omega arith
rounds_of_lem (c ∷ cs) fuel = omega (arith, rounds_of_lem cs fuel)

-- Where a body in chunks is expected and no chunk has begun, the parser's buffer is in range and
-- holds the encoding of nonempty chunks and of the empty chunk behind them, and nothing else, the
-- room `size` is below 2^31 and not less than the bytes of the chunks, and the fuel is at least
-- their number and two, the function stores the bytes of all chunks, sets `response_has_finished`
-- and leaves the buffer empty.
pub read_unchunked-encode_all :
    (cs : List (List ℕ)) (fuel size : ℕ) (o : Origin)
    → IsValid o.parser_buff
    → o.parser.content_length ≡ negsuc 0
    → o.parser.chunk_enabled ≡ true
    → o.parser.chunk_bytes ≡ negsuc 0
    → contents o.parser_buff ≡ encode_all cs
    → Nonempty cs
    → length (joined cs) ≤ size
    → size < 2 ^ 31
    → length cs + 2 ≤ fuel
    → (o' : Origin) × (read_unchunked fuel size o ≡ bytes (joined cs) o')
      × (o'.finished ≡ true)
      × (contents o'.parser_buff ≡ [])
unfolding read_unchunked
read_unchunked-encode_all cs fuel size o v length_unset enabled unset held ne h small f =
    let enough : rounds_of cs (fuel - (length cs + 2)) ≡ fuel =
      omega (arith, rounds_of_lem cs (fuel - (length cs + 2))) in
    let (o', is, done) =
      rounds cs (fuel - (length cs + 2)) size o ne h small
        (Between-start o (encode_all cs) v unset held) in
    let no_length : is_unset o.parser.content_length ≡ true = ap is_unset length_unset in
    (o', simp (no_length, enabled) (rw enough at is), done.finished, done.emptied)
