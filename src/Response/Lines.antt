-- ===== src/Response/Lines.antt =====
-- A round of the loop over the lines of a header, on a line that has come whole.
use proxy_server_http.Base.{
  ℕ, suc, ◌≤◌, ◌<◌, ◌≡◌, refl, ap, ◌∙◌, arith, Bool, true, false, if◌then◌else◌, List, [], ◌∷◌,
  ◌++◌, length, take, drop, append_assoc, pos, Bool-cases, inl, inr,
}
use proxy_server_http.Buffer.{
  Buffer, buffer_count, buffer_space, buffer_read_data, buffer_peek_line,
}
use proxy_server_http.Buffer.Window.{advance}
use proxy_server_http.Buffer.Fifo.{IsValid, contents, read_exact, read_data-Took}
use proxy_server_http.Buffer.Peek.{PeekAt}
use proxy_server_http.Buffer.Strings.{Avoids, peek_line_lem, drop_line}
use proxy_server_http.Buffer.Strings
use proxy_server_http.Scan.{starts_nocase}
use proxy_server_http.Protocol.{positive}
use proxy_server_http.Chunked.Encode.{Appended, write_fits}
use proxy_server_http.Response.{
  Exchange, Facts, reading_body, announcement, is_length_line, is_blank_line, note_length,
  note_line, to_client, end_header, header_loop, on_header_line,
}

-- A line that is peeked from the reading position, and then read.
record Read (b : Buffer) (size : ℕ) (u tail : List ℕ) : Type 0 where
  after : Buffer
  is : buffer_peek_line b size ≡ (pos (suc (length u)), u ++ (b'\n' ∷ 0 ∷ []), after)
  rest : Buffer
  taken : buffer_read_data after (pos (suc (length u))) ≡ (suc (length u), u ++ (b'\n' ∷ []), rest)
  at : PeekAt rest 0
  left : contents rest ≡ tail

line-Read :
    (b : Buffer) (size : ℕ) (u tail : List ℕ)
    → PeekAt b 0
    → contents b ≡ u ++ (b'\n' ∷ tail)
    → Avoids b'\n' u
    → length u < size
    → Read b size u tail
unfolding buffer_peek_line
line-Read b size u tail p e h l =
    let f = peek_line_lem b'\n' size u tail p e h l in
    let k = suc (length u) in
    let held : k ≤ buffer_count f.after = omega (arith, f.at.held) in
    let t = read_exact f.after k f.at.valid held in
    let n : (buffer_read_data f.after (pos k)).0 ≡ k =
      omega (arith, (read_data-Took f.after k f.at.valid).0) in
    let text = t.took ∙ ap (take k) (f.same ∙ e) ∙ Strings.take_line b'\n' u tail in
    let place : f.after.peek_line ≡ advance f.after.read k = omega (arith, f.at.place) in
    let rest = (buffer_read_data f.after (pos k)).2 in
    let place : rest.peek_line ≡ advance rest.read 0 = rw t.is (omega (arith, f.at.place)) in
    record {
      after = f.after;
      is = f.is;
      rest = rest;
      taken = λ i. (n i, text i, rest);
      at = record { valid = t.valid; held = omega arith; place = place };
      left = t.leaves ∙ ap (drop k) (f.same ∙ e) ∙ drop_line b'\n' u tail;
    }

-- The bytes of a header: its lines, then a blank one, with a carriage return or without, then `rest`.
abbrev pub blank_line : Bool → List ℕ
blank_line cr = if cr then b'\r' ∷ b'\n' ∷ [] else b'\n' ∷ []

abbrev pub full : List ℕ → List ℕ
full u = u ++ (b'\n' ∷ [])

abbrev pub header_text : List (List ℕ) → Bool → List ℕ → List ℕ
header_text [] cr rest = (if cr then b'\r' ∷ [] else []) ++ (b'\n' ∷ rest)
header_text (u ∷ us) cr rest = u ++ (b'\n' ∷ header_text us cr rest)

-- Lines of fewer than 999 bytes that are not blank.
abbrev pub AreLines : List (List ℕ) → Type 0
AreLines [] = Unit {0}
AreLines (u ∷ us) =
    (Avoids b'\n' u × (length u < 999) × (is_blank_line (full u) ≡ false)) × AreLines us

-- What the lines say, and those of them that the client is sent.
abbrev pub noted : List (List ℕ) → Facts → Facts
noted [] f = f
noted (u ∷ us) f =
    noted us (if is_length_line (full u) then note_length (full u) f else note_line (full u) f)

abbrev pub sent : List (List ℕ) → List ℕ
sent [] = []
sent (u ∷ us) = if is_length_line (full u) then sent us else full u ++ sent us

-- The line about chunks, which is added unless the header has said it.
abbrev pub announced : Facts → List ℕ
announced f = if f.parser.chunk_enabled then [] else announcement

pub blank_line_is :
    (cr : Bool) → (is_length_line (blank_line cr) ≡ false) × (is_blank_line (blank_line cr) ≡ true)
unfolding starts_nocase
blank_line_is true = (refl, refl)
blank_line_is false = (refl, refl)

pub to_client-Appended :
    (text : List ℕ) (e : Exchange)
    → IsValid e.write_buff
    → length text ≤ buffer_space e.write_buff
    → Appended e.write_buff text (to_client text e).write_buff
unfolding to_client
to_client-Appended text e v h = write_fits e.write_buff text (length text) v refl h

-- The round on the blank line.
pub record HeaderEnded (cr : Bool) (e e' : Exchange) : Type 0 where
  pub facts : e'.facts ≡ e.facts
  pub state : e'.state ≡ reading_body
  pub same : e'.parser_buff ≡ e.parser_buff
  pub passed :
      contents e'.write_buff ≡ contents e.write_buff ++ (announced e.facts ++ blank_line cr)

length-blank_line : (cr : Bool) → length (blank_line cr) ≤ 2
length-blank_line true = omega arith
length-blank_line false = omega arith

pub end_header-HeaderEnded :
    (cr : Bool) (e : Exchange)
    → IsValid e.write_buff
    → 29 ≤ buffer_space e.write_buff
    → HeaderEnded cr e (end_header (blank_line cr) e)
unfolding end_header
end_header-HeaderEnded cr e v h =
    let short = length-blank_line cr in
    elim (Bool-cases e.facts.parser.chunk_enabled) [
      | inl c ↦
          let last = to_client-Appended (blank_line cr) e v (omega (arith, short)) in
          record {
            facts = rw c (unfold to_client in refl);
            state = refl;
            same = rw c (unfold to_client in refl);
            passed = rw c last.holds;
          }
      | inr c ↦
          let first = to_client-Appended announcement e v (omega arith) in
          let e1 = to_client announcement e in
          let last =
            to_client-Appended (blank_line cr) e1 first.valid (omega (arith, short, first.space)) in
          record {
            facts = rw c (unfold to_client in refl);
            state = refl;
            same = rw c (unfold to_client in refl);
            passed = rw c (
                last.holds
                ∙ ap (λ xs. xs ++ blank_line cr) first.holds
                ∙ append_assoc (contents e.write_buff) announcement (blank_line cr));
          }
    ]

-- A round, on a line that is there.
pub round :
    (fuel : ℕ) (e : Exchange) (u tail : List ℕ)
    → PeekAt e.parser_buff 0
    → contents e.parser_buff ≡ u ++ (b'\n' ∷ tail)
    → Avoids b'\n' u
    → length u < 999
    → (b : Buffer) × PeekAt b 0
      × (contents b ≡ tail)
      × (header_loop (suc fuel) e ≡ (
          let (again, e') = on_header_line (full u) (record e { parser_buff = b }) in
          if again then header_loop fuel e' else e'))
unfolding header_loop
round fuel e u tail p h a l =
    let r = line-Read e.parser_buff 1000 u tail p h a (omega arith) in
    let found : positive (pos (suc (length u))) ≡ true = ground arith in
    (r.rest, r.at, r.left, rw (r.is, r.taken, found) refl)

-- The three outcomes of a round.
pub taken_length :
    (line : List ℕ) (e : Exchange)
    → is_length_line line ≡ true
    → on_header_line line e ≡ (true, record e { facts = note_length line e.facts })
unfolding on_header_line
taken_length line e t = rw t

pub taken_blank :
    (line : List ℕ) (e : Exchange)
    → is_length_line line ≡ false
    → is_blank_line line ≡ true
    → on_header_line line e ≡ (false, end_header line e)
unfolding on_header_line
taken_blank line e t t' = rw (t, t')

pub taken_other :
    (line : List ℕ) (e : Exchange)
    → is_length_line line ≡ false
    → is_blank_line line ≡ false
    → on_header_line line e ≡ (true, record (to_client line e) { facts = note_line line e.facts })
unfolding on_header_line
taken_other line e t t' = rw (t, t')

-- What stands ahead of the newline of a blank line.
abbrev pub return_of : Bool → List ℕ
return_of cr = if cr then b'\r' ∷ [] else []

pub return_of_lem :
    (cr : Bool)
    → Avoids b'\n' (return_of cr)
      × (length (return_of cr) < 999)
      × (full (return_of cr) ≡ blank_line cr)
return_of_lem true = ((refl, tt), omega arith, refl)
return_of_lem false = (tt, omega arith, refl)
