-- ===== src/Response/Header.antt =====
-- The loop over the lines of a header, on a parser's buffer that holds a whole one.
use proxy_server_http.Base.{
  ℕ, zero, suc, ◌+◌, ◌≤◌, ◌<◌, ◌≡◌, sym, ap, subst, ◌∙◌, arith, Bool, true, false, List, [], ◌∷◌,
  ◌++◌, length, length-append, append_assoc, Bool-cases, inl, inr,
}
use proxy_server_http.Buffer.{buffer_count, buffer_space}
use proxy_server_http.Buffer.Fifo.{IsValid, contents, length-contents}
use proxy_server_http.Buffer.Peek.{PeekAt}
use proxy_server_http.Response.{
  Exchange, Facts, reading_body, is_length_line, note_length, note_line, to_client, end_header,
  header_loop, take_header,
}
use proxy_server_http.Response.Lines.{
  blank_line, full, header_text, AreLines, noted, sent, announced, blank_line_is,
  to_client-Appended, end_header-HeaderEnded, round, taken_length, taken_blank, taken_other,
  return_of, return_of_lem,
}

-- What the loop leaves.
pub record HeaderRead (lines : List (List ℕ)) (cr : Bool) (rest : List ℕ) (e e' : Exchange)
    : Type 0 where
  pub facts : e'.facts ≡ noted lines e.facts
  pub state : e'.state ≡ reading_body
  pub left : contents e'.parser_buff ≡ rest
  pub passed :
      contents e'.write_buff
      ≡ contents e.write_buff ++ (sent lines ++ (announced (noted lines e.facts) ++ blank_line cr))

-- The round on the blank line, which is the last.
last_round :
    (cr : Bool) (rest : List ℕ) (fuel : ℕ) (e : Exchange)
    → PeekAt e.parser_buff 0
    → IsValid e.write_buff
    → contents e.parser_buff ≡ header_text [] cr rest
    → 29 ≤ buffer_space e.write_buff
    → HeaderRead [] cr rest e (header_loop (suc fuel) e)
last_round cr rest fuel e p v h s =
    let (avoids, short, whole) = return_of_lem cr in
    let (b, at, left, is) = round fuel e (return_of cr) rest p h avoids short in
    let e0 = record e { parser_buff = b } in
    let (no_length, blank) = blank_line_is cr in
    let is' : header_loop (suc fuel) e ≡ end_header (blank_line cr) e0 =
      rw (whole, taken_blank (blank_line cr) e0 no_length blank) at is in
    let d = end_header-HeaderEnded cr e0 v s in
    subst (HeaderRead [] cr rest e) (sym is') (record {
      facts = d.facts;
      state = d.state;
      left = ap contents d.same ∙ left;
      passed = d.passed;
    })

pub noted_length :
    (u : List ℕ) (us : List (List ℕ)) (f : Facts)
    → is_length_line (full u) ≡ true
    → noted (u ∷ us) f ≡ noted us (note_length (full u) f)
noted_length u us f t = rw t

pub noted_other :
    (u : List ℕ) (us : List (List ℕ)) (f : Facts)
    → is_length_line (full u) ≡ false
    → noted (u ∷ us) f ≡ noted us (note_line (full u) f)
noted_other u us f t = rw t

header_loop_lem :
    (lines : List (List ℕ)) (cr : Bool) (rest : List ℕ) (fuel : ℕ) (e : Exchange)
    → AreLines lines
    → PeekAt e.parser_buff 0
    → IsValid e.write_buff
    → contents e.parser_buff ≡ header_text lines cr rest
    → length (sent lines) + 29 ≤ buffer_space e.write_buff
    → length lines < fuel
    → HeaderRead lines cr rest e (header_loop fuel e)
header_loop_lem lines cr rest zero e a p v h s f = absurd (omega arith)
header_loop_lem [] cr rest (suc fuel) e a p v h s f = last_round cr rest fuel e p v h s
header_loop_lem (u ∷ us) cr rest (suc fuel) e a p v h s f =
    let ((avoids, short, text), later) = a in
    let (b, at, left, is) = round fuel e u (header_text us cr rest) p h avoids short in
    let e0 = record e { parser_buff = b } in
    elim (Bool-cases (is_length_line (full u))) [
      | inl t ↦
          let is' = rw (taken_length (full u) e0 t) at is in
          let d =
            header_loop_lem us cr rest fuel (record e0 { facts = note_length (full u) e.facts })
              later at v left (rw t at s) (omega arith) in
          subst (HeaderRead (u ∷ us) cr rest e) (sym is') (record {
            facts = d.facts ∙ sym (noted_length u us e.facts t);
            state = d.state;
            left = d.left;
            passed = rw (noted_length u us e.facts t, t) d.passed;
          })
      | inr t ↦
          let room : length (full u ++ sent us) + 29 ≤ buffer_space e.write_buff = rw t at s in
          let l = length-append (full u) (sent us) in
          let is' = rw (taken_other (full u) e0 t text) at is in
          let w = to_client-Appended (full u) e0 v (omega (arith, l, room)) in
          let d =
            header_loop_lem us cr rest fuel
              (record (to_client (full u) e0) { facts = note_line (full u) e.facts }) later
              (unfold to_client in at) w.valid (unfold to_client in left)
              (omega (arith, l, room, w.space)) (omega arith) in
          subst (HeaderRead (u ∷ us) cr rest e) (sym is') (record {
            facts = d.facts ∙ sym (noted_other u us e.facts t);
            state = d.state;
            left = d.left;
            passed =
                rw (noted_other u us e.facts t, t)
                  (d.passed
                    ∙ ap
                        (λ xs.
                          xs
                          ++ (sent us
                              ++ (announced (noted us (note_line (full u) e.facts))
                                  ++ blank_line cr)))
                        w.holds
                    ∙ append_assoc (contents e.write_buff) (full u) _
                    ∙ ap (λ xs. contents e.write_buff ++ xs)
                        (sym (append_assoc (full u) (sent us) _)));
          })
    ]

length-header_text :
    (lines : List (List ℕ)) (cr : Bool) (rest : List ℕ)
    → length lines < length (header_text lines cr rest)
length-header_text [] true rest = omega arith
length-header_text [] false rest = omega arith
length-header_text (u ∷ us) cr rest =
    omega (arith, length-append u (b'\n' ∷ header_text us cr rest), length-header_text us cr rest)

-- The parser's buffer is in range with the next scan at its first byte and holds lines of fewer
-- than 999 bytes, none blank, then a blank line, with a carriage return or not, then more. The
-- client's buffer is in range and has space for the lines that are passed on and 29 bytes. Then the
-- loop leaves the facts that the lines give one after the other and the state of a body; the rest
-- in the parser's buffer; and in the client's, behind what it held, all lines but those of a
-- length, the line that announces chunks unless the lines have, and the blank line.
pub take_header-HeaderRead :
    (lines : List (List ℕ)) (cr : Bool) (rest : List ℕ) (e : Exchange)
    → AreLines lines
    → PeekAt e.parser_buff 0
    → IsValid e.write_buff
    → contents e.parser_buff ≡ header_text lines cr rest
    → length (sent lines) + 29 ≤ buffer_space e.write_buff
    → HeaderRead lines cr rest e (take_header e)
unfolding take_header
take_header-HeaderRead lines cr rest e a p v h s =
    header_loop_lem lines cr rest (buffer_count e.parser_buff + 1) e a p v h s
      (omega (arith, length-header_text lines cr rest, ap length h, length-contents e.parser_buff))
