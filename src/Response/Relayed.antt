-- ===== src/Response/Relayed.antt =====
-- A body that is not in chunks, relayed whole: what the client's buffer gets.
use proxy_server_http.Base.{
  ℕ, zero, suc, ◌+◌, ◌-◌, ◌*◌, ◌≤◌, ◌<◌, ◌≡◌, refl, sym, ap, ◌∙◌, arith, Bool, true, false, ◌==◌,
  ◌&&◌, ◌||◌, if◌then◌else◌, List, [], ◌∷◌, ◌++◌, length, take, drop, length-take, length-drop,
  length-append, append_assoc, append-nil,
}
use proxy_server_http.Buffer.{buffer_count, buffer_space}
use proxy_server_http.Buffer.Fifo.{contents, length-contents, buffer_count-lt}
use proxy_server_http.Chunked.{write_chunked, to_hex}
use proxy_server_http.Chunked.Encode.{encode, length-encode, write_chunked-Appended}
use proxy_server_http.Response.{
  Copied, Exchange, origin_of, put_origin, copied, copy_body, end_body,
}
use proxy_server_http.Response.Body.{Operable}
use proxy_server_http.Response.Pieces.{in_chunks, loop-Piecewise}
use proxy_server_http.Response.Plain.{Plain}
use proxy_server_http.Chunked.Number.{short-to_hex}

length-piece : (xs : List ℕ) → length (encode (take 1000 xs)) ≤ length (take 1000 xs) + 7
length-piece xs = omega (
  arith,
  length-encode (take 1000 xs),
  short-to_hex (length (take 1000 xs)) (omega (arith, length-take 1000 xs)),
)

length-in_chunks : (k : ℕ) (xs : List ℕ) → length (in_chunks k xs) ≤ length xs + 7 * k
length-in_chunks zero xs = omega arith
length-in_chunks (suc k) [] = omega arith
length-in_chunks (suc k) (x ∷ xs) =
    let body = x ∷ xs in
    omega (
      arith,
      length-append (encode (take 1000 body)) (in_chunks k (drop 1000 body)),
      length-piece body,
      length-in_chunks k (drop 1000 body),
      length-take 1000 body,
      length-drop 1000 body,
    )

-- The whole of a body, with its end.
pub record Relayed (counted : Bool) (left : ℕ) (e : Exchange) (r : Copied) : Type 0 where
  pub after : Exchange
  pub is : r ≡ copied after
  pub complete : Bool
  pub complete_is : complete ≡ ((counted && (left - buffer_count e.parser_buff == 0)) || e.finished)
  pub holds :
      contents after.write_buff
      ≡ contents e.write_buff
        ++ (in_chunks 8 (contents e.parser_buff) ++ (if complete then encode [] else []))
  pub emptied : contents after.parser_buff ≡ []

ending :
    (e : Exchange)
    → Operable e
    → 5 ≤ buffer_space e.write_buff
    → let after = if e.finished then put_origin (write_chunked (origin_of e) [] 0) e else e in
      (contents after.write_buff ≡ contents e.write_buff ++ (if e.finished then encode [] else []))
      × (contents after.parser_buff ≡ contents e.parser_buff)
unfolding to_hex
ending e r h = by_end e.finished
  where
    by_end :
        (t : Bool)
        → let after = if t then put_origin (write_chunked (origin_of e) [] 0) e else e in
          (contents after.write_buff ≡ contents e.write_buff ++ (if t then encode [] else []))
          × (contents after.parser_buff ≡ contents e.parser_buff)
    by_end true =
        let a = write_chunked-Appended (origin_of e) [] r.client h in
        (a.holds, unfold write_chunked in refl)
    by_end false = (sym (append-nil (contents e.write_buff)), refl)

-- The parser's buffer holds a part of a body that is not in chunks, 80 bytes less than the client's
-- buffer has space for at most, and the fuel is for nine rounds at least. Then the loop returns;
-- the client's buffer has got, behind what it held, all those bytes in pieces of up to 1000, each
-- as a chunk, and the empty chunk where the body is complete; and the parser's buffer is empty. A
-- body with a length is complete where as many bytes are there as it still has to come, which are
-- taken to be no fewer; one without is where the response has finished.
pub copy_body-Relayed :
    (counted : Bool) (left fuel inner : ℕ) (e : Exchange)
    → Plain counted left e
    → buffer_count e.parser_buff + 80 ≤ buffer_space e.write_buff
    → 8 < fuel
    → Relayed counted left e (copy_body fuel inner e)
unfolding copy_body
copy_body-Relayed counted left fuel inner e p room f =
    let small = buffer_count-lt p.ready.parser in
    let size = length-in_chunks 8 (contents e.parser_buff) in
    let held = length-contents e.parser_buff in
    let g =
      loop-Piecewise counted 8 fuel inner f left e p (omega (arith, small))
        (omega (arith, size, held, room)) in
    let (whole, none) = ending g.after g.ready (omega (arith, g.space, size, held, room)) in
    record {
      after = _;
      is = ap end_body g.is;
      complete = g.after.finished;
      complete_is = g.finish;
      holds =
          whole
          ∙ ap (λ ys. ys ++ (if g.after.finished then encode [] else [])) g.holds
          ∙ append_assoc (contents e.write_buff) (in_chunks 8 (contents e.parser_buff))
              (if g.after.finished then encode [] else []);
      emptied = none ∙ g.emptied;
    }
