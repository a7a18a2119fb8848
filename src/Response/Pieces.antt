-- ===== src/Response/Pieces.antt =====
-- The loop over a body that is not in chunks, piece by piece.
use proxy_server_http.Base.{
  ℕ, zero, suc, ◌+◌, ◌-◌, ◌*◌, ◌≤◌, ◌<◌, min, ◌≡◌, refl, sym, ap, ap₂, subst, ◌∙◌, arith, Bool,
  true, false, ◌==◌, ◌&&◌, ◌||◌, List, [], ◌∷◌, ◌++◌, length, take, drop, length-take, length-drop,
  length-append, append_assoc, append-nil,
}
use proxy_server_http.Buffer.{buffer_count, buffer_space}
use proxy_server_http.Buffer.Fifo.{contents, length-contents}
use proxy_server_http.Chunked.{Origin, bytes, read_unchunked, write_chunked}
use proxy_server_http.Chunked.Encode.{encode, Appended, write_chunked-Appended}
use proxy_server_http.Response.{
  Copied, Exchange, origin_of, put_origin, copied, on_unchunked, body_loop,
}
use proxy_server_http.Response.Body.{Operable}
use proxy_server_http.Response.Plain.{Plain, plain-Taken}
use proxy_server_http.Buffer.Window.{window}

-- A body in pieces of 1000 bytes, each as a chunk; with fuel for the pieces.
abbrev pub in_chunks : ℕ → List ℕ → List ℕ
in_chunks zero body = []
in_chunks (suc n) [] = []
in_chunks (suc n) (x ∷ xs) = encode (take 1000 (x ∷ xs)) ++ in_chunks n (drop 1000 (x ∷ xs))

-- The loop has ended, with the body behind what the client's buffer held.
pub record Piecewise (counted : Bool) (left k : ℕ) (e : Exchange) (r : Copied) : Type 0 where
  pub after : Exchange
  pub is : r ≡ copied after
  pub ready : Operable after
  pub holds :
      contents after.write_buff ≡ contents e.write_buff ++ in_chunks k (contents e.parser_buff)
  pub space :
      buffer_space e.write_buff
      ≡ buffer_space after.write_buff + length (in_chunks k (contents e.parser_buff))
  pub emptied : contents after.parser_buff ≡ []
  pub finish :
      after.finished ≡ ((counted && (left - buffer_count e.parser_buff == 0)) || e.finished)

in_chunks-nil : (k : ℕ) → in_chunks k [] ≡ []
in_chunks-nil zero = refl
in_chunks-nil (suc k) = refl

-- Of an empty buffer nothing is taken.
passed_empty :
    (counted : Bool) (left k fuel inner : ℕ) (e : Exchange)
    → Plain counted left e
    → contents e.parser_buff ≡ []
    → Piecewise counted left k e (body_loop (suc fuel) inner e)
unfolding body_loop
passed_empty counted left k fuel inner e p none =
    let t = plain-Taken counted left inner e p in
    let nothing : take 1000 (contents e.parser_buff) ≡ [] = ap (take 1000) none in
    let count : buffer_count e.parser_buff ≡ 0 =
      omega (arith, length-contents e.parser_buff, ap length none) in
    let more = λ (text : List ℕ) (o : Origin).
      body_loop fuel inner (put_origin (write_chunked o text (length text)) e) in
    let no_chunk : in_chunks k (contents e.parser_buff) ≡ [] =
      ap (in_chunks k) none ∙ in_chunks-nil k in
    record {
      after = put_origin t.after e;
      is = ap (on_unchunked more e) (t.is ∙ ap (λ xs. bytes xs t.after) nothing);
      ready = t.plain.ready;
      holds =
          ap contents t.same
          ∙ sym (append-nil (contents e.write_buff))
          ∙ ap (λ xs. contents e.write_buff ++ xs) (sym no_chunk);
      space = omega (arith, ap buffer_space t.same, ap length no_chunk);
      emptied = t.leaves ∙ ap (drop 1000) none;
      finish =
          t.finish
          ∙ ap (λ n. (counted && (left - n == 0)) || e.finished) (ap length nothing ∙ sym count);
    }

-- What is left to do behind a piece.
abbrev behind_piece : Origin → List ℕ → Exchange → Exchange
behind_piece o piece e = put_origin (write_chunked o piece (length piece)) e

piece-Plain :
    (counted : Bool) (left : ℕ) (o : Origin) (piece : List ℕ) (e : Exchange)
    → Plain counted left (put_origin o e)
    → length (encode piece) ≤ buffer_space o.write_buff
    → Plain counted left (behind_piece o piece e)
      × Appended o.write_buff (encode piece) (behind_piece o piece e).write_buff
      × ((behind_piece o piece e).parser_buff ≡ o.parser_buff)
      × ((behind_piece o piece e).finished ≡ o.finished)
unfolding write_chunked
piece-Plain counted left o piece e p h =
    let a = write_chunked-Appended o piece p.ready.client h in
    (
      record {
        ready = record { client = a.valid; parser = p.ready.parser };
        length_is = p.length_is;
        no_chunks = p.no_chunks;
        within = p.within;
      },
      a,
      refl,
      refl,
    )

-- The count of a body is done with its last piece.
done_last :
    (counted : Bool) (left n m : ℕ) (f : Bool)
    → n ≤ m
    → (counted ≡ true → m ≤ left)
    → ((counted && ((left - n) - (m - n) == 0)) || ((counted && (left - n == 0)) || f))
      ≡ ((counted && (left - m == 0)) || f)
done_last false left n m f h w = refl
done_last true left n m f h w = ground (arith, w refl)

round_is :
    (fuel inner x : ℕ) (xs : List ℕ) (e : Exchange) (o : Origin)
    → read_unchunked inner 1000 (origin_of e) ≡ bytes (x ∷ xs) o
    → body_loop (suc fuel) inner e ≡ body_loop fuel inner (behind_piece o (x ∷ xs) e)
unfolding body_loop
round_is fuel inner x xs e o is =
    ap (on_unchunked (λ text o'. body_loop fuel inner (behind_piece o' text e)) e) is

-- What the later rounds do.
abbrev pub Later : Bool → ℕ → ℕ → ℕ → Type 0
Later counted k fuel inner =
    (left : ℕ) (e : Exchange)
    → Plain counted left e
    → buffer_count e.parser_buff ≤ 1000 * k
    → length (in_chunks k (contents e.parser_buff)) ≤ buffer_space e.write_buff
    → Piecewise counted left k e (body_loop fuel inner e)

-- A round that passes a piece on: what is left, and what the client's buffer has got.
record PieceMoved (counted : Bool) (left fuel inner : ℕ) (e : Exchange) (piece : List ℕ)
    : Type 0 where
  next : Exchange
  is : body_loop (suc fuel) inner e ≡ body_loop fuel inner next
  plain : Plain counted (left - length piece) next
  rest : contents next.parser_buff ≡ drop 1000 (contents e.parser_buff)
  count : buffer_count next.parser_buff ≡ buffer_count e.parser_buff - length piece
  size : length piece ≡ min 1000 (buffer_count e.parser_buff)
  holds : contents next.write_buff ≡ contents e.write_buff ++ encode piece
  space : buffer_space e.write_buff ≡ buffer_space next.write_buff + length (encode piece)
  finish : next.finished ≡ ((counted && (left - length piece == 0)) || e.finished)

piece-PieceMoved :
    (counted : Bool) (left fuel inner x : ℕ) (xs : List ℕ) (e : Exchange)
    → Plain counted left e
    → contents e.parser_buff ≡ x ∷ xs
    → length (encode (take 1000 (x ∷ xs))) ≤ buffer_space e.write_buff
    → PieceMoved counted left fuel inner e (take 1000 (x ∷ xs))
piece-PieceMoved counted left fuel inner x xs e p c room =
    let t = plain-Taken counted left inner e p in
    let body = contents e.parser_buff in
    let piece = take 1000 (x ∷ xs) in
    let cut : take 1000 body ≡ piece = ap (take 1000) c in
    let same = ap buffer_space t.same in
    let p1 : Plain counted (left - length piece) (put_origin t.after e) =
      subst (λ ys. Plain counted (left - length ys) (put_origin t.after e)) cut t.plain in
    let (p2, a, kept, ended) =
      piece-Plain counted (left - length piece) t.after piece e p1 (omega (arith, room, same)) in
    let e2 = behind_piece t.after piece e in
    let rest : contents e2.parser_buff ≡ drop 1000 body = ap contents kept ∙ t.leaves in
    let held = length-contents e.parser_buff in
    let size : length piece ≡ min 1000 (buffer_count e.parser_buff) =
      omega (arith, length-take 1000 body, ap length cut, held) in
    record {
      next = e2;
      is = round_is fuel inner x (take 999 xs) e t.after (t.is ∙ ap (λ ys. bytes ys t.after) cut);
      plain = p2;
      rest = rest;
      count = omega (
        arith,
        ap length rest,
        length-drop 1000 body,
        size,
        held,
        length-contents e2.parser_buff,
      );
      size = size;
      holds = a.holds ∙ ap (λ b. contents b ++ encode piece) t.same;
      space = omega (arith, a.space, same);
      finish = ended ∙ t.finish ∙ ap (λ ys. (counted && (left - length ys == 0)) || e.finished) cut;
    }

passed_piece :
    (counted : Bool) (left k fuel inner x : ℕ) (xs : List ℕ) (e : Exchange)
    → Plain counted left e
    → contents e.parser_buff ≡ x ∷ xs
    → buffer_count e.parser_buff ≤ 1000 * suc k
    → length (in_chunks (suc k) (contents e.parser_buff)) ≤ buffer_space e.write_buff
    → Later counted k fuel inner
    → Piecewise counted left (suc k) e (body_loop (suc fuel) inner e)
passed_piece counted left k fuel inner x xs e p c few room later =
    let piece = take 1000 (x ∷ xs) in
    let size = length piece in
    let rest = drop 1000 (contents e.parser_buff) in
    let chunks : in_chunks (suc k) (contents e.parser_buff) ≡ encode piece ++ in_chunks k rest =
      ap (in_chunks (suc k)) c
      ∙ ap (λ ys. encode piece ++ in_chunks k ys) (sym (ap (drop 1000) c)) in
    let all = ap length chunks in
    let lengths = length-append (encode piece) (in_chunks k rest) in
    let q =
      piece-PieceMoved counted left fuel inner x xs e p c (omega (arith, room, all, lengths)) in
    let tail : in_chunks k (contents q.next.parser_buff) ≡ in_chunks k rest =
      ap (in_chunks k) q.rest in
    let n = buffer_count e.parser_buff in
    let g =
      later (left - size) q.next q.plain (omega (arith, q.count, q.size))
        (omega (arith, ap length tail, q.space, all, lengths, room)) in
    record {
      after = g.after;
      is = q.is ∙ g.is;
      ready = g.ready;
      holds =
          g.holds
          ∙ ap₂ (λ ys zs. ys ++ zs) q.holds tail
          ∙ append_assoc (contents e.write_buff) (encode piece) (in_chunks k rest)
          ∙ ap (λ ys. contents e.write_buff ++ ys) (sym chunks);
      space = omega (arith, g.space, q.space, ap length tail, all, lengths);
      emptied = g.emptied;
      finish =
          g.finish
          ∙ ap₂ (λ m f. (counted && ((left - size) - m == 0)) || f) q.count q.finish
          ∙ done_last counted left size n e.finished (omega (arith, q.size)) p.within;
    }

-- A list, by its first element.
by_first :
    (P : Type 0) (body : List ℕ) → (body ≡ [] → P) → ((x : ℕ) (xs : List ℕ) → body ≡ x ∷ xs → P) → P
by_first P [] f g = f refl
by_first P (x ∷ xs) f g = g x xs refl

pub loop-Piecewise : (counted : Bool) (k fuel inner : ℕ) → k < fuel → Later counted k fuel inner
loop-Piecewise counted k zero inner h left e p few room = absurd (omega arith)
loop-Piecewise counted zero (suc fuel) inner h left e p few room =
    passed_empty counted left 0 fuel inner e p (
      ap (window e.parser_buff.cells e.parser_buff.read)
        (let z : buffer_count e.parser_buff ≡ 0 = omega arith in z))
loop-Piecewise counted (suc k) (suc fuel) inner h left e p few room =
    by_first (Piecewise counted left (suc k) e (body_loop (suc fuel) inner e))
      (contents e.parser_buff) (λ c. passed_empty counted left (suc k) fuel inner e p c)
      (λ x xs c.
        passed_piece counted left k fuel inner x xs e p c few room
          (loop-Piecewise counted k fuel inner (omega arith)))
