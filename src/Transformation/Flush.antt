-- ===== src/Transformation/Flush.antt =====
-- The first loop of `proxy_transformation_write`, which sends the bytes that the pipe did not take
-- before.
use proxy_server_http.Base.{
  if◌then◌else◌, ltb, ltb→ge, ==_iff, ℕ, zero, suc, ◌≤◌, ◌<◌, min, ◌≡◌, refl, ap, ◌∙◌, arith, Bool,
  true, false, ◌==◌, List, [], ◌∷◌, ◌++◌, length, take, drop, length-take, length-drop,
  append_assoc, take-append-drop, pos, Bool-cases, inl, inr,
}
use proxy_server_http.Buffer.{
  Buffer, buffer_count, buffer_read_data, buffer_peek_data, buffer_reset_peek_line,
}
use proxy_server_http.Buffer.Window.{window, advance}
use proxy_server_http.Buffer.Fifo.{
  IsValid, contents, length-contents, read_exact, transfer_size-min,
}
use proxy_server_http.Buffer.Peek.{reset-PeekAt, peek_data_lem, peek_data-PeekAt}
use proxy_server_http.Buffer.Strings.{contents_reset, contents-peek_line}
use proxy_server_http.Chunked.{Origin}
use proxy_server_http.Transformation.{Written, wrote, flush_loop}

-- A pipe that keeps what it has taken.
abbrev pub logged : {S : Type 0} → (S → List ℕ → ℕ × S) → S × List ℕ → List ℕ → ℕ × (S × List ℕ)
logged w (s, log) text = let (k, s') = w s text in (k, (s', log ++ take k text))

-- A call of `write` takes no more bytes than it is given.
abbrev pub Takes : {S : Type 0} → (S → List ℕ → ℕ × S) → Type 0
Takes {S} w = (s : S) (text : List ℕ) → (w s text).0 ≤ length text

peek_min :
    (b : Buffer) (size : ℕ)
    → buffer_peek_data b (pos size) ≡ buffer_peek_data b (pos (min size (buffer_count b)))
unfolding buffer_peek_data
peek_min b size =
    let e : min (min size (buffer_count b)) (buffer_count b) ≡ min size (buffer_count b) =
      omega arith in
    rw
      (
        transfer_size-min (buffer_count b) size,
        transfer_size-min (buffer_count b) (min size (buffer_count b)),
        e,
      )
      refl

-- A round: what is offered, and the buffer behind `k` bytes of it.
record Offered (b : Buffer) (k : ℕ) : Type 0 where
  n : ℕ
  amount : n ≡ min 1000 (buffer_count b)
  peeked : Buffer
  is : buffer_peek_data (buffer_reset_peek_line b) (pos 1000) ≡ (n, take n (contents b), peeked)
  left : k ≤ n → contents (buffer_read_data peeked (pos k)).2 ≡ drop k (contents b)
  valid : k ≤ n → IsValid (buffer_read_data peeked (pos k)).2

peek-Offered : (b : Buffer) (k : ℕ) → IsValid b → Offered b k
peek-Offered b k v =
    let r = buffer_reset_peek_line b in
    let p = reset-PeekAt v in
    let count : buffer_count r ≡ buffer_count b =
      omega (arith, length-contents r, ap length (contents_reset b), length-contents b) in
    let n = min 1000 (buffer_count r) in
    let peeked = record r { peek_line = advance r.peek_line n } in
    let at = peek_data-PeekAt n p (omega arith) in
    let same : contents peeked ≡ contents b =
      contents-peek_line r (advance r.peek_line n) ∙ contents_reset b in
    let held : buffer_count peeked ≡ buffer_count b =
      omega (arith, length-contents peeked, ap length same, length-contents b) in
    record {
      n = n;
      amount = omega (arith, count);
      peeked = peeked;
      is =
          peek_min r 1000
          ∙ peek_data_lem n p (omega arith)
          ∙ ap (λ xs. (n, take n xs, peeked)) (contents_reset b);
      left = λ h.
          (read_exact peeked k at.valid (omega (arith, held, count))).leaves ∙ ap (drop k) same;
      valid = λ h. (read_exact peeked k at.valid (omega (arith, held, count))).valid;
    }

-- What the loop leaves: a full pipe, or an empty buffer. The log and the buffer hold what they held.
pub record Flushed {S : Type 0} (o : Origin) (b : Buffer) (log : List ℕ) (r : Written (S × List ℕ))
    : Type 0 where
  pub pipe_full : Bool
  pub after : Buffer
  pub sock : S
  pub written : List ℕ
  pub is : r ≡ wrote pipe_full after o (sock, written)
  pub valid : IsValid after
  pub order : written ++ contents after ≡ log ++ contents b
  pub emptied : pipe_full ≡ false → contents after ≡ []

some_there : (n : ℕ) → (n == 0) ≡ false → 0 < n
some_there n t = ground arith

module _ {S : Type 0} (w : S → List ℕ → ℕ × S) (takes : Takes w) where
  flush_step :
      (fuel : ℕ) (o : Origin) (b : Buffer) (s : S) (log : List ℕ)
      → IsValid b
      → (buffer_count b == 0) ≡ false
      → (n : ℕ) × (n ≡ min 1000 (buffer_count b))
        × (b2 : Buffer) × IsValid b2
        × (let k = (w s (take n (contents b))).0 in
            let s' = (w s (take n (contents b))).1 in
            let log' = log ++ take k (take n (contents b)) in
            (k ≤ n)
            × (contents b2 ≡ drop k (contents b))
            × (flush_loop (logged w) (suc fuel) o b (s, log) ≡ (
                if ltb k n
                then wrote true b2 o (s', log')
                else flush_loop (logged w) fuel o b2 (s', log'))))
  unfolding flush_loop
  flush_step fuel o b s log v some_byte =
      let n = min 1000 (buffer_count b) in
      let k = (w s (take n (contents b))).0 in
      let f = peek-Offered b k v in
      let e : f.n ≡ n = f.amount in
      let small : k ≤ n =
        omega (arith, takes s (take n (contents b)), length-take n (contents b)) in
      let small' : k ≤ f.n = omega (arith, small, e) in
      let is : buffer_peek_data (buffer_reset_peek_line b) (pos 1000)
          ≡ (n, take n (contents b), f.peeked) =
        f.is ∙ ap (λ m. (m, take m (contents b), f.peeked)) e in
      (
        n,
        refl,
        (buffer_read_data f.peeked (pos k)).2,
        f.valid small',
        (small, f.left small', rw (is, some_byte) refl),
      )

  take-take : (k n : ℕ) (xs : List ℕ) → k ≤ n → take k (take n xs) ≡ take k xs
  take-take zero n xs h = refl
  take-take (suc k) zero xs h = absurd (omega arith)
  take-take (suc k) (suc n) [] h = refl
  take-take (suc k) (suc n) (x ∷ xs) h = ap (◌∷◌ x) (take-take k n xs (omega arith))

  pub flush_loop-Flushed :
      (fuel : ℕ) (o : Origin) (b : Buffer) (s : S) (log : List ℕ)
      → IsValid b
      → buffer_count b < fuel
      → Flushed o b log (flush_loop (logged w) fuel o b (s, log))
  flush_loop-Flushed zero o b s log v f = absurd (omega arith)
  flush_loop-Flushed (suc fuel) o b s log v f = elim (Bool-cases (buffer_count b == 0)) [
    | inl t ↦ record {
      pipe_full = false;
      after = b;
      sock = s;
      written = log;
      is = unfold flush_loop in rw t refl;
      valid = v;
      order = refl;
      emptied = λ _. ap (window b.cells b.read) ((==_iff (buffer_count b) 0).0 t);
    }
    | inr t ↦
        let (n, amount, b2, v2, (small, left, is)) = flush_step fuel o b s log v t in
        let k = (w s (take n (contents b))).0 in
        let s' = (w s (take n (contents b))).1 in
        let log' = log ++ take k (take n (contents b)) in
        let order : log' ++ contents b2 ≡ log ++ contents b =
          append_assoc log (take k (take n (contents b))) (contents b2)
          ∙ ap (λ xs. log ++ xs)
              (ap (λ xs. xs ++ contents b2) (take-take k n (contents b) small)
                ∙ ap (λ xs. take k (contents b) ++ xs) left
                ∙ take-append-drop k (contents b)) in
        elim (Bool-cases (ltb k n)) [
          | inl more ↦ record {
            pipe_full = true;
            after = b2;
            sock = s';
            written = log';
            is = rw more at is;
            valid = v2;
            order = order;
            emptied = λ e. cc;
          }
          | inr all ↦
              let count : buffer_count b2 < fuel = omega (
                arith,
                length-contents b2,
                ap length left,
                length-drop k (contents b),
                length-contents b,
                ltb→ge k n all,
                amount,
                some_there (buffer_count b) t,
              ) in
              let later = flush_loop-Flushed fuel o b2 s' log' v2 count in
              record {
                pipe_full = later.pipe_full;
                after = later.after;
                sock = later.sock;
                written = later.written;
                is = (rw all at is) ∙ later.is;
                valid = later.valid;
                order = later.order ∙ order;
                emptied = later.emptied;
              }
        ]
  ]
