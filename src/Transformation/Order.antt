-- ===== src/Transformation/Order.antt =====
-- Both loops of `proxy_transformation_write`: what the command is sent.
use proxy_server_http.Base.{
  if◌then◌else◌, ltb, ltb→ge, ℕ, zero, suc, ◌+◌, ◌-◌, ◌≤◌, ◌<◌, ◌≡◌, refl, sym, ap, subst, ◌∙◌,
  arith, Bool, true, false, List, [], ◌∷◌, ◌++◌, length, take, drop, length-drop, append_assoc,
  append-nil, take-append-drop, take-all, pos, Bool-cases, inl, inr,
}
use proxy_server_http.Buffer.{Buffer, buffer_count, buffer_write_data}
use proxy_server_http.Buffer.Fifo.{IsValid, contents, length-contents, space-count}
use proxy_server_http.Chunked.{Origin, bytes, read_unchunked}
use proxy_server_http.Chunked.Encode.{write_fits}
use proxy_server_http.Chunked.Limit.{FitsIn, read_unchunked-FitsIn}
use proxy_server_http.Transformation.{Written, wrote, pass_body, then_body, write_body}
use proxy_server_http.Transformation.Flush.{logged, Takes, flush_loop-Flushed}

-- `n` calls of `read_unchunked` give the bytes, and one more gives none.
pub data Stream (inner : ℕ) : ℕ → Origin → List ℕ → Origin → Type 0 where
  dry : {o o' : Origin} → read_unchunked inner 1000 o ≡ bytes [] o' → Stream inner 0 o [] o'
  flows :
      {n : ℕ} {o o1 o2 : Origin} {ys : List ℕ} (x : ℕ) (xs : List ℕ)
      → read_unchunked inner 1000 o ≡ bytes (x ∷ xs) o1
      → Stream inner n o1 ys o2
      → Stream inner (suc n) o ((x ∷ xs) ++ ys) o2

-- What the loops leave of a stream: what the log, the buffer and the rest of the stream hold is what
-- they held, in its order. Where the pipe is not full all of it is in the log.
pub record Relayed {S : Type 0} (inner : ℕ) (o' : Origin) (held : List ℕ) (r : Written (S × List ℕ))
    : Type 0 where
  pub pipe_full : Bool
  pub after : Buffer
  pub origin : Origin
  pub sock : S
  pub written : List ℕ
  pub is : r ≡ wrote pipe_full after origin (sock, written)
  pub rest : List ℕ
  pub calls : ℕ
  pub order : written ++ (contents after ++ rest) ≡ held
  pub on_full : pipe_full ≡ true → Stream inner calls origin rest o'
  pub on_free : pipe_full ≡ false → (written ≡ held) × (origin ≡ o')

module _ {S : Type 0} (w : S → List ℕ → ℕ × S) (takes : Takes w) (inner : ℕ) where
  round_dry :
      (fuel : ℕ) (o o' : Origin) (b : Buffer) (s : S × List ℕ)
      → read_unchunked inner 1000 o ≡ bytes [] o'
      → pass_body (logged w) (suc fuel) inner o b s ≡ wrote false b o' s
  unfolding pass_body
  round_dry fuel o o' b s e = rw e refl

  round_flows :
      (fuel x : ℕ) (xs : List ℕ) (o o1 : Origin) (b : Buffer) (s : S) (log : List ℕ)
      → read_unchunked inner 1000 o ≡ bytes (x ∷ xs) o1
      → let text = x ∷ xs in
        let (k, s') = w s text in
        let left = drop k text in
        pass_body (logged w) (suc fuel) inner o b (s, log) ≡ (
          if ltb k (length text)
          then wrote true
              (buffer_write_data b left (pos (length text - k))).1
              o1
              (s', log ++ take k text)
          else pass_body (logged w) fuel inner o1 b (s', log ++ take k text))
  unfolding pass_body
  round_flows fuel x xs o o1 b s log e = rw e refl

  -- The bytes that a full pipe leaves fit into the empty buffer.
  kept :
      (b : Buffer) (text : List ℕ) (k : ℕ)
      → IsValid b
      → contents b ≡ []
      → length text ≤ 1000
      → contents (buffer_write_data b (drop k text) (pos (length text - k))).1 ≡ drop k text
  kept b text k v empty small =
      let count : buffer_count b ≡ 0 = omega (arith, length-contents b, ap length empty) in
      let a =
        write_fits b (drop k text) (length text - k) v (sym (length-drop k text))
          (omega (arith, space-count v, count)) in
      a.holds ∙ ap (λ xs. xs ++ drop k text) empty

  pass_body-Relayed :
      {n : ℕ} {o o' : Origin} {text : List ℕ} (fuel : ℕ) (b : Buffer) (s : S) (log : List ℕ)
      → IsValid b
      → contents b ≡ []
      → Stream inner n o text o'
      → n < fuel
      → Relayed inner o' (log ++ text) (pass_body (logged w) fuel inner o b (s, log))
  pass_body-Relayed zero b s log v empty st f = absurd (omega arith)
  pass_body-Relayed {o = o} {o' = o'} (suc fuel) b s log v empty (dry e) f = record {
    pipe_full = false;
    after = b;
    origin = o';
    sock = s;
    written = log;
    is = round_dry fuel o o' b (s, log) e;
    rest = [];
    calls = 0;
    order = ap (λ c. log ++ (c ++ [])) empty;
    on_full = λ t. cc;
    on_free = λ _. (sym (append-nil log), refl);
  }
  pass_body-Relayed {o = o} {o' = o'} (suc fuel) b s log v empty
        (flows {n} {o1 = o1} {ys = ys} x xs e st) f =
      let text = x ∷ xs in
      let k = (w s text).0 in
      let s' = (w s text).1 in
      let is = round_flows fuel x xs o o1 b s log e in
      let small : length text ≤ 1000 = subst (FitsIn 1000) e (read_unchunked-FitsIn inner 1000 o) in
      elim (Bool-cases (ltb k (length text))) [
        | inl more ↦ record {
          pipe_full = true;
          after = (buffer_write_data b (drop k text) (pos (length text - k))).1;
          origin = o1;
          sock = s';
          written = log ++ take k text;
          is = rw more at is;
          rest = ys;
          calls = n;
          order =
              ap (λ c. (log ++ take k text) ++ (c ++ ys)) (kept b text k v empty small)
              ∙ append_assoc log (take k text) (drop k text ++ ys)
              ∙ ap (λ xs'. log ++ xs')
                  (sym (append_assoc (take k text) (drop k text) ys)
                    ∙ ap (λ xs'. xs' ++ ys) (take-append-drop k text));
          on_full = λ _. st;
          on_free = λ t. cc;
        }
        | inr all ↦
            let whole : take k text ≡ text = take-all k text (ltb→ge k (length text) all) in
            let later = pass_body-Relayed fuel b s' (log ++ take k text) v empty st (omega arith) in
            let held : (log ++ take k text) ++ ys ≡ log ++ (text ++ ys) =
              ap (λ t. (log ++ t) ++ ys) whole ∙ append_assoc log text ys in
            record {
              pipe_full = later.pipe_full;
              after = later.after;
              origin = later.origin;
              sock = later.sock;
              written = later.written;
              is = rw all at is ∙ later.is;
              rest = later.rest;
              calls = later.calls;
              order = later.order ∙ held;
              on_full = later.on_full;
              on_free = λ t. ((later.on_free t).0 ∙ held, (later.on_free t).1);
            }
      ]

  -- With a `write` that takes at most what it is given, a temporary buffer in range, a body that
  -- `read_unchunked` gives in a number of calls, and fuel for more rounds than those, both loops
  -- end with an answer. What the command has been sent, the temporary buffer and the bytes that
  -- `read_unchunked` has still to give are then, one behind the other, what had been sent before,
  -- the buffer and the body. Where the pipe is not full, all of it has been sent.
  pub write_body-Relayed :
      (n fuel : ℕ) (o o' : Origin) (text : List ℕ) (b : Buffer) (s : S) (log : List ℕ)
      → IsValid b
      → Stream inner n o text o'
      → n < fuel
      → Relayed inner o'
          (log ++ (contents b ++ text))
          (write_body (logged w) fuel inner o b (s, log))
  unfolding write_body
  write_body-Relayed n fuel o o' text b s log v st f =
      let first = flush_loop-Flushed w takes (buffer_count b + 1) o b s log v (omega arith) in
      elim (Bool-cases first.pipe_full) [
        | inl t ↦ record {
          pipe_full = true;
          after = first.after;
          origin = o;
          sock = first.sock;
          written = first.written;
          is = ap (then_body (logged w) fuel inner) (rw t at first.is);
          rest = text;
          calls = n;
          order =
              sym (append_assoc first.written (contents first.after) text)
              ∙ ap (λ xs. xs ++ text) first.order
              ∙ append_assoc log (contents b) text;
          on_full = λ _. st;
          on_free = λ e. cc;
        }
        | inr t ↦
            let empty = first.emptied t in
            let written : first.written ≡ log ++ contents b =
              sym (append-nil first.written)
              ∙ ap (λ c. first.written ++ c) (sym empty)
              ∙ first.order in
            let later =
              pass_body-Relayed fuel first.after first.sock first.written first.valid empty st f in
            let held : first.written ++ text ≡ log ++ (contents b ++ text) =
              ap (λ xs. xs ++ text) written ∙ append_assoc log (contents b) text in
            record {
              pipe_full = later.pipe_full;
              after = later.after;
              origin = later.origin;
              sock = later.sock;
              written = later.written;
              is = ap (then_body (logged w) fuel inner) (rw t at first.is) ∙ later.is;
              rest = later.rest;
              calls = later.calls;
              order = later.order ∙ held;
              on_full = later.on_full;
              on_free = λ e. ((later.on_free e).0 ∙ held, (later.on_free e).1);
            }
      ]
