-- ===== src/Relay/Arrivals.antt =====
-- A round of the loop that receives from the origin.
use proxy_server_http.Base.{
  if◌then◌else◌, ℕ, suc, ◌+◌, ◌-◌, ◌≤◌, ◌<◌, ◌≡◌, refl, sym, ap, ◌∙◌, arith, Bool, true, false,
  ◌==◌, ◌||◌, not, List, [], ◌∷◌, ◌++◌, length, append_assoc, append-nil, ℤ,
}
use proxy_server_http.Buffer.{buffer_space}
use proxy_server_http.Buffer.Fifo.{IsValid, contents}
use proxy_server_http.Chunked.{available_parser_bytes}
use proxy_server_http.Chunked.Encode.{write_fits}
use proxy_server_http.Selector.{op_noop}
use proxy_server_http.Response.{origin_of}
use proxy_server_http.Connection.{Proxy, set_interest}
use proxy_server_http.Relay.{
  FromSocket, Ended, ended, bytes_to_send, on_origin_bytes, origin_loop, store_response,
}
use proxy_server_http.Relay.Receive.{bytes_of, recorded}

abbrev pub is_empty : List ℕ → Bool
is_empty [] = true
is_empty (x ∷ xs) = false

-- The loop has ended, the parser's buffer has got what the socket has handed over, and there is
-- something to parse where there was or something came.
pub record Arrived {S : Type 0} (parse : Bool) (log held : List ℕ) (r : Bool × Ended (S × List ℕ))
    : Type 0 where
  pub zero_bytes : Bool
  pub sock : S
  pub got : List ℕ
  pub after : Proxy
  pub is : r ≡ (parse || not (is_empty got), ended zero_bytes (sock, log ++ got) after)
  pub holds : contents after.connection.exchange.parser_buff ≡ held ++ got

abbrev pub room_of : Proxy → ℕ
room_of p = available_parser_bytes (origin_of p.connection.exchange)

pub room_lem : (p : Proxy) → room_of p ≤ buffer_space p.connection.exchange.parser_buff - 80
unfolding available_parser_bytes
room_lem p = ground arith

pub kept_exchange : (fd : ℤ) (k : ℕ) (p : Proxy) → (set_interest fd k p).connection ≡ p.connection
unfolding set_interest
kept_exchange fd k p = refl

or_true : (a : Bool) → true ≡ a || true
or_true true = refl
or_true false = refl

pub not_swap : (a : Bool) (xs : List ℕ) → (if a then xs else []) ≡ (if not a then [] else xs)
not_swap true xs = refl
not_swap false xs = refl

or_false : (a : Bool) → a ≡ a || false
or_false true = refl
or_false false = refl

module _ {S : Type 0} (recv : S → ℕ → FromSocket × S) where
  pub round_full :
      (fuel : ℕ) (parse : Bool) (fd : ℤ) (s : S × List ℕ) (p : Proxy)
      → (bytes_to_send (room_of p) == 0) ≡ true
      → origin_loop (recorded recv) (suc fuel) parse fd s p
        ≡ (parse, ended false s (set_interest fd op_noop p))
  unfolding origin_loop
  round_full fuel parse fd s p t = rw t refl

  pub round_open :
      (fuel : ℕ) (parse : Bool) (fd : ℤ) (s : S) (log : List ℕ) (p : Proxy)
      → (bytes_to_send (room_of p) == 0) ≡ false
      → let (r, s') = recv s (bytes_to_send (room_of p)) in
        origin_loop (recorded recv) (suc fuel) parse fd (s, log) p
        ≡ on_origin_bytes
            (recorded recv)
            (origin_loop (recorded recv) fuel true fd)
            parse
            r
            (s', log ++ bytes_of r)
            p
  unfolding origin_loop
  round_open fuel parse fd s log p t = rw t refl

  -- No bytes, after which the loop ends.
  pub nothing :
      (zero_bytes parse : Bool) (s : S) (log held : List ℕ) (p p' : Proxy)
      → contents p'.connection.exchange.parser_buff ≡ held
      → Arrived parse log held (parse, ended zero_bytes (s, log ++ []) p')
  nothing zero_bytes parse s log held p p' e = record {
    zero_bytes = zero_bytes;
    sock = s;
    got = [];
    after = p';
    is = ap (λ b. (b, ended zero_bytes (s, log ++ []) p')) (or_false parse);
    holds = e ∙ sym (append-nil held);
  }

  -- What the later rounds do, on a buffer that is not to be cleaned.
  abbrev pub Later : ℕ → ℤ → Type 0
  Later fuel fd =
      (s : S) (log : List ℕ) (p : Proxy)
      → p.connection.exchange.finished ≡ false
      → IsValid p.connection.exchange.parser_buff
      → buffer_space p.connection.exchange.parser_buff + 1 < fuel
      → Arrived true log (contents p.connection.exchange.parser_buff)
          (origin_loop (recorded recv) fuel true fd (s, log) p)

  pub stored :
      (fuel : ℕ) (fd : ℤ) (parse : Bool) (x : ℕ) (xs : List ℕ) (s : S) (log : List ℕ) (q : Proxy)
      → q.connection.exchange.finished ≡ false
      → IsValid q.connection.exchange.parser_buff
      → length (x ∷ xs) ≤ buffer_space q.connection.exchange.parser_buff
      → buffer_space q.connection.exchange.parser_buff < fuel
      → Later fuel fd
      → Arrived parse log (contents q.connection.exchange.parser_buff) (
          origin_loop (recorded recv) fuel true fd (s, log ++ (x ∷ xs)) (store_response (x ∷ xs) q))
  stored fuel fd parse x xs s log q fin v small f later =
      let text = x ∷ xs in
      let b = q.connection.exchange.parser_buff in
      let a = write_fits b text (length text) v refl small in
      let g = later s (log ++ text) (store_response text q) fin a.valid (omega (arith, a.space)) in
      record {
        zero_bytes = g.zero_bytes;
        sock = g.sock;
        got = text ++ g.got;
        after = g.after;
        is =
            g.is
            ∙ ap (λ l. (true, ended g.zero_bytes (g.sock, l) g.after)) (append_assoc log text g.got)
            ∙ ap (λ t. (t, ended g.zero_bytes (g.sock, log ++ (text ++ g.got)) g.after))
                (or_true parse);
        holds = g.holds ∙ ap (λ c. c ++ g.got) a.holds ∙ append_assoc (contents b) text g.got;
      }
