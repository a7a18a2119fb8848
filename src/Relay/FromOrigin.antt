-- ===== src/Relay/FromOrigin.antt =====
-- The loop that receives from the origin.
use proxy_server_http.Base.{
  if◌then◌else◌, ℕ, zero, suc, ◌+◌, ◌≤◌, ◌<◌, ◌≡◌, refl, sym, ap, subst, ◌∙◌, arith, Bool, true,
  false, ◌==◌, ◌&&◌, not, List, [], ◌∷◌, ◌++◌, length, append-nil, Bool-cases, inl, inr, none, some,
  ℤ,
}
use proxy_server_http.Buffer.{buffer_size, buffer_count, buffer_space}
use proxy_server_http.Buffer.Fifo.{
  IsValid, contents, length-contents, space-count, clean-IsValid, contents-clean,
}
use proxy_server_http.Selector.{op_noop}
use proxy_server_http.Response.{reset_exchange}
use proxy_server_http.Connection.{Proxy, set_interest, kill_transformation}
use proxy_server_http.Relay.{
  reset_origin_data, FromSocket, Ended, ended, bytes_to_send, on_origin_bytes, origin_loop,
  store_response,
}
use proxy_server_http.Relay.Receive.{bytes_of, recorded, Stores}
use proxy_server_http.Relay.Arrivals.{
  is_empty, Arrived, room_of, room_lem, kept_exchange, not_swap, round_full, round_open, nothing,
  Later, stored,
}

module _ {S : Type 0} (recv : S → ℕ → FromSocket × S) (stores : Stores recv) where
  answered :
      (fuel : ℕ) (fd : ℤ) (parse : Bool) (r : FromSocket) (s : S) (log : List ℕ) (p : Proxy)
      → p.connection.exchange.finished ≡ false
      → IsValid p.connection.exchange.parser_buff
      → length (bytes_of r) ≤ buffer_space p.connection.exchange.parser_buff
      → buffer_space p.connection.exchange.parser_buff < fuel
      → Later recv fuel fd
      → Arrived parse log (contents p.connection.exchange.parser_buff) (
          on_origin_bytes
            (recorded recv)
            (origin_loop (recorded recv) fuel true fd)
            parse
            r
            (s, log ++ bytes_of r)
            p)
  answered fuel fd parse none s log p fin v small f later =
      nothing recv false parse s log _ p p refl
  answered fuel fd parse (some []) s log p fin v small f later =
      nothing recv true parse s log _ p p refl
  answered fuel fd parse (some (x ∷ xs)) s log p fin v small f later =
      subst
        (λ q. Arrived parse log (contents p.connection.exchange.parser_buff) (
          origin_loop (recorded recv) fuel true fd (s, log ++ (x ∷ xs))
            (store_response (x ∷ xs) q)))
        (sym (ap (λ b. if b then reset_origin_data p else p) fin))
        (stored recv fuel fd parse x xs s log p fin v small f later)

  -- A response that has finished makes way for what comes.
  answered_anew :
      (fuel : ℕ) (fd : ℤ) (parse : Bool) (r : FromSocket) (s : S) (log : List ℕ) (p : Proxy)
      → p.connection.exchange.finished ≡ true
      → length (bytes_of r) < buffer_size
      → buffer_size ≤ fuel
      → Later recv fuel fd
      → Arrived parse log
          (if is_empty (bytes_of r) then contents p.connection.exchange.parser_buff else [])
          (on_origin_bytes
            (recorded recv)
            (origin_loop (recorded recv) fuel true fd)
            parse
            r
            (s, log ++ bytes_of r)
            p)
  answered_anew fuel fd parse none s log p fin small f later =
      nothing recv false parse s log _ p p refl
  answered_anew fuel fd parse (some []) s log p fin small f later =
      nothing recv true parse s log _ p p refl
  answered_anew fuel fd parse (some (x ∷ xs)) s log p fin small f later =
      let q = reset_origin_data p in
      let old = (kill_transformation p).connection.exchange.parser_buff in
      let v : IsValid q.connection.exchange.parser_buff =
        unfold reset_exchange in clean-IsValid old in
      let empty : contents q.connection.exchange.parser_buff ≡ [] =
        unfold reset_exchange in contents-clean old in
      let none_there : buffer_count q.connection.exchange.parser_buff ≡ 0 =
        omega (arith, length-contents q.connection.exchange.parser_buff, ap length empty) in
      let space = space-count v in
      let g =
        stored recv fuel fd parse x xs s log q (unfold reset_exchange in refl) v
          (omega (arith, space, none_there)) (omega (arith, space)) later in
      subst
        (λ q'. Arrived parse log [] (
          origin_loop (recorded recv) fuel true fd (s, log ++ (x ∷ xs))
            (store_response (x ∷ xs) q')))
        (sym (ap (λ b. if b then q else p) fin))
        (subst
          (λ held. Arrived parse log held (
            origin_loop (recorded recv) fuel true fd (s, log ++ (x ∷ xs))
              (store_response (x ∷ xs) q)))
          empty g)

  -- A full buffer ends the loop.
  stopped :
      (parse : Bool) (fd : ℤ) (s : S) (log : List ℕ) (p : Proxy) (r : Bool × Ended (S × List ℕ))
      → r ≡ (parse, ended false (s, log) (set_interest fd op_noop p))
      → Arrived parse log (contents p.connection.exchange.parser_buff) r
  stopped parse fd s log p r e =
      let after = set_interest fd op_noop p in
      subst (Arrived parse log (contents p.connection.exchange.parser_buff))
        (sym (e ∙ ap (λ l. (parse, ended false (s, l) after)) (sym (append-nil log))))
        (nothing recv false parse s log (contents p.connection.exchange.parser_buff) p after
          (ap (λ c. contents c.exchange.parser_buff) (kept_exchange fd op_noop p)))

  loop-Arrived :
      (fuel : ℕ) (parse : Bool) (fd : ℤ) (s : S) (log : List ℕ) (p : Proxy)
      → p.connection.exchange.finished ≡ false
      → IsValid p.connection.exchange.parser_buff
      → buffer_space p.connection.exchange.parser_buff + 1 < fuel
      → Arrived parse log
          (contents p.connection.exchange.parser_buff)
          (origin_loop (recorded recv) fuel parse fd (s, log) p)
  loop-Arrived zero parse fd s log p fin v f = absurd (omega arith)
  loop-Arrived (suc fuel) parse fd s log p fin v f =
      elim (Bool-cases (bytes_to_send (room_of p) == 0)) [
        | inl t ↦
            let e = round_full recv fuel parse fd (s, log) p t in
            stopped parse fd s log p (origin_loop (recorded recv) (suc fuel) parse fd (s, log) p) e
        | inr t ↦
            let n = bytes_to_send (room_of p) in
            let small : length (bytes_of (recv s n).0)
                ≤ buffer_space p.connection.exchange.parser_buff =
              ground (arith, stores s n, room_lem p) in
            subst (Arrived parse log (contents p.connection.exchange.parser_buff))
              (sym (round_open recv fuel parse fd s log p t))
              (answered fuel fd parse (recv s n).0 (recv s n).1 log p fin v small (omega arith)
                (λ s' log' p' fin' v' f'. loop-Arrived fuel true fd s' log' p' fin' v' f'))
      ]

  -- With the parser's buffer in range and a `recv` that stores no more than it is asked for, the
  -- loop ends: the buffer has got, behind what it held, all bytes that `recv` has handed over,
  -- and there is something to parse exactly where there were any. What it held is dropped first
  -- where the response has finished and the first `recv` gives bytes.
  pub origin_loop-Arrived :
      (fd : ℤ) (s : S) (log : List ℕ) (p : Proxy)
      → IsValid p.connection.exchange.parser_buff
      → let held = contents p.connection.exchange.parser_buff in
        let n = bytes_to_send (room_of p) in
        let anew =
          p.connection.exchange.finished
          && (not (n == 0) && not (is_empty (bytes_of (recv s n).0))) in
        Arrived false log
          (if anew then [] else held)
          (origin_loop (recorded recv) (buffer_size + 2) false fd (s, log) p)
  origin_loop-Arrived fd s log p v =
      let held = contents p.connection.exchange.parser_buff in
      let n = bytes_to_send (room_of p) in
      let come = not (n == 0) && not (is_empty (bytes_of (recv s n).0)) in
      let room = space-count v in
      let r = origin_loop (recorded recv) (buffer_size + 2) false fd (s, log) p in
      elim (Bool-cases p.connection.exchange.finished) [
        | inr fin ↦
            subst (λ b. Arrived false log (if b && come then [] else held) r) (sym fin)
              (loop-Arrived (buffer_size + 2) false fd s log p fin v (omega (arith, room)))
        | inl fin ↦
            subst (λ b. Arrived false log (if b && come then [] else held) r) (sym fin)
              (elim (Bool-cases (n == 0)) [
                | inl t ↦
                    subst
                      (λ b.
                        Arrived false log
                          (if not b && not (is_empty (bytes_of (recv s n).0)) then [] else held) r)
                      (sym t)
                      (stopped false fd s log p r
                        (round_full recv (buffer_size + 1) false fd (s, log) p t))
                | inr t ↦
                    let small : length (bytes_of (recv s n).0) < buffer_size =
                      ground (arith, stores s n, room_lem p, room) in
                    subst
                      (λ b.
                        Arrived false log
                          (if not b && not (is_empty (bytes_of (recv s n).0)) then [] else held) r)
                      (sym t)
                      (subst (λ c. Arrived false log c r)
                        (not_swap (is_empty (bytes_of (recv s n).0)) held)
                        (subst
                          (Arrived false log
                            (if is_empty (bytes_of (recv s n).0) then held else []))
                          (sym (round_open recv (buffer_size + 1) false fd s log p t))
                          (answered_anew (buffer_size + 1) fd false (recv s n).0 (recv s n).1 log p
                            fin small (omega arith)
                            (λ s' log' p' fin' v' f'.
                              loop-Arrived (buffer_size + 1) true fd s' log' p' fin' v' f'))))
              ])
      ]
