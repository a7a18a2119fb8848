-- ===== src/Relay/Receive.antt =====
-- The loop that receives from the client.
use proxy_server_http.Base.{
  ℕ, zero, suc, ◌+◌, ◌-◌, ◌≤◌, ◌<◌, ◌≡◌, refl, sym, ap, subst, ◌∙◌, arith, Bool, true, false, ◌==◌,
  List, [], ◌∷◌, ◌++◌, length, append_assoc, append-nil, pos, Bool-cases, inl, inr, none, some, ℤ,
  ◌^◌, ◌⊎◌,
}
use proxy_server_http.Buffer.{buffer_space, buffer_write_data}
use proxy_server_http.Buffer.Fifo.{IsValid, contents}
use proxy_server_http.Chunked.Encode.{write_fits}
use proxy_server_http.Selector.{op_noop, op_write}
use proxy_server_http.Connection.{Proxy, with_connection, set_interest, kill_client}
use proxy_server_http.Relay.{
  count_received, FromSocket, Ended, ended, bytes_to_send, on_client_bytes, on_client_end,
  client_loop, client_read,
}

abbrev pub bytes_of : FromSocket → List ℕ
bytes_of none = []
bytes_of (some text) = text

-- A socket that keeps what it has handed over.
abbrev pub recorded :
    {S : Type 0} → (S → ℕ → FromSocket × S) → S × List ℕ → ℕ → FromSocket × (S × List ℕ)
recorded recv (s, log) n = let (r, s') = recv s n in (r, (s', log ++ bytes_of r))

-- `recv` stores no more bytes than there is room for.
abbrev pub Stores : {S : Type 0} → (S → ℕ → FromSocket × S) → Type 0
Stores {S} recv = (s : S) (n : ℕ) → length (bytes_of (recv s n).0) ≤ n

-- The loop has ended, and the buffer has got what the socket has handed over.
pub record Got {S : Type 0} (log : List ℕ) (p : Proxy) (r : Ended (S × List ℕ)) : Type 0 where
  pub zero_bytes : Bool
  pub sock : S
  pub got : List ℕ
  pub after : Proxy
  pub is : r ≡ ended zero_bytes (sock, log ++ got) after
  pub holds : contents after.connection.to_origin ≡ contents p.connection.to_origin ++ got

kept_to_origin : (fd : ℤ) (k : ℕ) (p : Proxy) → (set_interest fd k p).connection ≡ p.connection
unfolding set_interest
kept_to_origin fd k p = refl

module _ {S : Type 0} (recv : S → ℕ → FromSocket × S) (stores : Stores recv) where
  -- A round, for each answer of `recv`.
  round_full :
      (fuel : ℕ) (stale : Bool) (fd : ℤ) (s : S × List ℕ) (p : Proxy)
      → (bytes_to_send (buffer_space p.connection.to_origin) == 0) ≡ true
      → client_loop (recorded recv) (suc fuel) stale fd s p
        ≡ ended stale s (set_interest fd op_noop p)
  unfolding client_loop
  round_full fuel stale fd s p t = rw t refl

  round_open :
      (fuel : ℕ) (stale : Bool) (fd : ℤ) (s : S) (log : List ℕ) (p : Proxy)
      → (bytes_to_send (buffer_space p.connection.to_origin) == 0) ≡ false
      → let n = bytes_to_send (buffer_space p.connection.to_origin) in
        let (r, s') = recv s n in
        client_loop (recorded recv) (suc fuel) stale fd (s, log) p
        ≡ on_client_bytes
            (recorded recv)
            (client_loop (recorded recv) fuel false fd)
            r
            (s', log ++ bytes_of r)
            p
  unfolding client_loop
  round_open fuel stale fd s log p t = rw t refl

  -- What an answer leads to, if the later rounds are as they should be.
  answered :
      (fuel : ℕ) (fd : ℤ) (r : FromSocket) (s : S) (log : List ℕ) (p : Proxy)
      → IsValid p.connection.to_origin
      → buffer_space p.connection.to_origin < fuel
      → length (bytes_of r) ≤ buffer_space p.connection.to_origin
      → ((s' : S) (log' : List ℕ) (p' : Proxy)
          → IsValid p'.connection.to_origin
          → buffer_space p'.connection.to_origin + 1 < fuel
          → Got log' p' (client_loop (recorded recv) fuel false fd (s', log') p'))
      → Got log p (
          on_client_bytes
            (recorded recv)
            (client_loop (recorded recv) fuel false fd)
            r
            (s, log ++ bytes_of r)
            p)
  answered fuel fd none s log p v f small later = record {
    zero_bytes = false;
    sock = s;
    got = [];
    after = count_received (2 ^ 32 - 1) p;
    is = refl;
    holds = sym (append-nil (contents p.connection.to_origin));
  }
  answered fuel fd (some []) s log p v f small later = record {
    zero_bytes = true;
    sock = s;
    got = [];
    after = p;
    is = refl;
    holds = sym (append-nil (contents p.connection.to_origin));
  }
  answered fuel fd (some (x ∷ xs)) s log p v f small later =
      let text = x ∷ xs in
      let a = write_fits p.connection.to_origin text (length text) v refl small in
      let p' =
        with_connection
          (λ c. record c { to_origin = (buffer_write_data c.to_origin text (pos (length text))).1 })
          (count_received (length text) p) in
      let g = later s (log ++ text) p' a.valid (omega (arith, a.space)) in
      record {
        zero_bytes = g.zero_bytes;
        sock = g.sock;
        got = text ++ g.got;
        after = g.after;
        is = g.is ∙ ap (λ l. ended g.zero_bytes (g.sock, l) g.after) (append_assoc log text g.got);
        holds =
            g.holds
            ∙ ap (λ c. c ++ g.got) a.holds
            ∙ append_assoc (contents p.connection.to_origin) text g.got;
      }

  client_loop-Got :
      (fuel : ℕ) (stale : Bool) (fd : ℤ) (s : S) (log : List ℕ) (p : Proxy)
      → IsValid p.connection.to_origin
      → buffer_space p.connection.to_origin + 1 < fuel
      → Got log p (client_loop (recorded recv) fuel stale fd (s, log) p)
  client_loop-Got zero stale fd s log p v f = absurd (omega arith)
  client_loop-Got (suc fuel) stale fd s log p v f =
      let space = buffer_space p.connection.to_origin in
      elim (Bool-cases (bytes_to_send space == 0)) [
        | inl t ↦ record {
          zero_bytes = stale;
          sock = s;
          got = [];
          after = set_interest fd op_noop p;
          is =
              round_full fuel stale fd (s, log) p t
              ∙ ap (λ l. ended stale (s, l) (set_interest fd op_noop p)) (sym (append-nil log));
          holds =
              ap (λ c. contents c.to_origin) (kept_to_origin fd op_noop p)
              ∙ sym (append-nil (contents p.connection.to_origin));
        }
        | inr t ↦
            let n = bytes_to_send space in
            let small : length (bytes_of (recv s n).0) ≤ space = ground (arith, stores s n) in
            subst (Got log p) (sym (round_open fuel stale fd s log p t)) (
              answered fuel fd (recv s n).0 (recv s n).1 log p v (omega arith) small
                (λ s' log' p' v' f'. client_loop-Got fuel false fd s' log' p' v' f'))
      ]

  -- With the buffer for the origin in range and a `recv` that stores no more than it is asked
  -- for, the handler ends: the buffer has got, behind what it held, all bytes that `recv` has
  -- handed over, and either the connection is kept with that buffer, or it is ended.
  pub client_read-Got :
      (stale : Bool) (fd : ℤ) (s : S) (log : List ℕ) (p : Proxy)
      → IsValid p.connection.to_origin
      → (sock : S) × (got : List ℕ) × (((p' : Proxy) × (client_read
                (recorded recv)
                stale
                fd
                (s, log)
                p
              ≡ ended false (sock, log ++ got) p')
            × (contents p'.connection.to_origin ≡ contents p.connection.to_origin ++ got))
          ⊎ ((p' : Proxy) × (client_read (recorded recv) stale fd (s, log) p
                ≡ ended true (sock, log ++ got) (kill_client p'))
              × (contents p'.connection.to_origin ≡ contents p.connection.to_origin ++ got)))
  unfolding client_read
  client_read-Got stale fd s log p v =
      let g =
        client_loop-Got (buffer_space p.connection.to_origin + 2) stale fd s log p v
          (omega arith) in
      let q = g.after in
      (
        g.sock,
        g.got,
        elim (Bool-cases g.zero_bytes) [
          | inl t ↦ inr (q, ap (on_client_end (recorded recv)) (rw t at g.is), g.holds)
          | inr t ↦ inl (
            set_interest q.connection.origin_fd op_write q,
            ap (on_client_end (recorded recv)) (rw t at g.is),
            ap (λ c. contents c.to_origin) (kept_to_origin q.connection.origin_fd op_write q)
                ∙ g.holds,
          )
        ],
      )
