-- ===== src/Relay/Drain.antt =====
-- The two handlers that send what a buffer holds.
use proxy_server_http.Base.{
  if◌then◌else◌, leb, negsuc, ==_iff, ℕ, zero, suc, ◌+◌, ◌-◌, ◌%◌, ◌^◌, ◌<◌, min, ◌≡◌, refl, sym,
  ap, subst, ◌∙◌, arith, true, false, ◌==◌, List, [], ◌++◌, length, take, drop, length-drop,
  drop-nil, take-append-drop, pos, Bool-cases, inl, inr, ℤ,
}
use proxy_server_http.Buffer.{Buffer, buffer_count}
use proxy_server_http.Buffer.Window.{window}
use proxy_server_http.Buffer.Fifo.{IsValid, contents, length-contents, read_data-Took}
use proxy_server_http.Settings.{add_int}
use proxy_server_http.Chunked.{is_unset}
use proxy_server_http.Selector.{op_read, items_max_size, is_used, update_fdset}
use proxy_server_http.Connection.{Proxy, set_interest}
use proxy_server_http.Relay.{
  is_closed, drain, drain_all, Written, use_after_free, written, send_to_origin, origin_write,
}

-- A buffer has been sent: its bytes, the counter, and the empty buffer.
pub record Drained (count : ℕ) (b : Buffer) (result : List ℕ × ℕ × Buffer) : Type 0 where
  pub text : result.0 ≡ contents b
  pub counted : result.1 ≡ (count + buffer_count b) % 2 ^ 32
  pub emptied : contents (result.2) ≡ []
  pub valid : IsValid (result.2)

-- A round takes as many bytes as there are, up to 1000.
round :
    (fuel count : ℕ) (b : Buffer)
    → IsValid b
    → (n : ℕ) × (b' : Buffer) × (n ≡ min 1000 (buffer_count b))
      × IsValid b'
      × (contents b' ≡ drop n (contents b))
      × (drain (suc fuel) count b ≡ (
          let (later, count', b'') = drain fuel (add_int count n) b' in
          if n == 0 then ([], count, b') else (take n (contents b) ++ later, count', b'')))
unfolding drain
round fuel count b v =
    let (n, t) = read_data-Took b 1000 v in
    let taken = t.took in (_, _, n, t.valid, t.leaves, rw taken refl)

drain-Drained :
    (fuel count : ℕ) (b : Buffer)
    → IsValid b
    → count < 2 ^ 32
    → buffer_count b < fuel
    → Drained count b (drain fuel count b)
drain-Drained zero count b v c f = absurd (omega arith)
drain-Drained (suc fuel) count b v c f =
    let (n, b', amount, valid, left, is) = round fuel count b v in
    let held = length-contents b in
    let left_count : buffer_count b' ≡ buffer_count b - n =
      omega (arith, length-contents b', ap length left, length-drop n (contents b), held) in
    elim (Bool-cases (n == 0)) [
      | inl t ↦
          let zero_n : n ≡ 0 = (==_iff n 0).0 t in
          let none_there : buffer_count b ≡ 0 = omega (arith, zero_n, amount) in
          let empty : contents b ≡ [] = ap (window b.cells b.read) none_there in
          subst (Drained count b) (sym (rw t at is)) (record {
            text = sym empty;
            counted = omega (arith, none_there);
            emptied = left ∙ ap (drop n) empty ∙ drop-nil n;
            valid = valid;
          })
      | inr t ↦
          let some_byte : 0 < n = ground arith in
          let d =
            drain-Drained fuel (add_int count n) b' valid (omega arith)
              (omega (arith, some_byte, left_count, amount)) in
          subst (Drained count b) (sym (rw t at is)) (record {
            text =
                ap (λ xs. take n (contents b) ++ xs) (d.text ∙ left)
                ∙ take-append-drop n (contents b);
            counted = omega (arith, d.counted, left_count, amount);
            emptied = d.emptied;
            valid = d.valid;
          })
    ]

pub drain_all-Drained :
    (count : ℕ) (b : Buffer) → IsValid b → count < 2 ^ 32 → Drained count b (drain_all count b)
unfolding drain_all
drain_all-Drained count b v c = drain-Drained (buffer_count b + 1) count b v c (omega arith)

set_interest_lem :
    (fd k : ℕ) (p : Proxy)
    → fd < items_max_size
    → is_used (p.selector.fds fd) ≡ true
    → ((set_interest (pos fd) k p).selector.fds fd).interest ≡ k
unfolding set_interest update_fdset
set_interest_lem fd k p h u =
    let small : leb items_max_size fd ≡ false = ground arith in
    let here : (fd == fd) ≡ true = ground arith in rw (small, u, here) refl

set_interest-used :
    (fd : ℤ) (k i : ℕ) (p : Proxy)
    → is_used ((set_interest fd k p).selector.fds i) ≡ is_used (p.selector.fds i)
unfolding set_interest update_fdset
set_interest-used (negsuc m) k i p = refl
set_interest-used (pos fd) k i p = ground arith

-- What has been sent and counted is not changed by the end of a client.
abbrev SameSent : Proxy → Proxy → Type 0
SameSent p q = (q.client_sent ≡ p.client_sent) × (q.settings.bytes_sent ≡ p.settings.bytes_sent)

-- What follows in `client_write`.
abbrev last : ℤ → Proxy → Proxy
last fd p3 =
    let c = p3.connection in
    set_interest
      (if is_unset c.client_transformation_fd then c.origin_fd else c.client_transformation_fd)
      op_read p3

abbrev listen : ℤ → Proxy → Written
listen fd p2 =
    let p3 = set_interest fd op_read p2 in
    if p3.freed then use_after_free p3 else written (last fd p3)

-- How the handler ends: what has been sent and counted, and the buffer where there still is one.
pub Offered : Proxy → Written → Type 0
Offered p (use_after_free q) =
    (is_closed p.connection.state ≡ true)
    × (q.freed ≡ true)
    × (q.client_sent ≡ p.client_sent ++ contents p.connection.exchange.write_buff)
    × (q.settings.bytes_sent
        ≡ (p.settings.bytes_sent + buffer_count p.connection.exchange.write_buff) % 2 ^ 32)
Offered p (written q) =
    (is_closed p.connection.state ≡ false)
    × (q.freed ≡ false)
    × (q.client_sent ≡ p.client_sent ++ contents p.connection.exchange.write_buff)
    × (q.settings.bytes_sent
        ≡ (p.settings.bytes_sent + buffer_count p.connection.exchange.write_buff) % 2 ^ 32)
    × (contents q.connection.exchange.write_buff ≡ [])

-- With the buffer for the origin in range and the client's descriptor registered and below 1024,
-- all bytes of the buffer have been offered to `send` in their order, the buffer is empty, and the
-- selector watches the client for reading.
pub origin_write-sent :
    (fd : ℤ) (client : ℕ) (p : Proxy)
    → IsValid p.connection.to_origin
    → p.connection.client_fd ≡ pos client
    → client < items_max_size
    → is_used (p.selector.fds client) ≡ true
    → let p' = origin_write fd p in
      (p'.origin_sent ≡ p.origin_sent ++ contents p.connection.to_origin)
      × (contents p'.connection.to_origin ≡ [])
      × ((p'.selector.fds client).interest ≡ op_read)
origin_write-sent fd client p v e small used =
    let d = drain_all-Drained 0 p.connection.to_origin v (omega arith) in
    let p1 = send_to_origin p in
    let p2 = set_interest fd op_read p1 in
    let used' : is_used (p2.selector.fds client) ≡ true =
      set_interest-used fd op_read client p1 ∙ unfold send_to_origin in used in
    let last : ((set_interest p.connection.client_fd op_read p2).selector.fds client).interest
        ≡ op_read =
      ap (λ z. ((set_interest z op_read p2).selector.fds client).interest) e
      ∙ set_interest_lem client op_read p2 small used' in
    unfold origin_write in (ap (λ xs. p.origin_sent ++ xs) d.text, d.emptied, last)
