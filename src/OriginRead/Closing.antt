-- ===== src/OriginRead/Closing.antt =====
-- The end of the origin's connection.
use proxy_server_http.Base.{
  ℕ, ◌<◌, ◌≡◌, refl, sym, ap, ◌∙◌, arith, Bool, true, false, not, ◌&&◌, ◌==◌, if◌then◌else◌, [],
  ◌++◌, append-nil, ℤ, pos, negsuc, Bool-cases, inl, inr,
}
use proxy_server_http.Buffer.Fifo.{IsValid, contents}
use proxy_server_http.Selector.{items_max_size, op_write}
use proxy_server_http.Chunked.{is_unset, available_write_bytes}
use proxy_server_http.Chunked.Encode.{encode, write_chunked_lem}
use proxy_server_http.Response.{origin_of}
use proxy_server_http.Connection.{Proxy, closed, unregister, set_interest, kill_origin}
use proxy_server_http.Connection.Registered.{in_use, unregister-connection, unregister_lem}
use proxy_server_http.Connection.Kill.{kill_origin-keeps}
use proxy_server_http.OriginRead.{
  is_unlimited, end_chunk, origin_closed, close_directly, close_through, set_state_closed,
}

set_interest-connection :
    (fd : ℤ) (k : ℕ) (p : Proxy) → (set_interest fd k p).connection ≡ p.connection
unfolding set_interest
set_interest-connection fd k p = refl

origin_closed_is :
    (fd : ℤ) (p : Proxy)
    → origin_closed fd p
      ≡ unregister fd (
          if is_unset p.connection.origin_transformation_fd
          then close_directly p
          else close_through p)
unfolding origin_closed
origin_closed_is fd p = refl

-- The chunk that ends the body, where it has no other end.
end_chunk_lem :
    (p : Proxy)
    → IsValid p.connection.exchange.write_buff
    → 0 < available_write_bytes (origin_of p.connection.exchange)
    → (contents (end_chunk p).connection.exchange.write_buff
        ≡ contents p.connection.exchange.write_buff
          ++ (if is_unlimited p.connection.exchange then encode [] else []))
      × ((end_chunk p).connection.origin ≡ p.connection.origin)
end_chunk_lem p v room = elim (Bool-cases (is_unlimited p.connection.exchange)) [
  | inl t ↦
      let (_, held) = write_chunked_lem (origin_of p.connection.exchange) [] v room (omega arith) in
      rw t (held, refl)
  | inr t ↦ rw t (sym (append-nil (contents p.connection.exchange.write_buff)), refl)
]

-- There is an origin and no transformation, the client's buffer is in range with space for a chunk,
-- and the key's descriptor is below 1024. Then the connection is closed, the origin's descriptor
-- forgotten and the key's not registered; and the client's buffer has got an empty chunk where the
-- body had neither a length nor chunks, and nothing otherwise.
pub origin_closed-closed :
    (fd : ℕ) (p : Proxy)
    → IsValid p.connection.exchange.write_buff
    → 0 < available_write_bytes (origin_of p.connection.exchange)
    → p.connection.origin ≡ true
    → is_unset p.connection.origin_transformation_fd ≡ true
    → fd < items_max_size
    → let p' = origin_closed (pos fd) p in
      (p'.connection.state ≡ closed)
      × (p'.connection.origin_fd ≡ negsuc 0)
      × (in_use p'.selector fd ≡ false)
      × (contents p'.connection.exchange.write_buff
          ≡ contents p.connection.exchange.write_buff
            ++ (if is_unlimited p.connection.exchange then encode [] else []))
origin_closed-closed fd p v room o t small =
    let (held, same) = end_chunk_lem p v room in
    let p1 = set_state_closed (end_chunk p) in
    let (st, ex, none_fd) = kill_origin-keeps p1 (same ∙ o) in
    let p2 = kill_origin p1 in
    let is : origin_closed (pos fd) p ≡ unregister (pos fd) (close_directly p) =
      origin_closed_is (pos fd) p
      ∙ ap (λ b. unregister (pos fd) (if b then close_directly p else close_through p)) t in
    let woken : (close_directly p).connection ≡ p2.connection =
      unfold close_directly in set_interest-connection p2.connection.client_fd op_write p2 in
    let kept : (origin_closed (pos fd) p).connection ≡ p2.connection =
      ap (λ q. q.connection) is ∙ unregister-connection (pos fd) (close_directly p) ∙ woken in
    (
      ap (λ c. c.state) kept ∙ st,
      ap (λ c. c.origin_fd) kept ∙ none_fd,
      ap (λ q. in_use q.selector fd) is
          ∙ unregister_lem fd small (pos fd) (close_directly p)
          ∙ gone (in_use (close_directly p).selector fd),
      ap (λ c. contents c.exchange.write_buff) kept ∙ ap (λ e. contents e.write_buff) ex ∙ held,
    )
  where
    gone : (a : Bool) → a && not (fd == fd) ≡ false
    gone a = ground arith
