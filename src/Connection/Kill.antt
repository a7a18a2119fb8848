-- ===== src/Connection/Kill.antt =====
-- What ends a connection, and the table of the selector.
use proxy_server_http.Base.{
  ℕ, ◌<◌, ◌≡◌, refl, sym, ap, ap₂, ◌∙◌, Bool, true, not, ◌||◌, ◌&&◌, if◌then◌else◌, negsuc,
  Bool-cases, inl, inr,
}
use proxy_server_http.Selector.{items_max_size}
use proxy_server_http.Connection.{
  Connection, Proxy, unregister, close_pipes, kill_origin, kill_client, is_alive, with_connection,
  forget_origin,
}
use proxy_server_http.Connection.Registered.{
  is_fd, in_use, pipe_of, and_true, and_not_or, unregister-connection, close_pipes-SamePeers,
  unregister_lem, close_pipes_lem,
}

abbrev pub of_origin : Connection → ℕ → Bool
of_origin c i =
    c.origin && (pipe_of c.transformation i || (is_alive c.state && is_fd c.origin_fd i))

abbrev pub owns : Connection → ℕ → Bool
owns c i = of_origin c i || is_fd c.client_fd i

-- The last steps of `kill_origin`.
abbrev disconnect : Proxy → Proxy
disconnect p =
    with_connection forget_origin
      (if is_alive p.connection.state then unregister p.connection.origin_fd p else p)

kill_origin_is :
    (p : Proxy)
    → kill_origin p
      ≡ (if p.connection.origin then disconnect (close_pipes p.connection.transformation p) else p)
unfolding kill_origin
kill_origin_is p = refl

disconnect-keeps :
    (p : Proxy)
    → ((disconnect p).connection.state ≡ p.connection.state)
      × ((disconnect p).connection.exchange ≡ p.connection.exchange)
      × ((disconnect p).connection.origin_fd ≡ negsuc 0)
disconnect-keeps p = elim (Bool-cases (is_alive p.connection.state)) [
  | inl up ↦
      let same = unregister-connection p.connection.origin_fd p in
      rw up (ap (λ c. c.state) same, ap (λ c. c.exchange) same, refl)
  | inr down ↦ rw down (refl, refl, refl)
]

-- Where there is an origin, it is forgotten, with its descriptor; what there is for the client stays.
pub kill_origin-keeps :
    (p : Proxy)
    → p.connection.origin ≡ true
    → ((kill_origin p).connection.state ≡ p.connection.state)
      × ((kill_origin p).connection.exchange ≡ p.connection.exchange)
      × ((kill_origin p).connection.origin_fd ≡ negsuc 0)
kill_origin-keeps p t =
    let p1 = close_pipes p.connection.transformation p in
    let peers = close_pipes-SamePeers p.connection.transformation p in
    let is = kill_origin_is p ∙ ap (λ b. if b then disconnect p1 else p) t in
    let (st, ex, fd) = disconnect-keeps p1 in
    (
      ap (λ q. q.connection.state) is ∙ st ∙ peers.state,
      ap (λ q. q.connection.exchange) is ∙ ex ∙ peers.exchange,
      ap (λ q. q.connection.origin_fd) is ∙ fd,
    )

module _ (i : ℕ) (h : i < items_max_size) where
  disconnect_lem :
      (p : Proxy)
      → (in_use (disconnect p).selector i
          ≡ in_use p.selector i
            && not (is_alive p.connection.state && is_fd p.connection.origin_fd i))
        × ((disconnect p).connection.client_fd ≡ p.connection.client_fd)
  disconnect_lem p = elim (Bool-cases (is_alive p.connection.state)) [
    | inl up ↦ rw up (
      unregister_lem i h p.connection.origin_fd p,
      ap (λ c. c.client_fd) (unregister-connection p.connection.origin_fd p),
    )
    | inr down ↦ rw down (and_true (in_use p.selector i), refl)
  ]

  kill_origin_lem :
      (p : Proxy)
      → (in_use (kill_origin p).selector i ≡ in_use p.selector i && not (of_origin p.connection i))
        × ((kill_origin p).connection.client_fd ≡ p.connection.client_fd)
  kill_origin_lem p =
      let c = p.connection in
      let p1 = close_pipes c.transformation p in
      let peers = close_pipes-SamePeers c.transformation p in
      let (d, same) = disconnect_lem p1 in
      elim (Bool-cases c.origin) [
        | inr t ↦
            let is = kill_origin_is p ∙ ap (λ b. if b then disconnect p1 else p) t in
            (
              ap (λ q. in_use q.selector i) is
                  ∙ and_true (in_use p.selector i)
                  ∙ ap
                      (λ b.
                        in_use p.selector i
                        && not (
                            b
                            && (pipe_of c.transformation i
                                || (is_alive c.state && is_fd c.origin_fd i))))
                      (sym t),
              ap (λ q. q.connection.client_fd) is,
            )
        | inl t ↦
            let is = kill_origin_is p ∙ ap (λ b. if b then disconnect p1 else p) t in
            (
              ap (λ q. in_use q.selector i) is
                  ∙ d
                  ∙ ap₂ (λ st fd. in_use p1.selector i && not (is_alive st && is_fd fd i))
                      peers.state peers.origin_fd
                  ∙ ap (λ b. b && not (is_alive c.state && is_fd c.origin_fd i))
                      (close_pipes_lem i h c.transformation p)
                  ∙ and_not_or (in_use p.selector i) (pipe_of c.transformation i)
                      (is_alive c.state && is_fd c.origin_fd i)
                  ∙ ap
                      (λ b.
                        in_use p.selector i
                        && not (
                            b
                            && (pipe_of c.transformation i
                                || (is_alive c.state && is_fd c.origin_fd i))))
                      (sym t),
              ap (λ q. q.connection.client_fd) is ∙ same ∙ peers.client_fd,
            )
      ]

  -- Behind the end of a client a descriptor below 1024 is registered exactly where it was before
  -- and is none of the connection's: not the client's, nor, where there is an origin, one of the
  -- transformation's pipes or, in a connection that is alive, the origin's.
  pub kill_client-owns :
      (p : Proxy)
      → in_use (kill_client p).selector i ≡ in_use p.selector i && not (owns p.connection i)
  kill_client-owns p =
      let (k, same) = kill_origin_lem p in
      unfold kill_client in
      unregister_lem i h (kill_origin p).connection.client_fd (kill_origin p)
      ∙ ap (λ fd. in_use (kill_origin p).selector i && not (is_fd fd i)) same
      ∙ ap (λ b. b && not (is_fd p.connection.client_fd i)) k
      ∙ and_not_or (in_use p.selector i) (of_origin p.connection i) (is_fd p.connection.client_fd i)
