-- ===== src/Connection/Registered.antt =====
-- Which descriptors the selector has for a connection, and what unregistering does to them.
use proxy_server_http.Base.{
  ℕ, ==_iff, ◌<◌, ◌≡◌, refl, ap, ◌∙◌, arith, Bool, true, false, not, ◌||◌, ◌&&◌, ◌==◌, ℤ, pos,
  negsuc, Option, none, some, Bool-cases, inl, inr, leb,
}
use proxy_server_http.Selector.{items_max_size, is_used, update_fdset, selector_unregister_fd}
use proxy_server_http.Selector.Keeps.{unregister-eq}
use proxy_server_http.Connection.{
  Handler, Transformation, Connection, Proxy, unregister, unregister_open, close_pipes, Multiplexer,
}

abbrev pub is_fd : ℤ → ℕ → Bool
is_fd (pos fd) i = i == fd
is_fd (negsuc _) i = false

-- The item of a descriptor is in use.
abbrev pub in_use : Multiplexer → ℕ → Bool
in_use s i = is_used (s.fds i)

-- The descriptors of a connection that are registered for it.
abbrev pub pipe_of : Option Transformation → ℕ → Bool
pipe_of none i = false
pipe_of (some t) i = is_fd t.client_read i || is_fd t.origin_write i

-- The three `handle_close` leave the selector alone.
abbrev close_fd : Handler → ℕ → Option (Unit {0}) → Multiplexer → Multiplexer
close_fd h fd user s = s

unregister_is :
    (fd : ℤ) (p : Proxy)
    → (unregister fd p).selector ≡ (selector_unregister_fd close_fd p.selector fd).1
unfolding unregister
unregister_is fd p = refl

pub and_false : (a : Bool) → false ≡ a && false
and_false true = refl
and_false false = refl

pub and_true : (a : Bool) → a ≡ a && true
and_true true = refl
and_true false = refl

pub and_not_or : (a b c : Bool) → (a && not b) && not c ≡ a && not (b || c)
and_not_or true true c = refl
and_not_or true false c = refl
and_not_or false true c = refl
and_not_or false false c = refl

-- Closing pipes leaves the rest of the connection alone.
pub record SamePeers (c c' : Connection) : Type 0 where
  pub state : c'.state ≡ c.state
  pub origin_fd : c'.origin_fd ≡ c.origin_fd
  pub client_fd : c'.client_fd ≡ c.client_fd
  pub exchange : c'.exchange ≡ c.exchange

pub unregister-connection : (fd : ℤ) (p : Proxy) → (unregister fd p).connection ≡ p.connection
unfolding unregister
unregister-connection fd p = refl

unregister_open-connection : (fd : ℤ) (p : Proxy) → (unregister_open fd p).connection ≡ p.connection
unregister_open-connection (pos fd) p = unregister-connection (pos fd) p
unregister_open-connection (negsuc k) p = elim (Bool-cases (k == 0)) [
  | inl t ↦ rw t refl
  | inr t ↦ rw t (unregister-connection (negsuc k) p)
]

pub close_pipes-SamePeers :
    (t : Option Transformation) (p : Proxy) → SamePeers p.connection (close_pipes t p).connection
close_pipes-SamePeers none p = record {
  state = refl;
  origin_fd = refl;
  client_fd = refl;
  exchange = refl;
}
close_pipes-SamePeers (some t) p =
    let same =
      unregister_open-connection t.origin_write (unregister_open t.client_read p)
      ∙ unregister_open-connection t.client_read p in
    record {
      state = ap (λ c. c.state) same;
      origin_fd = ap (λ c. c.origin_fd) same;
      client_fd = ap (λ c. c.client_fd) same;
      exchange = ap (λ c. c.exchange) same;
    }

module _ (i : ℕ) (h : i < items_max_size) where
  fd_unregistered :
      (s : Multiplexer) (fd : ℤ)
      → in_use (selector_unregister_fd close_fd s fd).1 i ≡ in_use s i && not (is_fd fd i)
  fd_unregistered s (negsuc k) = unfold selector_unregister_fd in and_true (in_use s i)
  fd_unregistered s (pos fd) =
      rw (unregister-eq close_fd (λ _ _ _ _. refl) s fd)
        (elim (Bool-cases (leb items_max_size fd)) [
          | inl big ↦
              let other : (i == fd) ≡ false = ground arith in
              rw (big, other) (and_true (in_use s i))
          | inr small ↦ elim (Bool-cases (is_used (s.fds fd))) [
            | inl used ↦
                rw (small, used)
                  (unfold update_fdset in
                    elim (Bool-cases (i == fd)) [
                      | inl same ↦
                          let same' : (fd == i) ≡ true = ground arith in
                          rw (same, same') (and_false (in_use s i))
                      | inr other ↦
                          let other' : (fd == i) ≡ false = ground arith in
                          rw (other, other') (and_true (in_use s i))
                    ])
            | inr free ↦
                rw (small, free)
                  (elim (Bool-cases (i == fd)) [
                    | inl same ↦
                        rw same
                          (ap (in_use s) ((==_iff i fd).0 same) ∙ free ∙ and_false (in_use s i))
                    | inr other ↦ rw other (and_true (in_use s i))
                  ])
          ]
        ])

  pub unregister_lem :
      (fd : ℤ) (p : Proxy)
      → in_use (unregister fd p).selector i ≡ in_use p.selector i && not (is_fd fd i)
  unregister_lem fd p = ap (λ s. in_use s i) (unregister_is fd p) ∙ fd_unregistered p.selector fd

  unregister_open_lem :
      (fd : ℤ) (p : Proxy)
      → in_use (unregister_open fd p).selector i ≡ in_use p.selector i && not (is_fd fd i)
  unregister_open_lem (pos fd) p = unregister_lem (pos fd) p
  unregister_open_lem (negsuc k) p = elim (Bool-cases (k == 0)) [
    | inl t ↦ rw t (and_true (in_use p.selector i))
    | inr t ↦ rw t (unregister_lem (negsuc k) p)
  ]

  pub close_pipes_lem :
      (t : Option Transformation) (p : Proxy)
      → in_use (close_pipes t p).selector i ≡ in_use p.selector i && not (pipe_of t i)
  close_pipes_lem none p = and_true (in_use p.selector i)
  close_pipes_lem (some t) p =
      unregister_open_lem t.origin_write (unregister_open t.client_read p)
      ∙ ap (λ a. a && not (is_fd t.origin_write i)) (unregister_open_lem t.client_read p)
      ∙ and_not_or (in_use p.selector i) (is_fd t.client_read i) (is_fd t.origin_write i)
