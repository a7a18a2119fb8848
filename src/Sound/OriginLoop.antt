-- ===== src/Sound/OriginLoop.antt =====
-- The loop that receives from the origin, in bin/proxyOriginActiveSocket.c, ends with a sound state.
use proxy_server_http.Base.{
  ℕ, zero, suc, ◌+◌, ◌-◌, ◌≤◌, ◌<◌, ◌≡◌, refl, sym, subst, ◌∙◌, arith, Bool, true, false, ◌==◌,
  if◌then◌else◌, List, [], ◌∷◌, length, ℤ, pos, none, some, Bool-cases, inl, inr,
}
use proxy_server_http.Buffer.{buffer_size, buffer_space, buffer_clean}
use proxy_server_http.Buffer.Fifo.{clean-IsValid, space-count}
use proxy_server_http.Buffer.Counts.{write_data-IsValid, write_less}
use proxy_server_http.Selector.{op_noop}
use proxy_server_http.Response.{reset_exchange}
use proxy_server_http.Connection.{Proxy, set_interest, unregister, kill_transformation}
use proxy_server_http.Relay.{
  FromSocket, Ended, no_fuel, ended, bytes_to_send, reset_origin_data, store_response,
  on_origin_bytes, origin_loop,
}
use proxy_server_http.Relay.Arrivals.{room_of, room_lem}
use proxy_server_http.Sound.{kill_transformation-Sound}
use proxy_server_http.Sound.Origin.{Live, ready_of, set_interest-Live}

-- The loop has ended, with the origin there and the settings as they were.
abbrev pub LiveEnd : {S : Type 0} → Proxy → Ended S → Type 0
LiveEnd q no_fuel = ⊥
LiveEnd q (ended z s p) = Live p × (p.settings ≡ q.settings)

abbrev pub space_of : Proxy → ℕ
space_of p = buffer_space p.connection.exchange.parser_buff

store_response-Live : (text : List ℕ) (p : Proxy) → Live p → Live (store_response text p)
store_response-Live text p l = record {
  sound = record {
    table = l.sound.table;
    buffers = record {
      to_origin = l.sound.buffers.to_origin;
      to_client = l.sound.buffers.to_client;
      parser = λ e. write_data-IsValid _ text (pos (length text)) (l.sound.buffers.parser e);
      pipe = l.sound.buffers.pipe;
    };
  };
  origin = l.origin;
}

kill_transformation-same :
    (p : Proxy)
    → ((kill_transformation p).connection.origin ≡ p.connection.origin)
      × ((kill_transformation p).settings ≡ p.settings)
unfolding kill_transformation unregister
kill_transformation-same p = ground arith

pub reset_origin_data-Live :
    (p : Proxy)
    → Live p
    → Live (reset_origin_data p)
      × ((reset_origin_data p).settings ≡ p.settings)
      × ((reset_origin_data p).connection.exchange.finished ≡ false)
unfolding reset_exchange
reset_origin_data-Live p l =
    let s = kill_transformation-Sound p l.sound in
    let (o, t) = kill_transformation-same p in
    (
      record {
        sound = record {
          table = s.table;
          buffers = record {
            to_origin = s.buffers.to_origin;
            to_client = s.buffers.to_client;
            parser = λ e. clean-IsValid (kill_transformation p).connection.exchange.parser_buff;
            pipe = s.buffers.pipe;
          };
        };
        origin = o ∙ l.origin;
      },
      t,
      refl,
    )

space_reset : (p : Proxy) → space_of (reset_origin_data p) ≡ buffer_size - 1
unfolding reset_exchange buffer_clean buffer_space
space_reset p = refl

room_positive : (p : Proxy) → (bytes_to_send (room_of p) == 0) ≡ false → 0 < space_of p
room_positive p t = ground (arith, room_lem p)

module _ {S : Type 0} (recv : S → ℕ → FromSocket × S) where
  -- The later rounds, where the response is not finished.
  abbrev FromRound : ℕ → ℤ → Type 0
  FromRound fuel fd =
      (parse : Bool) (s : S) (p : Proxy)
      → Live p
      → p.connection.exchange.finished ≡ false
      → space_of p < fuel
      → LiveEnd p (origin_loop recv fuel parse fd s p).1

  stored :
      (fuel : ℕ) (fd : ℤ) (x : ℕ) (xs : List ℕ) (s : S) (p q : Proxy)
      → Live q
      → q.settings ≡ p.settings
      → q.connection.exchange.finished ≡ false
      → 0 < space_of q
      → space_of q < suc fuel
      → FromRound fuel fd
      → LiveEnd p (origin_loop recv fuel true fd s (store_response (x ∷ xs) q)).1
  stored fuel fd x xs s p q l e fin h f loop =
      let q' = store_response (x ∷ xs) q in
      let less =
        (write_less q.connection.exchange.parser_buff (x ∷ xs) (ready_of l).parser).1 (omega arith)
          h in
      settled (origin_loop recv fuel true fd s q').1 e
        (loop true s q' (store_response-Live (x ∷ xs) q l) fin (omega (arith, less)))
    where
      settled : (r : Ended S) → q.settings ≡ p.settings → LiveEnd q r → LiveEnd p r
      settled no_fuel e n = n
      settled (ended z s' p') e n = (n.0, n.1 ∙ e)

  answered :
      (fuel : ℕ) (fd : ℤ) (parse : Bool) (r : FromSocket) (s : S) (p : Proxy)
      → Live p
      → 0 < space_of p
      → (p.connection.exchange.finished ≡ true → buffer_size ≤ fuel)
      → (p.connection.exchange.finished ≡ false → space_of p < suc fuel)
      → FromRound fuel fd
      → LiveEnd p (on_origin_bytes recv (origin_loop recv fuel true fd) parse r s p).1
  answered fuel fd parse none s p l h f g loop = (l, refl)
  answered fuel fd parse (some []) s p l h f g loop = (l, refl)
  answered fuel fd parse (some (x ∷ xs)) s p l h f g loop =
      let go_on = λ (b : Bool).
        LiveEnd p
          (origin_loop recv fuel true fd s
            (store_response (x ∷ xs) (if b then reset_origin_data p else p))).1 in
      elim (Bool-cases p.connection.exchange.finished) [
        | inl t ↦
            let (l', e, fin) = reset_origin_data-Live p l in
            let room = space_reset p in
            subst go_on (sym t) (
              stored fuel fd x xs s p (reset_origin_data p) l' e fin (omega (arith, room))
                (omega (arith, room, f t)) loop)
        | inr t ↦ subst go_on (sym t) (stored fuel fd x xs s p p l refl t h (g t) loop)
      ]

  -- A round.
  round_Live :
      (fuel : ℕ) (fd : ℤ) (parse : Bool) (s : S) (p : Proxy)
      → Live p
      → (p.connection.exchange.finished ≡ true → buffer_size ≤ fuel)
      → (p.connection.exchange.finished ≡ false → space_of p < suc fuel)
      → FromRound fuel fd
      → LiveEnd p (origin_loop recv (suc fuel) parse fd s p).1
  unfolding origin_loop
  round_Live fuel fd parse s p l f g loop =
      let n = bytes_to_send (room_of p) in
      let (ret, s') = recv s n in
      elim (Bool-cases (n == 0)) [
        | inl t ↦ rw t (set_interest-Live fd op_noop p l, unfold set_interest in refl)
        | inr t ↦ rw t (answered fuel fd parse ret s' p l (room_positive p t) f g loop)
      ]

  loop_Live : (fuel : ℕ) (fd : ℤ) → FromRound fuel fd
  loop_Live zero fd parse s p l fin f = absurd (omega arith)
  loop_Live (suc fuel) fd parse s p l fin f =
      round_Live fuel fd parse s p l (λ t. absurd (cc)) (λ _. f) (loop_Live fuel fd)

  pub origin_loop-Live :
      (fd : ℤ) (parse : Bool) (s : S) (p : Proxy)
      → Live p
      → LiveEnd p (origin_loop recv (buffer_size + 2) parse fd s p).1
  origin_loop-Live fd parse s p l =
      round_Live (buffer_size + 1) fd parse s p l (λ _. omega arith)
        (λ _. omega (arith, space-count (ready_of l).parser)) (loop_Live (buffer_size + 1) fd)
