-- ===== src/Sound/Origin.antt =====
-- The handlers of the origin's socket, in bin/proxyOriginActiveSocket.c, and the start of a
-- transformation in bin/proxyTransformation.c.
use proxy_server_http.Base.{
  ℕ, ◌+◌, ◌*◌, ◌<◌, ◌⊎◌, inl, inr, ◌&&◌, ◌++◌, List, ◌∷◌, ◌≡◌, ◌≢◌, refl, Bool, true, false,
  if_either, length, ℤ, Option, none, some,
}
use proxy_server_http.Buffer.{new_buffer}
use proxy_server_http.Buffer.Fifo.{new_buffer-IsValid}
use proxy_server_http.Settings.{Settings, codes}
use proxy_server_http.MediaType.Returns.{media_type_match_returns}
use proxy_server_http.Selector.{Status, success, op_read, op_write}
use proxy_server_http.Selector.Table.{WellFormed}
use proxy_server_http.Response.{Exchange, wants_transformation}
use proxy_server_http.Response.Body.{Operable}
use proxy_server_http.Connection.{Proxy, with_connection, set_interest}
use proxy_server_http.Transformation.{
  Pipes, PipeEnds, Begin, no_match, died, begun, register_pipe, on_registered, no_pipes, running,
  start, start_if, proxy_transformation_data_init,
}
use proxy_server_http.OriginRead.{with_exchange}
use proxy_server_http.Sound.{Sound, set_interest-Sound, register-Sound}

-- The state is sound and there is an origin.
pub record Live (p : Proxy) : Type 0 where
  pub sound : Sound p
  pub origin : p.connection.origin ≡ true

pub ready_of : {p : Proxy} → Live p → Operable p.connection.exchange
ready_of l = record { client = l.sound.buffers.to_client; parser = l.sound.buffers.parser l.origin }

-- Another exchange whose buffers are in range.
pub exchange-Live :
    (f : Exchange → Exchange) (p : Proxy)
    → Live p
    → Operable (f p.connection.exchange)
    → Live (with_exchange f p)
exchange-Live f p l r = record {
  sound = record {
    table = l.sound.table;
    buffers = record {
      to_origin = l.sound.buffers.to_origin;
      to_client = r.client;
      parser = λ _. r.parser;
      pipe = l.sound.buffers.pipe;
    };
  };
  origin = l.origin;
}

pub set_interest-Live : (fd : ℤ) (k : ℕ) (p : Proxy) → Live p → Live (set_interest fd k p)
set_interest-Live fd k p l = record {
  sound = set_interest-Sound fd k p l.sound;
  origin = unfold set_interest in l.origin;
}

-- Why the program may end at the start of a command: the pipes are there, and the flags of one of
-- their ends cannot be set, or the registration of one is refused in a consistent table.
abbrev pub Fatal : PipeEnds → List ℕ → Type 0
Fatal no_pipes text = ⊥
Fatal (running w r memory client_nio origin_nio) text =
    ((client_nio && origin_nio ≡ false) × (text ≡ codes "setting transformer flags failed"))
    ⊎ ((text ≡ codes "registering fd failed")
        × (q : Proxy) × WellFormed q.selector
        × (((register_pipe r op_read q).0 ≢ success) ⊎ ((register_pipe w op_write q).0 ≢ success)))

-- The match returns, and what it leads to is sound, or the program may end.
abbrev pub Begun : PipeEnds → Begin → Type 0
Begun ends no_match = ⊥
Begun ends (died text) = Fatal ends text
Begun ends (begun p) = Live p

registered-Begun :
    (ends : PipeEnds) (r : Status × Proxy) (go : Proxy → Begin)
    → (r.0 ≢ success → Fatal ends (codes "registering fd failed"))
    → Begun ends (go (r.1))
    → Begun ends (on_registered r go)
registered-Begun ends (success, p) go h l = l
registered-Begun ends (Status.enomem, p) go h l = h (λ e. absurd (cc))
registered-Begun ends (Status.maxfd, p) go h l = h (λ e. absurd (cc))
registered-Begun ends (Status.iargs, p) go h l = h (λ e. absurd (cc))
registered-Begun ends (Status.fdinuse, p) go h l = h (λ e. absurd (cc))
registered-Begun ends (Status.io, p) go h l = h (λ e. absurd (cc))

-- The start of a transformation.
start-Begun : (ends : PipeEnds) (p : Proxy) → Live p → Begun ends (start ends p)
start-Begun no_pipes p l = record {
  sound = record {
    table = l.sound.table;
    buffers = record {
      to_origin = l.sound.buffers.to_origin;
      to_client = l.sound.buffers.to_client;
      parser = l.sound.buffers.parser;
      pipe = tt;
    };
  };
  origin = l.origin;
}
start-Begun (running w r memory false b) p l = inl (refl, refl)
start-Begun (running w r memory true false) p l = inl (refl, refl)
start-Begun (running w r memory true true) p l =
    let p1 : Proxy =
      with_connection
        (λ c. record c {
          client_transformation_fd = r;
          origin_transformation_fd = w;
          transformation =
              some (record { origin_write = w; client_read = r; tmp_buff = new_buffer memory });
        })
        p in
    let k1 : Sound p1 = record {
      table = l.sound.table;
      buffers = record {
        to_origin = l.sound.buffers.to_origin;
        to_client = l.sound.buffers.to_client;
        parser = l.sound.buffers.parser;
        pipe = new_buffer-IsValid memory;
      };
    } in
    let p2 = (register_pipe r op_read p1).1 in
    let k2 : Sound p2 = register-Sound r _ op_read p1 k1 in
    let p3 = (register_pipe w op_write p2).1 in
    let k3 : Sound p3 = register-Sound w _ op_write p2 k2 in
    let ends = running w r memory true true in
    registered-Begun ends (register_pipe r op_read p1)
      (λ q. on_registered (register_pipe w op_write q) begun)
      (λ refused. inr (refl, p1, k1.table, inl refused))
      (registered-Begun ends (register_pipe w op_write p2) begun
        (λ refused. inr (refl, p2, k2.table, inr refused))
        (record { sound = k3; origin = l.origin }))

-- The match of the media types has fuel enough.
abbrev pub Fueled : ℕ → List ℕ → Settings → Type 0
Fueled fuel stale s = (4 < fuel) × (3 * length (s.media_types ++ (0 ∷ stale)) + 1 < fuel)

start_if-Begun :
    (w : Option Bool) (b : Bool) (ends : PipeEnds) (p : Proxy)
    → w ≡ some b
    → Live p
    → Begun ends (start_if w ends p)
start_if-Begun none b ends p e l = absurd (cc)
start_if-Begun (some false) b ends p e l = start-Begun no_pipes p l
start_if-Begun (some true) b ends p e l = start-Begun ends p l

abbrev Answers : Option Bool → Type 0
Answers o = (b : Bool) × (o ≡ some b)

wants_returns :
    (fuel : ℕ) (stale : List ℕ) (s : Settings) (e : Exchange)
    → Fueled fuel stale s
    → (b : Bool) × (wants_transformation fuel stale s e ≡ some b)
unfolding wants_transformation
wants_returns fuel stale s e f =
    if_either Answers _ (false, refl)
      (if_either Answers _ (false, refl)
        (media_type_match_returns fuel (s.media_types ++ (0 ∷ stale)) e.facts.content_type f.0 f.1))

pub init-Begun :
    (fuel : ℕ) (pipes : Pipes) (p : Proxy)
    → Fueled fuel pipes.stale p.settings
    → Live p
    → Begun pipes.ends (proxy_transformation_data_init fuel pipes p)
unfolding proxy_transformation_data_init
init-Begun fuel pipes p f l =
    let (b, e) = wants_returns fuel pipes.stale p.settings p.connection.exchange f in
    start_if-Begun (wants_transformation fuel pipes.stale p.settings p.connection.exchange) b
      pipes.ends p e l
