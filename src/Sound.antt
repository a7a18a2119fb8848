-- ===== src/Sound.antt =====
-- The state that every handler finds and leaves, over the files of bin/ that make up a connection: the
-- selector's table is consistent and the buffers' positions are indices. Here, the calls that all
-- handlers share.
pub mod Origin
pub mod Parse
pub mod ClientSocket
pub mod ClientRequest
pub mod OriginLoop
pub mod OriginSocket
pub mod Pipes
pub mod Flushing
pub mod Command
pub mod Begin
pub mod Runs
use proxy_server_http.Base.{
  ℕ, ◌+◌, ◌≡◌, refl, sym, ap, subst, ◌∙◌, Bool, true, false, if◌then◌else◌, if_either, List, [],
  ◌∷◌, ◌++◌, ℤ, pos, negsuc, Option, none, some, Bool-cases, inl, inr,
}
use proxy_server_http.Buffer.{Buffer}
use proxy_server_http.Buffer.Fifo.{IsValid}
use proxy_server_http.Selector.{
  FdSelector, selector_register, selector_set_interest, selector_unregister_fd,
}
use proxy_server_http.Selector.Table.{WellFormed}
use proxy_server_http.Selector.Keeps.{
  register-WellFormed, set_interest-WellFormed, unregister-WellFormed,
}
use proxy_server_http.Chunked.{is_unset}
use proxy_server_http.Relay.{Ended, no_fuel, ended}
use proxy_server_http.Connection.{
  Handler, Transformation, Connection, ConnectionState, Proxy, with_connection, set_interest,
  unregister, unregister_open, close_pipes, forget_transformation, forget_origin,
  kill_transformation, kill_origin, kill_client, send_error, is_alive,
}

abbrev pub PipeValid : Option Transformation → Type 0
PipeValid none = Unit {0}
PipeValid (some t) = IsValid t.tmp_buff

-- The buffers of a connection that there are: that of the parser once the origin's data is made, that
-- of a transformation where one runs.
pub record Buffers (c : Connection) : Type 0 where
  pub to_origin : IsValid c.to_origin
  pub to_client : IsValid c.exchange.write_buff
  pub parser : c.origin ≡ true → IsValid c.exchange.parser_buff
  pub pipe : PipeValid c.transformation

pub record Sound (p : Proxy) : Type 0 where
  pub table : WellFormed p.selector
  pub buffers : Buffers p.connection

pub set_interest-Sound : (fd : ℤ) (k : ℕ) (p : Proxy) → Sound p → Sound (set_interest fd k p)
unfolding set_interest
set_interest-Sound fd k p s = record {
  table = set_interest-WellFormed p.selector fd k s.table;
  buffers = s.buffers;
}

pub unregister-Sound : (fd : ℤ) (p : Proxy) → Sound p → Sound (unregister fd p)
unfolding unregister
unregister-Sound fd p s = record {
  table = unregister-WellFormed (λ h fd' user t. t) (λ h fd' user t. refl) p.selector fd s.table;
  buffers = s.buffers;
}

pub register-Sound :
    (fd : ℤ) (h : Handler) (k : ℕ) (p : Proxy)
    → Sound p
    → Sound (record p { selector = (selector_register true p.selector fd (some h) k tt).1 })
register-Sound fd h k p s = record {
  table = register-WellFormed true p.selector fd (some h) k tt s.table;
  buffers = s.buffers;
}

pub unregister_open-Sound : (fd : ℤ) (p : Proxy) → Sound p → Sound (unregister_open fd p)
unregister_open-Sound fd p s = if_either Sound (is_unset fd) s (unregister-Sound fd p s)

forgotten : (c : Connection) → Buffers c → Buffers (forget_transformation c)
forgotten c b = record {
  to_origin = b.to_origin;
  to_client = b.to_client;
  parser = b.parser;
  pipe = tt;
}

close_pipes-Sound : (t : Option Transformation) (p : Proxy) → Sound p → Sound (close_pipes t p)
close_pipes-Sound none p s = s
close_pipes-Sound (some t) p s =
    let q = unregister_open-Sound t.origin_write _ (unregister_open-Sound t.client_read p s) in
    record { table = q.table; buffers = forgotten _ q.buffers }

pub kill_transformation-Sound : (p : Proxy) → Sound p → Sound (kill_transformation p)
unfolding kill_transformation
kill_transformation-Sound p s = close_pipes-Sound p.connection.transformation p s

without_origin : (c : Connection) → Buffers c → Buffers (forget_origin c)
without_origin c b = record {
  to_origin = b.to_origin;
  to_client = b.to_client;
  parser = λ e. absurd (cc);
  pipe = b.pipe;
}

pub kill_origin-Sound : (p : Proxy) → Sound p → Sound (kill_origin p)
unfolding kill_origin
kill_origin-Sound p s =
    let p1 = kill_transformation p in
    let s1 = kill_transformation-Sound p s in
    let s2 =
      if_either Sound (is_alive p1.connection.state)
        (unregister-Sound p1.connection.origin_fd p1 s1) s1 in
    if_either Sound p.connection.origin
      (record { table = s2.table; buffers = without_origin _ s2.buffers }) s

pub kill_client-Sound : (p : Proxy) → Sound p → Sound (kill_client p)
unfolding kill_client
kill_client-Sound p s =
    let p1 = kill_origin p in
    let q = unregister-Sound p1.connection.client_fd p1 (kill_origin-Sound p s) in
    record { table = q.table; buffers = q.buffers }

pub send_error-Sound :
    (date : List ℕ) (status : ℕ) (title text : List ℕ) (p : Proxy)
    → Sound p
    → Sound (send_error date status title text p)
unfolding send_error
send_error-Sound date status title text p s =
    kill_client-Sound _ (record { table = s.table; buffers = s.buffers })

-- The state and the client's data have no buffers.
pub set_state-Sound :
    (st : ConnectionState) (p : Proxy)
    → Sound p
    → Sound (with_connection (λ c. record c { state = st }) p)
set_state-Sound st p s = record {
  table = s.table;
  buffers = record {
    to_origin = s.buffers.to_origin;
    to_client = s.buffers.to_client;
    parser = s.buffers.parser;
    pipe = s.buffers.pipe;
  };
}

-- The handler has returned with a sound state.
abbrev pub Returns : {S : Type 0} → Ended S → Type 0
Returns no_fuel = ⊥
Returns (ended z s p) = Sound p

-- The same, where nothing is claimed of the return.
abbrev pub SoundEnd : {S : Type 0} → Ended S → Type 0
SoundEnd no_fuel = Unit {0}
SoundEnd (ended z s p) = Sound p

-- `none` is an access to memory that has been freed.
abbrev pub SoundIf : Option Proxy → Type 0
SoundIf none = Unit {0}
SoundIf (some p) = Sound p
