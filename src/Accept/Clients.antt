-- ===== src/Accept/Clients.antt =====
-- What the handler of the clients' listening socket leaves, in bin/proxyPassiveSocket.c.
use proxy_server_http.Base.{
  ℕ, ◌+◌, ◌<◌, ◌≤◌, ◌≡◌, ◌≢◌, ◌⊎◌, Bool, true, false, if◌then◌else◌, [], some, pos,
}
use proxy_server_http.Buffer.Fifo.{contents}
use proxy_server_http.Settings.{Settings}
use proxy_server_http.Selector.{items_max_size, is_used, op_read, selector_register}
use proxy_server_http.Selector.Table.{WellFormed}
use proxy_server_http.Connection.{Multiplexer, Proxy, client_handler}
use proxy_server_http.Accept.{Memory, count_client, new_connection}
use proxy_server_http.Accept.Passive.{
  Passive, no_client, closed_at_once, rejected, handled, not_registered, registered_client,
}

-- A client that is handled: registered for reading, with empty buffers.
pub record Served (sock : ℕ) (s : Multiplexer) (settings : Settings) (p : Proxy) : Type 0 where
  pub in_range : sock < items_max_size
  pub was_free : is_used (s.fds sock) ≡ false
  pub item :
      p.selector.fds sock
      ≡ record { fd = some sock; interest = op_read; handler = some client_handler; user = some tt }
  pub others : (i : ℕ) → i ≢ sock → p.selector.fds i ≡ s.fds i
  pub consistent : WellFormed p.selector
  pub fewer : settings.current_connections < settings.max_connections
  pub counted : p.settings.current_connections ≡ settings.current_connections + 1
  pub nothing_to_origin : contents p.connection.to_origin ≡ []
  pub nothing_to_client : contents p.connection.exchange.write_buff ≡ []

-- What each end of the handler says, where `accept` has given a socket, and `fails` is whether it
-- could not be set to non-blocking. A client that could not be registered has been counted.
abbrev pub Admitted : Bool → ℕ → Multiplexer → Settings → Passive → Type 0
Admitted fails sock s settings no_client = true ≡ false
Admitted fails sock s settings closed_at_once = fails ≡ true
Admitted fails sock s settings (rejected p) =
    (settings.max_connections ≤ settings.current_connections)
    × (p.settings.current_connections ≡ settings.current_connections)
    × (p.freed ≡ true)
Admitted fails sock s settings (handled p) = Served sock s settings p
Admitted fails sock s settings (not_registered named p) =
    ((items_max_size ≤ sock) ⊎ (is_used (s.fds sock) ≡ true))
    × (p.selector ≡ s)
    × (settings.current_connections < settings.max_connections)
    × (p.settings.current_connections ≡ settings.current_connections + 1)

module _ (sock : ℕ) (s : Multiplexer) (settings : Settings) (v : WellFormed s) where
  -- The connection of a client that has been counted.
  abbrev accepted_client : Memory → Proxy
  accepted_client memory = record {
    selector = s;
    settings = count_client settings;
    connection = new_connection (pos sock) memory;
    freed = false;
    client_sent = [];
    origin_sent = [];
  }

  -- The handler behind the calls of `fcntl`, by what has become of the client's data.
  abbrev behind_init : Bool → Bool → Bool × Proxy → Passive
  behind_init fails named (made, p) =
      let (status, s') =
        selector_register true p.selector (pos sock) (some client_handler) op_read tt in
      if fails
      then closed_at_once
      else if made
      then registered_client named status (record p { selector = s' })
      else rejected p
