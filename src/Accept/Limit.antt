-- ===== src/Accept/Limit.antt =====
-- The limit on the number of connections.
use proxy_server_http.Base.{
  ℕ, ◌+◌, ◌-◌, ◌^◌, ◌<◌, ◌≤◌, ◌≡◌, refl, arith, true, false, List, ℤ, Bool-cases, inl, inr, ltb→lt,
  ltb→ge, ◌⊎◌,
}
use proxy_server_http.Settings.{Settings, add_int}
use proxy_server_http.Connection.{Multiplexer, send_error, kill_origin, unregister, kill_client}
use proxy_server_http.Accept.{Memory, greater_int, client_data_init}

-- With both counts below 2^31, and the current one not the greatest such number, a client is taken
-- exactly where fewer connections are there than allowed, and counts as one more. Otherwise its
-- data is freed and the count is as before.
client_data_init-limit :
    (date : List ℕ) (memory : Memory) (s : Multiplexer) (settings : Settings) (client_fd : ℤ)
    → settings.current_connections < 2 ^ 31 - 1
    → settings.max_connections < 2 ^ 31
    → let (made, p) = client_data_init date memory s settings client_fd in
      ((made ≡ true)
        × (settings.current_connections < settings.max_connections)
        × (p.settings.current_connections ≡ settings.current_connections + 1)
        × (p.freed ≡ false))
      ⊎ ((made ≡ false)
          × (settings.max_connections ≤ settings.current_connections)
          × (p.settings.current_connections ≡ settings.current_connections)
          × (p.freed ≡ true))
unfolding client_data_init send_error kill_client kill_origin unregister
client_data_init-limit date memory s settings client_fd small max =
    elim (Bool-cases
      (greater_int (add_int settings.current_connections 1) settings.max_connections)) [
        | inl busy ↦ rw busy (inr (refl, omega (arith, ltb→lt _ _ busy), omega arith, refl))
        | inr free ↦ rw free (inl (refl, omega (arith, ltb→ge _ _ free), omega arith, refl))
      ]
