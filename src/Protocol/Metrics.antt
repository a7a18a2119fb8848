-- ===== src/Protocol/Metrics.antt =====
-- `metrics` of bin/protocolV1.c.
use proxy_server_http.Base.{
  ℕ, ◌/◌, ◌%◌, ◌==◌, ltb, leb, if◌then◌else◌, Bool, true, false, List, [], ◌∷◌, pos,
}
use proxy_server_http.Buffer.{buffer_count, buffer_space, buffer_read_data, buffer_reset_peek_line}
use proxy_server_http.Settings.{Settings, add_int}
use proxy_server_http.Protocol.{
  World, set_read_buffer, expect, kill_socket, reply, return_ok, return_permission_denied, byte_at,
  header_index,
}

-- `metricsEnum`
abbrev pub actual_connections : ℕ
actual_connections = 0

abbrev pub all_time_connections : ℕ
all_time_connections = 1

abbrev pub bytes_transferred : ℕ
bytes_transferred = 2

-- A `uint32_t` in memory, its least byte first.
abbrev pub uint32_bytes : ℕ → List ℕ
uint32_bytes n = (n % 256) ∷ (n / 256 % 256) ∷ (n / 65536 % 256) ∷ (n / 16777216 % 256) ∷ []

-- The value that the `switch` stores in `resp`; `unset` is what the uninitialised variable holds
-- where it stores none.
unfoldable pub metric_value : ℕ → ℕ → Settings → ℕ
metric_value unset metric s =
    if metric == actual_connections
    then s.current_connections
    else if metric == all_time_connections
    then s.total_connections
    else if metric == bytes_transferred
    then add_int s.bytes_sent s.bytes_received
    else unset

unfoldable pub answer_metric : ℕ → ℕ → World → World
unfolding metric_value return_ok reply kill_socket
answer_metric unset metric w =
    let w1 = if ltb (buffer_space w.session.write_buffer) 4 then kill_socket w else w in
    let w2 = return_ok w1 in
    let w3 = if leb metric bytes_transferred then w2 else kill_socket w2 in
    expect header_index (reply (uint32_bytes (metric_value unset metric w3.settings)) 4 w3)

unfoldable pub metrics : ℕ → World → Bool × World
metrics unset w =
    let b = buffer_reset_peek_line w.session.read_buffer in
    let (n, req, b') = buffer_read_data b (pos 1) in
    let w' = set_read_buffer b' w in
    let answered =
      if w'.session.logged_in
      then answer_metric unset (byte_at 0 req) w'
      else return_permission_denied w' in
    if leb 1 (buffer_count b) then (true, answered) else (false, set_read_buffer b w)
