-- ===== src/Protocol/Reader.antt =====
-- `read_structure`, `read_protocol_v1` and `write_protocol_v1` of bin/protocolV1.c.
use proxy_server_http.Base.{
  ℕ, zero, suc, ◌==◌, ltb, leb, if◌then◌else◌, Bool, true, false, List, [], ◌++◌, ℤ, pos, negsuc,
  Option, none, some, is_zero,
}
use proxy_server_http.Buffer.{buffer_count, buffer_space, buffer_read_data, buffer_write_data}
use proxy_server_http.Protocol.{
  World, set_read_buffer, set_write_buffer, expect, kill_socket, set_interest_key, byte_at,
  login_index, metrics_index, transformations_index, header_index, op_read,
}
use proxy_server_http.Protocol.Login.{login}
use proxy_server_http.Protocol.Metrics.{metrics}
use proxy_server_http.Protocol.Transformations.{transformations}

-- The branch that waits for a header.
unfoldable pub read_header : World → Bool × World
unfolding kill_socket
read_header w =
    let b = w.session.read_buffer in
    let (n, req, b') = buffer_read_data b (pos 2) in
    let w1 = set_read_buffer b' w in
    let w2 = if byte_at 0 req == 1 then w1 else kill_socket w1 in
    if leb 2 (buffer_count b) then (true, expect (byte_at 1 req) w2) else (false, w)

-- One round of the loop, and `readSuccess` behind it. `unset` is what the uninitialised `resp` of
-- `metrics` holds.
unfoldable pub structure_step : ℕ → World → Bool × World
unfolding read_header kill_socket
structure_step unset w =
    let index = w.session.expected_structure_index in
    if index == header_index
    then read_header w
    else if index == login_index
    then login w
    else if index == metrics_index
    then metrics unset w
    else if index == transformations_index
    then transformations w
    else (true, kill_socket w)

-- `while(readSuccess)`; `none` means that the fuel ran out.
unfoldable pub read_structure : ℕ → ℕ → World → Option World
read_structure zero unset w = none
read_structure (suc fuel) unset w =
    let (again, w') = structure_step unset w in
    let rest = read_structure fuel unset w' in if again then rest else some w'

abbrev pub internal_buffer_size : ℕ
internal_buffer_size = 1000

-- What `recv` gives: the value returned and the bytes stored.
pub record Received : Type 0 where
  pub ret : ℤ
  pub bytes : List ℕ

-- How many bytes are asked of `recv`.
unfoldable pub to_read : World → ℕ
to_read w =
    let available = buffer_space w.session.read_buffer in
    if ltb internal_buffer_size available then internal_buffer_size else available

unfoldable pub read_protocol_v1 : ℕ → ℕ → (ℕ → Received) → World → Option World
unfolding to_read kill_socket
read_protocol_v1 fuel unset recv w =
    let r = recv (to_read w) in
    let w1 = if is_zero r.ret then kill_socket w else w in
    let b = (buffer_write_data w1.session.read_buffer r.bytes r.ret).1 in
    read_structure fuel unset (set_read_buffer b w1)

-- Whether a value returned is the number.
abbrev pub is_value : ℕ → ℤ → Bool
is_value n (pos m) = m == n
is_value n (negsuc _) = false

-- The rounds of `while((to_read = buffer_count(write_buff))>0)`: a round takes a byte at least, so
-- as many rounds as there are bytes are enough. `send` gives the value that the call returns for
-- the bytes handed to it. The first component is the bytes handed over, in order.
unfoldable pub write_rounds : ℕ → (List ℕ → ℤ) → World → List ℕ × World
unfolding kill_socket
write_rounds zero send w = ([], w)
write_rounds (suc fuel) send w =
    let b = w.session.write_buffer in
    let count = buffer_count b in
    let n = if ltb internal_buffer_size count then internal_buffer_size else count in
    let (m, bytes, b') = buffer_read_data b (pos n) in
    let w1 = set_write_buffer b' w in
    let w2 = if is_value n (send bytes) then w1 else kill_socket w1 in
    let (sent, w3) = write_rounds fuel send w2 in
    if ltb 0 count then (bytes ++ sent, w3) else ([], w)

unfoldable pub write_protocol_v1 : (List ℕ → ℤ) → World → List ℕ × World
unfolding write_rounds set_interest_key
write_protocol_v1 send w =
    let (sent, w') = write_rounds (buffer_count w.session.write_buffer) send w in
    (sent, set_interest_key op_read w')
