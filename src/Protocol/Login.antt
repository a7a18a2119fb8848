-- ===== src/Protocol/Login.antt =====
-- `login` of bin/protocolV1.c, and the users of bin/include/configUsers.h.
use proxy_server_http.Base.{ℕ, ltb, if◌then◌else◌, Bool, true, false, List, [], ◌∷◌, ◌&&◌}
use proxy_server_http.Buffer.{
  buffer_space, buffer_peek_until_null, buffer_reset_peek_line, buffer_advance_read_to_peek,
}
use proxy_server_http.Protocol.{
  World, users, set_read_buffer, expect, kill_socket, reply, return_permission_denied, c_string,
  str_eq, positive, ok, permission_denied, header_index,
}

-- The answer to a registered user name.
unfoldable pub check_password : Bool → World → World
unfolding reply kill_socket
check_password right w =
    let w1 = if right then record w { session = record w.session { logged_in = true } } else w in
    let w2 = if ltb (buffer_space w1.session.write_buffer) 1 then kill_socket w1 else w1 in
    expect header_index (reply ((if right then ok else permission_denied) ∷ []) 1 w2)

-- The loop over `users`, and the refusal behind it.
unfoldable pub check_users : List (List ℕ × List ℕ) → List ℕ → List ℕ → World → World
unfolding check_password return_permission_denied
check_users [] username password w = expect header_index (return_permission_denied w)
check_users ((name, pass) ∷ rest) username password w =
    let others = check_users rest username password w in
    if str_eq name username then check_password (str_eq pass password) w else others

-- The sizes of the arrays `username` and `password`.
abbrev pub name_size : ℕ
name_size = 50

unfoldable pub login : World → Bool × World
login w =
    let (ret1, username, b1) =
      buffer_peek_until_null (buffer_reset_peek_line w.session.read_buffer) name_size in
    let (ret2, password, b2) = buffer_peek_until_null b1 name_size in
    if positive ret1 && positive ret2
    then (
      true,
      check_users users (c_string username) (c_string password)
          (set_read_buffer (buffer_advance_read_to_peek b2) w),
    )
    else (false, set_read_buffer (buffer_reset_peek_line b2) w)
