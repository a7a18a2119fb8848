-- ===== src/Protocol/Transformations.antt =====
-- `transformations` of bin/protocolV1.c.
use proxy_server_http.Base.{
  ℕ, ◌%◌, ◌==◌, leb, if◌then◌else◌, Bool, true, false, List, [], ◌∷◌, ◌++◌, ◌||◌, ℤ, pos, negsuc,
  length,
}
use proxy_server_http.Buffer.{
  buffer_count, buffer_read_data, buffer_peek_data, buffer_peek_until_null, buffer_reset_peek_line,
  buffer_advance_read_to_peek,
}
use proxy_server_http.Settings.{Settings}
use proxy_server_http.Protocol.{
  World, set_read_buffer, expect, kill_socket, reply, return_ok, return_permission_denied, byte_at,
  c_string, positive, header_index,
}

-- `transformationsRequestTypes`
abbrev pub set_status : ℕ
set_status = 0

abbrev pub get_status : ℕ
get_status = 1

abbrev pub set_media_types : ℕ
set_media_types = 2

abbrev pub get_media_types : ℕ
get_media_types = 3

abbrev pub set_transformation_command : ℕ
set_transformation_command = 4

abbrev pub get_transformation_command : ℕ
get_transformation_command = 5

-- The sizes of the arrays `media` and `command`.
abbrev pub argument_size : ℕ
argument_size = 1000

-- Each handler takes the world whose read buffer has the request's type peeked and not yet read.
-- `case SET_STATUS`
unfoldable pub on_set_status : World → Bool × World
unfolding return_ok return_permission_denied
on_set_status w =
    let b = w.session.read_buffer in
    let (n, req, b') = buffer_read_data (buffer_advance_read_to_peek b) (pos 1) in
    let w' = set_read_buffer b' w in
    let status = byte_at 0 req in
    let stored = record w' { settings = record w'.settings { transformation_state = status } } in
    let answered =
      if w'.session.logged_in
      then (if status == 1 || status == 0 then return_ok stored else return_permission_denied w')
      else return_permission_denied w' in
    if leb 2 (buffer_count b)
    then (true, expect header_index answered)
    else (false, set_read_buffer (buffer_reset_peek_line b) w)

-- `case GET_STATUS`, `case GET_MEDIA_TYPES` and `case GET_TRANSFORMATION_COMMAND`: the bytes that
-- follow the OK
unfoldable pub on_get : (Settings → List ℕ) → World → Bool × World
unfolding return_ok return_permission_denied reply
on_get value w =
    let w' = set_read_buffer (buffer_advance_read_to_peek w.session.read_buffer) w in
    let bytes = value w'.settings in
    (
      true,
      expect header_index (
          if w'.session.logged_in
          then reply bytes (length bytes) (return_ok w')
          else return_permission_denied w'),
    )

-- `res==-1`
abbrev pub is_minus_one : ℤ → Bool
is_minus_one (pos _) = false
is_minus_one (negsuc n) = n == 0

-- `case SET_MEDIA_TYPES` and `case SET_TRANSFORMATION_COMMAND`: where the argument is copied to
unfoldable pub on_set : (List ℕ → Settings → Settings) → World → Bool × World
unfolding kill_socket return_ok return_permission_denied
on_set store w =
    let (res, argument, b) = buffer_peek_until_null w.session.read_buffer argument_size in
    let w1 = set_read_buffer b w in
    let w2 = if is_minus_one res then kill_socket w1 else w1 in
    let w3 = set_read_buffer (buffer_advance_read_to_peek b) w2 in
    if positive res
    then (
      true,
      expect header_index (
          if w3.session.logged_in
          then return_ok (record w3 { settings = store (c_string argument) w3.settings })
          else return_permission_denied w3),
    )
    else (false, set_read_buffer (buffer_reset_peek_line b) w2)

abbrev pub status_bytes : Settings → List ℕ
status_bytes s = (s.transformation_state % 256) ∷ []

abbrev pub media_bytes : Settings → List ℕ
media_bytes s = s.media_types ++ (0 ∷ [])

abbrev pub command_bytes : Settings → List ℕ
command_bytes s = s.transformation_command ++ (0 ∷ [])

-- `strcpy` into the global arrays
abbrev pub store_media_types : List ℕ → Settings → Settings
store_media_types text s = record s { media_types = text }

abbrev pub store_command : List ℕ → Settings → Settings
store_command text s = record s { transformation_command = text }

-- the `switch`
unfoldable pub on_request : ℕ → World → Bool × World
on_request type w =
    if type == set_status
    then on_set_status w
    else if type == get_status
    then on_get status_bytes w
    else if type == set_media_types
    then on_set store_media_types w
    else if type == get_media_types
    then on_get media_bytes w
    else if type == set_transformation_command
    then on_set store_command w
    else if type == get_transformation_command
    then on_get command_bytes w
    else (false, kill_socket w)

unfoldable pub transformations : World → Bool × World
transformations w =
    let b = buffer_reset_peek_line w.session.read_buffer in
    let (n, req, b') = buffer_peek_data b (pos 1) in
    if leb 1 (buffer_count b)
    then on_request (byte_at 0 req) (set_read_buffer b' w)
    else (false, set_read_buffer b w)
