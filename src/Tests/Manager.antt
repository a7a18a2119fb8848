-- ===== src/Tests/Manager.antt =====
-- Runs of the manager, of its client, and of the match of media types.
use proxy_server_http.Base.{
  ℕ, ◌+◌, ◌<◌, ◌≡◌, ◌⊎◌, refl, arith, Bool, true, false, none, some, List, [], ◌∷◌, ◌++◌, length,
}
use proxy_server_http.Buffer.{
  buffer_count, buffer_space, buffer_write_data, buffer_read_data, next, transfer_size, read_loop,
  write_loop, buffer_reset_peek_line, buffer_advance_read_to_peek, buffer_peek_data, peek_loop,
}
use proxy_server_http.Settings.{codes}
use proxy_server_http.Protocol.{World, header_index, reply, return_permission_denied}
use proxy_server_http.Protocol.Transformations.{transformations, on_request, on_set_status}
use proxy_server_http.Protocol.Reader.{read_structure, structure_step, read_header}
use proxy_server_http.Protocol.{set_write_buffer}
use proxy_server_http.Protocol.Reader.{write_protocol_v1}
use proxy_server_http.Base.{pos}
use proxy_server_http.Protocol.Access.{settings_need_login}
use proxy_server_http.Protocol.Valid.{Valid}
use proxy_server_http.Protocol.Total.{Unknown, read_structure_returns, read_structure_spins}
use proxy_server_http.MediaType.{media_type_match, match_loop, switch}
use proxy_server_http.MediaType.Exact.{media_type_match_first}
use proxy_server_http.MediaType.Returns.{media_type_match_returns}
use proxy_server_http.Protocol.Status.{StatusAnswer, set_status_lem}
use proxy_server_http.Protocol.Writer.{Sent, write_protocol_v1-Sent}
use proxy_server_http.Tests.Data.{session, holding}

session-Valid : (index : ℕ) (bytes : List ℕ) → length bytes + 1 < 8000 → Valid (session index bytes)
session-Valid index bytes h = record { read_valid = omega arith; write_valid = omega arith }

-- A name and a password.
abbrev credentials : List ℕ
credentials = codes "eze" ++ (0 ∷ (codes "12345" ++ (0 ∷ [])))

-- A request to switch the transformations off, from a session that has not logged in.
abbrev status_off : World
status_off = session header_index (1 ∷ 2 ∷ 0 ∷ 0 ∷ [])

abbrev after_status_off : World
after_status_off = (structure_step 0 (structure_step 0 status_off).1).1

status_off_returns : read_structure 3 0 status_off ≡ some after_status_off
unfolding read_structure structure_step read_header transformations on_request on_set_status
    buffer_count buffer_read_data buffer_peek_data buffer_reset_peek_line
    buffer_advance_read_to_peek transfer_size read_loop peek_loop next return_permission_denied
    reply buffer_write_data write_loop buffer_space
status_off_returns = refl

settings_need_login_example : after_status_off.settings ≡ status_off.settings
unfolding structure_step read_header transformations on_request on_set_status buffer_count
    buffer_read_data buffer_peek_data buffer_reset_peek_line buffer_advance_read_to_peek
    transfer_size read_loop peek_loop next return_permission_denied reply buffer_write_data
    write_loop buffer_space
settings_need_login_example =
    settings_need_login 3 0 status_off after_status_off status_off_returns refl

read_structure_returns_example :
    ((w' : World) × (read_structure 5 0 status_off ≡ some w') × Valid w') ⊎ Unknown 0 status_off
unfolding buffer_count
read_structure_returns_example =
    read_structure_returns 5 0 status_off
      (session-Valid header_index (1 ∷ 2 ∷ 0 ∷ 0 ∷ []) (omega arith)) (omega arith)

-- Behind a header that asks for the structure 9.
read_structure_spins_example : read_structure 100 0 (session 9 []) ≡ none
read_structure_spins_example = read_structure_spins 100 0 (session 9 []) (omega arith)

-- The text is among the media types, or is not.
matches :
    (media_type_match 100 (codes "text/html, image/*") (codes " image/png; q=1") ≡ some true)
    × (media_type_match 100 (codes "text/html, image/png") (codes "image/jpeg") ≡ some false)
    × (media_type_match 100 (codes "text/html") (codes "text/html") ≡ some true)
unfolding media_type_match match_loop switch
matches = (refl, refl, refl)

media_type_match_returns_example :
    (r : Bool) × (media_type_match 30 (codes "text/html") (codes "text/css") ≡ some r)
media_type_match_returns_example =
    media_type_match_returns 30 (codes "text/html") (codes "text/css") (omega arith) (omega arith)

media_type_match_first_example :
    media_type_match 20 (codes "text/html, image/png") (codes "text/html; charset=utf-8")
    ≡ some true
media_type_match_first_example =
    media_type_match_first 20 (codes "text") (codes "html") (codes ", image/png")
      (codes "; charset=utf-8") (omega arith)
      (refl, refl, (refl, refl, (refl, refl, (refl, refl, tt)))) (refl, (refl, (refl, (refl, tt))))
      refl refl refl

-- A session with an answer to send.
abbrev answering : World
answering = set_write_buffer (holding (2 ∷ 7 ∷ 0 ∷ [])) (session header_index [])

write_protocol_v1-Sent_example :
    Sent answering (write_protocol_v1 (λ bytes. pos (length bytes)) answering)
write_protocol_v1-Sent_example =
    write_protocol_v1-Sent (λ bytes. pos (length bytes)) answering (omega arith)

-- A session that has logged in and asks for the transformations to be switched off.
abbrev asked_to_switch_off : World
asked_to_switch_off = record status_off {
  session = record status_off.session {
    logged_in = true;
    expected_structure_index = 2;
    read_buffer = holding (0 ∷ 0 ∷ []);
  };
}

set_status_lem_example : StatusAnswer asked_to_switch_off 0 [] (transformations asked_to_switch_off)
unfolding buffer_count buffer_space next
set_status_lem_example =
    set_status_lem asked_to_switch_off 0 []
      (record { read_valid = omega arith; write_valid = omega arith }) (omega arith) refl
