-- ===== src/Client/TypedLogin.antt =====
-- A typed login, carried to the manager and back.
use proxy_server_http.Base.{ℕ, ◌+◌, ◌<◌, ◌≡◌, refl, true, List, [], ◌∷◌, ◌++◌, length, some}
use proxy_server_http.Buffer.{buffer_space}
use proxy_server_http.Buffer.Fifo.{contents}
use proxy_server_http.Buffer.Strings.{Avoids}
use proxy_server_http.Settings.{codes}
use proxy_server_http.Protocol.{World, header_index}
use proxy_server_http.Protocol.Login.{name_size}
use proxy_server_http.Protocol.Reader.{read_structure}
use proxy_server_http.Protocol.Valid.{Valid}
use proxy_server_http.Chunked.{is_space}
use proxy_server_http.Scan.{scan_word}
use proxy_server_http.Scan.Spans.{Without, scan_until-append}
use proxy_server_http.Request.FirstLine.{IsWord}
use proxy_server_http.Client.{login_command}
use proxy_server_http.Client.Typed.{typed_login, find_command}
use proxy_server_http.Client.EndToEnd.{LoggedIn, login_round_trip}

-- The line that asks for a login.
abbrev pub login_line : List ℕ → List ℕ → List ℕ
login_line user password = codes "login " ++ (user ++ (b' ' ∷ (password ++ (b'\n' ∷ []))))

-- A word behind a space, up to a space.
scan_word-append :
    (c : ℕ) (u rest : List ℕ) (stop : ℕ)
    → Without is_space (c ∷ u)
    → is_space stop ≡ true
    → scan_word (b' ' ∷ c ∷ u ++ (stop ∷ rest)) ≡ some (c ∷ u, stop ∷ rest)
unfolding scan_word
scan_word-append c u rest stop h e = rw h.0 (scan_until-append is_space c u (stop ∷ rest) h e)

login_line-typed :
    (user password : List ℕ)
    → IsWord user
    → IsWord password
    → typed_login (login_line user password) ≡ some (login_command user password)
unfolding typed_login
login_line-typed [] password hu hp = absurd hu
login_line-typed (u ∷ us) [] hu hp = absurd hp
login_line-typed (u ∷ us) (p ∷ ps) hu hp = rw (
  scan_word-append u us (p ∷ ps ++ (b'\n' ∷ [])) b' ' hu refl,
  scan_word-append p ps [] b'\n' hp refl,
)

find_command-login :
    (user password : List ℕ)
    → IsWord user
    → IsWord password
    → find_command (login_line user password) ≡ some (login_command user password)
unfolding find_command
find_command-login user password hu hp = rw (login_line-typed user password hu hp) refl

-- A name and a password are words of fewer than 50 bytes, none of them null. Then the line that has
-- the two behind `login` asks for their login. Where the manager's read buffer holds what the
-- client sends for that and nothing more, both buffers are in range, the write buffer has room for
-- a byte, and a header is expected, the manager's reader returns with three rounds of fuel; the
-- session is logged in if some user has the name and the password, and is as before otherwise; the
-- read buffer is empty and a header is expected; the answer is one more byte in the write buffer,
-- for which the client prints whether some user has the name and the password.
pub typed_login_round_trip :
    (fuel unset : ℕ) (w : World) (user password : List ℕ)
    → IsWord user
    → IsWord password
    → Avoids 0 user
    → Avoids 0 password
    → length user < name_size
    → length password < name_size
    → Valid w
    → 0 < buffer_space w.session.write_buffer
    → w.session.expected_structure_index ≡ header_index
    → contents w.session.read_buffer ≡ (login_command user password).sent
    → (find_command (login_line user password) ≡ some (login_command user password))
      × ((w' : World) × (read_structure (3 + fuel) unset w ≡ some w') × LoggedIn w user password w')
typed_login_round_trip fuel unset w user password hu hp au ap' lu lp v room e h = (
  find_command-login user password hu hp,
  login_round_trip fuel unset w user password v room e h au ap' lu lp,
)
