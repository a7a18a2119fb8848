-- ===== src/Client/EndToEnd.antt =====
-- The client's commands, carried to the manager and back.
use proxy_server_http.Base.{
  ℕ, suc, ◌+◌, ◌≤◌, ◌<◌, ◌≡◌, refl, ap, ◌∙◌, arith, Bool, true, false, ◌||◌, List, [], ◌∷◌, ◌++◌,
  if◌then◌else◌, length, take, drop, append_assoc, some, pos, leb,
}
use proxy_server_http.Buffer.{Buffer, buffer_count, buffer_space, buffer_read_data}
use proxy_server_http.Buffer.Fifo.{IsValid, contents, length-contents, read_exact}
use proxy_server_http.Buffer.Strings.{Avoids}
use proxy_server_http.Protocol.{
  World, users, set_read_buffer, expect, header_index, login_index, ok, permission_denied,
}
use proxy_server_http.Protocol.Login.{login, name_size}
use proxy_server_http.Protocol.Reader.{read_header, structure_step, read_structure}
use proxy_server_http.Protocol.Valid.{Valid}
use proxy_server_http.Protocol.Credentials.{registered, login_lem}
use proxy_server_http.Client.{logged_in, invalid_credentials, login_command}

-- A whole header of version 1.
record Header (w : World) (index : ℕ) (rest : List ℕ) : Type 0 where
  after : Buffer
  is : read_header w ≡ (true, expect index (set_read_buffer after w))
  valid : IsValid after
  left : contents after ≡ rest

version_one-Header :
    (w : World) (index : ℕ) (rest : List ℕ)
    → Valid w
    → contents w.session.read_buffer ≡ 1 ∷ index ∷ rest
    → Header w index rest
unfolding read_header
version_one-Header w index rest v e =
    let b = w.session.read_buffer in
    let there : 2 ≤ buffer_count b = omega (arith, length-contents b, ap length e) in
    let t = read_exact b 2 v.read_valid there in
    let all : leb 2 (buffer_count b) ≡ true = ground arith in
    record {
      after = (buffer_read_data b (pos 2)).2;
      is = rw (all, t.took, ap (take 2) e);
      valid = t.valid;
      left = t.leaves ∙ ap (drop 2) e;
    }

header_waits : (w : World) → buffer_count w.session.read_buffer < 2 → read_header w ≡ (false, w)
unfolding read_header
header_waits w h =
    let few : leb 2 (buffer_count w.session.read_buffer) ≡ false = ground arith in rw few

-- What the manager has done for a login, and what the client prints for the answer alone.
pub record LoggedIn (w : World) (user password : List ℕ) (w' : World) : Type 0 where
  pub session : w'.session.logged_in ≡ (registered users user password || w.session.logged_in)
  pub code : ℕ
  pub answered : contents w'.session.write_buffer ≡ contents w.session.write_buffer ++ (code ∷ [])
  pub printed :
      (unset : ℕ)
      → (login_command user password).prints unset (code ∷ [])
        ≡ (if registered users user password then logged_in else invalid_credentials)
  pub emptied : contents w'.session.read_buffer ≡ []
  pub expects : w'.session.expected_structure_index ≡ header_index

step_header :
    (unset : ℕ) (w : World)
    → w.session.expected_structure_index ≡ header_index
    → structure_step unset w ≡ read_header w
unfolding structure_step
step_header unset w e = rw e

step_login :
    (unset : ℕ) (w : World)
    → w.session.expected_structure_index ≡ login_index
    → structure_step unset w ≡ login w
unfolding structure_step
step_login unset w e = rw e

again :
    (fuel unset : ℕ) (w w' : World)
    → structure_step unset w ≡ (true, w')
    → read_structure (suc fuel) unset w ≡ read_structure fuel unset w'
unfolding read_structure
again fuel unset w w' e = rw e

stops :
    (fuel unset : ℕ) (w w' : World)
    → structure_step unset w ≡ (false, w')
    → read_structure (suc fuel) unset w ≡ some w'
unfolding read_structure
stops fuel unset w w' e = rw e

printed_lem :
    (user password : List ℕ) (right : Bool) (unset : ℕ)
    → (login_command user password).prints unset ((if right then ok else permission_denied) ∷ [])
      ≡ (if right then logged_in else invalid_credentials)
unfolding login_command
printed_lem user password true unset = refl
printed_lem user password false unset = refl

sent_lem :
    (user password : List ℕ)
    → (login_command user password).sent ≡ 1 ∷ login_index ∷ (user ++ (0 ∷ (password ++ (0 ∷ []))))
unfolding login_command
sent_lem user password =
    ap (λ xs. 1 ∷ login_index ∷ xs) (append_assoc user (0 ∷ []) (password ++ (0 ∷ [])))

-- The manager's read buffer holds what the client sends for a login and nothing more, both buffers
-- are in range, the write buffer has room for a byte, a header is expected, and the name and the
-- password are C strings of fewer than 50 bytes. Then the manager's reader returns with three
-- rounds of fuel; the session is logged in if some user has the name and the password, and is as
-- before otherwise; the read buffer is empty and a header is expected; the answer is one more byte
-- in the write buffer, for which the client prints whether some user has the name and the password.
pub login_round_trip :
    (fuel unset : ℕ) (w : World) (user password : List ℕ)
    → Valid w
    → 0 < buffer_space w.session.write_buffer
    → w.session.expected_structure_index ≡ header_index
    → contents w.session.read_buffer ≡ (login_command user password).sent
    → Avoids 0 user
    → Avoids 0 password
    → length user < name_size
    → length password < name_size
    → (w' : World) × (read_structure (3 + fuel) unset w ≡ some w') × LoggedIn w user password w'
login_round_trip fuel unset w user password v room e h hu hp lu lp =
    let right = registered users user password in
    let t =
      version_one-Header w login_index (user ++ (0 ∷ (password ++ (0 ∷ [])))) v
        (h ∙ sent_lem user password) in
    let w1 = expect login_index (set_read_buffer t.after w) in
    let a =
      login_lem w1 user password [] (record { read_valid = t.valid; write_valid = v.write_valid })
        room t.left hu hp lu lp in
    let w2 = (login w1).1 in
    let few : buffer_count w2.session.read_buffer < 2 =
      omega (arith, ap length a.left, length-contents w2.session.read_buffer) in
    let rounds : read_structure (suc (suc (suc fuel))) unset w ≡ some w2 =
      again (suc (suc fuel)) unset w w1 (step_header unset w e ∙ t.is)
      ∙ again (suc fuel) unset w1 w2 (step_login unset w1 refl ∙ ap (λ b. (b, w2)) a.goes_on)
      ∙ stops fuel unset w2 w2 (step_header unset w2 a.expects ∙ header_waits w2 few) in
    let three : 3 + fuel ≡ suc (suc (suc fuel)) = omega arith in
    (
      w2,
      rw three rounds,
      record {
        session = a.logged_in;
        code = if right then ok else permission_denied;
        answered = a.replied;
        printed = printed_lem user password right;
        emptied = a.left;
        expects = a.expects;
      },
    )
