-- ===== src/Protocol/Access.antt =====
-- Who may change the settings.
use proxy_server_http.Base.{
  ℕ, zero, suc, ◌≡◌, refl, ◌∙◌, arith, true, false, Bool-cases, inl, inr, some, List, [], ◌∷◌,
}
use proxy_server_http.Protocol.{World, kill_socket, return_permission_denied}
use proxy_server_http.Protocol.Login.{check_users, login}
use proxy_server_http.Protocol.Metrics.{answer_metric, metrics}
use proxy_server_http.Protocol.Transformations.{
  on_set_status, on_get, on_set, on_request, transformations,
}
use proxy_server_http.Protocol.Reader.{read_header, structure_step, read_structure}

-- What a handler leaves alone in a session that has not logged in.
record Harmless (w w' : World) : Type 0 where
  same_settings : w'.settings ≡ w.settings
  same_login : w'.session.logged_in ≡ w.session.logged_in

settings-check_users :
    (us : List (List ℕ × List ℕ)) (u p : List ℕ) (w : World)
    → (check_users us u p w).settings ≡ w.settings
unfolding check_users
settings-check_users [] u p w = refl
settings-check_users ((n, s) ∷ us) u p w = ground (arith, settings-check_users us u p w)

login-check_users :
    (us : List (List ℕ × List ℕ)) (u p : List ℕ) (w : World)
    → w.session.logged_in ≡ true
    → (check_users us u p w).session.logged_in ≡ true
unfolding check_users
login-check_users [] u p w h = ground arith
login-check_users ((n, s) ∷ us) u p w h = ground (arith, login-check_users us u p w)

settings-login : (w : World) → (login w).1.settings ≡ w.settings
unfolding login
settings-login w = grind (arith, settings-check_users)

login-login : (w : World) → w.session.logged_in ≡ true → (login w).1.session.logged_in ≡ true
unfolding login
login-login w h = grind (arith, login-check_users)

Harmless-metrics : (unset : ℕ) (w : World) → Harmless w (metrics unset w).1
unfolding metrics answer_metric return_permission_denied
Harmless-metrics unset w = ground arith

Harmless-on_set_status : (w : World) → w.session.logged_in ≡ false → Harmless w (on_set_status w).1
unfolding on_set_status
Harmless-on_set_status w h = ground arith

Harmless-on_request :
    (type : ℕ) (w : World) → w.session.logged_in ≡ false → Harmless w (on_request type w).1
unfolding on_request on_set_status on_get on_set kill_socket
Harmless-on_request type w h = ground arith

Harmless-transformations :
    (w : World) → w.session.logged_in ≡ false → Harmless w (transformations w).1
unfolding transformations on_request on_set_status on_get on_set kill_socket
Harmless-transformations w h = ground arith

Harmless-read_header : (w : World) → Harmless w (read_header w).1
unfolding read_header
Harmless-read_header w = ground arith

login-on_request :
    (type : ℕ) (w : World) → (on_request type w).1.session.logged_in ≡ w.session.logged_in
unfolding on_request on_set_status on_get on_set kill_socket
login-on_request type w = ground arith

login-transformations : (w : World) → (transformations w).1.session.logged_in ≡ w.session.logged_in
unfolding transformations on_request on_set_status on_get on_set kill_socket
login-transformations w = ground arith

-- A session that has logged in stays so.
login-structure_step :
    (unset : ℕ) (w : World)
    → w.session.logged_in ≡ true
    → (structure_step unset w).1.session.logged_in ≡ true
unfolding structure_step
login-structure_step unset w h = ground (
  arith,
  login-login w h,
  Harmless-metrics unset w,
  login-transformations w,
  Harmless-read_header w,
)

-- One round of the reader leaves the settings of a session that has not logged in.
settings-structure_step :
    (unset : ℕ) (w : World)
    → w.session.logged_in ≡ false
    → (structure_step unset w).1.settings ≡ w.settings
unfolding structure_step
settings-structure_step unset w h = ground (
  arith,
  settings-login w,
  Harmless-metrics unset w,
  Harmless-transformations w h,
  Harmless-read_header w,
)

logged_in-read_structure :
    (fuel unset : ℕ) (w w' : World)
    → read_structure fuel unset w ≡ some w'
    → w.session.logged_in ≡ true
    → w'.session.logged_in ≡ true
unfolding read_structure
logged_in-read_structure zero unset w w' e h = absurd (cc)
logged_in-read_structure (suc fuel) unset w w' e h = ground (
  arith,
  login-structure_step unset w h,
  logged_in-read_structure fuel unset (structure_step unset w).1 w',
)

started_out :
    (fuel unset : ℕ) (w w' : World)
    → read_structure fuel unset w ≡ some w'
    → w'.session.logged_in ≡ false
    → w.session.logged_in ≡ false
started_out fuel unset w w' e h = ground (arith, logged_in-read_structure fuel unset w w' e)

-- If the reader returns and the session is then not logged in, the settings are as before, whatever
-- bytes were read.
pub settings_need_login :
    (fuel unset : ℕ) (w w' : World)
    → read_structure fuel unset w ≡ some w'
    → w'.session.logged_in ≡ false
    → w'.settings ≡ w.settings
unfolding read_structure
settings_need_login zero unset w w' e h = absurd (cc)
settings_need_login (suc fuel) unset w w' e h =
    let same = settings-structure_step unset w (started_out (suc fuel) unset w w' e h) in
    elim (Bool-cases (structure_step unset w).0) [
      | inl again ↦
          settings_need_login fuel unset (structure_step unset w).1 w' (rw again at e) h ∙ same
      | inr done ↦ ground (arith, same, done)
    ]
