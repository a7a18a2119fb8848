-- ===== src/Protocol/Credentials.antt =====
-- What `login` does with a name and a password that have come whole.
use proxy_server_http.Base.{
  ℕ, suc, ◌<◌, min, ◌≡◌, refl, ap, ◌∙◌, arith, Bool, true, false, List, [], ◌∷◌, ◌++◌, ◌&&◌, ◌||◌,
  if◌then◌else◌, length, pos, lt→ltb, ge→ltb, inl, inr, Bool-cases,
}
use proxy_server_http.Buffer.{
  Buffer, buffer_space, buffer_write_data, buffer_peek_until_null, buffer_advance_read_to_peek,
}
use proxy_server_http.Buffer.Fifo.{IsValid, contents, write_data-Wrote}
use proxy_server_http.Buffer.Peek.{advance_read_to_peek-Took}
use proxy_server_http.Buffer.Strings.{Avoids, peek_line_lem}
use proxy_server_http.Settings.{codes}
use proxy_server_http.Protocol.{
  World, users, set_read_buffer, expect, return_permission_denied, c_string, str_eq, header_index,
  op_write, ok, permission_denied,
}
use proxy_server_http.Protocol.Login.{check_password, check_users, login, name_size}
use proxy_server_http.Protocol.Valid.{Valid, reset-Scanned}

-- Whether some user has this name and this password.
abbrev pub registered : List (List ℕ × List ℕ) → List ℕ → List ℕ → Bool
registered [] u p = false
registered ((n, s) ∷ us) u p = (str_eq n u && str_eq s p) || registered us u p

-- The answer that a session gives: what follows in its write buffer, and what it expects next.
pub record Answer (right : Bool) (w w' : World) : Type 0 where
  pub login : w'.session.logged_in ≡ (right || w.session.logged_in)
  pub replied :
      contents w'.session.write_buffer
      ≡ contents w.session.write_buffer ++ ((if right then ok else permission_denied) ∷ [])
  pub expects : w'.session.expected_structure_index ≡ header_index
  pub same_read : w'.session.read_buffer ≡ w.session.read_buffer
  pub same_settings : w'.settings ≡ w.settings
  pub watches : w'.interest ≡ (if w.registered then op_write else w.interest)

-- A byte goes into a write buffer that has room.
pub write_byte :
    (b : Buffer) (x : ℕ)
    → IsValid b
    → 0 < buffer_space b
    → contents (buffer_write_data b (x ∷ []) (pos 1)).1 ≡ contents b ++ (x ∷ [])
write_byte b x v h =
    let (e, w) = write_data-Wrote b (x ∷ []) 1 v (omega arith) in
    let one : min 1 (buffer_space b) ≡ 1 = omega arith in w.holds ∙ rw one

check_password-Answer :
    (right : Bool) (w : World)
    → IsValid w.session.write_buffer
    → 0 < buffer_space w.session.write_buffer
    → Answer right w (check_password right w)
unfolding check_password
check_password-Answer right w v h =
    let room = ge→ltb (buffer_space w.session.write_buffer) 1 h in
    ground
      (arith, room, write_byte w.session.write_buffer (if right then ok else permission_denied) v h)

denied-Answer :
    (w : World)
    → IsValid w.session.write_buffer
    → 0 < buffer_space w.session.write_buffer
    → Answer false w (expect header_index (return_permission_denied w))
unfolding return_permission_denied
denied-Answer w v h = ground (arith, write_byte w.session.write_buffer permission_denied v h)

str_eq→≡ : (s t : List ℕ) → str_eq s t ≡ true → s ≡ t
str_eq→≡ [] [] h = refl
str_eq→≡ [] (y ∷ t) h = absurd (cc)
str_eq→≡ (x ∷ s) [] h = absurd (cc)
str_eq→≡ (x ∷ s) (y ∷ t) h = ground (arith, str_eq→≡ s t)

-- No name goes to two users.
names_differ : (u : List ℕ) → str_eq (codes "fastiz") u ≡ true → str_eq (codes "eze") u ≡ false
names_differ u h = rw (← str_eq→≡ (codes "fastiz") u h)

or-false : (b : Bool) → (b || false) ≡ b
or-false true = refl
or-false false = refl

two_users :
    (n s n' s' u p : List ℕ) (w : World)
    → (str_eq n u ≡ true → str_eq n' u ≡ false)
    → IsValid w.session.write_buffer
    → 0 < buffer_space w.session.write_buffer
    → Answer
        (registered ((n, s) ∷ (n', s') ∷ []) u p)
        w
        (check_users ((n, s) ∷ (n', s') ∷ []) u p w)
unfolding check_users
two_users n s n' s' u p w differ v h = elim (Bool-cases (str_eq n u)) [
  | inl first ↦
      rw (first, differ first)
        (rw (or-false (str_eq s p)) (check_password-Answer (str_eq s p) w v h))
  | inr not_first ↦ elim (Bool-cases (str_eq n' u)) [
    | inl second ↦
        rw (not_first, second)
          (rw (or-false (str_eq s' p)) (check_password-Answer (str_eq s' p) w v h))
    | inr neither ↦ rw (not_first, neither) (denied-Answer w v h)
  ]
]

pub c_string-append : (u rest : List ℕ) → Avoids 0 u → c_string (u ++ (0 ∷ rest)) ≡ u
c_string-append [] rest h = refl
c_string-append (x ∷ u) rest h = rw (h.0, c_string-append u rest h.1)

check_users-Answer :
    (u p : List ℕ) (w : World)
    → IsValid w.session.write_buffer
    → 0 < buffer_space w.session.write_buffer
    → Answer (registered users u p) w (check_users users u p w)
check_users-Answer u p w =
    two_users (codes "fastiz") (codes "12345") (codes "eze") (codes "12345") u p w (names_differ u)

-- What a login request is answered, and what is left to read.
pub record LoginAnswer (w : World) (u p rest : List ℕ) (r : Bool × World) : Type 0 where
  pub goes_on : r.0 ≡ true
  pub logged_in : r.1.session.logged_in ≡ (registered users u p || w.session.logged_in)
  pub replied :
      contents r.1.session.write_buffer
      ≡ contents w.session.write_buffer
        ++ ((if registered users u p then ok else permission_denied) ∷ [])
  pub left : contents r.1.session.read_buffer ≡ rest
  pub expects : r.1.session.expected_structure_index ≡ header_index
  pub same_settings : r.1.settings ≡ w.settings
  pub watches : r.1.interest ≡ (if w.registered then op_write else w.interest)

-- Both buffers are in range, the write buffer has room for a byte, and the read buffer starts with
-- a name and a password, C strings of fewer than 50 bytes. Then `login` goes on with both taken off
-- the read buffer. The session is logged in if some user has the name and the password, and is as
-- before otherwise; the answer is the byte `OK` or `PERMISSION_DENIED` accordingly, behind what the
-- write buffer held. The settings stay, a header is expected, and a registered socket is watched
-- for writing.
pub login_lem :
    (w : World) (u p rest : List ℕ)
    → Valid w
    → 0 < buffer_space w.session.write_buffer
    → contents w.session.read_buffer ≡ u ++ (0 ∷ (p ++ (0 ∷ rest)))
    → Avoids 0 u
    → Avoids 0 p
    → length u < name_size
    → length p < name_size
    → LoginAnswer w u p rest (login w)
unfolding login buffer_peek_until_null
login_lem w u p rest v room e hu hp lu lp =
    let s = reset-Scanned w v in
    let f = peek_line_lem 0 name_size u (p ++ (0 ∷ rest)) s.at (s.same_contents ∙ e) hu lu in
    let g = peek_line_lem 0 name_size p rest f.at f.left hp lp in
    let b = buffer_advance_read_to_peek g.after in
    let t = advance_read_to_peek-Took g.at in
    let a = check_users-Answer u p (set_read_buffer b w) v.write_valid room in
    rw
      (
        f.is,
        g.is,
        c_string-append u (0 ∷ []) hu,
        c_string-append p (0 ∷ []) hp,
        lt→ltb 0 (suc (length u)) (omega arith),
        lt→ltb 0 (suc (length p)) (omega arith),
      )
      (record {
        goes_on = refl;
        logged_in = a.login;
        replied = a.replied;
        left = ap contents a.same_read ∙ t.leaves ∙ g.left;
        expects = a.expects;
        same_settings = a.same_settings;
        watches = a.watches;
      })
