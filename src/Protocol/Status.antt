-- ===== src/Protocol/Status.antt =====
-- What `transformations` does with a whole request to set the status.
use proxy_server_http.Base.{
  ℕ, ◌≤◌, ◌<◌, ◌≡◌, ap, ◌∙◌, arith, Bool, true, ◌&&◌, ◌||◌, ◌==◌, leb, List, [], ◌∷◌, ◌++◌,
  if◌then◌else◌, length, take, drop, pos,
}
use proxy_server_http.Buffer.{
  Buffer, buffer_count, buffer_space, buffer_read_data, buffer_reset_peek_line,
  buffer_advance_read_to_peek,
}
use proxy_server_http.Buffer.Window.{advance}
use proxy_server_http.Buffer.Fifo.{IsValid, contents, length-contents, read_exact}
use proxy_server_http.Buffer.Peek.{peek_data_lem, peek_data-PeekAt, advance_read_to_peek-Took}
use proxy_server_http.Protocol.{
  World, set_read_buffer, header_index, ok, permission_denied, return_ok, return_permission_denied,
}
use proxy_server_http.Protocol.Transformations.{
  on_set_status, on_request, transformations, set_status,
}
use proxy_server_http.Protocol.Valid.{Valid, Scanned, reset-Scanned, contents-peek_line}
use proxy_server_http.Protocol.Credentials.{write_byte}

-- Whether a status is taken.
abbrev pub accepted : World → ℕ → Bool
accepted w status = w.session.logged_in && (status == 1 || status == 0)

pub record StatusAnswer (w : World) (status : ℕ) (rest : List ℕ) (r : Bool × World) : Type 0 where
  pub goes_on : r.0 ≡ true
  pub stored : r.1.settings ≡ (
      if accepted w status then record w.settings { transformation_state = status } else w.settings)
  pub replied :
      contents r.1.session.write_buffer
      ≡ contents w.session.write_buffer
        ++ ((if accepted w status then ok else permission_denied) ∷ [])
  pub left : contents r.1.session.read_buffer ≡ rest
  pub expects : r.1.session.expected_structure_index ≡ header_index
  pub same_login : r.1.session.logged_in ≡ w.session.logged_in

-- The bytes of the request, taken.
record StatusTaken (w : World) (b : Buffer) (status : ℕ) (rest : List ℕ) : Type 0 where
  two : leb 2 (buffer_count b) ≡ true
  byte : (buffer_read_data (buffer_advance_read_to_peek b) (pos 1)).1 ≡ status ∷ []
  left : contents (buffer_read_data (buffer_advance_read_to_peek b) (pos 1)).2 ≡ rest

status-Taken :
    (w : World) (b : Buffer) (status : ℕ) (rest : List ℕ)
    → Scanned w b 1
    → contents w.session.read_buffer ≡ set_status ∷ status ∷ rest
    → StatusTaken w b status rest
status-Taken w b status rest s e =
    let held = s.same_contents ∙ e in
    let t = advance_read_to_peek-Took s.at in
    let b2 = buffer_advance_read_to_peek b in
    let next = t.leaves ∙ ap (drop 1) held in
    let there : 1 ≤ buffer_count b2 = omega (arith, ap length next, length-contents b2) in
    let two : 2 ≤ buffer_count b = omega (arith, ap length held, length-contents b) in
    let u = read_exact b2 1 t.valid there in
    record {
      two = ground arith;
      byte = u.took ∙ ap (take 1) next;
      left = u.leaves ∙ ap (drop 1) next;
    }

on_set_status-StatusAnswer :
    (w : World) (b : Buffer) (status : ℕ) (rest : List ℕ)
    → IsValid w.session.write_buffer
    → 0 < buffer_space w.session.write_buffer
    → StatusTaken w b status rest
    → StatusAnswer w status rest (on_set_status (set_read_buffer b w))
unfolding on_set_status return_ok return_permission_denied
on_set_status-StatusAnswer w b status rest v room t =
    let yes = write_byte w.session.write_buffer ok v room in
    let no = write_byte w.session.write_buffer permission_denied v room in
    rw (t.two, t.byte) (ground (arith, yes, no, t.left))

-- Both buffers are in range, the write buffer has room for a byte, and the read buffer starts with
-- the type of a request to set the status and with a byte for it. Then `transformations` goes on
-- with both bytes taken off the read buffer. Where the session is logged in and the byte is 0 or 1,
-- it is the new status and the answer is `OK`; otherwise the settings stay and the answer is
-- `PERMISSION_DENIED`. The answer is one more byte in the write buffer, a header is expected, and
-- the login stays.
pub set_status_lem :
    (w : World) (status : ℕ) (rest : List ℕ)
    → Valid w
    → 0 < buffer_space w.session.write_buffer
    → contents w.session.read_buffer ≡ set_status ∷ status ∷ rest
    → StatusAnswer w status rest (transformations w)
unfolding transformations on_request
set_status_lem w status rest v room e =
    let b = buffer_reset_peek_line w.session.read_buffer in
    let s = reset-Scanned w v in
    let held = s.same_contents ∙ e in
    let one : 1 ≤ buffer_count b = omega (arith, ap length held, length-contents b) in
    let some_byte : leb 1 (buffer_count b) ≡ true = ground arith in
    let b1 = record b { peek_line = advance b.peek_line 1 } in
    let s1 : Scanned w b1 1 = record {
      at = peek_data-PeekAt 1 s.at one;
      same_contents = contents-peek_line b (advance b.peek_line 1) ∙ s.same_contents;
    } in
    rw (some_byte, peek_data_lem 1 s.at one, ap (take 1) held)
      (on_set_status-StatusAnswer w b1 status rest v.write_valid room
        (status-Taken w b1 status rest s1 e))
