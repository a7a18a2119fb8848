-- ===== src/Protocol/Requests.antt =====
-- What `transformations` does to the two buffers.
use proxy_server_http.Base.{
  ℕ, ◌≤◌, ◌≡◌, refl, ap, ◌∙◌, arith, false, Bool-cases, inl, inr, List, [], ◌∷◌, if◌then◌else◌,
  ◌==◌, length, pos, leb, leb→le, take, ◌++◌, ◌||◌,
}
use proxy_server_http.Buffer.{
  Buffer, buffer_count, buffer_read_data, buffer_peek_data, buffer_peek_until_null,
  buffer_reset_peek_line, buffer_advance_read_to_peek,
}
use proxy_server_http.Buffer.Window.{advance}
use proxy_server_http.Buffer.Fifo.{IsValid, read_exact, length-contents}
use proxy_server_http.Buffer.Peek.{
  advance_read_to_peek-Took, unscanned, peek_data_lem, peek_data-PeekAt,
}
use proxy_server_http.Buffer.Outcomes.{peek_outcomes}
use proxy_server_http.Protocol.{
  World, set_read_buffer, kill_socket, reply, return_permission_denied, return_ok, c_string,
  byte_at,
}
use proxy_server_http.Protocol.Transformations.{
  on_set_status, on_get, on_set, on_request, transformations, argument_size, is_minus_one,
  status_bytes, media_bytes, command_bytes, store_media_types, store_command,
}
use proxy_server_http.Settings.{Settings}
use proxy_server_http.Protocol.Valid.{
  Valid, Answered, Handled, Scanned, reply-Answered, waiting-Took, contents-peek_line,
  reset-Scanned, Found-Scanned, reset-Handled, advance-Handled, Found-positive, Missed-positive,
}
use proxy_server_http.Protocol.Progress.{denied-Answered, return_ok-Answered}

-- What `transformations` finds where it has peeked the request's type.
peeked-Scanned :
    {w : World} {b : Buffer}
    → Scanned w b 0
    → 1 ≤ buffer_count b
    → Scanned w (buffer_peek_data b (pos 1)).2 1
peeked-Scanned {w} {b} s h = rw (peek_data_lem 1 s.at h) (record {
  at = peek_data-PeekAt 1 s.at h;
  same_contents = contents-peek_line b (advance b.peek_line 1) ∙ s.same_contents;
})

get_answer-Answered :
    (bytes : List ℕ) (w : World)
    → IsValid w.session.write_buffer
    → Answered w (
        if w.session.logged_in
        then reply bytes (length bytes) (return_ok w)
        else return_permission_denied w)
get_answer-Answered bytes w v =
    let a = return_ok-Answered w v in
    ground (
      arith,
      a,
      reply-Answered bytes (length bytes) (return_ok w) a.write_valid (omega arith),
      denied-Answered w v,
    )

on_get-Handled :
    (value : Settings → List ℕ) (w0 w : World)
    → Valid w0
    → w.session.write_buffer ≡ w0.session.write_buffer
    → Scanned w0 w.session.read_buffer 1
    → Handled w0 (on_get value w)
unfolding on_get
on_get-Handled value w0 w v e s =
    let w' = set_read_buffer (buffer_advance_read_to_peek w.session.read_buffer) w in
    let a = get_answer-Answered (value w'.settings) w' (rw e v.write_valid) in
    advance-Handled w' _ v s (omega arith) refl
      (record { same_read = a.same_read; write_valid = a.write_valid })

set_answer-Answered :
    (settings : Settings) (w : World)
    → IsValid w.session.write_buffer
    → Answered w (
        if w.session.logged_in
        then return_ok (record w { settings = settings })
        else return_permission_denied w)
set_answer-Answered settings w v =
    let a = return_ok-Answered (record w { settings = settings }) v in
    ground (arith, a, denied-Answered w v)

on_set-Handled :
    (store : List ℕ → Settings → Settings) (w0 w : World)
    → Valid w0
    → w.session.write_buffer ≡ w0.session.write_buffer
    → Scanned w0 w.session.read_buffer 1
    → Handled w0 (on_set store w)
unfolding on_set buffer_peek_until_null
on_set-Handled store w0 w v e s = elim (peek_outcomes 0 argument_size s.at) [
  | inl (k, f) ↦
      rw (f.is, Found-positive 0 argument_size k f)
        (let b = w.session.read_buffer in
          let w3 =
            set_read_buffer
              (buffer_advance_read_to_peek (record b { peek_line = advance b.peek_line k })) w in
          let text = c_string (take k (unscanned b 1) ++ (0 ∷ [])) in
          let a = set_answer-Answered (store text w.settings) w3 (rw e v.write_valid) in
          advance-Handled w3 _ v (Found-Scanned 0 argument_size k s f) (omega arith) refl
            (record { same_read = a.same_read; write_valid = a.write_valid }))
  | inr f ↦
      rw (f.is, Missed-positive 0 argument_size f)
        (reset-Handled (if is_minus_one f.ret then kill_socket w else w) v s (ground arith))
]

status_answer-Answered :
    (status : ℕ) (w : World)
    → IsValid w.session.write_buffer
    → Answered w (
        if w.session.logged_in
        then (if status == 1 || status == 0
            then return_ok
                (record w { settings = record w.settings { transformation_state = status } })
            else return_permission_denied w)
        else return_permission_denied w)
status_answer-Answered status w v = ground (
  arith,
  return_ok-Answered (record w { settings = record w.settings { transformation_state = status } })
      v,
  denied-Answered w v,
)

-- The type and the status are read one after the other, which is as good as at once.
on_set_status-Handled :
    (w0 w : World)
    → Valid w0
    → w.session.write_buffer ≡ w0.session.write_buffer
    → Scanned w0 w.session.read_buffer 1
    → Handled w0 (on_set_status w)
unfolding on_set_status
on_set_status-Handled w0 w v e s =
    let b = w.session.read_buffer in
    let t = advance_read_to_peek-Took s.at in
    elim (Bool-cases (leb 2 (buffer_count b))) [
      | inl there ↦ rw there (
          let two = leb→le 2 (buffer_count b) there in
          let left = waiting-Took 1 t in
          let b1 = buffer_advance_read_to_peek b in
          let one : 1 ≤ buffer_count b1 = omega (arith, left, two) in
          let r = read_exact b1 1 t.valid one in
          let w' = set_read_buffer (buffer_read_data b1 (pos 1)).2 w in
          let a =
            status_answer-Answered (byte_at 0 (buffer_read_data b1 (pos 1)).1) w'
              (rw e v.write_valid) in
          record {
            valid = record { read_valid = rw a.same_read r.valid; write_valid = a.write_valid };
            progress = λ x. rw a.same_read (
                omega (
                  arith,
                  waiting-Took 1 r,
                  left,
                  ap length s.same_contents,
                  length-contents b,
                  length-contents w0.session.read_buffer,
                ));
            unread = λ x. absurd (cc);
          })
      | inr short ↦ rw short (reset-Handled w v s e)
    ]

killed-Handled :
    (w0 w : World)
    → Valid w0
    → w.session.write_buffer ≡ w0.session.write_buffer
    → Scanned w0 w.session.read_buffer 1
    → Handled w0 (false, kill_socket w)
unfolding kill_socket
killed-Handled w0 w v e s = record {
  valid = record { read_valid = s.at.valid; write_valid = rw e v.write_valid };
  progress = λ x. absurd (cc);
  unread = λ x. s.same_contents;
}

on_request-Handled :
    (type : ℕ) (w0 w : World)
    → Valid w0
    → w.session.write_buffer ≡ w0.session.write_buffer
    → Scanned w0 w.session.read_buffer 1
    → Handled w0 (on_request type w)
unfolding on_request
on_request-Handled type w0 w v e s = ground (
  arith,
  on_set_status-Handled w0 w v e s,
  on_get-Handled status_bytes w0 w v e s,
  on_get-Handled media_bytes w0 w v e s,
  on_get-Handled command_bytes w0 w v e s,
  on_set-Handled store_media_types w0 w v e s,
  on_set-Handled store_command w0 w v e s,
  killed-Handled w0 w v e s,
)

pub transformations-Handled : (w : World) → Valid w → Handled w (transformations w)
unfolding transformations buffer_reset_peek_line
transformations-Handled w v =
    let b = buffer_reset_peek_line w.session.read_buffer in
    let s = reset-Scanned w v in
    elim (Bool-cases (leb 1 (buffer_count b))) [
      | inl there ↦
          rw there
            (on_request-Handled _ w _ v refl (peeked-Scanned s (leb→le 1 (buffer_count b) there)))
      | inr short ↦ rw short (reset-Handled w v s refl)
    ]
