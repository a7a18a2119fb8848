-- ===== src/Protocol/Valid.antt =====
-- What a handler does to the two buffers of a session.
use proxy_server_http.Base.{
  ℕ, ◌+◌, ◌-◌, ◌≤◌, ◌<◌, ◌≡◌, refl, ap, ◌∙◌, arith, Bool, true, false, inl, inr, ◌⊎◌, List, [], ◌∷◌,
  if◌then◌else◌, length, pos, negsuc, length-drop, ℤ, lt→ltb,
}
use proxy_server_http.Buffer.{
  Buffer, buffer_count, buffer_write_data, buffer_peek_until_null, buffer_reset_peek_line,
  buffer_advance_read_to_peek,
}
use proxy_server_http.Buffer.Window.{advance}
use proxy_server_http.Buffer.Fifo.{IsValid, Took, write_data-Wrote, contents, length-contents}
use proxy_server_http.Buffer.Peek.{
  PeekAt, reset-PeekAt, found-PeekAt, advance_read_to_peek-Took, line_length_bounds, unscanned,
}
use proxy_server_http.Buffer.Outcomes.{Found, Missed, peek_outcomes}
use proxy_server_http.Protocol.{World, users, set_read_buffer, reply, str_eq, positive}
use proxy_server_http.Protocol.Login.{check_password, check_users, login, name_size}

-- Both buffers are well formed.
pub record Valid (w : World) : Type 0 where
  pub read_valid : IsValid w.session.read_buffer
  pub write_valid : IsValid w.session.write_buffer

-- The number of bytes that wait to be read.
abbrev pub waiting : World → ℕ
waiting w = buffer_count w.session.read_buffer

-- What a handler does that answers: it leaves the read buffer alone.
pub record Answered (w w' : World) : Type 0 where
  pub same_read : w'.session.read_buffer ≡ w.session.read_buffer
  pub write_valid : IsValid w'.session.write_buffer

pub write_data-IsValid :
    (b : Buffer) (bytes : List ℕ) (size : ℕ)
    → IsValid b
    → size ≤ length bytes
    → IsValid (buffer_write_data b bytes (pos size)).1
write_data-IsValid b bytes size v h = (write_data-Wrote b bytes size v h).1.valid

pub reply-Answered :
    (bytes : List ℕ) (size : ℕ) (w : World)
    → IsValid w.session.write_buffer
    → size ≤ length bytes
    → Answered w (reply bytes size w)
unfolding reply
reply-Answered bytes size w v h = record {
  same_read = refl;
  write_valid = write_data-IsValid w.session.write_buffer bytes size v h;
}

check_password-Answered :
    (right : Bool) (w : World)
    → IsValid w.session.write_buffer
    → Answered w (check_password right w)
unfolding check_password
check_password-Answered right w v =
    ground (arith, write_data-IsValid w.session.write_buffer ((if right then 2 else 0) ∷ []) 1 v)

check_users-Answered :
    (us : List (List ℕ × List ℕ)) (u p : List ℕ) (w : World)
    → IsValid w.session.write_buffer
    → Answered w (check_users us u p w)
unfolding check_users
check_users-Answered [] u p w v =
    ground (arith, write_data-IsValid w.session.write_buffer (0 ∷ []) 1 v)
check_users-Answered ((n, s) ∷ us) u p w v =
    ground (arith, check_users-Answered us u p w v, check_password-Answered (str_eq s p) w v)

-- What a handler leaves, and how it answers: one that goes on has taken bytes, one that waits has
-- taken none.
pub record Handled (w : World) (r : Bool × World) : Type 0 where
  pub valid : Valid r.1
  pub progress : r.0 ≡ true → waiting r.1 < waiting w
  pub unread : r.0 ≡ false → contents r.1.session.read_buffer ≡ contents w.session.read_buffer

pub waiting-Took :
    {b b' : Buffer} {bytes : List ℕ} (n : ℕ)
    → Took b n bytes b'
    → buffer_count b' ≡ buffer_count b - n
waiting-Took {b} {b'} n t =
    omega
      (arith, ap length t.leaves, length-drop n (contents b), length-contents b, length-contents b')

-- A session whose scans are at the `m`th byte.
pub record Scanned (w : World) (b : Buffer) (m : ℕ) : Type 0 where
  pub at : PeekAt b m
  pub same_contents : contents b ≡ contents w.session.read_buffer

pub contents-peek_line : (b : Buffer) (j : ℕ) → contents (record b { peek_line = j }) ≡ contents b
unfolding buffer_count
contents-peek_line b j = refl

pub reset-Scanned :
    (w : World) → Valid w → Scanned w (buffer_reset_peek_line w.session.read_buffer) 0
reset-Scanned w v = record {
  at = reset-PeekAt v.read_valid;
  same_contents =
      unfold buffer_reset_peek_line in
      contents-peek_line w.session.read_buffer w.session.read_buffer.read;
}

pub Found-Scanned :
    {w : World} {b : Buffer} {m : ℕ} (d size k : ℕ)
    → Scanned w b m
    → Found d size b m k
    → Scanned w (record b { peek_line = advance b.peek_line k }) (m + k)
Found-Scanned {w} {b} {m} d size k s f = record {
  at = found-PeekAt d k s.at f.line;
  same_contents = contents-peek_line b (advance b.peek_line k) ∙ s.same_contents;
}

-- A handler that gives up a scan puts the position back.
pub reset-Handled :
    {w : World} {b : Buffer} {m : ℕ} (w' : World)
    → Valid w
    → Scanned w b m
    → w'.session.write_buffer ≡ w.session.write_buffer
    → Handled w (false, set_read_buffer (buffer_reset_peek_line b) w')
unfolding buffer_reset_peek_line
reset-Handled {w} {b} w' v s e = record {
  valid = record { read_valid = (reset-PeekAt s.at.valid).valid; write_valid = rw e v.write_valid };
  progress = λ x. absurd (cc);
  unread = λ x. contents-peek_line b b.read ∙ s.same_contents;
}

-- A handler that takes what was scanned, and answers.
pub advance-Handled :
    {w : World} {b : Buffer} {m : ℕ} (w1 w2 : World)
    → Valid w
    → Scanned w b m
    → 0 < m
    → w1.session.read_buffer ≡ buffer_advance_read_to_peek b
    → Answered w1 w2
    → Handled w (true, w2)
advance-Handled {w} {b} {m} w1 w2 v s h e a =
    let t = advance_read_to_peek-Took s.at in
    record {
      valid = record { read_valid = rw (a.same_read, e) t.valid; write_valid = a.write_valid };
      progress = λ x.
          rw (a.same_read, e)
            (omega (
              arith,
              waiting-Took m t,
              ap length s.same_contents,
              length-contents b,
              length-contents w.session.read_buffer,
              s.at.held,
            ));
      unread = λ x. absurd (cc);
    }

not_positive-positive : (r : ℤ) → (r ≡ pos 0) ⊎ (r ≡ negsuc 0) → positive r ≡ false
not_positive-positive r h = ground arith

pub Found-positive :
    {b : Buffer} {m : ℕ} (d size k : ℕ) → Found d size b m k → positive (pos k) ≡ true
Found-positive {b} {m} d size k f = lt→ltb 0 k (line_length_bounds d (unscanned b m) k f.line).0

pub Missed-positive :
    {b : Buffer} {m : ℕ} (d size : ℕ) (f : Missed d size b m) → positive f.ret ≡ false
Missed-positive d size f = not_positive-positive f.ret f.not_positive

pub login-Handled : (w : World) → Valid w → Handled w (login w)
unfolding login buffer_peek_until_null
login-Handled w v =
    let s = reset-Scanned w v in
    elim (peek_outcomes 0 name_size s.at) [
      | inl (k, f) ↦
          let s' = Found-Scanned 0 name_size k s f in
          elim (peek_outcomes 0 name_size s'.at) [
            | inl (j, g) ↦
                rw (f.is, g.is, Found-positive 0 name_size k f, Found-positive 0 name_size j g)
                  (advance-Handled (set_read_buffer _ w) _ v (Found-Scanned 0 name_size j s' g)
                    (omega (arith, (line_length_bounds 0 _ k f.line).0)) refl
                    (check_users-Answered users _ _ _ v.write_valid))
            | inr g ↦
                rw (f.is, g.is, Found-positive 0 name_size k f, Missed-positive 0 name_size g)
                  (reset-Handled w v s' refl)
          ]
      | inr f ↦ rw (f.is, f.is, Missed-positive 0 name_size f) (reset-Handled w v s refl)
    ]
