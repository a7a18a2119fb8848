-- ===== src/Protocol/Writer.antt =====
-- What `write_protocol_v1` of bin/protocolV1.c hands over.
use proxy_server_http.Base.{
  ℕ, zero, suc, ◌≤◌, ◌<◌, ◌≡◌, refl, sym, ap, ap₂, ◌∙◌, arith, Bool, true, false, Bool-cases, inl,
  inr, List, [], ◌++◌, if◌then◌else◌, length, ltb, ltb→lt, ltb→ge, pos, ℤ, take-append-drop,
  length-drop,
}
use proxy_server_http.Buffer.{Buffer, buffer_count, buffer_read_data}
use proxy_server_http.Buffer.Window.{window}
use proxy_server_http.Buffer.Fifo.{IsValid, contents, length-contents, read_exact}
use proxy_server_http.Protocol.{World, set_write_buffer, kill_socket, set_interest_key}
use proxy_server_http.Protocol.Reader.{
  internal_buffer_size, is_value, write_rounds, write_protocol_v1,
}

-- What the rounds hand over, and what they leave.
pub record Sent (w : World) (r : List ℕ × World) : Type 0 where
  pub all : r.0 ≡ contents w.session.write_buffer
  pub emptied : contents r.1.session.write_buffer ≡ []
  pub valid : IsValid r.1.session.write_buffer
  pub same_read : r.1.session.read_buffer ≡ w.session.read_buffer
  pub same_settings : r.1.settings ≡ w.settings

contents-empty : (b : Buffer) → buffer_count b ≡ 0 → contents b ≡ []
contents-empty b e = ap (window b.cells b.read) e

-- The world behind a round.
abbrev round_world : Bool → Buffer → World → World
round_world whole b w = if whole then set_write_buffer b w else kill_socket (set_write_buffer b w)

session-round_world :
    (whole : Bool) (b : Buffer) (w : World)
    → ((round_world whole b w).session ≡ record w.session { write_buffer = b })
      × ((round_world whole b w).settings ≡ w.settings)
unfolding kill_socket
session-round_world true b w = (refl, refl)
session-round_world false b w = (refl, refl)

pub write_rounds-Sent :
    (fuel : ℕ) (send : List ℕ → ℤ) (w : World)
    → IsValid w.session.write_buffer
    → buffer_count w.session.write_buffer ≤ fuel
    → Sent w (write_rounds fuel send w)
unfolding write_rounds
write_rounds-Sent zero send w v h =
    let empty = contents-empty w.session.write_buffer (omega arith) in
    record { all = sym empty; emptied = empty; valid = v; same_read = refl; same_settings = refl }
write_rounds-Sent (suc fuel) send w v h =
    elim (Bool-cases (ltb 0 (buffer_count w.session.write_buffer))) [
      | inr none_left ↦
          let empty =
            contents-empty w.session.write_buffer
              (omega (arith, ltb→ge 0 (buffer_count w.session.write_buffer) none_left)) in
          rw none_left (record {
            all = sym empty;
            emptied = empty;
            valid = v;
            same_read = refl;
            same_settings = refl;
          })
      | inl some_left ↦
          let b = w.session.write_buffer in
          let count = buffer_count b in
          let n = if ltb internal_buffer_size count then internal_buffer_size else count in
          let small : n ≤ count = ground arith in
          let some_byte : 0 < n = ground (arith, ltb→lt 0 count some_left) in
          let t = read_exact b n v small in
          let b' = (buffer_read_data b (pos n)).2 in
          let w2 = round_world (is_value n (send (buffer_read_data b (pos n)).1)) b' w in
          let (s, g) =
            session-round_world (is_value n (send (buffer_read_data b (pos n)).1)) b' w in
          let same : w2.session.write_buffer ≡ b' = ap (λ d. d.write_buffer) s in
          let shorter : buffer_count w2.session.write_buffer ≤ fuel = omega (
            arith,
            ap buffer_count same,
            ap length t.leaves,
            length-contents b',
            length-contents b,
            length-drop n (contents b),
          ) in
          let later = write_rounds-Sent fuel send w2 (rw same t.valid) shorter in
          rw some_left (record {
            all =
                ap₂ ◌++◌ t.took (later.all ∙ ap contents same ∙ t.leaves)
                ∙ take-append-drop n (contents b);
            emptied = later.emptied;
            valid = later.valid;
            same_read = later.same_read ∙ ap (λ d. d.read_buffer) s;
            same_settings = later.same_settings ∙ g;
          })
    ]

-- With the write buffer in range, the handler ends and has handed over to `send` all bytes of the
-- write buffer, oldest first, whatever `send` answers. The write buffer is then empty and in range;
-- the read buffer and the settings are as before.
pub write_protocol_v1-Sent :
    (send : List ℕ → ℤ) (w : World)
    → IsValid w.session.write_buffer
    → Sent w (write_protocol_v1 send w)
unfolding write_protocol_v1 set_interest_key
write_protocol_v1-Sent send w v =
    let s = write_rounds-Sent (buffer_count w.session.write_buffer) send w v (omega arith) in
    record {
      all = s.all;
      emptied = s.emptied;
      valid = s.valid;
      same_read = s.same_read;
      same_settings = s.same_settings;
    }
