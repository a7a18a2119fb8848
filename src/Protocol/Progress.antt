-- ===== src/Protocol/Progress.antt =====
-- What `metrics` and the reading of a header do to the two buffers.
use proxy_server_http.Base.{
  ℕ, ◌≤◌, ◌<◌, ◌≡◌, refl, ap, arith, true, Bool-cases, inl, inr, List, [], ◌∷◌, if◌then◌else◌,
  length, pos, leb, leb→le,
}
use proxy_server_http.Buffer.{
  Buffer, buffer_count, buffer_write_data, buffer_read_data, buffer_reset_peek_line,
}
use proxy_server_http.Buffer.Fifo.{IsValid, Took, read_exact, contents, length-contents}
use proxy_server_http.Protocol.{
  World, set_read_buffer, return_permission_denied, return_ok, byte_at,
}
use proxy_server_http.Protocol.Metrics.{answer_metric, metrics, uint32_bytes, metric_value}
use proxy_server_http.Protocol.Reader.{read_header}
use proxy_server_http.Protocol.Valid.{
  Valid, Answered, Handled, write_data-IsValid, reply-Answered, waiting-Took, contents-peek_line,
  reset-Scanned, reset-Handled,
}

-- A handler that reads `n` bytes, and answers.
pub read-Handled :
    {w : World} {b0 b : Buffer} {bytes : List ℕ} (n : ℕ) (w2 : World)
    → Valid w
    → contents b0 ≡ contents w.session.read_buffer
    → Took b0 n bytes b
    → 0 < n
    → n ≤ buffer_count b0
    → w2.session.read_buffer ≡ b
    → IsValid w2.session.write_buffer
    → Handled w (true, w2)
read-Handled {w} {b0} {b} n w2 v c t h l e a = record {
  valid = record { read_valid = rw e t.valid; write_valid = a };
  progress = λ x. rw e (
      omega (
        arith,
        waiting-Took n t,
        ap length c,
        length-contents b0,
        length-contents w.session.read_buffer,
      ));
  unread = λ x. absurd (cc);
}

pub answer_metric-Answered :
    (unset metric : ℕ) (w : World)
    → IsValid w.session.write_buffer
    → Answered w (answer_metric unset metric w)
unfolding answer_metric
answer_metric-Answered unset metric w v =
    let wb = w.session.write_buffer in
    let v1 = write_data-IsValid wb (2 ∷ []) 1 v (omega arith) in
    ground (
      arith,
      v1,
      write_data-IsValid (buffer_write_data wb (2 ∷ []) (pos 1)).1
          (uint32_bytes (metric_value unset metric w.settings)) 4 v1 (omega arith),
    )

pub denied-Answered :
    (w : World) → IsValid w.session.write_buffer → Answered w (return_permission_denied w)
unfolding return_permission_denied
denied-Answered w v = reply-Answered (0 ∷ []) 1 w v (omega arith)

contents_reset : (b : Buffer) → contents (buffer_reset_peek_line b) ≡ contents b
unfolding buffer_reset_peek_line
contents_reset b = contents-peek_line b b.read

metric_answer-Answered :
    (unset metric : ℕ) (w : World)
    → IsValid w.session.write_buffer
    → Answered w
        (if w.session.logged_in then answer_metric unset metric w else return_permission_denied w)
metric_answer-Answered unset metric w v =
    ground (arith, answer_metric-Answered unset metric w v, denied-Answered w v)

pub metrics-Handled : (unset : ℕ) (w : World) → Valid w → Handled w (metrics unset w)
unfolding metrics buffer_reset_peek_line
metrics-Handled unset w v =
    let s = reset-Scanned w v in
    let b = buffer_reset_peek_line w.session.read_buffer in
    elim (Bool-cases (leb 1 (buffer_count b))) [
      | inl there ↦ rw there (
          let a =
            metric_answer-Answered unset (byte_at 0 (buffer_read_data b (pos 1)).1)
              (set_read_buffer (buffer_read_data b (pos 1)).2 w) v.write_valid in
          read-Handled 1 _ v s.same_contents
            (read_exact b 1 s.at.valid (leb→le 1 (buffer_count b) there)) (omega arith)
            (leb→le 1 (buffer_count b) there) a.same_read a.write_valid)
      | inr short ↦ rw short (reset-Handled w v s refl)
    ]

pub return_ok-Answered : (w : World) → IsValid w.session.write_buffer → Answered w (return_ok w)
unfolding return_ok
return_ok-Answered w v = reply-Answered (2 ∷ []) 1 w v (omega arith)

pub read_header-Handled : (w : World) → Valid w → Handled w (read_header w)
unfolding read_header
read_header-Handled w v =
    let b = w.session.read_buffer in
    elim (Bool-cases (leb 2 (buffer_count b))) [
      | inl there ↦ rw there (
          read-Handled 2 _ v refl (read_exact b 2 v.read_valid (leb→le 2 (buffer_count b) there))
            (omega arith) (leb→le 2 (buffer_count b) there) (ground arith) (ground (arith, v)))
      | inr short ↦ rw short record { valid = v; progress = λ x. absurd (cc); unread = λ x. refl }
    ]
