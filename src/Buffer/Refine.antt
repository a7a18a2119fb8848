-- ===== src/Buffer/Refine.antt =====
-- A buffer against the queue of the bytes that it holds.
use proxy_server_http.Base.{◌≡◌, refl, ap, ap₂, ◌∙◌, List, [], ◌∷◌, length, pos, arith}
use proxy_server_http.Buffer.{
  Buffer, buffer_space, buffer_write_data, buffer_read_data, buffer_clean,
}
use proxy_server_http.Buffer.Fifo.{
  IsValid, contents, length-contents, space-count, write_data-Wrote, read_data-Took, clean-IsValid,
  contents-clean,
}
use proxy_server_http.Buffer.Queue
use proxy_server_http.Buffer.Queue.{Op, write_data, read_data, clean, Reply, room}

-- One call of the buffer's functions.
unfoldable pub step : Buffer → Op → Reply × Buffer
step b (write_data source) =
    let (n, b') = buffer_write_data b source (pos (length source)) in ((n, []), b')
step b (read_data size) = let (n, bytes, b') = buffer_read_data b (pos size) in ((n, bytes), b')
step b clean = ((0, []), buffer_clean b)

unfoldable pub run : Buffer → List Op → List Reply
unfolding step
run b [] = []
run b (op ∷ ops) = let (reply, b') = step b op in reply ∷ run b' ops

room-contents : (b : Buffer) → IsValid b → buffer_space b ≡ room (contents b)
room-contents b v = omega (arith, space-count v, length-contents b)

-- One call, and the queue's answer to it.
pub record Refines (b : Buffer) (op : Op) : Type 0 where
  pub valid : IsValid (step b op).1
  pub reply : (step b op).0 ≡ (Queue.step (contents b) op).0
  pub after : contents (step b op).1 ≡ (Queue.step (contents b) op).1

step-Refines : (b : Buffer) (op : Op) → IsValid b → Refines b op
unfolding step Queue.step
step-Refines b (write_data source) v =
    let w = write_data-Wrote b source (length source) v (omega arith) in
    record {
      valid = w.1.valid;
      reply = ground (arith, w.0, room-contents b v);
      after = ground (arith, w.1.holds, room-contents b v);
    }
step-Refines b (read_data size) v =
    let r = read_data-Took b size v in
    record {
      valid = r.1.valid;
      reply = ground (arith, r.0, r.1.took, length-contents b);
      after = ground (arith, r.0, r.1.leaves, length-contents b);
    }
step-Refines b clean v = record { valid = clean-IsValid b; reply = refl; after = contents-clean b }

-- On a buffer whose three positions are in range, any sequence of writes, reads and cleanings is
-- answered as the queue of at most 7999 bytes answers it that starts with the buffer's contents:
-- the same counts and the same bytes.
pub run_refines : (ops : List Op) (b : Buffer) → IsValid b → run b ops ≡ Queue.run (contents b) ops
unfolding run Queue.run
run_refines [] b v = refl
run_refines (op ∷ ops) b v =
    let r = step-Refines b op v in
    ap₂ ◌∷◌ r.reply (run_refines ops (step b op).1 r.valid ∙ ap (λ q. Queue.run q ops) r.after)
