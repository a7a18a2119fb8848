-- ===== src/Sound/Flushing.antt =====
-- The loop of bin/proxyTransformation.c that writes the bytes that a command's pipe did not take.
use proxy_server_http.Base.{
  ℕ, zero, suc, ◌<◌, refl, arith, ◌==◌, ltb, ltb→ge, List, pos, Bool-cases, inl, inr,
}
use proxy_server_http.Buffer.{
  Buffer, buffer_count, buffer_read_data, buffer_peek_data, buffer_reset_peek_line,
}
use proxy_server_http.Buffer.Fifo.{IsValid}
use proxy_server_http.Buffer.Counts.{
  read_data-Shrunk, read_some, peek_data-Kept, reset-IsValid, count_reset,
}
use proxy_server_http.Chunked.{Origin}
use proxy_server_http.Chunked.Consumes.{Less}
use proxy_server_http.Transformation.{Written, no_fuel, broken, wrote, flush_loop}

-- A loop that writes to the command has returned: its buffer is in range, and of the origin's no
-- more than bytes of the parser's are gone.
abbrev pub Wrote : {S : Type 0} → Origin → Written S → Type 0
Wrote o no_fuel = ⊥
Wrote o (broken o' s) = Less o 0 o'
Wrote o (wrote full b o' s) = IsValid b × Less o 0 o'

module _ {S : Type 0} (write_pipe : S → List ℕ → ℕ × S) where
  pub flush_loop-Wrote :
      (fuel : ℕ) (o : Origin) (b : Buffer) (s : S)
      → IsValid o.parser_buff
      → IsValid b
      → buffer_count b < fuel
      → Wrote o (flush_loop write_pipe fuel o b s)
  unfolding flush_loop
  flush_loop-Wrote zero o b s u v f = absurd (omega arith)
  flush_loop-Wrote (suc fuel) o b s u v f =
      let same : Less o 0 o = record { valid = u; count = omega arith; client_same = refl } in
      let b0 = buffer_reset_peek_line b in
      let (n, text, b1) = buffer_peek_data b0 (pos 1000) in
      let (v1, count1, some_n) = peek_data-Kept b0 999 (reset-IsValid v) in
      let (taken, s') = write_pipe s text in
      let b2 = (buffer_read_data b1 (pos taken)).2 in
      let read = read_data-Shrunk b1 (pos taken) v1 in
      elim (Bool-cases (buffer_count b == 0)) [
        | inl t ↦ rw t (v, same)
        | inr t ↦ rw t (elim (Bool-cases (ltb taken n)) [
          | inl full ↦ rw full (read.valid, same)
          | inr all ↦
              let some_taken : 0 < taken =
                omega (arith, ltb→ge taken n all, some_n (ground (arith, count_reset b))) in
              rw all (
                flush_loop-Wrote fuel o b2 s' u read.valid (
                  ground
                    (arith, read.count, count1, count_reset b, read_taken b1 taken v1 some_taken)))
        ])
      ]
    where
      read_taken :
          (b1 : Buffer) (taken : ℕ)
          → IsValid b1
          → 0 < taken
          → 0 < buffer_count b1
          → 0 < (buffer_read_data b1 (pos taken)).0
      read_taken b1 zero v h k = absurd (omega arith)
      read_taken b1 (suc k) v h l = read_some b1 k v l
