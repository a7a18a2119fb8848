-- ===== src/Tests/Buffers.antt =====
-- Runs of the buffer's functions.
use proxy_server_http.Base.{◌+◌, ◌≤◌, ◌≡◌, ◌≢◌, ◌⊎◌, refl, arith, List, [], ◌∷◌, length, some}
use proxy_server_http.Buffer.{
  Buffer, buffer_count, buffer_space, buffer_write_data, buffer_read_data, peek_until,
  buffer_reset_peek_line, write_loop, read_loop, transfer_size, next,
}
use proxy_server_http.Buffer.Fifo.{IsValid, contents}
use proxy_server_http.Buffer.Lines.{line_length}
use proxy_server_http.Buffer.Peek.{PeekAt, unscanned, reset-PeekAt}
use proxy_server_http.Buffer.Outcomes.{peek_stores}
use proxy_server_http.Buffer.Queue
use proxy_server_http.Buffer.Queue.{Op, write_data, read_data, clean}
use proxy_server_http.Buffer.Refine.{run, step, run_refines}
use proxy_server_http.Tests.Data.{holding, at_end}

abbrev calls : List Op
calls = write_data (1 ∷ 2 ∷ 3 ∷ []) ∷ read_data 2 ∷ write_data (4 ∷ []) ∷ read_data 9 ∷ clean ∷ []

at_end-IsValid : IsValid at_end
at_end-IsValid = omega arith

run-calls :
    run at_end calls ≡ (3, []) ∷ (2, 65 ∷ 1 ∷ []) ∷ (1, []) ∷ (3, 2 ∷ 3 ∷ 4 ∷ []) ∷ (0, []) ∷ []
unfolding run step buffer_write_data buffer_read_data write_loop read_loop buffer_count buffer_space
    transfer_size next
run-calls = refl

run_refines_example : run at_end calls ≡ Queue.run (contents at_end) calls
run_refines_example = run_refines calls at_end at_end-IsValid

-- Two lines, `A` and `B`.
abbrev two_lines : Buffer
two_lines = holding (65 ∷ 10 ∷ 66 ∷ 10 ∷ [])

two_lines-PeekAt : PeekAt (buffer_reset_peek_line two_lines) 0
two_lines-PeekAt = reset-PeekAt {b = two_lines} (omega arith)

peek_stores_example :
    let b = buffer_reset_peek_line two_lines in
    ((length (peek_until 10 b 2).1 ≤ 2) × (line_length 10 (unscanned b 0) ≢ some 2))
    ⊎ ((length (peek_until 10 b 2).1 ≡ 2 + 1) × (line_length 10 (unscanned b 0) ≡ some 2))
peek_stores_example = peek_stores 10 2 two_lines-PeekAt
