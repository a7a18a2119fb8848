-- ===== src/Buffer/Queue.antt =====
-- The abstract view of a buffer: a queue of at most 7999 bytes, oldest first.
use proxy_server_http.Base.{ℕ, ◌-◌, min, List, [], ◌∷◌, ◌++◌, length, take, drop}
use proxy_server_http.Buffer.{buffer_size}

-- What a caller asks for. A write offers all of the bytes that it names.
pub data Op : Type 0 where
  write_data : List ℕ → Op
  read_data : ℕ → Op
  clean : Op

-- The value returned, and the bytes handed over.
abbrev pub Reply : Type 0
Reply = ℕ × List ℕ

abbrev pub room : List ℕ → ℕ
room q = buffer_size - length q - 1

unfoldable pub step : List ℕ → Op → Reply × List ℕ
step q (write_data source) =
    ((min (length source) (room q), []), q ++ take (min (length source) (room q)) source)
step q (read_data size) =
    ((min size (length q), take (min size (length q)) q), drop (min size (length q)) q)
step q clean = ((0, []), [])

unfoldable pub run : List ℕ → List Op → List Reply
unfolding step
run q [] = []
run q (op ∷ ops) = let (reply, q') = step q op in reply ∷ run q' ops
