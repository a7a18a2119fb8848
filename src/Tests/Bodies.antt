-- ===== src/Tests/Bodies.antt =====
-- Runs of the two functions on a response's body.
use proxy_server_http.Base.{ℕ, ◌≡◌, refl, arith, false, true, pos, negsuc, List, [], ◌∷◌, ◌++◌}
use proxy_server_http.Buffer.{buffer_count, buffer_space, next}
use proxy_server_http.Buffer.Fifo.{contents}
use proxy_server_http.Settings.{codes}
use proxy_server_http.Chunked.{
  Origin, to_hex, hex_digits, read_unchunked, bytes, strtol, digits_value,
}
use proxy_server_http.Chunked.Decode.{joined, read_unchunked-encode_all}
use proxy_server_http.Chunked.Limit.{FitsIn}
use proxy_server_http.Chunked.Progress.{Returned, read_unchunked_bounds}
use proxy_server_http.Chunked.RoundTrip.{write_all, chunks_round_trip}
use proxy_server_http.Tests.Data.{holding}

-- 255 and 16 in the digits of the source.
hexadecimal :
    (to_hex 255 ≡ codes "FF") × (to_hex 16 ≡ codes "10") × (strtol (codes "1aF") ≡ pos 431)
unfolding to_hex hex_digits strtol digits_value
hexadecimal = (refl, refl, refl)

abbrev two_chunks : List (List ℕ)
two_chunks = codes "Wiki" ∷ codes "pedia in" ∷ []

abbrev origin : Origin
origin = record {
  write_buff = holding [];
  parser_buff = holding (
      codes "4"
      ++ (13 ∷ 10 ∷ codes "Wiki"
          ++ (13 ∷ 10 ∷ codes "8"
              ++ (13 ∷ 10 ∷ codes "pedia in"
                  ++ (13 ∷ 10 ∷ codes "0" ++ (13 ∷ 10 ∷ 13 ∷ 10 ∷ []))))));
  parser = record {
    content_length = negsuc 0;
    chunk_size = negsuc 0;
    chunk_bytes = negsuc 0;
    chunk_enabled = true;
  };
  finished = false;
}

read_unchunked-encode_all_example :
    (o' : Origin) × (read_unchunked 4 100 origin ≡ bytes (joined two_chunks) o')
    × (o'.finished ≡ true)
    × (contents o'.parser_buff ≡ [])
unfolding buffer_count next to_hex hex_digits
read_unchunked-encode_all_example =
    read_unchunked-encode_all two_chunks 4 100 origin (omega arith) refl refl refl refl
      (omega arith, (omega arith, tt)) (omega arith) (omega arith) (omega arith)

-- The other side of a chunked body.
abbrev relayed : Origin
relayed = record origin { parser_buff = (write_all two_chunks origin).write_buff }

chunks_round_trip_example :
    (r' : Origin) × (read_unchunked 4 100 relayed ≡ bytes (joined two_chunks) r')
    × (r'.finished ≡ true)
    × (contents r'.parser_buff ≡ [])
unfolding buffer_count buffer_space to_hex hex_digits
chunks_round_trip_example =
    chunks_round_trip two_chunks 4 100 origin relayed (omega arith) refl (omega arith)
      (omega arith, (omega arith, tt)) refl refl refl refl (omega arith) (omega arith) (omega arith)

read_unchunked_bounds_example :
    Returned origin (read_unchunked 8000 100 origin) × FitsIn 100 (read_unchunked 8000 100 origin)
unfolding buffer_count
read_unchunked_bounds_example = read_unchunked_bounds 8000 100 origin (omega arith) (omega arith)
