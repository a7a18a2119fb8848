-- ===== src/Chunked/RoundTrip.antt =====
-- `write_chunked` and `read_unchunked` against each other.
use proxy_server_http.Base.{
  ℕ, ◌+◌, ◌^◌, ◌≤◌, ◌<◌, ◌≡◌, ap, ◌∙◌, arith, List, [], ◌∷◌, ◌++◌, length, length-append,
  append_assoc, negsuc, true,
}
use proxy_server_http.Buffer.{buffer_space}
use proxy_server_http.Buffer.Fifo.{IsValid, contents, length-contents, space-count}
use proxy_server_http.Chunked.{
  Origin, bytes, to_hex, crlf, available_write_bytes, write_chunked, read_unchunked,
}
use proxy_server_http.Chunked.Encode.{encode, write_chunked_lem}
use proxy_server_http.Chunked.Decode.{encode_all, joined, Nonempty, read_unchunked-encode_all}

-- The chunks of a body, and the empty one that ends it.
abbrev pub write_all : List (List ℕ) → Origin → Origin
write_all [] o = write_chunked o [] 0
write_all (c ∷ cs) o = write_all cs (write_chunked o c (length c))

length-encode : (c : List ℕ) → length c ≤ length (encode c)
length-encode c =
    omega (arith, length-append (to_hex (length c) ++ crlf) (c ++ crlf), length-append c crlf)

pub write_all_lem :
    (cs : List (List ℕ)) (o : Origin)
    → IsValid o.write_buff
    → length (encode_all cs) + 80 < buffer_space o.write_buff
    → IsValid (write_all cs o).write_buff
      × (contents (write_all cs o).write_buff ≡ contents o.write_buff ++ encode_all cs)
unfolding available_write_bytes
write_all_lem [] o v h = write_chunked_lem o [] v (omega arith) (omega arith)
write_all_lem (c ∷ cs) o v h =
    let l = length-append (encode c) (encode_all cs) in
    let (v', held) =
      write_chunked_lem o c v (omega (arith, l)) (omega (arith, l, length-encode c)) in
    let o' = write_chunked o c (length c) in
    let room : length (encode_all cs) + 80 < buffer_space o'.write_buff = omega (
      arith,
      l,
      space-count v,
      space-count v',
      ap length held,
      length-contents o.write_buff,
      length-contents o'.write_buff,
      length-append (contents o.write_buff) (encode c),
    ) in
    let (v2, held2) = write_all_lem cs o' v' room in
    (
      v2,
      held2
          ∙ ap (λ xs. xs ++ encode_all cs) held
          ∙ append_assoc (contents o.write_buff) (encode c) (encode_all cs),
    )

-- `write_chunked` writes nonempty chunks and then the empty one to a client's buffer that is in
-- range, empty, and has more space than their encoding and 80 bytes. Where that buffer is the
-- parser's buffer of another origin, one that expects a body in chunks of which none has begun,
-- `read_unchunked` stores the bytes of all chunks, sets `response_has_finished` and leaves the
-- buffer empty, if the room `size` is below 2^31 and not less than these bytes, and the fuel is at
-- least the number of chunks and two.
pub chunks_round_trip :
    (cs : List (List ℕ)) (fuel size : ℕ) (o r : Origin)
    → IsValid o.write_buff
    → contents o.write_buff ≡ []
    → length (encode_all cs) + 80 < buffer_space o.write_buff
    → Nonempty cs
    → r.parser_buff ≡ (write_all cs o).write_buff
    → r.parser.content_length ≡ negsuc 0
    → r.parser.chunk_enabled ≡ true
    → r.parser.chunk_bytes ≡ negsuc 0
    → length (joined cs) ≤ size
    → size < 2 ^ 31
    → length cs + 2 ≤ fuel
    → (r' : Origin) × (read_unchunked fuel size r ≡ bytes (joined cs) r')
      × (r'.finished ≡ true)
      × (contents r'.parser_buff ≡ [])
chunks_round_trip cs fuel size o r v empty room ne same length_unset enabled unset h small f =
    let (v', held) = write_all_lem cs o v room in
    read_unchunked-encode_all cs fuel size r (rw same v') length_unset enabled unset
      (ap contents same ∙ held ∙ ap (λ xs. xs ++ encode_all cs) empty) ne h small f
