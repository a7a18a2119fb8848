-- ===== src/Chunked/Encode.antt =====
-- What `write_chunked` adds to the client's buffer.
use proxy_server_http.Base.{
  ℕ, ◌+◌, ◌^◌, ◌≤◌, ◌<◌, min, ◌≡◌, refl, ap, ◌∙◌, arith, List, ◌++◌, length, take, length-append,
  append_assoc, take-all, pos,
}
use proxy_server_http.Buffer.{Buffer, buffer_space, buffer_write_data}
use proxy_server_http.Buffer.Fifo.{
  IsValid, contents, length-contents, space-count, write_data-Wrote, write_data_full,
}
use proxy_server_http.Chunked.{Origin, available_write_bytes, to_hex, write_chunked, crlf}
use proxy_server_http.Chunked.Number.{length-to_hex}

-- A chunk on the wire.
abbrev pub encode : List ℕ → List ℕ
encode body = (to_hex (length body) ++ crlf) ++ (body ++ crlf)

-- A write that fits.
pub record Appended (b : Buffer) (bytes : List ℕ) (b' : Buffer) : Type 0 where
  pub valid : IsValid b'
  pub holds : contents b' ≡ contents b ++ bytes
  pub space : buffer_space b ≡ buffer_space b' + length bytes

pub write_fits :
    (b : Buffer) (bytes : List ℕ) (size : ℕ)
    → IsValid b
    → size ≡ length bytes
    → size ≤ buffer_space b
    → Appended b bytes (buffer_write_data b bytes (pos size)).1
write_fits b bytes size v e h =
    let (n, w) = write_data-Wrote b bytes size v (omega arith) in
    let b' = (buffer_write_data b bytes (pos size)).1 in
    let all : take (min size (buffer_space b)) bytes ≡ bytes =
      take-all (min size (buffer_space b)) bytes (omega arith) in
    let holds = w.holds ∙ ap (λ xs. contents b ++ xs) all in
    record {
      valid = w.valid;
      holds = holds;
      space = omega (
        arith,
        space-count v,
        space-count w.valid,
        ap length holds,
        length-contents b,
        length-contents b',
        length-append (contents b) bytes,
      );
    }

pub length-encode :
    (body : List ℕ) → length (encode body) ≡ length (to_hex (length body)) + length body + 4
length-encode body = omega (
  arith,
  length-append (to_hex (length body) ++ crlf) (body ++ crlf),
  length-append (to_hex (length body)) crlf,
  length-append body crlf,
)

-- A chunk that fits is written whole.
pub write_chunked-Appended :
    (o : Origin) (body : List ℕ)
    → IsValid o.write_buff
    → length (encode body) ≤ buffer_space o.write_buff
    → Appended o.write_buff (encode body) (write_chunked o body (length body)).write_buff
unfolding write_chunked
write_chunked-Appended o body v h =
    let hex = to_hex (length body) ++ crlf in
    let line = length-append (to_hex (length body)) crlf in
    let all = length-encode body in
    let f = write_fits o.write_buff hex (length hex) v refl (omega (arith, line, all)) in
    let b1 = (buffer_write_data o.write_buff hex (pos (length hex))).1 in
    let g = write_fits b1 body (length body) f.valid refl (omega (arith, line, all, f.space)) in
    let b2 = (buffer_write_data b1 body (pos (length body))).1 in
    let k = write_fits b2 crlf 2 g.valid refl (omega (arith, line, all, f.space, g.space)) in
    record {
      valid = k.valid;
      holds =
          k.holds
          ∙ ap (λ xs. xs ++ crlf) (g.holds ∙ ap (λ xs. xs ++ body) f.holds)
          ∙ append_assoc (contents o.write_buff ++ hex) body crlf
          ∙ append_assoc (contents o.write_buff) hex (body ++ crlf);
      space = omega (arith, line, all, f.space, g.space, k.space);
    }

-- With the client's buffer in range, a body of no more bytes than `available_write_bytes` answers,
-- where that is not 0, is written whole, its size line and its end with it, behind what the buffer
-- held, and the buffer stays in range.
pub write_chunked_lem :
    (o : Origin) (body : List ℕ)
    → IsValid o.write_buff
    → 0 < available_write_bytes o
    → length body ≤ available_write_bytes o
    → IsValid (write_chunked o body (length body)).write_buff
      × (contents (write_chunked o body (length body)).write_buff
          ≡ contents o.write_buff ++ encode body)
write_chunked_lem o body v room h =
    let space = unfolded room h in
    let small : length body < 2 ^ 31 = omega (arith, space, space-count v) in
    let digits = length-to_hex (length body) small in
    let a = write_chunked-Appended o body v (omega (arith, space, digits, length-encode body)) in
    (a.valid, a.holds)
  where
    unfolded :
        0 < available_write_bytes o
        → length body ≤ available_write_bytes o
        → length body + 80 ≤ buffer_space o.write_buff
    unfolded r l = unfold available_write_bytes in omega arith

-- With no space in the client's buffer a chunk is dropped: the contents are as before.
write_chunked_full :
    (o : Origin) (body : List ℕ)
    → buffer_space o.write_buff ≡ 0
    → contents (write_chunked o body (length body)).write_buff ≡ contents o.write_buff
unfolding write_chunked
write_chunked_full o body full =
    let b = o.write_buff in
    let hex = to_hex (length body) ++ crlf in
    rw (
      write_data_full b hex (length hex) full,
      write_data_full b body (length body) full,
      write_data_full b crlf 2 full,
    )
