-- ===== src/Response/Roundtrip.antt =====
-- A body that is not in chunks, relayed in chunks and read by a reader of chunks.
use proxy_server_http.Base.{
  ℕ, zero, suc, ◌+◌, ◌*◌, ◌≤◌, ◌<◌, ◌^◌, ◌≡◌, refl, sym, ap, ◌∙◌, arith, Bool, true, ◌==◌, ◌&&◌,
  ◌||◌, ◌-◌, if◌then◌else◌, List, [], ◌∷◌, ◌++◌, length, take, drop, length-drop, append_assoc,
  take-append-drop, negsuc,
}
use proxy_server_http.Buffer.{buffer_count, buffer_space}
use proxy_server_http.Buffer.Fifo.{IsValid, contents, length-contents, buffer_count-lt}
use proxy_server_http.Chunked.{Origin, bytes, read_unchunked}
use proxy_server_http.Chunked.Encode.{encode}
use proxy_server_http.Chunked.Decode.{joined, encode_all, Nonempty, read_unchunked-encode_all}
use proxy_server_http.Response.{Exchange, Copied, out_of_fuel, failed, copied, copy_body}
use proxy_server_http.Response.Plain.{Plain}
use proxy_server_http.Response.Pieces.{in_chunks}
use proxy_server_http.Response.Relayed.{copy_body-Relayed}

-- The pieces of a body, with fuel for them.
abbrev pieces : ℕ → List ℕ → List (List ℕ)
pieces zero body = []
pieces (suc n) [] = []
pieces (suc n) (x ∷ xs) = take 1000 (x ∷ xs) ∷ pieces n (drop 1000 (x ∷ xs))

pieces-Nonempty : (n : ℕ) (body : List ℕ) → Nonempty (pieces n body)
pieces-Nonempty zero body = tt
pieces-Nonempty (suc n) [] = tt
pieces-Nonempty (suc n) (x ∷ xs) = (omega arith, pieces-Nonempty n (drop 1000 (x ∷ xs)))

joined-pieces : (n : ℕ) (body : List ℕ) → length body ≤ 1000 * n → joined (pieces n body) ≡ body
joined-pieces zero [] h = refl
joined-pieces zero (x ∷ xs) h = absurd (omega arith)
joined-pieces (suc n) [] h = refl
joined-pieces (suc n) (x ∷ xs) h =
    let body = x ∷ xs in
    ap (λ ys. take 1000 body ++ ys)
      (joined-pieces n (drop 1000 body) (omega (arith, length-drop 1000 body)))
    ∙ take-append-drop 1000 body

length-pieces : (n : ℕ) (body : List ℕ) → length (pieces n body) ≤ n
length-pieces zero body = omega arith
length-pieces (suc n) [] = omega arith
length-pieces (suc n) (x ∷ xs) = omega (arith, length-pieces n (drop 1000 (x ∷ xs)))

encode_all-pieces :
    (n : ℕ) (body : List ℕ) → encode_all (pieces n body) ≡ in_chunks n body ++ encode []
encode_all-pieces zero body = refl
encode_all-pieces (suc n) [] = refl
encode_all-pieces (suc n) (x ∷ xs) =
    let body = x ∷ xs in
    ap (λ ys. encode (take 1000 body) ++ ys) (encode_all-pieces n (drop 1000 body))
    ∙ sym (append_assoc (encode (take 1000 body)) (in_chunks n (drop 1000 body)) (encode []))

-- What the client's buffer holds behind the loop.
abbrev pub sent_of : Copied → List ℕ
sent_of out_of_fuel = []
sent_of (failed e) = []
sent_of (copied e) = contents e.write_buff

-- A body that is not in chunks has come to its end, the parser's buffer holds what is left of it,
-- 80 bytes less than the client's buffer has space for at most, the client's buffer is empty, and
-- the loop has nine rounds of fuel at least. Then a reader that expects chunks, whose buffer is in
-- range and holds what the loop has put there for the client, and that has room for the body, below
-- 2^31, and ten rounds of fuel, reads exactly the body and finds the end of the response.
pub copy_body_round_trip :
    (counted : Bool) (left fuel inner : ℕ) (e : Exchange) (fuel' size : ℕ) (o : Origin)
    → Plain counted left e
    → buffer_count e.parser_buff + 80 ≤ buffer_space e.write_buff
    → 8 < fuel
    → contents e.write_buff ≡ []
    → ((counted && (left - buffer_count e.parser_buff == 0)) || e.finished) ≡ true
    → IsValid o.parser_buff
    → o.parser.content_length ≡ negsuc 0
    → o.parser.chunk_enabled ≡ true
    → o.parser.chunk_bytes ≡ negsuc 0
    → contents o.parser_buff ≡ sent_of (copy_body fuel inner e)
    → buffer_count e.parser_buff ≤ size
    → size < 2 ^ 31
    → 9 < fuel'
    → (o' : Origin) × (read_unchunked fuel' size o ≡ bytes (contents e.parser_buff) o')
      × (o'.finished ≡ true)
      × (contents o'.parser_buff ≡ [])
copy_body_round_trip counted left fuel inner e fuel' size o p room f none over v unset on begun held
      s small f' =
    let body = contents e.parser_buff in
    let few = buffer_count-lt p.ready.parser in
    let count = length-contents e.parser_buff in
    let r = copy_body-Relayed counted left fuel inner e p room f in
    let ended : r.complete ≡ true = r.complete_is ∙ over in
    let all : joined (pieces 8 body) ≡ body = joined-pieces 8 body (omega (arith, few, count)) in
    let wire : contents o.parser_buff ≡ encode_all (pieces 8 body) =
      held
      ∙ ap sent_of r.is
      ∙ r.holds
      ∙ ap (λ ys. ys ++ (in_chunks 8 body ++ (if r.complete then encode [] else []))) none
      ∙ ap (λ t. in_chunks 8 body ++ (if t then encode [] else [])) ended
      ∙ sym (encode_all-pieces 8 body) in
    let (o', is, done, emptied) =
      read_unchunked-encode_all (pieces 8 body) fuel' size o v unset on begun wire
        (pieces-Nonempty 8 body) (omega (arith, ap length all, count)) small
        (omega (arith, length-pieces 8 body)) in
    (o', is ∙ ap (λ ys. bytes ys o') all, done, emptied)
