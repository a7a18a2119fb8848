-- ===== src/Response/Body.antt =====
-- The loop over a body returns, and so does what follows it.
use proxy_server_http.Base.{
  ℕ, zero, suc, ◌<◌, ◌≡◌, refl, sym, ap, subst, arith, Bool, true, false, if◌then◌else◌, List, [],
  ◌∷◌, ◌++◌, length, pos,
}
use proxy_server_http.Buffer.{buffer_count}
use proxy_server_http.Buffer.Fifo.{IsValid}
use proxy_server_http.Buffer.Counts.{write_data-IsValid}
use proxy_server_http.Chunked.{
  Origin, Unchunked, no_fuel, malformed, bytes, write_chunked, read_unchunked, to_hex, crlf,
}
use proxy_server_http.Chunked.Consumes.{Less}
use proxy_server_http.Chunked.Progress.{Returned, read_unchunked-Returned}
use proxy_server_http.Response.{
  Exchange, origin_of, put_origin, Copied, out_of_fuel, failed, copied, on_unchunked, body_loop,
  end_body, copy_body,
}

-- The buffers of an exchange are in range.
pub record Operable (e : Exchange) : Type 0 where
  pub client : IsValid e.write_buff
  pub parser : IsValid e.parser_buff

-- The loop has returned, and the buffers are in range.
abbrev pub ReturnedBody : Copied → Type 0
ReturnedBody out_of_fuel = ⊥
ReturnedBody (failed e) = Operable e
ReturnedBody (copied e) = Operable e

pub write_chunked-IsValid :
    (o : Origin) (text : List ℕ) (size : ℕ)
    → IsValid o.write_buff
    → IsValid (write_chunked o text size).write_buff
unfolding write_chunked
write_chunked-IsValid o text size v = write_data-IsValid _ crlf (pos 2) (
    write_data-IsValid _ text (pos size)
      (write_data-IsValid o.write_buff (to_hex size ++ crlf) _ v))

write_chunked-parser :
    (o : Origin) (text : List ℕ) (size : ℕ)
    → (write_chunked o text size).parser_buff ≡ o.parser_buff
unfolding write_chunked
write_chunked-parser o text size = refl

Less-Operable :
    {e : Exchange} {o : Origin} {n : ℕ}
    → Operable e
    → Less (origin_of e) n o
    → Operable (put_origin o e)
Less-Operable r l = record { client = subst IsValid (sym l.client_same) r.client; parser = l.valid }

abbrev FromRound : ℕ → ℕ → Type 0
FromRound fuel inner =
    (e : Exchange)
    → Operable e
    → buffer_count e.parser_buff < fuel
    → buffer_count e.parser_buff < inner
    → ReturnedBody (body_loop fuel inner e)

-- A round, by what has been read.
round-Returned :
    (fuel inner : ℕ) (e : Exchange) (u : Unchunked)
    → Operable e
    → buffer_count e.parser_buff < suc fuel
    → buffer_count e.parser_buff < inner
    → FromRound fuel inner
    → Returned (origin_of e) u
    → ReturnedBody (
        on_unchunked
          (λ text o. body_loop fuel inner (put_origin (write_chunked o text (length text)) e))
          e
          u)
round-Returned fuel inner e no_fuel r f g loop u = absurd u
round-Returned fuel inner e (malformed xs o) r f g loop u = Less-Operable r u
round-Returned fuel inner e (bytes [] o) r f g loop u = Less-Operable r u
round-Returned fuel inner e (bytes (x ∷ xs) o) r f g loop u =
    let text = x ∷ xs in
    let kept = write_chunked-parser o text (length text) in
    let same = ap (λ b. buffer_count b) kept in
    loop (put_origin (write_chunked o text (length text)) e)
      (record {
        client = write_chunked-IsValid o text _ (Less-Operable r u).client;
        parser = subst IsValid (sym kept) u.valid;
      })
      (omega (arith, u.count, same)) (omega (arith, u.count, same))

body_loop-Returned : (fuel inner : ℕ) → FromRound fuel inner
unfolding body_loop
body_loop-Returned zero inner e r f g = absurd (omega arith)
body_loop-Returned (suc fuel) inner e r f g =
    round-Returned fuel inner e (read_unchunked inner 1000 (origin_of e)) r f g
      (body_loop-Returned fuel inner) (read_unchunked-Returned inner 1000 (origin_of e) r.parser g)

end_body-Returned : (c : Copied) → ReturnedBody c → ReturnedBody (end_body c)
end_body-Returned out_of_fuel r = r
end_body-Returned (failed e) r = r
end_body-Returned (copied e) r = ended e.finished
  where
    ended : (t : Bool) → Operable (if t then put_origin (write_chunked (origin_of e) [] 0) e else e)
    ended true = record {
      client = write_chunked-IsValid (origin_of e) [] 0 r.client;
      parser = subst IsValid (sym (write_chunked-parser (origin_of e) [] 0)) r.parser;
    }
    ended false = r

-- With the buffers in range, and both amounts of fuel above the number of bytes to parse, the body's
-- loop returns, whatever the bytes are, and leaves the buffers in range.
pub copy_body-Returned :
    (fuel inner : ℕ) (e : Exchange)
    → Operable e
    → buffer_count e.parser_buff < fuel
    → buffer_count e.parser_buff < inner
    → ReturnedBody (copy_body fuel inner e)
unfolding copy_body
copy_body-Returned fuel inner e r f g =
    end_body-Returned (body_loop fuel inner e) (body_loop-Returned fuel inner e r f g)
