-- ===== src/Response/Tunnel.antt =====
-- The bytes of a tunnel.
use proxy_server_http.Base.{
  if◌then◌else◌, ==_iff, ℕ, zero, suc, ◌+◌, ◌-◌, ◌≤◌, ◌<◌, min, ◌≡◌, refl, sym, ap, ap₂, subst, ◌∙◌,
  arith, ◌==◌, [], ◌++◌, length, take, drop, length-take, length-drop, append_assoc, append-nil,
  drop-nil, take-append-drop, Bool-cases, inl, inr,
}
use proxy_server_http.Buffer.{Buffer, buffer_count, buffer_space}
use proxy_server_http.Buffer.Window.{window}
use proxy_server_http.Buffer.Fifo.{IsValid, contents, length-contents, read_data-Took}
use proxy_server_http.Chunked.Encode.{Appended, write_fits}
use proxy_server_http.Response.{Exchange, to_client, tunnel_loop, copy_tunnel}

-- The bytes of the parser have been moved behind those for the client, and nothing else is changed.
pub record Moved (e e' : Exchange) : Type 0 where
  pub client_valid : IsValid e'.write_buff
  pub parser_valid : IsValid e'.parser_buff
  pub moved : contents e'.write_buff ≡ contents e.write_buff ++ contents e.parser_buff
  pub emptied : contents e'.parser_buff ≡ []

-- A round takes as many bytes as there are, up to 1000.
round :
    (fuel : ℕ) (e : Exchange)
    → IsValid e.parser_buff
    → (n : ℕ) × (b : Buffer) × (n ≡ min 1000 (buffer_count e.parser_buff))
      × IsValid b
      × (contents b ≡ drop n (contents e.parser_buff))
      × (tunnel_loop (suc fuel) e ≡ (
          let e' = record e { parser_buff = b } in
          if n == 0 then e' else tunnel_loop fuel (to_client (take n (contents e.parser_buff)) e')))
unfolding tunnel_loop
round fuel e v =
    let (n, t) = read_data-Took e.parser_buff 1000 v in
    let taken = t.took in (_, _, n, t.valid, t.leaves, rw taken refl)

tunnel_loop_lem :
    (fuel : ℕ) (e : Exchange)
    → IsValid e.write_buff
    → IsValid e.parser_buff
    → buffer_count e.parser_buff ≤ buffer_space e.write_buff
    → buffer_count e.parser_buff < fuel
    → Moved e (tunnel_loop fuel e)
tunnel_loop_lem zero e w p s f = absurd (omega arith)
tunnel_loop_lem (suc fuel) e w p s f =
    let (n, b, amount, valid, left, is) = round fuel e p in
    let e0 = record e { parser_buff = b } in
    let text = take n (contents e.parser_buff) in
    let held = length-contents e.parser_buff in
    let left_count : buffer_count b ≡ buffer_count e.parser_buff - n =
      omega
        (arith, length-contents b, ap length left, length-drop n (contents e.parser_buff), held) in
    elim (Bool-cases (n == 0)) [
      | inl t ↦
          let zero_n : n ≡ 0 = (==_iff n 0).0 t in
          let none_there : buffer_count e.parser_buff ≡ 0 = omega (arith, zero_n, amount) in
          let empty : contents e.parser_buff ≡ [] =
            ap (window e.parser_buff.cells e.parser_buff.read) none_there in
          subst (Moved e) (sym (rw t at is)) (record {
            client_valid = w;
            parser_valid = valid;
            moved =
                sym (
                  ap (λ xs. contents e.write_buff ++ xs) empty
                  ∙ append-nil (contents e.write_buff));
            emptied = left ∙ ap (drop n) empty ∙ drop-nil n;
          })
      | inr t ↦
          let some_byte : 0 < n = ground arith in
          let size : length text ≡ n =
            omega (arith, length-take n (contents e.parser_buff), held) in
          let a : Appended e.write_buff text (to_client text e0).write_buff =
            unfold to_client in write_fits e.write_buff text (length text) w refl (omega arith) in
          let m =
            tunnel_loop_lem fuel (to_client text e0) a.valid (unfold to_client in valid)
              (unfold to_client in omega (arith, a.space, size, left_count))
              (unfold to_client in omega (arith, some_byte, left_count)) in
          let same_left : contents (to_client text e0).parser_buff
              ≡ drop n (contents e.parser_buff) =
            unfold to_client in left in
          subst (Moved e) (sym (rw t at is)) (record {
            client_valid = m.client_valid;
            parser_valid = m.parser_valid;
            moved =
                m.moved
                ∙ ap₂ ◌++◌ a.holds same_left
                ∙ append_assoc (contents e.write_buff) text (drop n (contents e.parser_buff))
                ∙ ap (λ xs. contents e.write_buff ++ xs)
                    (take-append-drop n (contents e.parser_buff));
            emptied = m.emptied;
          })
    ]

-- With both buffers in range and space in the client's for all bytes of the parser's, they are
-- moved behind those of the client's buffer unchanged, the parser's buffer is empty, and both are
-- in range.
pub copy_tunnel-Moved :
    (e : Exchange)
    → IsValid e.write_buff
    → IsValid e.parser_buff
    → buffer_count e.parser_buff ≤ buffer_space e.write_buff
    → Moved e (copy_tunnel e)
unfolding copy_tunnel
copy_tunnel-Moved e w p s = tunnel_loop_lem (buffer_count e.parser_buff + 1) e w p s (omega arith)
