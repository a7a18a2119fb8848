-- ===== src/Sound/Pipes.antt =====
-- The handlers for a command's pipes, in bin/proxyTransformation.c, return and keep the state sound,
-- whatever the pipes give and take.
use proxy_server_http.Base.{
  ℕ, zero, suc, ◌<◌, ◌≡◌, refl, sym, subst, ◌∙◌, arith, Bool, true, false, ◌==◌, if◌then◌else◌,
  if_either, List, [], ◌∷◌, ◌++◌, length, length-append, ℤ, pos, negsuc, Option, none, some,
  Bool-cases, inl, inr,
}
use proxy_server_http.Buffer.{buffer_space, buffer_write_data}
use proxy_server_http.Buffer.Fifo.{IsValid}
use proxy_server_http.Buffer.Counts.{write_data-IsValid, write_less}
use proxy_server_http.Selector.{op_noop, op_write}
use proxy_server_http.Chunked.{Origin, available_write_bytes, write_chunked, to_hex, crlf}
use proxy_server_http.Response.{origin_of}
use proxy_server_http.Connection.{
  Transformation, Connection, ConnectionState, Proxy, alive, closed, transformer_must_close,
  with_connection, set_interest, unregister, kill_origin,
}
use proxy_server_http.Relay.{FromSocket, bytes_to_send}
use proxy_server_http.Transformation.{with_origin, output_loop, output_ended, transformation_read}
use proxy_server_http.Sound.{
  Sound, PipeValid, set_state-Sound, set_interest-Sound, unregister-Sound,
  kill_transformation-Sound, kill_origin-Sound,
}
use proxy_server_http.Sound.Origin.{Live, ready_of, set_interest-Live}
use proxy_server_http.Sound.OriginSocket.{with_origin_chunk-Live}

-- A chunk takes some of the space that there is.
write_chunked-less :
    (o : Origin) (text : List ℕ)
    → IsValid o.write_buff
    → 0 < buffer_space o.write_buff
    → buffer_space (write_chunked o text (length text)).write_buff < buffer_space o.write_buff
unfolding write_chunked
write_chunked-less o text v h =
    let hex = to_hex (length text) ++ crlf in
    let some_hex : 0 < length hex = omega (arith, length-append (to_hex (length text)) crlf) in
    let b1 = (buffer_write_data o.write_buff hex (pos (length hex))).1 in
    let v1 = write_data-IsValid o.write_buff hex (pos (length hex)) v in
    let b2 = (buffer_write_data b1 text (pos (length text))).1 in
    let v2 = write_data-IsValid b1 text (pos (length text)) v1 in
    omega (
      arith,
      (write_less o.write_buff hex v).1 some_hex h,
      (write_less b1 text v1).0,
      (write_less b2 crlf v2).0,
    )

-- What is left of a transformation that has lost an end of its pipes.
abbrev pub Ends : Type 0
Ends = Transformation → Transformation

pub PipeValid-ends :
    (f : Ends) (t : Option Transformation)
    → ((u : Transformation) → (f u).tmp_buff ≡ u.tmp_buff)
    → PipeValid t
    → PipeValid (elim t [ none ↦ none | some u ↦ some (f u) ])
PipeValid-ends f none e v = v
PipeValid-ends f (some t) e v = subst IsValid (sym (e t)) v

abbrev room_of : Proxy → ℕ
room_of p = buffer_space p.connection.exchange.write_buff

module _ {S : Type 0} (read_pipe : S → ℕ → FromSocket × S) where
  -- The loop has returned, with the origin there.
  abbrev SoundOutput : Option (Bool × S × Proxy) → Type 0
  SoundOutput none = ⊥
  SoundOutput (some (z, s, p)) = Live p

  abbrev FromRound : ℕ → ℤ → Type 0
  FromRound fuel fd =
      (s : S) (p : Proxy)
      → Live p
      → room_of p < fuel
      → SoundOutput (output_loop read_pipe fuel fd s p)

  output_answered :
      (fuel : ℕ) (fd : ℤ) (ret : FromSocket) (s : S) (p : Proxy)
      → Live p
      → 0 < room_of p
      → room_of p < suc fuel
      → FromRound fuel fd
      → SoundOutput (elim ret [
        | none ↦ some (false, s, p)
        | some text ↦ elim text [
          | [] ↦ some (true, s, p)
          | x ∷ xs ↦
              output_loop read_pipe fuel fd s
                (with_origin (λ o. write_chunked o (x ∷ xs) (length (x ∷ xs))) p)
        ]
      ])
  output_answered fuel fd none s p l h f loop = l
  output_answered fuel fd (some []) s p l h f loop = l
  output_answered fuel fd (some (x ∷ xs)) s p l h f loop =
      let less =
        write_chunked-less (origin_of p.connection.exchange) (x ∷ xs) (ready_of l).client h in
      loop s _ (with_origin_chunk-Live (x ∷ xs) (length (x ∷ xs)) p l) (omega (arith, less))

  output_loop-Live : (fuel : ℕ) (fd : ℤ) → FromRound fuel fd
  unfolding output_loop
  output_loop-Live zero fd s p l f = absurd (omega arith)
  output_loop-Live (suc fuel) fd s p l f =
      let n = bytes_to_send (available_write_bytes (origin_of p.connection.exchange)) in
      let (ret, s') = read_pipe s n in
      elim (Bool-cases (n == 0)) [
        | inl t ↦ rw t (set_interest-Live fd op_noop p l)
        | inr t ↦
            rw t
              (output_answered fuel fd ret s' p l (room_positive p t) f (output_loop-Live fuel fd))
      ]
    where
      room_positive :
          (p : Proxy)
          → (bytes_to_send (available_write_bytes (origin_of p.connection.exchange)) == 0) ≡ false
          → 0 < room_of p
      room_positive p t = unfold available_write_bytes in ground arith

  by_closing :
      (st : ConnectionState) {a b : Proxy}
      → Sound a
      → Sound b
      → Sound (elim st [ transformer_must_close ↦ a | _ ↦ b ])
  by_closing alive x y = y
  by_closing closed x y = y
  by_closing transformer_must_close x y = x

  -- The end of the command's output.
  output_ended-Sound : (fd : ℤ) (p : Proxy) → Live p → Sound (output_ended read_pipe fd p)
  output_ended-Sound fd p l =
      let p1 = with_origin (λ o. write_chunked o [] 0) p in
      let l1 = (with_origin_chunk-Live [] 0 p l).sound in
      let closing : Connection → Connection = λ c. record c {
        transformation = elim c.transformation [
          | none ↦ none
          | some t ↦ some (record t { client_read = negsuc 0 })
        ];
      } in
      let p2 = unregister fd (with_connection closing p1) in
      let s2 = unregister-Sound fd (with_connection closing p1) (record {
        table = l1.table;
        buffers = record {
          to_origin = l1.buffers.to_origin;
          to_client = l1.buffers.to_client;
          parser = l1.buffers.parser;
          pipe =
              PipeValid-ends (λ t. record t { client_read = negsuc 0 }) p.connection.transformation
                (λ u. refl) l1.buffers.pipe;
        };
      }) in
      by_closing p2.connection.state
        (set_state-Sound closed (kill_origin p2) (kill_origin-Sound p2 s2))
        (kill_transformation-Sound p2 s2)

  -- What the handler does with the loop's end.
  abbrev finish : ℤ → Option (Bool × S × Proxy) → Option (S × Proxy)
  finish fd none = none
  finish fd (some (z, s, p)) = some (
    s,
    set_interest p.connection.client_fd op_write (if z then output_ended read_pipe fd p else p),
  )

  finish-Sound :
      (fd : ℤ) (r : Option (Bool × S × Proxy))
      → SoundOutput r
      → (s : S) × (p : Proxy) × (finish fd r ≡ some (s, p)) × Sound p
  finish-Sound fd none l = absurd l
  finish-Sound fd (some (z, s, p)) l = (
    s,
    _,
    refl,
    set_interest-Sound p.connection.client_fd op_write
        (if z then output_ended read_pipe fd p else p)
        (if_either Sound z (output_ended-Sound fd p l) l.sound),
  )

  -- With a sound state, an origin and more fuel than the client's buffer has space, the handler that
  -- reads a command's output returns, whatever the pipe gives, and leaves a sound state.
  pub transformation_read-Sound :
      (fuel : ℕ) (fd : ℤ) (s : S) (p : Proxy)
      → buffer_space p.connection.exchange.write_buff < fuel
      → Live p
      → (s' : S) × (p' : Proxy) × (transformation_read read_pipe fuel fd s p ≡ some (s', p'))
        × Sound p'
  unfolding transformation_read
  transformation_read-Sound fuel fd s p f l =
      let r = output_loop read_pipe fuel fd s p in
      let (s', p', e, k) = finish-Sound fd r (output_loop-Live fuel fd s p l f) in
      (s', p', is r ∙ e, k)
    where
      is :
          (r : Option (Bool × S × Proxy))
          → (elim r [
            | none ↦ none
            | some (z, s', p') ↦ some (
              s',
              set_interest p'.connection.client_fd op_write
                  (if z then output_ended read_pipe fd p' else p'),
            )
          ])
            ≡ finish fd r
      is none = refl
      is (some (z, s', p')) = refl
