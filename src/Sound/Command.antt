-- ===== src/Sound/Command.antt =====
-- The handler that writes to a command, in bin/proxyTransformation.c, returns and keeps the state
-- sound.
use proxy_server_http.Base.{
  ℕ, zero, suc, ◌+◌, ◌-◌, ◌<◌, ◌≡◌, refl, sym, subst, arith, true, false, ltb, if◌then◌else◌,
  if_either, List, [], ◌∷◌, length, drop, ℤ, pos, negsuc, Option, none, some,
}
use proxy_server_http.Buffer.{Buffer, buffer_count}
use proxy_server_http.Buffer.Fifo.{IsValid, buffer_count-lt}
use proxy_server_http.Buffer.Counts.{write_data-IsValid}
use proxy_server_http.Settings.{codes}
use proxy_server_http.Selector.{op_noop, op_read}
use proxy_server_http.Chunked.{Origin, Unchunked, malformed, bytes, read_unchunked}
use proxy_server_http.Chunked.Consumes.{Less, weaker}
use proxy_server_http.Chunked.Progress.{Returned, read_unchunked-Returned, chain}
use proxy_server_http.Response.{origin_of}
use proxy_server_http.Connection.{Transformation, Proxy, set_interest}
use proxy_server_http.Transformation.{
  Written, no_fuel, broken, wrote, on_body, pass_body, then_body, write_body, flush_loop, keep,
  close_input, after_body, transformation_write,
}
use proxy_server_http.Sound.{
  Sound, PipeValid, set_interest-Sound, unregister-Sound, send_error-Sound,
}
use proxy_server_http.Sound.Origin.{Live, ready_of}
use proxy_server_http.Sound.Parse.{FuelBody}
use proxy_server_http.Sound.Pipes.{PipeValid-ends}
use proxy_server_http.Sound.Flushing.{Wrote, flush_loop-Wrote}

further : {S : Type 0} {o o' : Origin} (r : Written S) → Less o 0 o' → Wrote o' r → Wrote o r
further no_fuel l w = w
further (broken o2 s) l w = chain 0 0 l w
further (wrote full b o2 s) l w = (w.0, chain 0 0 l w.1)

module _ {S : Type 0} (write_pipe : S → List ℕ → ℕ × S) where
  body_answered :
      (more : Origin → S → Written S) (b : Buffer) (s : S) (o : Origin) (u : Unchunked)
      → IsValid b
      → ((o' : Origin) (s' : S) → Less o 1 o' → Wrote o' (more o' s'))
      → Returned o u
      → Wrote o (on_body write_pipe more b s u)
  body_answered more b s o Unchunked.no_fuel v h r = r
  body_answered more b s o (malformed xs o') v h r = r
  body_answered more b s o (bytes [] o') v h r = (v, weaker r)
  body_answered more b s o (bytes (x ∷ xs) o') v h r =
      let text = x ∷ xs in
      let (taken, s') = write_pipe s text in
      let left = drop taken text in
      let one : Less o 1 o' = record {
        valid = r.valid;
        count = omega (arith, r.count);
        client_same = r.client_same;
      } in
      if_either (Wrote o) (ltb taken (length text))
        (write_data-IsValid b left (pos (length text - taken)) v, weaker r)
        (further (more o' s') (weaker r) (h o' s' one))

  pass_body-Wrote :
      (fuel inner : ℕ) (o : Origin) (b : Buffer) (s : S)
      → IsValid o.parser_buff
      → IsValid b
      → buffer_count o.parser_buff < fuel
      → buffer_count o.parser_buff < inner
      → Wrote o (pass_body write_pipe fuel inner o b s)
  unfolding pass_body
  pass_body-Wrote zero inner o b s u v f g = absurd (omega arith)
  pass_body-Wrote (suc fuel) inner o b s u v f g =
      body_answered (λ o' s'. pass_body write_pipe fuel inner o' b s') b s o
        (read_unchunked inner 1000 o) v
        (λ o' s' l.
          pass_body-Wrote fuel inner o' b s' l.valid v (omega (arith, l.count))
            (omega (arith, l.count)))
        (read_unchunked-Returned inner 1000 o u g)

  then_body-Wrote :
      (fuel inner : ℕ) (o : Origin) (r : Written S)
      → ((o' : Origin) (b : Buffer) (s : S)
          → IsValid b
          → Less o 0 o'
          → Wrote o' (pass_body write_pipe fuel inner o' b s))
      → Wrote o r
      → Wrote o (then_body write_pipe fuel inner r)
  then_body-Wrote fuel inner o no_fuel h w = w
  then_body-Wrote fuel inner o (broken o' s) h w = w
  then_body-Wrote fuel inner o (wrote true b o' s) h w = w
  then_body-Wrote fuel inner o (wrote false b o' s) h w = further _ w.1 (h o' b s w.0 w.1)

  pub write_body-Wrote :
      (fuel inner : ℕ) (o : Origin) (b : Buffer) (s : S)
      → IsValid o.parser_buff
      → IsValid b
      → buffer_count o.parser_buff < fuel
      → buffer_count o.parser_buff < inner
      → Wrote o (write_body write_pipe fuel inner o b s)
  unfolding write_body
  write_body-Wrote fuel inner o b s u v f g =
      then_body-Wrote fuel inner o (flush_loop write_pipe (buffer_count b + 1) o b s)
        (λ o' b' s' v' l.
          pass_body-Wrote fuel inner o' b' s' l.valid v' (omega (arith, l.count))
            (omega (arith, l.count)))
        (flush_loop-Wrote write_pipe (buffer_count b + 1) o b s u v (omega arith))

  -- The state with what the loops leave.
  kept-Sound :
      (b : Buffer) (o : Origin) (p : Proxy)
      → IsValid b
      → Less (origin_of p.connection.exchange) 0 o
      → Sound p
      → Sound (keep write_pipe b o p)
  kept-Sound b o p v l s = record {
    table = s.table;
    buffers = record {
      to_origin = s.buffers.to_origin;
      to_client = subst IsValid (sym l.client_same) s.buffers.to_client;
      parser = λ _. l.valid;
      pipe = kept p.connection.transformation;
    };
  }
    where
      kept :
          (t : Option Transformation)
          → PipeValid (elim t [ none ↦ none | some u ↦ some (record u { tmp_buff = b }) ])
      kept none = tt
      kept (some u) = v

  close_input-Sound : (fd : ℤ) (p : Proxy) → Sound p → Sound (close_input write_pipe fd p)
  close_input-Sound fd p s = unregister-Sound fd _ (record {
    table = s.table;
    buffers = record {
      to_origin = s.buffers.to_origin;
      to_client = s.buffers.to_client;
      parser = s.buffers.parser;
      pipe =
          PipeValid-ends (λ t. record t { origin_write = negsuc 0 }) p.connection.transformation
            (λ u. refl) s.buffers.pipe;
    };
  })

  -- What a handler gives that can run out of fuel.
  abbrev pub Handled : Option (S × Proxy) → Type 0
  Handled none = ⊥
  Handled (some (s, p)) = Sound p

  after_body-Handled :
      (date : List ℕ) (fd : ℤ) (p : Proxy) (r : Written S)
      → Live p
      → Wrote (origin_of p.connection.exchange) r
      → Handled (after_body write_pipe date fd p r)
  after_body-Handled date fd p no_fuel l w = w
  after_body-Handled date fd p (broken o s) l w =
      let k = l.sound in
      send_error-Sound date 500 (codes "Internal server error") (codes "Unexpected body format") _
        (record {
          table = k.table;
          buffers = record {
            to_origin = k.buffers.to_origin;
            to_client = subst IsValid (sym w.client_same) k.buffers.to_client;
            parser = λ _. w.valid;
            pipe = k.buffers.pipe;
          };
        })
  after_body-Handled date fd p (wrote pipe_full b o s) l w =
      let p1 = keep write_pipe b o p in
      let s1 = kept-Sound b o p w.0 w.1 l.sound in
      let p2 = if o.finished then close_input write_pipe fd p1 else p1 in
      let s2 : Sound p2 = if_either Sound o.finished (close_input-Sound fd p1 s1) s1 in
      let p3 = if pipe_full then p2 else set_interest fd op_noop p2 in
      let s3 : Sound p3 = if_either Sound pipe_full s2 (set_interest-Sound fd op_noop p2 s2) in
      set_interest-Sound p3.connection.origin_fd op_read p3 s3

  -- With a sound state, an origin, a running transformation, and fuel for 8000 rounds of the
  -- loops over a body, the handler that writes to the command returns, whatever the pipe takes,
  -- and leaves a sound state.
  pub transformation_write-Sound :
      (fuel inner : ℕ) (date : List ℕ) (fd : ℤ) (t : Transformation) (s : S) (p : Proxy)
      → FuelBody fuel inner
      → Live p
      → p.connection.transformation ≡ some t
      → Handled (transformation_write write_pipe fuel inner date fd t s p)
  unfolding transformation_write
  transformation_write-Sound fuel inner date fd t s p f l e =
      let v : IsValid t.tmp_buff = subst PipeValid e l.sound.buffers.pipe in
      let few = buffer_count-lt (ready_of l).parser in
      after_body-Handled date fd p _ l (
        write_body-Wrote fuel inner (origin_of p.connection.exchange) t.tmp_buff s
          (ready_of l).parser v (omega (arith, few, f)) (omega (arith, few, f)))
