-- ===== src/Sound/OriginSocket.antt =====
-- The handlers of the origin's socket, in bin/proxyOriginActiveSocket.c, return and keep the state
-- sound, whatever the socket gives.
use proxy_server_http.Base.{
  ℕ, ◌+◌, ◌≡◌, sym, subst, Bool, true, false, if◌then◌else◌, if_either, List, [], ℤ,
}
use proxy_server_http.Buffer.{buffer_size}
use proxy_server_http.Settings.{codes}
use proxy_server_http.Selector.{op_write}
use proxy_server_http.Chunked.{is_unset, write_chunked}
use proxy_server_http.Response.{origin_of, put_origin}
use proxy_server_http.Response.Body.{write_chunked-IsValid}
use proxy_server_http.Connection.{Proxy, closed, transformer_must_close, kill_origin}
use proxy_server_http.Relay.{FromSocket, Ended, no_fuel, ended, origin_loop}
use proxy_server_http.Transformation.{Pipes, with_origin}
use proxy_server_http.OriginRead.{
  Parsed, stuck, exited, ReadEnd, out_of_rounds, ended_program, returned, unexpected, parsed,
  parse_content, set_state_closed, is_unlimited, end_chunk, close_directly, close_through,
  origin_closed, behind_parse, behind_loop, origin_read,
}
use proxy_server_http.Sound.{
  Sound, set_state-Sound, set_interest-Sound, unregister-Sound, kill_origin-Sound, send_error-Sound,
}
use proxy_server_http.Sound.Origin.{Live, ready_of, exchange-Live, Fueled, Fatal}
use proxy_server_http.Sound.OriginLoop.{LiveEnd, origin_loop-Live}
use proxy_server_http.Sound.Parse.{FuelBody, SoundParsed, parse_content-Sound}

pub with_origin_chunk-Live :
    (text : List ℕ) (size : ℕ) (p : Proxy)
    → Live p
    → Live (with_origin (λ o. write_chunked o text size) p)
with_origin_chunk-Live text size p l =
    exchange-Live (λ e. put_origin (write_chunked (origin_of e) text size) e) p l
      (record {
        client =
            write_chunked-IsValid (origin_of p.connection.exchange) text size (ready_of l).client;
        parser = unfold write_chunked in (ready_of l).parser;
      })

-- The end of the origin.
close_directly-Sound : (p : Proxy) → Live p → Sound (close_directly p)
unfolding close_directly
close_directly-Sound p l =
    let ended_body =
      if_either Live (is_unlimited p.connection.exchange) (with_origin_chunk-Live [] 0 p l) l in
    let p1 = set_state_closed (end_chunk p) in
    set_interest-Sound (kill_origin p1).connection.client_fd op_write (kill_origin p1)
      (kill_origin-Sound p1 (set_state-Sound closed (end_chunk p) ended_body.sound))

close_through-Sound : (p : Proxy) → Live p → Sound (close_through p)
unfolding close_through
close_through-Sound p l =
    let ended_body =
      exchange-Live (λ e. record e { finished = true }) p l
        (record { client = (ready_of l).client; parser = (ready_of l).parser }) in
    set_state-Sound transformer_must_close _
      (set_interest-Sound p.connection.origin_transformation_fd op_write _ ended_body.sound)

origin_closed-Sound : (fd : ℤ) (p : Proxy) → Live p → Sound (origin_closed fd p)
unfolding origin_closed
origin_closed-Sound fd p l =
    unregister-Sound fd
      (if is_unset p.connection.origin_transformation_fd then close_directly p else close_through p)
      (if_either Sound (is_unset p.connection.origin_transformation_fd) (close_directly-Sound p l)
        (close_through-Sound p l))

-- The handler has returned with a sound state, or the start of a command has ended the program.
abbrev pub ReadReturns : {S : Type 0} → Pipes → ReadEnd S → Type 0
ReadReturns pipes out_of_rounds = ⊥
ReadReturns pipes (ended_program text) = Fatal pipes.ends text
ReadReturns pipes (returned z s p) = Sound p

module _ {S : Type 0} (recv : S → ℕ → FromSocket × S) where
  behind_parse-Returns :
      (pipes : Pipes) (date : List ℕ) (fd : ℤ) (zero_bytes : Bool) (s : S) (r : Parsed)
      → SoundParsed pipes.ends r
      → ReadReturns pipes (behind_parse recv date fd zero_bytes s r)
  behind_parse-Returns pipes date fd z s stuck h = h
  behind_parse-Returns pipes date fd z s (exited text) h = h
  behind_parse-Returns pipes date fd z s (unexpected p) h =
      send_error-Sound date 500 (codes "Internal server error") (codes "Unexpected body format") p
        h.sound
  behind_parse-Returns pipes date fd z s (parsed p) h =
      if_either Sound z (origin_closed-Sound fd p h) h.sound

  behind_loop-Returns :
      (pipes : Pipes) (parse : Proxy → Parsed) (date : List ℕ) (fd : ℤ) (to_parse : Bool)
      (q : Proxy) (r : Ended S)
      → ((p : Proxy) → Live p → p.settings ≡ q.settings → SoundParsed pipes.ends (parse p))
      → LiveEnd q r
      → ReadReturns pipes (behind_loop recv parse date fd to_parse r)
  behind_loop-Returns pipes parse date fd to_parse q no_fuel h l = l
  behind_loop-Returns pipes parse date fd to_parse q (ended z s p) h l =
      behind_parse-Returns pipes date fd z s (if to_parse then parse p else parsed p)
        (if_either (SoundParsed pipes.ends) to_parse (h p l.0 l.1) l.0)

  pub origin_read-Sound :
      (fuel inner media_fuel : ℕ) (pipes : Pipes) (date : List ℕ) (fd : ℤ) (s : S) (p : Proxy)
      → FuelBody fuel inner
      → Fueled media_fuel pipes.stale p.settings
      → Live p
      → ReadReturns pipes (origin_read recv fuel inner media_fuel pipes date fd s p)
  unfolding origin_read
  origin_read-Sound fuel inner media_fuel pipes date fd s p f m l =
      let r = origin_loop recv (buffer_size + 2) false fd s p in
      behind_loop-Returns pipes (parse_content fuel inner media_fuel pipes) date fd (r.0) p (r.1)
        (λ q l' e.
          parse_content-Sound fuel inner media_fuel pipes q f
            (subst (Fueled media_fuel pipes.stale) (sym e) m) l')
        (origin_loop-Live recv fd false s p l)
