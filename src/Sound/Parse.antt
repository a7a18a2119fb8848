-- ===== src/Sound/Parse.antt =====
-- `parse_content` of bin/proxyOriginActiveSocket.c returns, and keeps the state sound.
use proxy_server_http.Base.{ℕ, ◌≤◌, arith, if_either}
use proxy_server_http.Buffer.{buffer_size}
use proxy_server_http.Buffer.Fifo.{buffer_count-lt}
use proxy_server_http.Selector.{op_write}
use proxy_server_http.Chunked.{is_unset}
use proxy_server_http.Response.{
  ParserState, reading_header, reading_body, ssl_connection, take_header, Copied, copied, failed,
  out_of_fuel, copy_body, copy_tunnel,
}
use proxy_server_http.Response.Body.{ReturnedBody, copy_body-Returned}
use proxy_server_http.Response.Keeps.{take_header-Operable, copy_tunnel-Operable}
use proxy_server_http.Connection.{Proxy}
use proxy_server_http.Transformation.{Pipes, PipeEnds, Begin, no_match, died, begun}
use proxy_server_http.OriginRead.{
  Parsed, stuck, exited, unexpected, parsed, with_exchange, wake_client, header_read,
  is_reading_body, parse_header, body_copied, parse_body, parse_rest, parse_behind, parse_content,
}
use proxy_server_http.Sound.Origin.{
  Live, ready_of, exchange-Live, set_interest-Live, Fueled, Fatal, Begun, init-Begun,
}

-- The parser has returned, and the state is as it should be, or the program may end.
abbrev pub SoundParsed : PipeEnds → Parsed → Type 0
SoundParsed ends stuck = ⊥
SoundParsed ends (exited text) = Fatal ends text
SoundParsed ends (unexpected p) = Live p
SoundParsed ends (parsed p) = Live p

-- The fuel of the loops over a body.
abbrev pub FuelBody : ℕ → ℕ → Type 0
FuelBody fuel inner = (buffer_size ≤ fuel) × (buffer_size ≤ inner)

pub wake_client-Live : (p : Proxy) → Live p → Live (wake_client p)
wake_client-Live p l = set_interest-Live p.connection.client_fd op_write p l

header_read-Begun : (ends : PipeEnds) (o : Begin) → Begun ends o → Begun ends (header_read o)
header_read-Begun ends no_match l = l
header_read-Begun ends (died text) l = l
header_read-Begun ends (begun p) l = wake_client-Live p l

parse_header-Begun :
    (fuel : ℕ) (pipes : Pipes) (p : Proxy)
    → Fueled fuel pipes.stale p.settings
    → Live p
    → Begun pipes.ends (parse_header fuel pipes p)
unfolding parse_header
parse_header-Begun fuel pipes p f l =
    let p1 = with_exchange take_header p in
    let l1 =
      exchange-Live take_header p l (take_header-Operable p.connection.exchange (ready_of l)) in
    header_read-Begun pipes.ends _ (
      if_either (Begun pipes.ends) (is_reading_body p1.connection.exchange.state)
        (init-Begun fuel pipes p1 f l1) l1)

body_copied-Sound :
    (ends : PipeEnds) (p : Proxy) (c : Copied)
    → Live p
    → ReturnedBody c
    → SoundParsed ends (body_copied p c)
body_copied-Sound ends p out_of_fuel l r = r
body_copied-Sound ends p (failed e) l r = exchange-Live (λ _. e) p l r
body_copied-Sound ends p (copied e) l r = wake_client-Live _ (exchange-Live (λ _. e) p l r)

parse_body-Sound :
    (ends : PipeEnds) (fuel inner : ℕ) (p : Proxy)
    → FuelBody fuel inner
    → Live p
    → SoundParsed ends (parse_body fuel inner p)
unfolding parse_body
parse_body-Sound ends fuel inner p f l =
    let e = p.connection.exchange in
    let few = buffer_count-lt (ready_of l).parser in
    if_either (SoundParsed ends) (is_unset p.connection.origin_transformation_fd)
      (body_copied-Sound ends p (copy_body fuel inner e) l (
        copy_body-Returned fuel inner e (ready_of l) (omega (arith, few, f))
          (omega (arith, few, f))))
      (set_interest-Live p.connection.origin_transformation_fd op_write p l)

parse_rest-Sound :
    (ends : PipeEnds) (fuel inner : ℕ) (st : ParserState) (p : Proxy)
    → FuelBody fuel inner
    → Live p
    → SoundParsed ends (parse_rest fuel inner st p)
parse_rest-Sound ends fuel inner reading_header p f l = l
parse_rest-Sound ends fuel inner reading_body p f l = parse_body-Sound ends fuel inner p f l
parse_rest-Sound ends fuel inner ssl_connection p f l =
    wake_client-Live _
      (exchange-Live copy_tunnel p l (copy_tunnel-Operable p.connection.exchange (ready_of l)))

parse_behind-Sound :
    (ends : PipeEnds) (fuel inner : ℕ) (o : Begin)
    → FuelBody fuel inner
    → Begun ends o
    → SoundParsed ends (parse_behind fuel inner o)
parse_behind-Sound ends fuel inner no_match f l = l
parse_behind-Sound ends fuel inner (died text) f l = l
parse_behind-Sound ends fuel inner (begun p) f l =
    parse_rest-Sound ends fuel inner p.connection.exchange.state p f l

by_state :
    (P : Parsed → Type 0) (st : ParserState) (a b c : Parsed)
    → P a
    → P b
    → P c
    → P (elim st [ reading_header ↦ a | reading_body ↦ b | ssl_connection ↦ c ])
by_state P reading_header a b c x y z = x
by_state P reading_body a b c x y z = y
by_state P ssl_connection a b c x y z = z

-- With a sound state, an origin, and fuel for 8000 rounds of the loops over a body and for the match
-- of the media types, the parser returns, whatever the bytes are, and the state is sound, with the
-- origin still there, or the start of a command ends the program, for one of its reasons.
pub parse_content-Sound :
    (fuel inner media_fuel : ℕ) (pipes : Pipes) (p : Proxy)
    → FuelBody fuel inner
    → Fueled media_fuel pipes.stale p.settings
    → Live p
    → SoundParsed pipes.ends (parse_content fuel inner media_fuel pipes p)
unfolding parse_content
parse_content-Sound fuel inner media_fuel pipes p f m l =
    by_state (SoundParsed pipes.ends) p.connection.exchange.state _ _ _
      (parse_behind-Sound pipes.ends fuel inner (parse_header media_fuel pipes p) f
        (parse_header-Begun media_fuel pipes p m l))
      (parse_rest-Sound pipes.ends fuel inner reading_body p f l)
      (parse_rest-Sound pipes.ends fuel inner ssl_connection p f l)
