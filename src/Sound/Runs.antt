-- ===== src/Sound/Runs.antt =====
-- A connection from its acceptance on, under every sequence of calls of its handlers.
use proxy_server_http.Base.{ℕ, ◌≡◌, Bool, true, false, List, ℤ, Option, some, subst, sym, ◌<◌}
use proxy_server_http.Settings.{Settings}
use proxy_server_http.Selector.Table.{WellFormed}
use proxy_server_http.Connection.{Transformation, Proxy, Multiplexer}
use proxy_server_http.Relay.{FromSocket, ended, written, client_write, origin_write}
use proxy_server_http.Transformation.{Pipes, transformation_read, transformation_write}
use proxy_server_http.ClientRead.{Thread, client_socket_read}
use proxy_server_http.OriginRead.{returned, origin_read}
use proxy_server_http.Accept.{Memory, Addresses, accept_client, open_origin_socket, client_block}
use proxy_server_http.Buffer.{buffer_space}
use proxy_server_http.Sound.{Sound, SoundEnd}
use proxy_server_http.Sound.Origin.{Fueled}
use proxy_server_http.Sound.Parse.{FuelBody}
use proxy_server_http.Sound.OriginSocket.{ReadReturns, origin_read-Sound}
use proxy_server_http.Sound.ClientSocket.{SoundWritten, client_write-Sound, origin_write-Sound}
use proxy_server_http.Sound.ClientRequest.{client_socket_read-Sound}
use proxy_server_http.Sound.Pipes.{transformation_read-Sound}
use proxy_server_http.Sound.Command.{Handled, transformation_write-Sound}
use proxy_server_http.Sound.Begin.{
  accept_client-Sound, open_origin_socket-Sound, client_block-Sound,
}

-- One call that returns, or the end of the thread that connects. The handlers of the origin and of
-- the pipes are registered behind the creation of the origin's data. What the system answers is as
-- it may be, `S` what a socket or a pipe is to it; the loops have fuel enough.
pub data Called (p : Proxy) : Proxy → Type 1 where
  client_reads :
      {S : Type 0} {q : Proxy} (recv : S → ℕ → FromSocket × S) (fuel : ℕ) (date : List ℕ) (fd : ℤ)
      (thread : Thread) (stale : Bool) (s s' : S) (zero_bytes : Bool)
      → client_socket_read recv fuel date fd thread stale s p ≡ ended zero_bytes s' q
      → Called p q
  client_writes : {q : Proxy} (fd : ℤ) → client_write fd p ≡ written q → Called p q
  connects :
      (date : List ℕ) (fd : ℕ) (addresses : Option Addresses)
      → Called p (open_origin_socket date fd addresses p)
  is_told :
      (date : List ℕ) (nio : Bool) (memory : Option (ℕ → ℕ)) (fd : ℤ)
      → Called p (client_block date nio memory fd p)
  origin_reads :
      {S : Type 0} {q : Proxy} (recv : S → ℕ → FromSocket × S) (fuel inner media_fuel : ℕ)
      (pipes : Pipes) (date : List ℕ) (fd : ℤ) (s s' : S) (zero_bytes : Bool)
      → p.connection.origin ≡ true
      → FuelBody fuel inner
      → Fueled media_fuel pipes.stale p.settings
      → origin_read recv fuel inner media_fuel pipes date fd s p ≡ returned zero_bytes s' q
      → Called p q
  origin_writes : (fd : ℤ) → Called p (origin_write fd p)
  command_reads :
      {S : Type 0} {q : Proxy} (read_pipe : S → ℕ → FromSocket × S) (fuel : ℕ) (fd : ℤ) (s s' : S)
      → p.connection.origin ≡ true
      → buffer_space p.connection.exchange.write_buff < fuel
      → transformation_read read_pipe fuel fd s p ≡ some (s', q)
      → Called p q
  command_writes :
      {S : Type 0} {q : Proxy} (write_pipe : S → List ℕ → ℕ × S) (fuel inner : ℕ) (date : List ℕ)
      (fd : ℤ) (t : Transformation) (s s' : S)
      → p.connection.origin ≡ true
      → p.connection.transformation ≡ some t
      → FuelBody fuel inner
      → transformation_write write_pipe fuel inner date fd t s p ≡ some (s', q)
      → Called p q

-- Calls one after the other, as long as the connection's memory is not freed.
pub data Steps : Proxy → Proxy → Type 1 where
  stop : {p : Proxy} → Steps p p
  step : {p q r : Proxy} → p.freed ≡ false → Called p q → Steps q r → Steps p r

step-Sound : {p q : Proxy} → Called p q → Sound p → Sound q
step-Sound {p} (client_reads recv fuel date fd thread stale s s' z e) k =
    subst SoundEnd e (client_socket_read-Sound recv fuel date fd thread stale s p k)
step-Sound {p} (client_writes fd e) k = subst SoundWritten e (client_write-Sound fd p k)
step-Sound {p} (connects date fd addresses) k = open_origin_socket-Sound date fd addresses p k
step-Sound {p} (is_told date nio memory fd) k = client_block-Sound date nio memory fd p k
step-Sound {p} (origin_reads recv fuel inner media_fuel pipes date fd s s' z o f m e) k =
    subst (ReadReturns pipes) e (
      origin_read-Sound recv fuel inner media_fuel pipes date fd s p f m
        (record { sound = k; origin = o }))
step-Sound {p} (origin_writes fd) k = origin_write-Sound fd p k
step-Sound {p} (command_reads {S} {q} read_pipe fuel fd s s' o f e) k =
    let (s2, p2, e2, k2) =
      transformation_read-Sound read_pipe fuel fd s p f (record { sound = k; origin = o }) in
    subst (Handled (λ (s : S) (t : List ℕ). (0, s))) e
      (subst (Handled (λ (s : S) (t : List ℕ). (0, s))) (sym e2) k2)
step-Sound {p} (command_writes write_pipe fuel inner date fd t s s' o r f e) k =
    subst (Handled write_pipe) e (
      transformation_write-Sound write_pipe fuel inner date fd t s p f
        (record { sound = k; origin = o }) r)

pub steps-Sound : {p q : Proxy} → Steps p q → Sound p → Sound q
steps-Sound stop k = k
steps-Sound (step f c rest) k = steps-Sound rest (step-Sound c k)

-- A client is accepted into a selector whose table is consistent. Under every sequence of calls of
-- the connection's handlers that return, each on a connection that is not yet freed, and whatever
-- the sockets, the pipes, the memory and the thread give, the table is consistent, and the
-- positions in every buffer that the connection has are within its array.
pub reachable-Sound :
    (date : List ℕ) (memory : Memory) (s : Multiplexer) (settings : Settings) (client_fd : ℤ)
    (q : Proxy)
    → WellFormed s
    → Steps (accept_client date memory s settings client_fd).1 q
    → Sound q
reachable-Sound date memory s settings client_fd q w steps =
    steps-Sound steps (accept_client-Sound date memory s settings client_fd w)
