-- ===== src/Transformation.antt =====
-- The command that transforms bodies, in bin/proxyTransformation.c: how it is started, and the two
-- handlers that write to it and read from it.
pub mod Flush
pub mod Order
use proxy_server_http.Base.{
  ℕ, zero, suc, ◌+◌, ◌-◌, ◌==◌, ltb, if◌then◌else◌, Bool, true, false, not, ◌||◌, ◌&&◌, List, [],
  ◌∷◌, ◌++◌, ℤ, pos, negsuc, Option, none, some, length, take, drop,
}
use proxy_server_http.Buffer.{
  Buffer, new_buffer, buffer_count, buffer_write_data, buffer_read_data, buffer_peek_data,
  buffer_reset_peek_line,
}
use proxy_server_http.Settings.{codes}
use proxy_server_http.Selector.{Status, success, op_noop, op_read, op_write, selector_register}
use proxy_server_http.Chunked.{
  Origin, Unchunked, malformed, bytes, available_write_bytes, read_unchunked, write_chunked,
}
use proxy_server_http.Response.{Exchange, origin_of, put_origin, wants_transformation}
use proxy_server_http.Connection.{
  Transformation, Connection, Proxy, ConnectionState, alive, closed, transformer_must_close,
  transformation_handler, with_connection, set_interest, unregister, kill_transformation,
  kill_origin, send_error,
}
use proxy_server_http.Relay.{FromSocket, bytes_to_send}

-- What `pipe` and `fork` give: not both pipes, or the ends that the proxy keeps, the one that it
-- writes to and the one that it reads from, the memory of the new buffer, and whether
-- `selector_fd_set_nio` succeeds on the one that is read and on the other.
pub data PipeEnds : Type 0 where
  no_pipes : PipeEnds
  running : ℤ → ℤ → (ℕ → ℕ) → Bool → Bool → PipeEnds

-- What the start of a command finds: the bytes that the array of the media types holds behind the
-- null byte of its text, and the pipes.
pub record Pipes : Type 0 where
  pub stale : List ℕ
  pub ends : PipeEnds

-- The match of the media types has run out of fuel; the program has ended with a message; or the
-- connection goes on.
pub data Begin : Type 0 where
  no_match : Begin
  died : List ℕ → Begin
  begun : Proxy → Begin

-- The registration of a pipe, and what it answers.
abbrev pub register_pipe : ℤ → ℕ → Proxy → Status × Proxy
register_pipe fd interest p =
    let (status, s) =
      selector_register true p.selector fd (some transformation_handler) interest tt in
    (status, record p { selector = s })

-- A refusal ends the program.
abbrev pub on_registered : Status × Proxy → (Proxy → Begin) → Begin
on_registered (success, p) go = go p
on_registered (_, p) go = died (codes "registering fd failed")

-- The steps of `proxy_transformation_data_init` behind its conditions, where `fork` succeeds.
abbrev pub start : PipeEnds → Proxy → Begin
start no_pipes p = begun (with_connection (λ c. record c { transformation = none }) p)
start (running origin_write client_read memory client_nio origin_nio) p =
    let p1 =
      with_connection
        (λ c. record c {
          client_transformation_fd = client_read;
          origin_transformation_fd = origin_write;
          transformation = some (record {
            origin_write = origin_write;
            client_read = client_read;
            tmp_buff = new_buffer memory;
          });
        })
        p in
    let registered =
      on_registered (register_pipe client_read op_read p1)
        (λ p2. on_registered (register_pipe origin_write op_write p2) begun) in
    if client_nio && origin_nio then registered else died (codes "setting transformer flags failed")

abbrev pub start_if : Option Bool → PipeEnds → Proxy → Begin
start_if none ends p = no_match
start_if (some false) ends p = begun (with_connection (λ c. record c { transformation = none }) p)
start_if (some true) ends p = start ends p

unfoldable pub proxy_transformation_data_init : ℕ → Pipes → Proxy → Begin
unfolding wants_transformation selector_register new_buffer
proxy_transformation_data_init fuel pipes p =
    start_if (wants_transformation fuel pipes.stale p.settings p.connection.exchange) pipes.ends p

abbrev pub with_origin : (Origin → Origin) → Proxy → Proxy
with_origin f =
    with_connection (λ c. record c { exchange = put_origin (f (origin_of c.exchange)) c.exchange })

-- `read` and `write` on the pipes, of which `S` is what the system and the command make of them. A
-- `write` takes some of the bytes, none where it fails.
module _ {S : Type 0} (read_pipe : S → ℕ → FromSocket × S) where
  -- The loop of `proxy_transformation_read`, with whether `ret` is 0 at its end: `none` without fuel.
  unfoldable pub output_loop : ℕ → ℤ → S → Proxy → Option (Bool × S × Proxy)
  output_loop zero fd s p = none
  output_loop (suc fuel) fd s p =
      let n = bytes_to_send (available_write_bytes (origin_of p.connection.exchange)) in
      let (ret, s') = read_pipe s n in
      if n == 0 then some (false, s, set_interest fd op_noop p) else elim ret [
        | none ↦ some (false, s', p)
        | some text ↦ elim text [
          | [] ↦ some (true, s', p)
          | x ∷ xs ↦
              output_loop fuel fd s'
                (with_origin (λ o. write_chunked o (x ∷ xs) (length (x ∷ xs))) p)
        ]
      ]

  -- The end of the command's output.
  abbrev pub output_ended : ℤ → Proxy → Proxy
  output_ended fd p =
      let p1 = with_origin (λ o. write_chunked o [] 0) p in
      let closing : Connection → Connection = λ c. record c {
        transformation = elim c.transformation [
          | none ↦ none
          | some t ↦ some (record t { client_read = negsuc 0 })
        ];
      } in
      let p2 = unregister fd (with_connection closing p1) in
      elim p2.connection.state [
        | transformer_must_close ↦
            with_connection (λ c. record c { state = closed }) (kill_origin p2)
        | _ ↦ kill_transformation p2
      ]

  unfoldable pub transformation_read : ℕ → ℤ → S → Proxy → Option (S × Proxy)
  unfolding output_loop
  transformation_read fuel fd s p = elim (output_loop fuel fd s p) [
    | none ↦ none
    | some (zero_bytes, s', p') ↦ some (
      s',
      set_interest p'.connection.client_fd op_write (if zero_bytes then output_ended fd p' else p'),
    )
  ]

-- How a loop that writes to the command ends.
pub data Written (S : Type 0) : Type 0 where
  no_fuel : Written S
  broken : Origin → S → Written S
  wrote : Bool → Buffer → Origin → S → Written S

module _ {S : Type 0} (write_pipe : S → List ℕ → ℕ × S) where
  -- The first loop: the bytes that the pipe did not take before. The Boolean is `pipe_full`.
  unfoldable pub flush_loop : ℕ → Origin → Buffer → S → Written S
  flush_loop zero o b s = no_fuel
  flush_loop (suc fuel) o b s =
      let (n, text, b1) = buffer_peek_data (buffer_reset_peek_line b) (pos 1000) in
      let (taken, s') = write_pipe s text in
      let b2 = (buffer_read_data b1 (pos taken)).2 in
      let rest = flush_loop fuel o b2 s' in
      if buffer_count b == 0
      then wrote false b o s
      else if ltb taken n
      then wrote true b2 o s'
      else rest

  -- A round of the second loop, behind `read_unchunked`.
  abbrev pub on_body : (Origin → S → Written S) → Buffer → S → Unchunked → Written S
  on_body more b s Unchunked.no_fuel = no_fuel
  on_body more b s (malformed xs o) = broken o s
  on_body more b s (bytes [] o) = wrote false b o s
  on_body more b s (bytes (x ∷ xs) o) =
      let text = x ∷ xs in
      let (taken, s') = write_pipe s text in
      let left = drop taken text in
      if ltb taken (length text)
      then wrote true (buffer_write_data b left (pos (length text - taken))).1 o s'
      else more o s'

  -- The second loop; `inner` is the fuel of `read_unchunked`.
  unfoldable pub pass_body : ℕ → ℕ → Origin → Buffer → S → Written S
  pass_body zero inner o b s = no_fuel
  pass_body (suc fuel) inner o b s =
      on_body (λ o' s'. pass_body fuel inner o' b s') b s (read_unchunked inner 1000 o)

  abbrev pub then_body : ℕ → ℕ → Written S → Written S
  then_body fuel inner no_fuel = no_fuel
  then_body fuel inner (broken o s) = broken o s
  then_body fuel inner (wrote true b o s) = wrote true b o s
  then_body fuel inner (wrote false b o s) = pass_body fuel inner o b s

  -- Both loops.
  unfoldable pub write_body : ℕ → ℕ → Origin → Buffer → S → Written S
  unfolding flush_loop pass_body
  write_body fuel inner o b s = then_body fuel inner (flush_loop (buffer_count b + 1) o b s)

  abbrev pub keep : Buffer → Origin → Proxy → Proxy
  keep b o = with_connection (λ c. record c {
    exchange = put_origin o c.exchange;
    transformation = elim c.transformation [
      | none ↦ none
      | some t ↦ some (record t { tmp_buff = b })
    ];
  })

  abbrev pub close_input : ℤ → Proxy → Proxy
  close_input fd p = unregister fd (
      with_connection
        (λ c. record c {
          transformation = elim c.transformation [
            | none ↦ none
            | some t ↦ some (record t { origin_write = negsuc 0 })
          ];
        })
        p)

  -- What follows the loops.
  abbrev pub after_body : List ℕ → ℤ → Proxy → Written S → Option (S × Proxy)
  after_body date fd p no_fuel = none
  after_body date fd p (broken o s) = some (
    s,
    send_error date 500 (codes "Internal server error") (codes "Unexpected body format")
        (with_origin (λ _. o) p),
  )
  after_body date fd p (wrote pipe_full b o s) =
      let p1 = keep b o p in
      let p2 = if o.finished then close_input fd p1 else p1 in
      let p3 = if pipe_full then p2 else set_interest fd op_noop p2 in
      some (s, set_interest p3.connection.origin_fd op_read p3)

  unfoldable pub transformation_write :
      ℕ → ℕ → List ℕ → ℤ → Transformation → S → Proxy → Option (S × Proxy)
  unfolding write_body
  transformation_write fuel inner date fd t s p =
      after_body date fd p (write_body fuel inner (origin_of p.connection.exchange) t.tmp_buff s)
