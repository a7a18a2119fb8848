-- ===== src/Start.antt =====
-- `main` of bin/main.c behind `parse_arguments`: the two listening sockets, the selector and the loop.
-- What the system's calls answer is an argument. A call of `DieWithSystemMessage` ends the program.
pub mod Serving
use proxy_server_http.Base.{
  ℕ, zero, suc, ◌==◌, Bool, true, false, if◌then◌else◌, List, [], ◌∷◌, ℤ, pos, negsuc, Option, none,
  some,
}
use proxy_server_http.Settings.{Settings, codes}
use proxy_server_http.Selector.{
  Status, success, io, FdSelector, op_read, selector_new, selector_register,
}
use proxy_server_http.Selector.Select.{selector_init, selector_fd_set_nio, nio_fails}

-- How the opening of a listening socket ends: with the end of the program and its message, with -1
-- behind `close`, or with the socket.
pub data Opened : Type 0 where
  died : List ℕ → Opened
  not_an_address : Opened
  listening : ℕ → Opened

-- What the calls answer: `socket`, whether `inet_pton` gives 1, whether `bind` and `listen` succeed,
-- and the two uses of `fcntl`.
pub record Answers : Type 0 where
  pub socket : Option ℕ
  pub parses : Bool
  pub binds : Bool
  pub listens : Bool
  pub flags : Option ℕ
  pub takes : ℕ → Bool

-- What the four functions share, with the text for flags that cannot be set.
abbrev open_socket : List ℕ → Answers → Option ℕ → Opened
open_socket refused a none = died (codes "socket() failed")
open_socket refused a (some sock) =
    if a.parses
    then (if a.binds
        then (if a.listens
            then (if nio_fails (selector_fd_set_nio a.flags a.takes)
                then died refused
                else listening sock)
            else died (codes "listen() failed"))
        else died (codes "bind() failed"))
    else not_an_address

unfoldable pub open_server_socket_ipv4 : Answers → Opened
unfolding selector_fd_set_nio
open_server_socket_ipv4 a = open_socket (codes "setting server flags failed") a a.socket

unfoldable pub open_server_socket_ipv6 : Answers → Opened
unfolding selector_fd_set_nio
open_server_socket_ipv6 a = open_socket (codes "Setting server flags failed") a a.socket

unfoldable pub open_server_socket_config_ipv4 : Answers → Opened
unfolding selector_fd_set_nio
open_server_socket_config_ipv4 a = open_socket (codes "setting server flags failed") a a.socket

unfoldable pub open_server_socket_config_ipv6 : Answers → Opened
unfolding selector_fd_set_nio
open_server_socket_config_ipv6 a = open_socket (codes "setting server flags failed") a a.socket

-- The second attempt, where the first gives -1.
abbrev pub or_else : Opened → Opened → Opened
or_else (died text) second = died text
or_else not_an_address second = second
or_else (listening sock) second = listening sock

-- The tables of callbacks of the two listening sockets.
pub data Listener : Type 0 where
  proxy_passive_socket config_passive_socket : Listener

abbrev pub Table : Type 0
Table = FdSelector Listener (Unit {0})

-- What the calls of `main` answer: those for each socket, `sigprocmask` and `sigaction`, and the
-- allocations of the selector, of its table and for the two registrations.
pub record Environment : Type 0 where
  pub proxy_ipv6 : Answers
  pub proxy_ipv4 : Answers
  pub config_ipv6 : Answers
  pub config_ipv4 : Answers
  pub blocked : Bool
  pub handled : Bool
  pub allocate : Bool
  pub allocate_fds : Bool
  pub grow_proxy : Bool
  pub grow_config : Bool

-- The program has ended with a message, or the loop is reached.
pub data Started : Type 0 where
  ended_with : List ℕ → Started
  serving : Table → Started

-- A descriptor of -1, where neither address is one, is refused by the registration.
abbrev pub descriptor : Opened → ℤ
descriptor (died text) = negsuc 0
descriptor not_an_address = negsuc 0
descriptor (listening sock) = pos sock

abbrev pub on_success : Status → List ℕ → Started → Started
on_success success text go = go
on_success _ text go = ended_with text

abbrev pub unless_died : Opened → Started → Started
unless_died (died text) go = ended_with text
unless_died not_an_address go = go
unless_died (listening sock) go = go

-- The two registrations.
abbrev pub register_both : Environment → ℤ → ℤ → Table → Started
register_both e proxy config s =
    let (status, s1) =
      selector_register e.grow_proxy s proxy (some proxy_passive_socket) op_read tt in
    let (status', s2) =
      selector_register e.grow_config s1 config (some config_passive_socket) op_read tt in
    on_success status (codes "Registering fd failed")
      (on_success status' (codes "registering fd failed") (serving s2))

abbrev pub with_selector : Option Table → (Table → Started) → Started
with_selector none go = ended_with (codes "Unable to create selector")
with_selector (some s) go = go s

-- `main`, up to its loop
unfoldable pub start : Environment → Started
unfolding open_server_socket_ipv4 open_server_socket_ipv6 open_server_socket_config_ipv4
    open_server_socket_config_ipv6 selector_init selector_new selector_register
start e =
    let proxy =
      or_else (open_server_socket_ipv6 e.proxy_ipv6) (open_server_socket_ipv4 e.proxy_ipv4) in
    let config =
      or_else (open_server_socket_config_ipv6 e.config_ipv6)
        (open_server_socket_config_ipv4 e.config_ipv4) in
    unless_died proxy (
      unless_died config (
        on_success (selector_init e.blocked e.handled) (codes "Initializing selector failed") (
          with_selector (selector_new e.allocate e.allocate_fds 1024)
            (register_both e (descriptor proxy) (descriptor config)))))

-- The loop, of which `round` is `selector_select`: `fuel` rounds, and whether the program has ended.
unfoldable pub serve : {W : Type 0} → (ℕ → W → Status × W) → ℕ → W → Bool × W
serve round zero w = (false, w)
serve round (suc fuel) w =
    let (status, w') = round fuel w in
    let later = serve round fuel w' in elim status [ success ↦ later | _ ↦ (true, w') ]
