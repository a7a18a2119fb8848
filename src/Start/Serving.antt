-- ===== src/Start/Serving.antt =====
-- The state in which `main` of bin/main.c begins its loop.
use proxy_server_http.Base.{
  ℕ, ◌≡◌, ◌≢◌, refl, sym, ap, subst, ◌∙◌, arith, Bool, true, false, List, ℤ, pos, negsuc, Option,
  none, some,
}
use proxy_server_http.Settings.{codes}
use proxy_server_http.Selector.{
  Status, success, iargs, fdinuse, Item, is_used, op_read, selector_new, selector_register,
}
use proxy_server_http.Selector.Select.{selector_init}
use proxy_server_http.Selector.Table.{WellFormed, new-WellFormed}
use proxy_server_http.Selector.Keeps.{register-WellFormed, register_success}
use proxy_server_http.Start.{
  Opened, died, not_an_address, listening, or_else, Listener, proxy_passive_socket,
  config_passive_socket, Table, Environment, Started, serving, descriptor, on_success, unless_died,
  register_both, with_selector, start, open_server_socket_ipv4, open_server_socket_ipv6,
  open_server_socket_config_ipv4, open_server_socket_config_ipv6,
}

-- The item of a socket that listens.
abbrev pub item_of : ℕ → Listener → Item Listener (Unit {0})
item_of fd listener = record {
  fd = some fd;
  interest = op_read;
  handler = some listener;
  user = some tt;
}

-- The two sockets are registered in a consistent table.
pub record Listening (s : Table) : Type 0 where
  pub proxy : ℕ
  pub config : ℕ
  pub different : proxy ≢ config
  pub consistent : WellFormed s
  pub proxy_item : s.fds proxy ≡ item_of proxy proxy_passive_socket
  pub config_item : s.fds config ≡ item_of config config_passive_socket

-- A registration that succeeds.
record Watches (s s' : Table) (fd : ℤ) (listener : Listener) : Type 0 where
  own : ℕ
  is : fd ≡ pos own
  was_free : is_used (s.fds own) ≡ false
  item : s'.fds own ≡ item_of own listener
  others : (i : ℕ) → i ≢ own → s'.fds i ≡ s.fds i

negative_refused :
    (allocate : Bool) (s : Table) (k : ℕ) (listener : Listener)
    → (selector_register allocate s (negsuc k) (some listener) op_read tt).0 ≡ iargs
unfolding selector_register
negative_refused allocate s k listener = refl

socket_registered :
    (allocate : Bool) (s : Table) (fd : ℤ) (listener : Listener)
    → WellFormed s
    → (selector_register allocate s fd (some listener) op_read tt).0 ≡ success
    → Watches s (selector_register allocate s fd (some listener) op_read tt).1 fd listener
socket_registered allocate s (negsuc k) listener v e =
    let no = negative_refused allocate s k listener in absurd (cc)
socket_registered allocate s (pos fd) listener v e =
    let (small, free, item, others) = register_success allocate s fd listener op_read tt v e in
    record { own = fd; is = refl; was_free = free; item = item; others = others }

-- A step that did not end the program.
on_success-serving :
    (st : Status) (text : List ℕ) (go : Started) (s : Table)
    → on_success st text go ≡ serving s
    → (st ≡ success) × (go ≡ serving s)
on_success-serving success text go s e = (refl, e)
on_success-serving Status.enomem text go s e = absurd (cc)
on_success-serving Status.maxfd text go s e = absurd (cc)
on_success-serving iargs text go s e = absurd (cc)
on_success-serving fdinuse text go s e = absurd (cc)
on_success-serving Status.io text go s e = absurd (cc)

unless_died-serving :
    (o : Opened) (go : Started) (s : Table) → unless_died o go ≡ serving s → go ≡ serving s
unless_died-serving (died text) go s e = absurd (cc)
unless_died-serving not_an_address go s e = e
unless_died-serving (listening sock) go s e = e

used_item : (fd : ℕ) (listener : Listener) → is_used (item_of fd listener) ≡ true
used_item fd listener = refl

both-Listening :
    (e : Environment) (proxy config : ℤ) (s0 s : Table)
    → WellFormed s0
    → register_both e proxy config s0 ≡ serving s
    → Listening s
both-Listening e proxy config s0 s v is =
    let (status, s1) =
      selector_register e.grow_proxy s0 proxy (some proxy_passive_socket) op_read tt in
    let (status', s2) =
      selector_register e.grow_config s1 config (some config_passive_socket) op_read tt in
    let (ok1, rest) =
      on_success-serving status (codes "Registering fd failed")
        (on_success status' (codes "registering fd failed") (serving s2)) s is in
    let (ok2, last) =
      on_success-serving status' (codes "registering fd failed") (serving s2) s rest in
    let v1 = register-WellFormed e.grow_proxy s0 proxy (some proxy_passive_socket) op_read tt v in
    let v2 =
      register-WellFormed e.grow_config s1 config (some config_passive_socket) op_read tt v1 in
    let r1 = socket_registered e.grow_proxy s0 proxy proxy_passive_socket v ok1 in
    let r2 = socket_registered e.grow_config s1 config config_passive_socket v1 ok2 in
    let same : s2 ≡ s = cc in
    let other : r1.own ≢ r2.own = λ q.
      let u : is_used (s1.fds r1.own) ≡ true = ap is_used r1.item in
      let f : is_used (s1.fds r1.own) ≡ false = ap (λ i. is_used (s1.fds i)) q ∙ r2.was_free in
      absurd (cc) in
    subst Listening same (record {
      proxy = r1.own;
      config = r2.own;
      different = other;
      consistent = v2;
      proxy_item = r2.others r1.own other ∙ r1.item;
      config_item = r2.item;
    })

with-Listening :
    (e : Environment) (proxy config : ℤ) (o : Option Table) (s : Table)
    → ((s0 : Table) → o ≡ some s0 → WellFormed s0)
    → with_selector o (register_both e proxy config) ≡ serving s
    → Listening s
with-Listening e proxy config none s v is = absurd (cc)
with-Listening e proxy config (some s0) s v is = both-Listening e proxy config s0 s (v s0 refl) is

start_is :
    (e : Environment)
    → let proxy =
        or_else (open_server_socket_ipv6 e.proxy_ipv6) (open_server_socket_ipv4 e.proxy_ipv4) in
      let config =
        or_else
          (open_server_socket_config_ipv6 e.config_ipv6)
          (open_server_socket_config_ipv4 e.config_ipv4) in
      start e
      ≡ unless_died proxy (
          unless_died config (
            on_success (selector_init e.blocked e.handled) (codes "Initializing selector failed") (
              with_selector
                (selector_new e.allocate e.allocate_fds 1024)
                (register_both e (descriptor proxy) (descriptor config)))))
unfolding start
start_is e = refl

-- Where the program reaches its loop, whatever the system's calls have answered, the selector's
-- table is consistent, and two different sockets are registered for reading, one for the clients
-- and one for the managers.
pub start-Listening : (e : Environment) (s : Table) → start e ≡ serving s → Listening s
start-Listening e s is =
    let proxy =
      or_else (open_server_socket_ipv6 e.proxy_ipv6) (open_server_socket_ipv4 e.proxy_ipv4) in
    let config =
      or_else (open_server_socket_config_ipv6 e.config_ipv6)
        (open_server_socket_config_ipv4 e.config_ipv4) in
    let new = selector_new e.allocate e.allocate_fds 1024 in
    let go = with_selector new (register_both e (descriptor proxy) (descriptor config)) in
    let begun =
      on_success (selector_init e.blocked e.handled) (codes "Initializing selector failed") go in
    let opened = unless_died-serving proxy (unless_died config begun) s (sym (start_is e) ∙ is) in
    let (_, made) =
      on_success-serving (selector_init e.blocked e.handled) (codes "Initializing selector failed")
        go s (unless_died-serving config begun s opened) in
    with-Listening e (descriptor proxy) (descriptor config) new s
      (λ s0 q. new-WellFormed e.allocate e.allocate_fds 1024 s0 (omega arith) q) made
