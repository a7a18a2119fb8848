-- ===== src/Accept/Sessions.antt =====
-- What a new client and a new manager begin with.
use proxy_server_http.Base.{
  ℕ, ◌≡◌, ◌≢◌, ◌<◌, refl, sym, ◌∙◌, subst, Bool, true, false, if◌then◌else◌, [], Option, some, pos,
}
use proxy_server_http.Buffer.Fifo.{IsValid, contents, new_buffer-IsValid, contents-new_buffer}
use proxy_server_http.Settings.{codes}
use proxy_server_http.Selector.{
  Status, success, iargs, fdinuse, items_max_size, is_used, op_read, selector_register,
}
use proxy_server_http.Selector.Table.{WellFormed}
use proxy_server_http.Selector.Keeps.{register_success, register-WellFormed}
use proxy_server_http.Selector.Select.{selector_fd_set_nio, nio_fails}
use proxy_server_http.Protocol.{ProtocolData, header_index, protocol_data_init}
use proxy_server_http.Accept.Passive.{
  Managers, ManagerRead, died, accepted, config_active_socket, config_active_socket_data_init,
  registered_manager, config_passive_read,
}

-- A session that has just begun.
pub record Fresh (d : ProtocolData) : Type 0 where
  pub outside : d.logged_in ≡ false
  pub expects : d.expected_structure_index ≡ header_index
  pub reads : IsValid d.read_buffer × (contents d.read_buffer ≡ [])
  pub writes : IsValid d.write_buffer × (contents d.write_buffer ≡ [])

-- A manager's socket has been registered, with a session of its own; the others are as before.
pub record Joined (sock : ℕ) (s s' : Managers) : Type 0 where
  pub in_range : sock < items_max_size
  pub was_free : is_used (s.fds sock) ≡ false
  pub session : ProtocolData
  pub fresh : Fresh session
  pub item : s'.fds sock ≡ record {
    fd = some sock;
    interest = op_read;
    handler = some config_active_socket;
    user = some session;
  }
  pub others : (i : ℕ) → i ≢ sock → s'.fds i ≡ s.fds i
  pub consistent : WellFormed s'

data_init-Fresh : (memory memory' : ℕ → ℕ) → Fresh (config_active_socket_data_init memory memory')
unfolding config_active_socket_data_init protocol_data_init
data_init-Fresh memory memory' = record {
  outside = refl;
  expects = refl;
  reads = (new_buffer-IsValid memory, contents-new_buffer memory);
  writes = (new_buffer-IsValid memory', contents-new_buffer memory');
}

accepted_success :
    (st : Status) (s s' : Managers)
    → registered_manager st s ≡ accepted s'
    → (st ≡ success) × (s ≡ s')
accepted_success success s s' e = (refl, cc)
accepted_success Status.enomem s s' e = absurd (cc)
accepted_success Status.maxfd s s' e = absurd (cc)
accepted_success iargs s s' e = absurd (cc)
accepted_success fdinuse s s' e = absurd (cc)
accepted_success Status.io s s' e = absurd (cc)

config_read_is :
    (memory memory' : ℕ → ℕ) (sock : ℕ) (flags : Option ℕ) (takes : ℕ → Bool) (allocate : Bool)
    (s : Managers)
    → let session = config_active_socket_data_init memory memory' in
      let (status, s') =
        selector_register allocate s (pos sock) (some config_active_socket) op_read session in
      config_passive_read memory memory' (some sock) flags takes allocate s ≡ (
        if nio_fails (selector_fd_set_nio flags takes)
        then died (codes "setting client flags failed")
        else registered_manager status s')
unfolding config_passive_read
config_read_is memory memory' sock flags takes allocate s = refl

-- In a consistent table, where the handler of the managers' listening socket does not end the
-- program, the socket that `accept` has given is below 1024 and was not in use; it is registered
-- for reading with a session that is not logged in, expects a header and has two empty buffers; the
-- other items are as before, and the table is consistent.
pub config_passive_read-Joined :
    (memory memory' : ℕ → ℕ) (sock : ℕ) (flags : Option ℕ) (takes : ℕ → Bool) (allocate : Bool)
    (s s' : Managers)
    → WellFormed s
    → config_passive_read memory memory' (some sock) flags takes allocate s ≡ accepted s'
    → Joined sock s s'
config_passive_read-Joined memory memory' sock flags takes allocate s s' v e =
    let session = config_active_socket_data_init memory memory' in
    let (status, s1) =
      selector_register allocate s (pos sock) (some config_active_socket) op_read session in
    let is = sym (config_read_is memory memory' sock flags takes allocate s) ∙ e in
    let (ok, same) = accepted_success status s1 s' (not_died _ (registered_manager status s1) is) in
    let (small, free, item, others) =
      register_success allocate s sock config_active_socket op_read session v ok in
    subst (Joined sock s) same (record {
      in_range = small;
      was_free = free;
      session = session;
      fresh = data_init-Fresh memory memory';
      item = item;
      others = others;
      consistent =
          register-WellFormed allocate s (pos sock) (some config_active_socket) op_read session v;
    })
  where
    not_died :
        (t : Bool) (r : ManagerRead)
        → (if t then died (codes "setting client flags failed") else r) ≡ accepted s'
        → r ≡ accepted s'
    not_died true r e = absurd (cc)
    not_died false r e = e
