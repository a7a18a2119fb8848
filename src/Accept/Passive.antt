-- ===== src/Accept/Passive.antt =====
-- The handlers of the two listening sockets: `proxy_passive_socket_read` of bin/proxyPassiveSocket.c,
-- and `config_passive_socket_read` of bin/configPassiveSocket.c with the session that
-- bin/configActiveSocket.c makes.
use proxy_server_http.Base.{ℕ, Bool, true, if◌then◌else◌, List, pos, Option, none, some}
use proxy_server_http.Settings.{Settings, codes}
use proxy_server_http.Selector.{Status, success, FdSelector, op_read, selector_register}
use proxy_server_http.Selector.Select.{selector_fd_set_nio, nio_fails}
use proxy_server_http.Connection.{Proxy, Multiplexer, client_handler}
use proxy_server_http.Protocol.{ProtocolData, protocol_data_init}
use proxy_server_http.Accept.{Memory, client_data_init}

-- How the handler ends: no client; a client whose socket is closed at once; one that is refused, its
-- data freed; one that is handled, with the name that is kept for it; and one whose data is freed
-- because it could not be registered, where the name that `inet_ntop` gives is then written to it.
pub data Passive : Type 0 where
  no_client closed_at_once : Passive
  rejected handled : Proxy → Passive
  not_registered : Bool → Proxy → Passive

-- What follows the creation of the client's data.
abbrev pub registered_client : Bool → Status → Proxy → Passive
registered_client named success p = handled p
registered_client named _ p = not_registered named p

-- `accept` gives a socket or -1; `flags` and `takes` are those of `fcntl`; `named` is whether
-- `inet_ntop` gives a name.
unfoldable pub passive_read :
    List ℕ → Memory → Option ℕ → Option ℕ → (ℕ → Bool) → Bool → Multiplexer → Settings → Passive
unfolding selector_fd_set_nio client_data_init selector_register
passive_read date memory none flags takes named s settings = no_client
passive_read date memory (some sock) flags takes named s settings =
    let (made, p) = client_data_init date memory s settings (pos sock) in
    let (status, s') =
      selector_register true p.selector (pos sock) (some client_handler) op_read tt in
    if nio_fails (selector_fd_set_nio flags takes)
    then closed_at_once
    else if made
    then registered_client named status (record p { selector = s' })
    else rejected p

-- The table of callbacks of a manager's socket.
pub data ManagerHandler : Type 0 where
  config_active_socket : ManagerHandler

abbrev pub Managers : Type 0
Managers = FdSelector ManagerHandler ProtocolData

-- `config_active_socket_data_init`
unfoldable pub config_active_socket_data_init : (ℕ → ℕ) → (ℕ → ℕ) → ProtocolData
unfolding protocol_data_init
config_active_socket_data_init memory memory' = protocol_data_init memory memory'

-- The handler ends the program where a call fails.
pub data ManagerRead : Type 0 where
  died : List ℕ → ManagerRead
  accepted : Managers → ManagerRead

abbrev pub registered_manager : Status → Managers → ManagerRead
registered_manager success s = accepted s
registered_manager _ s = died (codes "registering client fd failed")

unfoldable pub config_passive_read :
    (ℕ → ℕ) → (ℕ → ℕ) → Option ℕ → Option ℕ → (ℕ → Bool) → Bool → Managers → ManagerRead
unfolding selector_fd_set_nio config_active_socket_data_init selector_register
config_passive_read memory memory' none flags takes allocate s = died (codes "accept() failed")
config_passive_read memory memory' (some sock) flags takes allocate s =
    let session = config_active_socket_data_init memory memory' in
    let (status, s') =
      selector_register allocate s (pos sock) (some config_active_socket) op_read session in
    if nio_fails (selector_fd_set_nio flags takes)
    then died (codes "setting client flags failed")
    else registered_manager status s'
