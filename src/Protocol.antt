-- ===== src/Protocol.antt =====
-- bin/protocolV1.c and bin/include/protocolV1.h: the manager's protocol. A handler takes the world
-- that it can reach through its key and the globals, and returns it changed.
--
-- `kill_socket` allocates a structure of its own and frees the two pointers that it finds in that
-- uninitialised memory, which C leaves undefined; the model goes on as if they were null. The
-- session itself stays allocated, and the callers go on with it.
pub mod Login
pub mod Metrics
pub mod Transformations
pub mod Reader
pub mod Access
pub mod Valid
pub mod Progress
pub mod Requests
pub mod Total
pub mod Writer
pub mod Status
pub mod Credentials
use proxy_server_http.Base.{
  ℕ, ◌+◌, ◌==◌, ltb, if◌then◌else◌, Bool, true, false, List, [], ◌∷◌, ◌&&◌, ℤ, pos, negsuc,
}
use proxy_server_http.Buffer.{Buffer, new_buffer, buffer_write_data}
use proxy_server_http.Settings.{Settings, codes}

-- `structureIndex`
abbrev pub login_index : ℕ
login_index = 0

abbrev pub metrics_index : ℕ
metrics_index = 1

abbrev pub transformations_index : ℕ
transformations_index = 2

abbrev pub header_index : ℕ
header_index = 3

-- `responseNumber`
abbrev pub permission_denied : ℕ
permission_denied = 0

abbrev pub internal_error : ℕ
internal_error = 1

abbrev pub ok : ℕ
ok = 2

-- `fd_interest`
abbrev pub op_noop : ℕ
op_noop = 0

abbrev pub op_read : ℕ
op_read = 1

abbrev pub op_write : ℕ
op_write = 4

-- `protocol_data_v1`
pub record ProtocolData : Type 0 where
  pub logged_in : Bool
  pub protocol : ℕ
  pub expected_structure_index : ℕ
  pub read_buffer : Buffer
  pub write_buffer : Buffer

-- `registered` is whether the selector still watches the socket, which is closed when it stops, and
-- `interest` is what it watches for.
pub record World : Type 0 where
  pub session : ProtocolData
  pub settings : Settings
  pub registered : Bool
  pub interest : ℕ

-- `protocol_data_init_v1`
unfoldable pub protocol_data_init : (ℕ → ℕ) → (ℕ → ℕ) → ProtocolData
unfolding new_buffer
protocol_data_init memory memory' = record {
  logged_in = false;
  protocol = 0;
  expected_structure_index = header_index;
  read_buffer = new_buffer memory;
  write_buffer = new_buffer memory';
}

-- `userStruct users[2]`
abbrev pub users : List (List ℕ × List ℕ)
users = (codes "fastiz", codes "12345") ∷ (codes "eze", codes "12345") ∷ []

abbrev pub set_read_buffer : Buffer → World → World
set_read_buffer b w = record w { session = record w.session { read_buffer = b } }

abbrev pub set_write_buffer : Buffer → World → World
set_write_buffer b w = record w { session = record w.session { write_buffer = b } }

abbrev pub expect : ℕ → World → World
expect index w = record w { session = record w.session { expected_structure_index = index } }

-- `selector_set_interest_key`, which refuses a descriptor that is not registered
unfoldable pub set_interest_key : ℕ → World → World
set_interest_key i w = record w { interest = if w.registered then i else w.interest }

unfoldable pub kill_socket : World → World
kill_socket w = record w { registered = false; interest = op_noop }

-- `buffer_write_data` to the write buffer, all of the bytes offered, and `OP_WRITE`
unfoldable pub reply : List ℕ → ℕ → World → World
unfolding set_interest_key
reply bytes size w =
    set_interest_key op_write
      (set_write_buffer (buffer_write_data w.session.write_buffer bytes (pos size)).1 w)

unfoldable pub return_permission_denied : World → World
unfolding reply
return_permission_denied = reply (permission_denied ∷ []) 1

unfoldable pub return_ok : World → World
unfolding reply
return_ok = reply (ok ∷ []) 1

unfoldable pub return_internal_error : World → World
unfolding reply
return_internal_error = reply (internal_error ∷ []) 1

-- The C string at the start of an array: the bytes before the first null byte.
abbrev pub c_string : List ℕ → List ℕ
c_string [] = []
c_string (x ∷ xs) = if x == 0 then [] else x ∷ c_string xs

-- `strcmp(s, t) == 0`, on C strings
abbrev pub str_eq : List ℕ → List ℕ → Bool
str_eq [] [] = true
str_eq [] (y ∷ ys) = false
str_eq (x ∷ xs) [] = false
str_eq (x ∷ xs) (y ∷ ys) = x == y && str_eq xs ys

-- A byte of a structure that was read into.
abbrev pub byte_at : ℕ → List ℕ → ℕ
byte_at i [] = 0
byte_at ℕ.zero (x ∷ xs) = x
byte_at (ℕ.suc i) (x ∷ xs) = byte_at i xs

-- `ret > 0`
abbrev pub positive : ℤ → Bool
positive (pos n) = ltb 0 n
positive (negsuc _) = false
