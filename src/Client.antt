-- ===== src/Client.antt =====
-- client_example/clientMain.c: what the manager's client sends for each command, and what it prints
-- for what comes back. The socket is the bytes that arrive on it, of which `recv` gives the first;
-- where none is left, a variable keeps what it holds, which `unset` stands for.
pub mod EndToEnd
pub mod Typed
pub mod TypedLogin
pub mod Framed
use proxy_server_http.Base.{ℕ, zero, suc, ◌+◌, ◌*◌, ◌%◌, ◌==◌, if◌then◌else◌, List, [], ◌∷◌, ◌++◌}
use proxy_server_http.Protocol.{
  login_index, metrics_index, transformations_index, ok, permission_denied, byte_at,
}
use proxy_server_http.Protocol.Transformations.{
  set_status, get_status, set_media_types, get_media_types, set_transformation_command,
  get_transformation_command,
}

-- What a command prints.
pub data Printed : Type 0 where
  logged_in invalid_credentials login_first error : Printed
  status_set status_is metric_is : ℕ → Printed
  text_set text_is : List ℕ → Printed

-- A command: what it sends, and what it prints for what `unset` variables hold and what arrives.
pub record Command : Type 0 where
  pub sent : List ℕ
  pub prints : ℕ → List ℕ → Printed

-- `requestHeader`, a byte for each field
abbrev pub request_header : ℕ → List ℕ
request_header index = 1 ∷ index ∷ []

-- A C string is sent with its null byte.
abbrev pub text_bytes : List ℕ → List ℕ
text_bytes text = text ++ (0 ∷ [])

-- `recv` of one byte
abbrev pub recv_byte : ℕ → List ℕ → ℕ
recv_byte unset [] = unset
recv_byte unset (x ∷ xs) = x

abbrev pub later : List ℕ → List ℕ
later [] = []
later (x ∷ xs) = xs

-- The three ways to go on behind the response's header.
abbrev pub on_response : Printed → Printed → ℕ → Printed
on_response done denied code =
    if code == ok then done else if code == permission_denied then denied else error

unfoldable pub login_command : List ℕ → List ℕ → Command
login_command user password = record {
  sent = request_header login_index ++ (text_bytes user ++ text_bytes password);
  prints = λ unset arrived. on_response logged_in invalid_credentials (recv_byte unset arrived);
}

-- A request of the transformations, its type and what follows.
abbrev pub transformation_bytes : ℕ → List ℕ → List ℕ
transformation_bytes type argument = request_header transformations_index ++ (type ∷ argument)

-- The `int` that the caller gives is a byte on the wire.
unfoldable pub set_status_command : ℕ → Command
set_status_command status = record {
  sent = transformation_bytes set_status ((status % 256) ∷ []);
  prints = λ unset arrived. on_response (status_set status) login_first (recv_byte unset arrived);
}

unfoldable pub get_status_command : Command
get_status_command = record {
  sent = transformation_bytes get_status [];
  prints = λ unset arrived.
      on_response (status_is (recv_byte unset (later arrived))) login_first
        (recv_byte unset arrived);
}

-- `setMediaTypes` and `setTransformationCommand`
abbrev pub set_text_command : ℕ → List ℕ → Command
set_text_command type text = record {
  sent = transformation_bytes type (text_bytes text);
  prints = λ unset arrived. on_response (text_set text) login_first (recv_byte unset arrived);
}

unfoldable pub set_media_types_command : List ℕ → Command
set_media_types_command = set_text_command set_media_types

unfoldable pub set_transformation_command_command : List ℕ → Command
set_transformation_command_command = set_text_command set_transformation_command

-- The sizes of the arrays `mediaTypes` and `command` of the two readers.
abbrev pub answer_size : ℕ
answer_size = 200

-- The bytes up to a null byte, the end of what arrives, or the array's end.
unfoldable pub recv_text : ℕ → List ℕ → List ℕ
recv_text zero arrived = []
recv_text (suc room) [] = []
recv_text (suc room) (c ∷ cs) = if c == 0 then [] else c ∷ recv_text room cs

-- `getMediaTypes` and `getTransformationCommand`
abbrev pub get_text_command : ℕ → Command
get_text_command type = record {
  sent = transformation_bytes type [];
  prints = λ unset arrived.
      on_response (text_is (recv_text answer_size (later arrived))) login_first
        (recv_byte unset arrived);
}

unfoldable pub get_media_types_command : Command
get_media_types_command = get_text_command get_media_types

unfoldable pub get_transformation_command_command : Command
get_transformation_command_command = get_text_command get_transformation_command

-- A `uint32_t` from its bytes, the least one first.
abbrev pub uint32_from : List ℕ → ℕ
uint32_from bytes =
    byte_at 0 bytes + 256 * byte_at 1 bytes + 65536 * byte_at 2 bytes + 16777216 * byte_at 3 bytes

-- `getMetric`, where the four bytes of the number arrive
unfoldable pub get_metric_command : ℕ → Command
get_metric_command metric = record {
  sent = request_header metrics_index ++ ((metric % 256) ∷ []);
  prints = λ unset arrived.
      on_response (metric_is (uint32_from (later arrived))) login_first (recv_byte unset arrived);
}
