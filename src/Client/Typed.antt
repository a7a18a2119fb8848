-- ===== src/Client/Typed.antt =====
-- `findCommand` of client_example/clientMain.c: the command that a typed line asks for. A
-- line ends with its newline, as `getline` gives it. Bytes behind the ends of the arrays that `%s`
-- and `%[^\n]` store to are not followed.
use proxy_server_http.Base.{
  ℕ, ◌-◌, ◌%◌, ◌^◌, Bool, ◌==◌, if◌then◌else◌, List, [], ◌∷◌, ◌++◌, ℤ, pos, negsuc, Option, none,
  some,
}
use proxy_server_http.Settings.{codes}
use proxy_server_http.Protocol.{str_eq}
use proxy_server_http.Protocol.Metrics.{actual_connections, all_time_connections, bytes_transferred}
use proxy_server_http.Scan.{◌>>=◌, ◌or◌, literals, scan_word, scan_int, scan_until}
use proxy_server_http.Chunked.{skip_spaces}
use proxy_server_http.Client.{
  Command, login_command, set_status_command, get_status_command, set_media_types_command,
  get_media_types_command, set_transformation_command_command, get_transformation_command_command,
  get_metric_command,
}

-- An `int`, as a bit pattern.
abbrev pub int_bits : ℤ → ℕ
int_bits (pos n) = n % 2 ^ 32
int_bits (negsuc k) = 2 ^ 32 - 1 - k % 2 ^ 32

abbrev pub newline : ℕ → Bool
newline c = c == b'\n'

-- A word behind another, with any number of spaces between them.
abbrev pub words_behind : List ℕ → Option (List ℕ × List ℕ)
words_behind s = do (first, r1) ← scan_word s; (second, r2) ← scan_word r1; some (first, second)

-- `"login %s %s"`
unfoldable pub typed_login : List ℕ → Option Command
unfolding scan_word
typed_login line = do
  r ← literals (codes "login") line
  (user, password) ← words_behind r
  some (login_command user password)

-- `"setStatus %d"`
unfoldable pub typed_status : List ℕ → Option Command
unfolding scan_int
typed_status line = do
  r ← literals (codes "setStatus") line
  (num, rest) ← scan_int r
  some (set_status_command (int_bits num))

-- `"setMediaTypes %s"`
unfoldable pub typed_media_types : List ℕ → Option Command
unfolding scan_word
typed_media_types line = do
  r ← literals (codes "setMediaTypes") line
  (text, rest) ← scan_word r
  some (set_media_types_command text)

-- `"setTransformationCommand %[^\n]s"`
unfoldable pub typed_transformation : List ℕ → Option Command
unfolding scan_until
typed_transformation line = do
  r ← literals (codes "setTransformationCommand") line
  (text, rest) ← scan_until newline (skip_spaces r)
  some (set_transformation_command_command text)

-- `strcmp(line, name) == 0`
abbrev pub typed_name : List ℕ → Command → List ℕ → Option Command
typed_name name command line = if str_eq line (name ++ (b'\n' ∷ [])) then some command else none

-- `findCommand`; `none` is the answer that the command is invalid, with nothing sent.
unfoldable pub find_command : List ℕ → Option Command
unfolding typed_login typed_status typed_media_types typed_transformation
find_command line =
    typed_login line
    or typed_status line
    or typed_name (codes "getStatus") get_status_command line
    or typed_media_types line
    or typed_name (codes "getMediaTypes") get_media_types_command line
    or typed_transformation line
    or typed_name (codes "getTransformationCommand") get_transformation_command_command line
    or typed_name (codes "getCurrentConnections") (get_metric_command actual_connections) line
    or typed_name (codes "getTotalConnections") (get_metric_command all_time_connections) line
    or typed_name (codes "getBytesTransferred") (get_metric_command bytes_transferred) line
