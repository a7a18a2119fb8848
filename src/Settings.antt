-- ===== src/Settings.antt =====
-- bin/include/proxySettings.h and its initial value in bin/main.c: the settings and counters that
-- the proxy and its manager share.
use Prim.Native.Char.{code}
use Prim.Native.String.{String}
use proxy_server_http.Base.{ℕ, ◌+◌, ◌^◌, ◌%◌, List, [], ◌∷◌}

-- The code points of a text: its bytes, since every literal here is ASCII.
abbrev pub codes : String → List ℕ
codes String.[] = []
codes (String.◌∷◌ c s) = code c ∷ codes s

-- A `char` array that holds a C string is the list of the bytes before its null byte. The counters
-- are `int`s, as bit patterns below 2 ^ 32.
pub record Settings : Type 0 where
  pub proxy_port : ℕ
  pub proxy_address : List ℕ
  pub management_port : ℕ
  pub management_address : List ℕ
  pub media_types : List ℕ
  pub transformation_command : List ℕ
  pub transformation_error : List ℕ
  pub transformation_state : ℕ
  pub bytes_received : ℕ
  pub bytes_sent : ℕ
  pub current_connections : ℕ
  pub total_connections : ℕ
  pub max_connections : ℕ

-- The arrays' sizes.
abbrev pub media_types_size : ℕ
media_types_size = 500

abbrev pub transformation_command_size : ℕ
transformation_command_size = 500

-- `int` addition, on bit patterns
abbrev pub add_int : ℕ → ℕ → ℕ
add_int a b = (a + b) % 2 ^ 32

unfoldable pub global_settings : Settings
global_settings = record {
  proxy_port = 8080;
  proxy_address = codes "::";
  management_port = 9090;
  management_address = codes "127.0.0.1";
  media_types = [];
  transformation_command = [];
  transformation_error = codes "/dev/null";
  transformation_state = 1;
  bytes_received = 0;
  bytes_sent = 0;
  current_connections = 0;
  total_connections = 0;
  max_connections = 50;
}
