-- ===== src/Arguments.antt =====
-- `parse_arguments` of bin/main.c. What `getopt` answers is a list of letters with their arguments.
pub mod Fits
use proxy_server_http.Base.{
  ℕ, ◌+◌, ◌%◌, ◌==◌, ltb, if◌then◌else◌, List, [], ◌∷◌, ℤ, pos, negsuc, Option, none, some, length,
  take,
}
use proxy_server_http.Settings.{Settings, media_types_size, transformation_command_size}
use proxy_server_http.Request.{port_of}
use proxy_server_http.Scan.{scan_int}

-- The bytes that `strncpy` stores in an array of this size. As many as the array has are not ended by
-- a null byte.
abbrev pub store_all : ℕ → List ℕ → List ℕ
store_all size text = take size text

-- `strlen(optarg) < sizeof(array)`, ahead of a copy that keeps the array's last byte
abbrev pub store_short : ℕ → List ℕ → List ℕ → List ℕ
store_short size old text = if ltb (length text) size then text else old

-- `atoi`, which is 0 where there is no number, as an `in_port_t`
abbrev pub port_number : Option (ℤ × List ℕ) → ℕ
port_number none = 0
port_number (some (n, rest)) = port_of n

-- A port of 0 is refused.
abbrev pub store_port : ℕ → ℕ → ℕ
store_port old port = if port == 0 then old else port

abbrev pub port_argument : List ℕ → ℕ
port_argument text = port_number (scan_int text)

-- The `switch`; `none` is the exit behind the version.
unfoldable pub parse_argument : ℕ → List ℕ → Settings → Option Settings
unfolding port_of scan_int
parse_argument opt text s =
    if opt == b'e'
    then some (record s { transformation_error = store_all 100 text })
    else if opt == b'l'
    then some (record s { proxy_address = store_all 50 text })
    else if opt == b'L'
    then some (record s { management_address = store_all 50 text })
    else if opt == b'M'
    then some (record s { media_types = store_short media_types_size s.media_types text })
    else if opt == b'o'
    then some (record s { management_port = store_port s.management_port (port_argument text) })
    else if opt == b'p'
    then some (record s { proxy_port = store_port s.proxy_port (port_argument text) })
    else if opt == b't'
    then some (record s {
      transformation_command =
          store_short transformation_command_size s.transformation_command text;
    })
    else if opt == b'v'
    then none
    else some s

abbrev pub then_arguments : (Settings → Option Settings) → Option Settings → Option Settings
then_arguments more none = none
then_arguments more (some s) = more s

unfoldable pub parse_arguments : List (ℕ × List ℕ) → Settings → Option Settings
unfolding parse_argument
parse_arguments [] s = some s
parse_arguments ((opt, text) ∷ rest) s =
    then_arguments (parse_arguments rest) (parse_argument opt text s)
