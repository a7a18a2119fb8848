-- ===== src/Arguments/Fits.antt =====
-- The settings that arguments can make.
use proxy_server_http.Base.{
  ℕ, ◌≤◌, ◌<◌, ◌≡◌, subst, arith, Bool, true, false, ◌==◌, ltb, ltb→lt, if◌then◌else◌, List, [],
  ◌∷◌, ℤ, pos, negsuc, Option, none, some, length, length-take, Bool-cases, inl, inr,
}
use proxy_server_http.Settings.{Settings, media_types_size, transformation_command_size}
use proxy_server_http.Request.{port_of}
use proxy_server_http.Scan.{scan_int}
use proxy_server_http.Arguments.{
  store_all, store_short, port_number, store_port, port_argument, parse_argument, then_arguments,
  parse_arguments,
}

-- The texts fit into their arrays, those of the manager's settings with a null byte behind them, and
-- the ports are ports.
pub record Fit (s : Settings) : Type 0 where
  pub error_fits : length s.transformation_error ≤ 100
  pub proxy_address_fits : length s.proxy_address ≤ 50
  pub management_address_fits : length s.management_address ≤ 50
  pub media_types_fit : length s.media_types < media_types_size
  pub command_fits : length s.transformation_command < transformation_command_size
  pub proxy_port_is : (0 < s.proxy_port) × (s.proxy_port < 65536)
  pub management_port_is : (0 < s.management_port) × (s.management_port < 65536)

-- An answer that has fitting settings, or none.
abbrev FitAnswer : Option Settings → Type 0
FitAnswer none = Unit {0}
FitAnswer (some s) = Fit s

store_all-le : (size : ℕ) (text : List ℕ) → length (store_all size text) ≤ size
store_all-le size text = omega (arith, length-take size text)

store_short-lt :
    (size : ℕ) (old text : List ℕ) → length old < size → length (store_short size old text) < size
store_short-lt size old text h = elim (Bool-cases (ltb (length text) size)) [
  | inl t ↦ rw t (ltb→lt (length text) size t)
  | inr t ↦ rw t h
]

port_of-lt : (n : ℤ) → port_of n < 65536
unfolding port_of
port_of-lt (pos n) = omega arith
port_of-lt (negsuc k) = omega arith

port_number-lt : (o : Option (ℤ × List ℕ)) → port_number o < 65536
port_number-lt none = omega arith
port_number-lt (some (n, rest)) = port_of-lt n

store_port-is :
    (old port : ℕ)
    → (0 < old) × (old < 65536)
    → port < 65536
    → (0 < store_port old port) × (store_port old port < 65536)
store_port-is old port h l = ground arith

if-FitAnswer :
    (t : Bool) (a b : Option Settings) → FitAnswer a → FitAnswer b → FitAnswer (if t then a else b)
if-FitAnswer true a b x y = x
if-FitAnswer false a b x y = y

parse_argument-FitAnswer :
    (opt : ℕ) (text : List ℕ) (s : Settings) → Fit s → FitAnswer (parse_argument opt text s)
unfolding parse_argument
parse_argument-FitAnswer opt text s f =
    let port = port_number-lt (scan_int text) in
    let short = store_short-lt media_types_size s.media_types text f.media_types_fit in
    let short' =
      store_short-lt transformation_command_size s.transformation_command text f.command_fits in
    let manager = store_port-is s.management_port (port_argument text) f.management_port_is port in
    let proxy = store_port-is s.proxy_port (port_argument text) f.proxy_port_is port in
    if-FitAnswer (opt == b'e') _ _ (omega (arith, f, store_all-le 100 text)) (
      if-FitAnswer (opt == b'l') _ _ (omega (arith, f, store_all-le 50 text)) (
        if-FitAnswer (opt == b'L') _ _ (omega (arith, f, store_all-le 50 text)) (
          if-FitAnswer (opt == b'M') _ _ (omega (arith, f, short)) (
            if-FitAnswer (opt == b'o') _ _ (omega (arith, f, manager)) (
              if-FitAnswer (opt == b'p') _ _ (omega (arith, f, proxy)) (
                if-FitAnswer (opt == b't') _ _ (omega (arith, f, short'))
                  (if-FitAnswer (opt == b'v') none (some s) tt f)))))))

-- Where the texts of the settings are no longer than their arrays, the media types and the command
-- shorter, and the ports from 1 to 65535, so are the settings that any list of arguments makes, if
-- none of them ends the program.
pub parse_arguments-Fit :
    (arguments : List (ℕ × List ℕ)) (s s' : Settings)
    → parse_arguments arguments s ≡ some s'
    → Fit s
    → Fit s'
unfolding parse_arguments
parse_arguments-Fit [] s s' e f = subst FitAnswer e f
parse_arguments-Fit ((opt, text) ∷ rest) s s' e f =
    behind (parse_argument opt text s) e (parse_argument-FitAnswer opt text s f)
      (λ s1. parse_arguments-Fit rest s1 s')
  where
    behind :
        (o : Option Settings)
        → then_arguments (parse_arguments rest) o ≡ some s'
        → FitAnswer o
        → ((s1 : Settings) → parse_arguments rest s1 ≡ some s' → Fit s1 → Fit s')
        → Fit s'
    behind none e' g later = absurd (cc)
    behind (some s1) e' g later = later s1 e' g
