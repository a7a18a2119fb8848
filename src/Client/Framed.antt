-- ===== src/Client/Framed.antt =====
-- The header of what the client sends, whatever is typed.
use proxy_server_http.Base.{
  ℕ, ◌<◌, ◌≡◌, refl, subst, arith, if_either, List, [], ◌∷◌, ◌++◌, Option, none, some,
}
use proxy_server_http.Settings.{codes}
use proxy_server_http.Protocol.{header_index, str_eq}
use proxy_server_http.Protocol.Metrics.{actual_connections, all_time_connections, bytes_transferred}
use proxy_server_http.Scan.{◌>>=◌, ◌or◌, literals, scan_word, scan_int, scan_until}
use proxy_server_http.Chunked.{skip_spaces}
use proxy_server_http.Client.{
  Command, login_command, set_status_command, get_status_command, set_media_types_command,
  get_media_types_command, set_transformation_command_command, get_transformation_command_command,
  get_metric_command,
}
use proxy_server_http.Client.Typed.{
  newline, words_behind, typed_login, typed_status, typed_media_types, typed_transformation,
  typed_name, find_command,
}

-- A header of version 1 that asks for a structure that there is.
pub record Framed (c : Command) : Type 0 where
  pub index : ℕ
  pub body : List ℕ
  pub is : c.sent ≡ 1 ∷ index ∷ body
  pub known : index < header_index

abbrev FramedIf : Option Command → Type 0
FramedIf none = Unit {0}
FramedIf (some c) = Framed c

or-Framed : (a b : Option Command) → FramedIf a → FramedIf b → FramedIf (a or b)
or-Framed none b x y = y
or-Framed (some c) b x y = x

then-Framed :
    {A : Type 0} (o : Option A) (f : A → Option Command)
    → ((a : A) → FramedIf (f a))
    → FramedIf (o >>= f)
then-Framed none f h = tt
then-Framed (some a) f h = h a

login-Framed : (line : List ℕ) → FramedIf (typed_login line)
unfolding typed_login login_command
login-Framed line = then-Framed (literals (codes "login") line) _ (λ r.
    then-Framed (words_behind r) _
      (λ words. record { index = 0; body = _; is = refl; known = omega arith }))

status-Framed : (line : List ℕ) → FramedIf (typed_status line)
unfolding typed_status set_status_command
status-Framed line = then-Framed (literals (codes "setStatus") line) _ (λ r.
    then-Framed (scan_int r) _
      (λ n. record { index = 2; body = _; is = refl; known = omega arith }))

media_types-Framed : (line : List ℕ) → FramedIf (typed_media_types line)
unfolding typed_media_types set_media_types_command
media_types-Framed line = then-Framed (literals (codes "setMediaTypes") line) _ (λ r.
    then-Framed (scan_word r) _
      (λ w. record { index = 2; body = _; is = refl; known = omega arith }))

transformation-Framed : (line : List ℕ) → FramedIf (typed_transformation line)
unfolding typed_transformation set_transformation_command_command
transformation-Framed line = then-Framed (literals (codes "setTransformationCommand") line) _ (λ r.
    then-Framed (scan_until newline (skip_spaces r)) _
      (λ w. record { index = 2; body = _; is = refl; known = omega arith }))

name-Framed :
    (name : List ℕ) (c : Command) (line : List ℕ) → Framed c → FramedIf (typed_name name c line)
name-Framed name c line f = if_either FramedIf (str_eq line (name ++ (b'\n' ∷ []))) f tt

metric-Framed : (metric : ℕ) → Framed (get_metric_command metric)
unfolding get_metric_command
metric-Framed metric = record { index = 1; body = _; is = refl; known = omega arith }

status_asked : Framed get_status_command
unfolding get_status_command
status_asked = record { index = 2; body = _; is = refl; known = omega arith }

media_types_asked : Framed get_media_types_command
unfolding get_media_types_command
media_types_asked = record { index = 2; body = _; is = refl; known = omega arith }

transformation_asked : Framed get_transformation_command_command
unfolding get_transformation_command_command
transformation_asked = record { index = 2; body = _; is = refl; known = omega arith }

found-Framed : (line : List ℕ) → FramedIf (find_command line)
unfolding find_command
found-Framed line = or-Framed (typed_login line) _ (login-Framed line) (
    or-Framed (typed_status line) _ (status-Framed line) (
      or-Framed (typed_name (codes "getStatus") get_status_command line) _
        (name-Framed (codes "getStatus") get_status_command line status_asked)
        (or-Framed (typed_media_types line) _ (media_types-Framed line) (
          or-Framed _ _
            (name-Framed (codes "getMediaTypes") get_media_types_command line media_types_asked)
            (or-Framed (typed_transformation line) _ (transformation-Framed line) (
              or-Framed _ _
                (name-Framed (codes "getTransformationCommand") get_transformation_command_command
                  line transformation_asked)
                (or-Framed _ _
                  (name-Framed (codes "getCurrentConnections") _ line
                    (metric-Framed actual_connections))
                  (or-Framed _ _
                    (name-Framed (codes "getTotalConnections") _ line
                      (metric-Framed all_time_connections))
                    (name-Framed (codes "getBytesTransferred") _ line
                      (metric-Framed bytes_transferred))))))))))

-- For whatever line a command is found, what the client sends begins with a header of version 1 and
-- an index below that of a header, so never with one that the manager's reader does not know.
pub find_command-Framed : (line : List ℕ) (c : Command) → find_command line ≡ some c → Framed c
find_command-Framed line c e = subst FramedIf e (found-Framed line)
