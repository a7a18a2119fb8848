-- ===== src/Tests/Start.antt =====
-- Arguments of the program.
use proxy_server_http.Base.{ℕ, arith, List, [], ◌∷◌, refl}
use proxy_server_http.Settings.{codes, global_settings}
use proxy_server_http.Arguments.{parse_arguments}
use proxy_server_http.Arguments.Fits.{Fit, parse_arguments-Fit}

-- A port for the proxy, and one for the manager that is refused.
abbrev arguments : List (ℕ × List ℕ)
arguments = (b'p', codes "8081") ∷ (b'o', codes "65536") ∷ (b'M', codes "text/html") ∷ []

parse_arguments-Fit_example :
    Fit (record global_settings { proxy_port = 8081; media_types = codes "text/html" })
unfolding parse_arguments global_settings
parse_arguments-Fit_example =
    parse_arguments-Fit arguments global_settings
      (record global_settings { proxy_port = 8081; media_types = codes "text/html" }) refl
      (omega arith)
