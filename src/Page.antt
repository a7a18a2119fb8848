-- ===== src/Page.antt =====
-- The page that `send_error` of bin/helpers.c prints to the client.
use proxy_server_http.Base.{ℕ, List, [], ◌∷◌, ◌++◌, Option, none, some}
use proxy_server_http.Settings.{codes}
use proxy_server_http.Scan.{to_decimal}

-- A line of `dprintf`, with its end.
abbrev pub header_line : List ℕ → List ℕ
header_line text = text ++ codes "\r\n"

-- A line that is there only where its value is.
abbrev pub optional_line : List ℕ → Option (List ℕ) → List ℕ
optional_line name none = []
optional_line name (some value) = header_line (name ++ value)

abbrev pub decimal_value : Option ℕ → Option (List ℕ)
decimal_value none = none
decimal_value (some n) = some (to_decimal n)

-- What `send_headers` prints to the client. `date` and `last_modified` are texts that `strftime` makes; a length
-- or a time of -1 is `none`.
unfoldable pub send_headers :
    ℕ → List ℕ → Option (List ℕ) → Option (List ℕ) → Option ℕ → Option (List ℕ) → List ℕ → List ℕ
unfolding to_decimal
send_headers status title extra_header mime_type size last_modified date =
    header_line (codes "HTTP/1.0 " ++ (to_decimal status ++ (b' ' ∷ title)))
    ++ header_line (codes "Server: Detoxy")
    ++ header_line (codes "Date: " ++ date)
    ++ optional_line [] extra_header
    ++ optional_line (codes "Content-Type: ") mime_type
    ++ optional_line (codes "Content-Length: ") (decimal_value size)
    ++ optional_line (codes "Last-Modified: ") last_modified
    ++ header_line (codes "Connection: close")
    ++ header_line []

-- The page of `send_error`, behind the headers.
unfoldable pub error_body : ℕ → List ℕ → List ℕ → List ℕ
error_body status title text =
    let named = to_decimal status ++ (b' ' ∷ title) in
    codes
      "<!DOCTYPE html PUBLIC \"-//W3C//DTD HTML 4.01 Transitional//EN\" \"http://www.w3.org/TR/html4/loose.dtd\">\n<html>\n  <head>\n    <meta http-equiv=\"Content-type\" content=\"text/html;charset=UTF-8\">\n    <title>"
    ++ named
    ++ codes
        "</title>\n  </head>\n  <body bgcolor=\"#cc9999\" text=\"#000000\" link=\"#2020ff\" vlink=\"#4040cc\">\n    <h4>"
    ++ named
    ++ codes "</h4>\n\n"
    ++ text
    ++ codes "\n\n"
    ++ codes
        "    <hr>\n    <address><a href=\"http://www.detoxy.com/\">Detoxy</a></address>\n  </body>\n</html>\n"

-- All that `send_error` prints to the client, ahead of `kill_client`.
unfoldable pub error_page : ℕ → List ℕ → Option (List ℕ) → List ℕ → List ℕ → List ℕ
unfolding send_headers error_body
error_page status title extra_header text date =
    send_headers status title extra_header (some (codes "text/html")) none none date
    ++ error_body status title text
