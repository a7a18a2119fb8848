-- ===== src/Tests/Requests.antt =====
-- Requests as clients write them.
use proxy_server_http.Base.{◌≡◌, refl, arith, [], ◌++◌, some, pos, true}
use proxy_server_http.Buffer.{buffer_count, next}
use proxy_server_http.Settings.{codes}
use proxy_server_http.Chunked.{crlf}
use proxy_server_http.Scan.{to_decimal, scan_until, starts_nocase}
use proxy_server_http.Helpers.{line_to_lower_case}
use proxy_server_http.Request.{
  no_ssl, target, no_target, bad_request, parse_first_line, parse_host_line,
}
use proxy_server_http.Request.Print.{Address, address_text, port_or}
use proxy_server_http.Request.FirstLine.{request_line}
use proxy_server_http.Request.HostLine.{parse_host_line-address_text}
use proxy_server_http.ClientRead.{peek_request_line, created}
use proxy_server_http.ClientRead.FirstRequest.{Connecting, peek_request_line-http}
use proxy_server_http.Tests.Data.{proxy}

-- `a.b:81/c`
abbrev address : Address
address = record { first = b'a'; later = codes ".b"; port = some 81; path = some (codes "c") }

-- A line with a path only waits for a `Host` header, and one with another scheme is refused.
other_lines :
    (parse_first_line (codes "GET / HTTP/1.1\r\n") ≡ no_target)
    × (parse_first_line (codes "GET ftp://a/ HTTP/1.1\r\n")
        ≡ bad_request (codes "Unknown URL type."))
unfolding parse_first_line scan_until starts_nocase
other_lines = (refl, refl)

-- A port of more than 16 bits wraps around.
wrapped_port : port_or 80 (some 65616) ≡ 80
wrapped_port = refl

parse_host_line-address_text_example :
    parse_host_line ((codes "Host: " ++ address_text address) ++ crlf)
    ≡ target (codes "a.b") 81 no_ssl
unfolding to_decimal line_to_lower_case
parse_host_line-address_text_example =
    parse_host_line-address_text address
      (refl, (refl, (refl, (refl, (refl, (refl, (refl, (refl, tt)))))))) (refl, (refl, (refl, tt)))
      (omega arith)

peek_request_line-http_example :
    let p =
      proxy
        ((request_line (codes "GET") (codes "http://" ++ address_text address) (codes "HTTP/1.1")
            ++ crlf)
          ++ codes "x")
        [] in
    Connecting (codes "a.b") 81 no_ssl p (peek_request_line [] (pos 5) created true p)
unfolding to_decimal buffer_count next
peek_request_line-http_example =
    peek_request_line-http [] (pos 5) (codes "GET") (codes "HTTP/1.1") address (codes "x")
      (proxy
        ((request_line (codes "GET") (codes "http://" ++ address_text address) (codes "HTTP/1.1")
            ++ crlf)
          ++ codes "x")
        [])
      (record { valid = omega arith; held = omega arith; place = refl }) refl
      (refl, (refl, (refl, tt))) (refl, (refl, (refl, (refl, (refl, (refl, (refl, (refl, tt))))))))
      (refl, (refl, (refl, (refl, (refl, (refl, (refl, (refl, tt)))))))) (refl, (refl, (refl, tt)))
      (omega arith)
      (
        refl,
        (
          refl,
          (
            refl,
            (
              refl,
              (
                refl,
                (
                  refl,
                  (
                    refl,
                    (
                      refl,
                      (
                        refl,
                        (
                          refl,
                          (
                            refl,
                            (
                              refl,
                              (
                                refl,
                                (
                                  refl,
                                  (
                                    refl,
                                    (
                                      refl,
                                      (
                                        refl,
                                        (
                                          refl,
                                          (
                                            refl,
                                            (
                                              refl,
                                              (
                                                refl,
                                                (
                                                  refl,
                                                  (
                                                    refl,
                                                    (refl, (refl, (refl, (refl, (refl, tt))))),
                                                  ),
                                                ),
                                              ),
                                            ),
                                          ),
                                        ),
                                      ),
                                    ),
                                  ),
                                ),
                              ),
                            ),
                          ),
                        ),
                      ),
                    ),
                  ),
                ),
              ),
            ),
          ),
        ),
      )
      (omega arith)
