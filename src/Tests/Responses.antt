-- ===== src/Tests/Responses.antt =====
-- Responses and tunnels.
use proxy_server_http.Base.{ℕ, ◌≡◌, refl, arith, List, [], ◌∷◌, true, ◌||◌}
use proxy_server_http.Buffer.{buffer_count, buffer_space, next}
use proxy_server_http.Settings.{codes}
use proxy_server_http.Scan.{starts_nocase}
use proxy_server_http.Response.{Exchange, take_header, copy_tunnel}
use proxy_server_http.Response.Lines.{noted, header_text}
use proxy_server_http.Response.Header.{HeaderRead, take_header-HeaderRead}
use proxy_server_http.Response.Says.{some_line, says_chunked, says_gzip, noted-says}
use proxy_server_http.Response.Tunnel.{Moved, copy_tunnel-Moved}
use proxy_server_http.Tests.Data.{exchange}

abbrev lines : List (List ℕ)
lines = codes "h 200 b" ∷ codes "Content-Length: 5" ∷ codes "Transfer-Encoding: chunked" ∷ []

abbrev whole : Exchange
whole = exchange [] (header_text lines true (codes "body"))

take_header-HeaderRead_example : HeaderRead lines true (codes "body") whole (take_header whole)
unfolding buffer_count buffer_space next starts_nocase
take_header-HeaderRead_example =
    take_header-HeaderRead lines true (codes "body") whole
      (
        ((refl, (refl, (refl, (refl, (refl, (refl, (refl, tt))))))), omega arith, refl),
        (
          (
            (
              refl,
              (
                refl,
                (
                  refl,
                  (
                    refl,
                    (
                      refl,
                      (
                        refl,
                        (
                          refl,
                          (
                            refl,
                            (
                              refl,
                              (refl, (refl, (refl, (refl, (refl, (refl, (refl, (refl, tt)))))))),
                            ),
                          ),
                        ),
                      ),
                    ),
                  ),
                ),
              ),
            ),
            omega arith,
            refl,
          ),
          (
            (
              (
                refl,
                (
                  refl,
                  (
                    refl,
                    (
                      refl,
                      (
                        refl,
                        (
                          refl,
                          (
                            refl,
                            (
                              refl,
                              (
                                refl,
                                (
                                  refl,
                                  (
                                    refl,
                                    (
                                      refl,
                                      (
                                        refl,
                                        (
                                          refl,
                                          (
                                            refl,
                                            (
                                              refl,
                                              (
                                                refl,
                                                (
                                                  refl,
                                                  (
                                                    refl,
                                                    (
                                                      refl,
                                                      (
                                                        refl,
                                                        (refl, (refl, (refl, (refl, (refl, tt))))),
                                                      ),
                                                    ),
                                                  ),
                                                ),
                                              ),
                                            ),
                                          ),
                                        ),
                                      ),
                                    ),
                                  ),
                                ),
                              ),
                            ),
                          ),
                        ),
                      ),
                    ),
                  ),
                ),
              ),
              omega arith,
              refl,
            ),
            tt,
          ),
        ),
      )
      (record { valid = omega arith; held = omega arith; place = refl }) (omega arith) refl
      (omega arith)

noted-says_example :
    ((noted lines whole.facts).parser.chunk_enabled
      ≡ some_line says_chunked lines || whole.facts.parser.chunk_enabled)
    × ((noted lines whole.facts).gzip ≡ some_line says_gzip lines || whole.facts.gzip)
noted-says_example = noted-says lines whole.facts

copy_tunnel-Moved_example :
    Moved (exchange (codes "ab") (codes "cde")) (copy_tunnel (exchange (codes "ab") (codes "cde")))
unfolding buffer_count buffer_space
copy_tunnel-Moved_example =
    copy_tunnel-Moved (exchange (codes "ab") (codes "cde")) (omega arith) (omega arith)
      (omega arith)
