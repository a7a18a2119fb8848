-- ===== src/Tests/Runs.antt =====
-- A connection under its handlers, and a body that passes through them.
use proxy_server_http.Base.{
  ℕ, ◌+◌, ◌≡◌, refl, arith, List, [], ◌∷◌, pos, negsuc, false, true, length, take, drop, some, min,
}
use proxy_server_http.Buffer.{
  buffer_write_data, buffer_count, buffer_space, next, transfer_size, read_loop, buffer_read_data,
}
use proxy_server_http.Buffer.Fifo.{contents}
use proxy_server_http.Settings.{codes, global_settings}
use proxy_server_http.Chunked.{Origin, bytes, read_unchunked, write_chunked, to_hex}
use proxy_server_http.Response.{Exchange, copy_body}
use proxy_server_http.Response.Plain.{Plain}
use proxy_server_http.Response.Relayed.{Relayed, copy_body-Relayed}
use proxy_server_http.Response.Roundtrip.{copy_body_round_trip}
use proxy_server_http.Connection.{Proxy, Transformation}
use proxy_server_http.Relay.{FromSocket, origin_write}
use proxy_server_http.Transformation.{transformation_write}
use proxy_server_http.Accept.{accept_client, open_origin_socket}
use proxy_server_http.Sound.{Sound}
use proxy_server_http.Sound.Origin.{Live}
use proxy_server_http.Sound.Command.{Handled, transformation_write-Sound}
use proxy_server_http.Sound.Runs.{Steps, stop, step, origin_writes, connects, reachable-Sound}
use proxy_server_http.Tests.Data.{
  exchange, connected, memory, holding, no_items, no_items-WellFormed,
}

-- A socket with bytes to hand over, which then closes, and a pipe that takes two bytes at a time.
abbrev hand_over : List ℕ → ℕ → FromSocket × List ℕ
hand_over waiting n = (some (take n waiting), drop n waiting)

abbrev take_two : ℕ → List ℕ → ℕ × ℕ
take_two calls text = (min 2 (length text), calls + 1)

-- A client, as it is accepted.
abbrev newcomer : Proxy
newcomer = (accept_client [] memory no_items global_settings (pos 7)).1

-- An origin that answers, and one that is registered already.
abbrev dialled : Proxy
dialled = open_origin_socket [] 7 (some ((some 9, true) ∷ [])) (origin_write (pos 9) newcomer)

dialling : Steps newcomer dialled
unfolding accept_client origin_write global_settings
dialling =
    step refl (origin_writes (pos 9)) (step refl (connects [] 7 (some ((some 9, true) ∷ []))) stop)

reachable-Sound_example : Sound dialled
reachable-Sound_example =
    reachable-Sound [] memory no_items global_settings (pos 7) dialled no_items-WellFormed dialling

-- A connection with an origin and a command.
abbrev command : Transformation
command = record { origin_write = pos 8; client_read = pos 9; tmp_buff = holding (codes "xyz") }

abbrev busy : Proxy
busy = record connected {
  selector = no_items;
  connection = record connected.connection { transformation = some command };
}

busy-Live : Live busy
busy-Live = record {
  sound = record {
    table = no_items-WellFormed;
    buffers = record {
      to_origin = omega arith;
      to_client = omega arith;
      parser = λ e. omega arith;
      pipe = omega arith;
    };
  };
  origin = refl;
}

transformation_write-Sound_example :
    Handled take_two (transformation_write take_two 8000 8000 [] (pos 8) command 0 busy)
transformation_write-Sound_example =
    transformation_write-Sound take_two 8000 8000 [] (pos 8) command 0 busy (omega arith) busy-Live
      refl

-- The last four bytes of a body.
abbrev last_bytes : Exchange
last_bytes = record (exchange [] (codes "abcd")) {
  facts = record (exchange [] []).facts {
    parser = record (exchange [] []).facts.parser { content_length = pos 4 };
  };
}

last_bytes-Plain : Plain true 4 last_bytes
unfolding buffer_count
last_bytes-Plain = record {
  ready = record { client = omega arith; parser = omega arith };
  length_is = refl;
  no_chunks = λ e. absurd (cc);
  within = λ e. omega arith;
}

copy_body-Relayed_example : Relayed true 4 last_bytes (copy_body 9 0 last_bytes)
unfolding buffer_count buffer_space
copy_body-Relayed_example =
    copy_body-Relayed true 4 9 0 last_bytes last_bytes-Plain (omega arith) (omega arith)

-- The other side.
abbrev receiver : Origin
receiver = record {
  write_buff = holding [];
  parser_buff = holding (codes "4\r\nabcd\r\n0\r\n\r\n");
  parser = record {
    content_length = negsuc 0;
    chunk_size = negsuc 0;
    chunk_bytes = negsuc 0;
    chunk_enabled = true;
  };
  finished = false;
}

copy_body_round_trip_example :
    (o' : Origin) × (read_unchunked 10 100 receiver ≡ bytes (contents last_bytes.parser_buff) o')
    × (o'.finished ≡ true)
    × (contents o'.parser_buff ≡ [])
unfolding copy_body buffer_count buffer_space to_hex next read_loop transfer_size buffer_read_data
    read_unchunked write_chunked buffer_write_data
copy_body_round_trip_example =
    copy_body_round_trip true 4 9 0 last_bytes 10 100 receiver last_bytes-Plain (omega arith)
      (omega arith) refl refl (omega arith) refl refl refl refl (omega arith) (omega arith)
      (omega arith)
