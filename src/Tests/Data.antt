-- ===== src/Tests/Data.antt =====
-- The inputs that the tests share.
use proxy_server_http.Base.{
  ℕ, false, true, ◌||◌, ◌==◌, if◌then◌else◌, List, [], length, pos, negsuc, none, some, arith, refl,
  inl,
}
use proxy_server_http.Buffer.{Buffer}
use proxy_server_http.Protocol.{World, byte_at, op_read}
use proxy_server_http.Settings.{global_settings, codes}
use proxy_server_http.Request.{no_ssl}
use proxy_server_http.Selector.{unused, FdSelector}
use proxy_server_http.Selector.Table.{WellFormed}
use proxy_server_http.Response.{Exchange, reading_header}
use proxy_server_http.Connection.{
  Multiplexer, Proxy, client_handler, origin_handler, alive, reading_header_first_line,
  passing_content,
}
use proxy_server_http.Accept.{Memory}

-- A buffer that holds these bytes from its first cell on.
abbrev pub holding : List ℕ → Buffer
holding bytes = record {
  cells = λ i. byte_at i bytes;
  read = 0;
  write = length bytes;
  peek_line = 0;
}

-- A buffer with one byte in its last cell.
abbrev pub at_end : Buffer
at_end = record { cells = λ i. 65; read = 7999; write = 0; peek_line = 7999 }

-- A buffer with no room.
abbrev pub no_room : Buffer
no_room = record { cells = λ i. 66; read = 1; write = 0; peek_line = 1 }

-- A session that waits for the structure `index`, with these bytes to read.
abbrev pub session : ℕ → List ℕ → World
session index bytes = record {
  session = record {
    logged_in = false;
    protocol = 0;
    expected_structure_index = index;
    read_buffer = holding bytes;
    write_buffer = holding [];
  };
  settings = global_settings;
  registered = true;
  interest = op_read;
}

-- An exchange with these bytes for the client and these in the parser's buffer, at its start.
abbrev pub exchange : List ℕ → List ℕ → Exchange
exchange to_client to_parse = record {
  write_buff = holding to_client;
  parser_buff = holding to_parse;
  finished = false;
  state = reading_header;
  facts = record {
    parser = record {
      content_length = negsuc 0;
      chunk_size = negsuc 0;
      chunk_bytes = negsuc 0;
      chunk_enabled = false;
    };
    status_code = negsuc 0;
    gzip = false;
    content_type = [];
  };
}

-- A selector with the descriptors 5, of a client, and 6, of an origin.
abbrev pub table : Multiplexer
table = record {
  fds = λ i.
      if i == 5
      then record { fd = some 5; interest = op_read; handler = some client_handler; user = some tt }
      else if i == 6
      then record { fd = some 6; interest = op_read; handler = some origin_handler; user = some tt }
      else unused;
  fd_size = 1025;
  max_fd = 6;
  master_r = λ i. i == 5 || i == 6;
  master_w = λ i. false;
  resolution_jobs = [];
}

-- A connection of them, with these bytes for the origin and these for the client.
abbrev pub proxy : List ℕ → List ℕ → Proxy
proxy to_origin to_client = record {
  selector = table;
  settings = global_settings;
  connection = record {
    client_fd = pos 5;
    client = record { hostname = []; port = 0; state = reading_header_first_line; ssl = no_ssl };
    to_origin = holding to_origin;
    origin_fd = pos 6;
    origin = true;
    exchange = exchange to_client [];
    client_transformation_fd = negsuc 0;
    origin_transformation_fd = negsuc 0;
    transformation = none;
    ssl = false;
    state = alive;
  };
  freed = false;
  client_sent = [];
  origin_sent = [];
}

abbrev pub connected : Proxy
connected = proxy (codes "request") (codes "response")

-- What `malloc` leaves.
abbrev pub memory : Memory
memory = record {
  to_origin = λ i. 0;
  to_client = λ i. 0;
  exchange = exchange [] [];
  client = record { hostname = []; port = 0; state = passing_content; ssl = no_ssl };
  ssl = false;
}

-- A table of 1025 cells with nothing in it.
abbrev pub no_items : {H D : Type 0} → FdSelector H D
no_items = record {
  fds = λ i. unused;
  fd_size = 1025;
  max_fd = 0;
  master_r = λ i. false;
  master_w = λ i. false;
  resolution_jobs = [];
}

pub no_items-WellFormed : {H D : Type 0} → WellFormed (no_items {H = H} {D = D})
no_items-WellFormed = record {
  room = omega arith;
  max_in = omega arith;
  cells = λ i l. record { own = inl refl; bounded = λ e. absurd (cc); reads = refl; writes = refl };
}
