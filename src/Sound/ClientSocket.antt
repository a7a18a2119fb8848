-- ===== src/Sound/ClientSocket.antt =====
-- The handlers of the client's socket, in bin/proxyClientActiveSocket.c, keep the state sound, and so
-- does the one that writes to the origin.
use proxy_server_http.Base.{
  ℕ, zero, suc, ◌+◌, ◌<◌, arith, Bool, true, false, ◌==◌, if◌then◌else◌, if_either, List, [], ◌∷◌,
  length, ℤ, pos, none, some, Bool-cases, inl, inr,
}
use proxy_server_http.Buffer.{
  Buffer, buffer_count, buffer_space, buffer_write_data, buffer_read_data,
}
use proxy_server_http.Buffer.Fifo.{IsValid}
use proxy_server_http.Buffer.Counts.{write_data-IsValid, write_less, read_data-Shrunk}
use proxy_server_http.Settings.{add_int}
use proxy_server_http.Selector.{op_noop, op_read, op_write}
use proxy_server_http.Chunked.{is_unset}
use proxy_server_http.Connection.{Client, Proxy, with_connection, set_interest, kill_client}
use proxy_server_http.Relay.{
  FromSocket, Ended, no_fuel, ended, bytes_to_send, on_client_bytes, client_loop, on_client_end,
  client_read, drain, drain_all, is_closed, send_to_client, Written, use_after_free, written,
  client_write, send_to_origin, origin_write,
}
use proxy_server_http.ClientRead.{with_client}
use proxy_server_http.Sound.{Sound, Returns, set_interest-Sound, kill_client-Sound}

drain-IsValid : (fuel count : ℕ) (b : Buffer) → IsValid b → IsValid (drain fuel count b).2
unfolding drain
drain-IsValid zero count b v = v
drain-IsValid (suc fuel) count b v =
    let (n, text, b') = buffer_read_data b (pos 1000) in
    let v' = (read_data-Shrunk b (pos 1000) v).valid in
    if_either (λ (r : List ℕ × ℕ × Buffer). IsValid (r.2)) (n == 0) v'
      (drain-IsValid fuel (add_int count n) b' v')

drain_all-IsValid : (count : ℕ) (b : Buffer) → IsValid b → IsValid (drain_all count b).2
unfolding drain_all
drain_all-IsValid count b v = drain-IsValid (buffer_count b + 1) count b v

-- Other bytes for the origin.
pub set_to_origin-Sound :
    (b : Buffer) (p : Proxy)
    → IsValid b
    → Sound p
    → Sound (with_connection (λ c. record c { to_origin = b }) p)
set_to_origin-Sound b p v s = record {
  table = s.table;
  buffers = record {
    to_origin = v;
    to_client = s.buffers.to_client;
    parser = s.buffers.parser;
    pipe = s.buffers.pipe;
  };
}

pub with_client-Sound : (f : Client → Client) (p : Proxy) → Sound p → Sound (with_client f p)
with_client-Sound f p s = record {
  table = s.table;
  buffers = record {
    to_origin = s.buffers.to_origin;
    to_client = s.buffers.to_client;
    parser = s.buffers.parser;
    pipe = s.buffers.pipe;
  };
}

send_to_client-Sound : (p : Proxy) → Sound p → Sound (send_to_client p)
unfolding send_to_client
send_to_client-Sound p s = record {
  table = s.table;
  buffers = record {
    to_origin = s.buffers.to_origin;
    to_client = drain_all-IsValid _ _ s.buffers.to_client;
    parser = s.buffers.parser;
    pipe = s.buffers.pipe;
  };
}

send_to_origin-Sound : (p : Proxy) → Sound p → Sound (send_to_origin p)
unfolding send_to_origin
send_to_origin-Sound p s = record {
  table = s.table;
  buffers = record {
    to_origin = drain_all-IsValid 0 _ s.buffers.to_origin;
    to_client = s.buffers.to_client;
    parser = s.buffers.parser;
    pipe = s.buffers.pipe;
  };
}

pub origin_write-Sound : (fd : ℤ) (p : Proxy) → Sound p → Sound (origin_write fd p)
unfolding origin_write
origin_write-Sound fd p s =
    set_interest-Sound p.connection.client_fd op_read _
      (set_interest-Sound fd op_read _ (send_to_origin-Sound p s))

-- A sound state, whichever way the handler ends.
abbrev pub SoundWritten : Written → Type 0
SoundWritten (use_after_free p) = Sound p
SoundWritten (written p) = Sound p

listen-Sound :
    (freed : Bool) (fd : ℤ) (p : Proxy)
    → Sound p
    → SoundWritten (if freed then use_after_free p else written (set_interest fd op_read p))
listen-Sound true fd p s = s
listen-Sound false fd p s = set_interest-Sound fd op_read p s

pub client_write-Sound : (fd : ℤ) (p : Proxy) → Sound p → SoundWritten (client_write fd p)
unfolding client_write
client_write-Sound fd p s =
    let p1 = send_to_client p in
    let s1 = send_to_client-Sound p s in
    let s2 = if_either Sound (is_closed p1.connection.state) (kill_client-Sound p1 s1) s1 in
    let p3 =
      set_interest fd op_read (if is_closed p1.connection.state then kill_client p1 else p1) in
    let c = p3.connection in
    listen-Sound p3.freed
      (if is_unset c.client_transformation_fd then c.origin_fd else c.client_transformation_fd) p3
      (set_interest-Sound fd op_read _ s2)

module _ {S : Type 0} (recv : S → ℕ → FromSocket × S) where
  abbrev FromRound : ℕ → ℤ → Type 0
  FromRound fuel fd =
      (stale : Bool) (s : S) (p : Proxy)
      → Sound p
      → buffer_space p.connection.to_origin < fuel
      → Returns (client_loop recv fuel stale fd s p)

  answered :
      (fuel : ℕ) (fd : ℤ) (r : FromSocket) (s : S) (p : Proxy)
      → Sound p
      → 0 < buffer_space p.connection.to_origin
      → buffer_space p.connection.to_origin < suc fuel
      → FromRound fuel fd
      → Returns (on_client_bytes recv (client_loop recv fuel false fd) r s p)
  answered fuel fd none s p h k f loop = record { table = h.table; buffers = h.buffers }
  answered fuel fd (some []) s p h k f loop = h
  answered fuel fd (some (x ∷ xs)) s p h k f loop =
      let text = x ∷ xs in
      let b = p.connection.to_origin in
      let less = (write_less b (x ∷ xs) h.buffers.to_origin).1 (omega arith) k in
      loop false s _
        (set_to_origin-Sound (buffer_write_data b text (pos (length text))).1 _
          (write_data-IsValid b text (pos (length text)) h.buffers.to_origin)
          (record { table = h.table; buffers = h.buffers }))
        (omega (arith, less))

  client_loop-Returns : (fuel : ℕ) (fd : ℤ) → FromRound fuel fd
  unfolding client_loop
  client_loop-Returns zero fd stale s p h f = absurd (omega arith)
  client_loop-Returns (suc fuel) fd stale s p h f =
      let n = bytes_to_send (buffer_space p.connection.to_origin) in
      let (ret, s') = recv s n in
      elim (Bool-cases (n == 0)) [
        | inl t ↦ rw t (set_interest-Sound fd op_noop p h)
        | inr t ↦ rw t (answered fuel fd ret s' p h (ground arith) f (client_loop-Returns fuel fd))
      ]

  on_client_end-Returns : (r : Ended S) → Returns r → Returns (on_client_end recv r)
  on_client_end-Returns no_fuel h = h
  on_client_end-Returns (ended true s p) h = kill_client-Sound p h
  on_client_end-Returns (ended false s p) h = set_interest-Sound p.connection.origin_fd op_write p h

  pub client_read-Sound :
      (stale : Bool) (fd : ℤ) (s : S) (p : Proxy)
      → Sound p
      → Returns (client_read recv stale fd s p)
  unfolding client_read
  client_read-Sound stale fd s p h =
      on_client_end-Returns _ (client_loop-Returns _ fd stale s p h (omega arith))
