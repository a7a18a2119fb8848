-- ===== src/Tests/Started.antt =====
-- The start of the program, its listening sockets and its selector, and what a manager types.
use proxy_server_http.Base.{
  ℕ, pos, ◌+◌, ◌≡◌, ◌&&◌, refl, arith, List, [], ◌∷◌, ◌++◌, false, true, not, ltb, none, some,
}
use proxy_server_http.Buffer.{buffer_count, buffer_space, next}
use proxy_server_http.Settings.{codes}
use proxy_server_http.Selector.{FdSelector, bit_count, selector_register, op_read}
use proxy_server_http.Selector.Table.{WellFormed}
use proxy_server_http.Selector.Keeps.{register-WellFormed}
use proxy_server_http.Selector.Calls.{recorder, at, HasHandlers, Expected, select_calls}
use proxy_server_http.Selector.Select.{ready, selector_select, watched, bad_descriptors}
use proxy_server_http.Selector.Rounds.{reports, bad_descriptors_lem}
use proxy_server_http.Protocol.{World, header_index, login_index}
use proxy_server_http.Protocol.Reader.{read_structure}
use proxy_server_http.Client.{login_command, get_status_command}
use proxy_server_http.Client.Typed.{find_command}
use proxy_server_http.Client.EndToEnd.{LoggedIn}
use proxy_server_http.Client.TypedLogin.{login_line, typed_login_round_trip}
use proxy_server_http.Client.Framed.{Framed, find_command-Framed}
use proxy_server_http.Start.{Answers, Environment, Table, Started, ended_with, serving, start}
use proxy_server_http.Start.Serving.{Listening, start-Listening}
use proxy_server_http.Accept.Passive.{Managers, ManagerRead, died, accepted, config_passive_read}
use proxy_server_http.Accept.Sessions.{Joined, config_passive_read-Joined}
use proxy_server_http.Tests.Data.{session, no_items, no_items-WellFormed}

-- Calls that succeed, with this socket.
abbrev all_well : ℕ → Answers
all_well sock = record {
  socket = some sock;
  parses = true;
  binds = true;
  listens = true;
  flags = some 0;
  takes = λ f. true;
}

abbrev environment : Environment
environment = record {
  proxy_ipv6 = all_well 3;
  proxy_ipv4 = all_well 3;
  config_ipv6 = record (all_well 4) { parses = false };
  config_ipv4 = all_well 5;
  blocked = true;
  handled = true;
  allocate = true;
  allocate_fds = true;
  grow_proxy = true;
  grow_config = true;
}

abbrev table_of : Started → Table
table_of (ended_with text) = no_items
table_of (serving s) = s

start-Listening_example : Listening (table_of (start environment))
unfolding start bit_count
start-Listening_example = start-Listening environment (table_of (start environment)) refl

abbrev managers_of : ManagerRead → Managers
managers_of (died text) = no_items
managers_of (accepted s) = s

abbrev joined : ManagerRead
joined = config_passive_read (λ i. 0) (λ i. 0) (some 8) (some 0) (λ f. true) true no_items

config_passive_read-Joined_example : Joined 8 no_items (managers_of joined)
unfolding config_passive_read
config_passive_read-Joined_example =
    config_passive_read-Joined (λ i. 0) (λ i. 0) 8 (some 0) (λ f. true) true no_items
      (managers_of joined) no_items-WellFormed refl

-- A selector with an item and a job, and a call that finds the item ready.
abbrev with_job : FdSelector ℕ ℕ
with_job = record (selector_register true no_items (pos 7) (some 1) op_read 70).1 {
  resolution_jobs = 7 ∷ [];
}

with_job-WellFormed : WellFormed with_job
with_job-WellFormed =
    let v = register-WellFormed true no_items (pos 7) (some 1) op_read 70 no_items-WellFormed in
    record {
      room = v.room;
      max_in = v.max_in;
      cells = λ i l.
          let c = v.cells i l in
          record { own = c.own; bounded = c.bounded; reads = c.reads; writes = c.writes };
    }

with_job-HasHandlers : HasHandlers with_job
unfolding selector_register
with_job-HasHandlers i u = (1, ground (arith, u))

select_calls_example :
    selector_select recorder (λ n r w. ready (λ i. true) (λ i. true)) (λ i. true) (at with_job [])
    ≡ Expected with_job [] (λ i. true) (ready (λ i. true) (λ i. true))
select_calls_example =
    select_calls (λ n r w. ready (λ i. true) (λ i. true)) (λ i. true) with_job []
      with_job-WellFormed with_job-HasHandlers

-- The descriptors 2 and 3 are watched and bad, and 3 is the greatest: only 2 is printed.
abbrev two_bad : FdSelector ℕ ℕ
two_bad = record no_items { max_fd = 3; master_r = λ i. true }

greatest_not_printed : bad_descriptors (λ i. ltb i 2) two_bad ≡ 2 ∷ []
unfolding bad_descriptors
greatest_not_printed = refl

bad_descriptors_lem_example :
    reports 2 (bad_descriptors (λ i. ltb i 2) two_bad)
    ≡ (ltb 2 two_bad.max_fd && (watched two_bad 2 && not (ltb 2 2)))
bad_descriptors_lem_example = bad_descriptors_lem (λ i. ltb i 2) two_bad 2

-- Lines that a manager types.
typed_lines :
    (find_command (codes "login eze 12345\n") ≡ some (login_command (codes "eze") (codes "12345")))
    × (find_command (codes "getStatus\n") ≡ some get_status_command)
    × (find_command (codes "logout\n") ≡ none)
unfolding find_command
typed_lines = (refl, refl, refl)

find_command-Framed_example : Framed get_status_command
unfolding find_command
find_command-Framed_example = find_command-Framed (codes "getStatus\n") get_status_command refl

abbrev credentials : List ℕ
credentials = codes "eze" ++ (0 ∷ (codes "12345" ++ (0 ∷ [])))

abbrev logs_in : World
logs_in = session header_index (1 ∷ login_index ∷ credentials)

typed_login_round_trip_example :
    (find_command (login_line (codes "eze") (codes "12345"))
      ≡ some (login_command (codes "eze") (codes "12345")))
    × ((w' : World) × (read_structure (3 + 0) 0 logs_in ≡ some w')
        × LoggedIn logs_in (codes "eze") (codes "12345") w')
unfolding buffer_count buffer_space next login_command
typed_login_round_trip_example =
    typed_login_round_trip 0 0 logs_in (codes "eze") (codes "12345") (refl, (refl, (refl, tt)))
      (refl, (refl, (refl, (refl, (refl, tt))))) (refl, (refl, (refl, tt)))
      (refl, (refl, (refl, (refl, (refl, tt))))) (omega arith) (omega arith) (omega arith)
      (omega arith) refl refl
