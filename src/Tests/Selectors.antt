-- ===== src/Tests/Selectors.antt =====
-- Runs of the selector.
use proxy_server_http.Base.{
  ℕ, ◌≡◌, refl, arith, false, true, List, [], ◌∷◌, Option, none, some, pos,
}
use proxy_server_http.Selector.{
  FdSelector, op_read, op_write, unused, bit_count, next_capacity, selector_new, selector_register,
  selector_unregister_fd, ensure_capacity,
}
use proxy_server_http.Selector.Table.{WellFormed}
use proxy_server_http.Selector.Runs.{
  Op, register, unregister, set_interest, run, reachable-WellFormed,
}
use proxy_server_http.Selector.Dispatch.{Handlers, handle_iteration, idle_iteration}

-- No cell of it is in the array.
abbrev no_table : FdSelector ℕ ℕ
no_table = record {
  fds = λ _. unused;
  fd_size = 0;
  max_fd = 0;
  master_r = λ _. false;
  master_w = λ _. false;
  resolution_jobs = [];
}

-- A selector made for so many items, where the memory is there.
abbrev made_for : ℕ → FdSelector ℕ ℕ
made_for n = elim (selector_new true true n) [ none ↦ no_table | some s ↦ s ]

abbrev quiet_close : ℕ → ℕ → Option ℕ → FdSelector ℕ ℕ → FdSelector ℕ ℕ
quiet_close h fd user s = s

made : selector_new true true 1024 ≡ some (made_for 1024)
unfolding selector_new ensure_capacity next_capacity bit_count
made = refl

abbrev calls : List (Op ℕ ℕ)
calls =
    register true (pos 7) (some 1) op_read 70
    ∷ set_interest (pos 7) op_write
    ∷ unregister (pos 7)
    ∷ []

reachable-WellFormed_example : WellFormed (run quiet_close calls (made_for 1024))
reachable-WellFormed_example =
    reachable-WellFormed quiet_close (λ h fd user s. refl) true true 1024 (made_for 1024)
      (omega arith) made calls

-- The selector with one item.
abbrev with_seven : FdSelector ℕ ℕ
with_seven = (selector_register true (made_for 1024) (pos 7) (some 1) op_read 70).1

-- Handlers of which the one for reading takes its item out of the table.
abbrev leaving : Handlers ℕ ℕ (FdSelector ℕ ℕ)
leaving = record {
  selector = λ s. s;
  clear_jobs = λ s. record s { resolution_jobs = [] };
  handle_read = λ h fd user s. (selector_unregister_fd quiet_close s (pos fd)).1;
  handle_write = λ h fd user s. record s { max_fd = 99 };
  handle_block = λ h fd user s. s;
}

-- The selector with an item that waits for both.
abbrev with_both : FdSelector ℕ ℕ
with_both = (selector_register true (made_for 1024) (pos 7) (some 1) 5 70).1

idle_iteration_example : handle_iteration leaving (λ _. false) (λ _. false) with_both ≡ with_both
idle_iteration_example =
    idle_iteration leaving (λ _. false) (λ _. false) with_both (λ j. refl) (λ j. refl)
