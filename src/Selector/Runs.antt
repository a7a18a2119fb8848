-- ===== src/Selector/Runs.antt =====
-- The selector under sequences of calls.
use proxy_server_http.Base.{
  ℕ, ◌≤◌, ◌<◌, ◌≡◌, arith, Bool, false, Option, some, ℤ, pos, List, [], ◌∷◌,
}
use proxy_server_http.Selector.{
  success, FdSelector, items_max_size, is_used, selector_new, selector_register,
  selector_unregister_fd, selector_set_interest, selector_notify_block,
}
use proxy_server_http.Selector.Table.{WellFormed, new-WellFormed}
use proxy_server_http.Selector.Keeps.{
  register-WellFormed, set_interest-WellFormed, unregister-WellFormed,
}

-- A call on the selector, with what `malloc` and its kin answer.
pub data Op (H D : Type 0) : Type 0 where
  register : Bool → ℤ → Option H → ℕ → D → Op H D
  unregister : ℤ → Op H D
  set_interest : ℤ → ℕ → Op H D
  notify : Bool → ℕ → Op H D

module _ {H D : Type 0} where
  unfoldable pub run :
      (H → ℕ → Option D → FdSelector H D → FdSelector H D)
      → List (Op H D)
      → FdSelector H D
      → FdSelector H D
  run close [] s = s
  run close (register a fd h i d ∷ ops) s = run close ops (selector_register a s fd h i d).1
  run close (unregister fd ∷ ops) s = run close ops (selector_unregister_fd close s fd).1
  run close (set_interest fd i ∷ ops) s = run close ops (selector_set_interest s fd i).1
  run close (notify a fd ∷ ops) s = run close ops (selector_notify_block a s fd).1

  pub notify-WellFormed :
      (allocate : Bool) (s : FdSelector H D) (fd : ℕ)
      → WellFormed s
      → WellFormed (selector_notify_block allocate s fd).1
  unfolding selector_notify_block
  notify-WellFormed allocate s fd v = record {
    room = ground (arith, v.room);
    max_in = ground (arith, v.max_in);
    cells = λ i l.
        let c = v.cells i (ground arith) in
        record {
          own = ground (arith, c);
          bounded = ground (arith, c);
          reads = ground (arith, c);
          writes = ground (arith, c);
        };
  }

  run-WellFormed :
      (close : H → ℕ → Option D → FdSelector H D → FdSelector H D)
      → ((h : H) (fd : ℕ) (user : Option D) (s : FdSelector H D) → close h fd user s ≡ s)
      → (ops : List (Op H D)) (s : FdSelector H D) → WellFormed s
      → WellFormed (run close ops s)
  unfolding run
  run-WellFormed close quiet [] s v = v
  run-WellFormed close quiet (register a fd h i d ∷ ops) s v =
      run-WellFormed close quiet ops _ (register-WellFormed a s fd h i d v)
  run-WellFormed close quiet (unregister fd ∷ ops) s v =
      run-WellFormed close quiet ops _ (unregister-WellFormed close quiet s fd v)
  run-WellFormed close quiet (set_interest fd i ∷ ops) s v =
      run-WellFormed close quiet ops _ (set_interest-WellFormed s fd i v)
  run-WellFormed close quiet (notify a fd ∷ ops) s v =
      run-WellFormed close quiet ops _ (notify-WellFormed a s fd v)

  -- A selector made for at least 1024 items keeps, under every sequence of calls: its table has
  -- more than 1024 cells; a used item stands in the cell of its descriptor; the greatest
  -- descriptor is in the table and no less than any in use; and the two sets have a descriptor
  -- exactly where its item is used and has the interest. `handle_close` is taken to leave the
  -- selector alone.
  pub reachable-WellFormed :
      (close : H → ℕ → Option D → FdSelector H D → FdSelector H D)
      → ((h : H) (fd : ℕ) (user : Option D) (s : FdSelector H D) → close h fd user s ≡ s)
      → (allocate allocate_fds : Bool) (initial_elements : ℕ) (s : FdSelector H D)
      → items_max_size ≤ initial_elements
      → selector_new allocate allocate_fds initial_elements ≡ some s
      → (ops : List (Op H D)) → WellFormed (run close ops s)
  reachable-WellFormed close quiet a b n s h e ops =
      run-WellFormed close quiet ops s (new-WellFormed a b n s h e)

  -- A descriptor below 1024 that is equal to the number of cells, and whose item reads as unused,
  -- is registered with success and no growth of the table, in the cell behind its end.
  register_past_end :
      (allocate : Bool) (s : FdSelector H D) (fd : ℕ) (handler : H) (interest : ℕ) (user : D)
      → s.fd_size ≡ fd
      → fd < items_max_size
      → is_used (s.fds fd) ≡ false
      → let (status, s') = selector_register allocate s (pos fd) (some handler) interest user in
        (status ≡ success) × ((s'.fds fd).fd ≡ some fd) × (s'.fd_size ≡ fd)
  unfolding selector_register
  register_past_end allocate s fd handler interest user e h free = ground arith
