-- ===== src/Selector/Keeps.antt =====
-- The operations of the selector and its invariant.
use proxy_server_http.Base.{
  ℕ, ◌+◌, ◌≤◌, ◌<◌, ◌≡◌, ◌≢◌, refl, arith, Bool, true, false, leb, if◌then◌else◌, Bool-cases, inl,
  inr, ◌⊎◌, Option, none, some, ℤ, pos, negsuc, leb→le,
}
use proxy_server_http.Selector.{
  Status, success, iargs, fdinuse, FdSelector, op_noop, items_max_size, is_used, items_max_fd,
  update_fdset, register_item, selector_register, selector_unregister_fd, selector_set_interest,
  at_fd, unused,
}
use proxy_server_http.Selector.Table.{WellFormed, max_loop-ge, max_loop-used}

refused_not_success :
    (t : Bool) (st : Status) → st ≡ (if t then iargs else fdinuse) → st ≡ success → ⊥
refused_not_success true st e q = absurd (cc)
refused_not_success false st e q = absurd (cc)

module _ {H D : Type 0} where
  register_item-WellFormed :
      (fd : ℕ) (handler : H) (interest : ℕ) (user : D) (s : FdSelector H D)
      → fd < s.fd_size
      → WellFormed s
      → WellFormed (register_item fd handler interest user s).1
  unfolding register_item
  register_item-WellFormed fd handler interest user s h v = record {
    room = ground (arith, v.room);
    max_in = ground (arith, v.max_in);
    cells = λ i l.
        let c = v.cells i (ground arith) in
        record {
          own = ground (arith, c);
          bounded = ground (arith, c);
          reads = ground (arith, c);
          writes = ground (arith, c);
        };
  }

  -- Registering keeps the invariant, whatever comes of it.
  pub register-WellFormed :
      (allocate : Bool) (s : FdSelector H D) (fd : ℤ) (handler : Option H) (interest : ℕ) (user : D)
      → WellFormed s
      → WellFormed (selector_register allocate s fd handler interest user).1
  unfolding selector_register
  register-WellFormed allocate s (negsuc k) handler interest user v = v
  register-WellFormed allocate s (pos fd) none interest user v = v
  register-WellFormed allocate s (pos fd) (some handler) interest user v =
      ground (arith, v, register_item-WellFormed fd handler interest user s)

  -- In a well-formed selector, a handler is registered for a descriptor of 0 or more with
  -- success, where the descriptor is below 1024 and its item is unused: then the item is in its
  -- cell and the other cells are as before. Otherwise the answer is an illegal argument for a
  -- descriptor of 1024 or more and a descriptor in use for the others, and the selector is as
  -- before.
  pub register_lem :
      (allocate : Bool) (s : FdSelector H D) (fd : ℕ) (handler : H) (interest : ℕ) (user : D)
      → WellFormed s
      → let (status, s') = selector_register allocate s (pos fd) (some handler) interest user in
        ((status ≡ success)
          × (fd < items_max_size)
          × (is_used (s.fds fd) ≡ false)
          × (s'.fds fd ≡ record {
            fd = some fd;
            interest = interest;
            handler = some handler;
            user = some user;
          })
          × ((i : ℕ) → i ≢ fd → s'.fds i ≡ s.fds i))
        ⊎ ((status ≡ (if leb items_max_size fd then iargs else fdinuse))
            × ((items_max_size ≤ fd) ⊎ (is_used (s.fds fd) ≡ true))
            × (s' ≡ s))
  unfolding selector_register
  register_lem allocate s fd handler interest user v = elim (Bool-cases (leb items_max_size fd)) [
    | inl big ↦ inr (ground (arith, v.room))
    | inr small ↦ elim (Bool-cases (is_used (s.fds fd))) [
      | inl used ↦ inr (ground (arith, v.room))
      | inr free ↦ inl (
        ground (arith, v.room),
        ground arith,
        free,
        ground (arith, v.room),
        λ i ne. ground (arith, v.room),
      )
    ]
  ]

  -- What a registration that succeeds has found and leaves.
  pub register_success :
      (allocate : Bool) (s : FdSelector H D) (fd : ℕ) (handler : H) (interest : ℕ) (user : D)
      → WellFormed s
      → (selector_register allocate s (pos fd) (some handler) interest user).0 ≡ success
      → let s' = (selector_register allocate s (pos fd) (some handler) interest user).1 in
        (fd < items_max_size)
        × (is_used (s.fds fd) ≡ false)
        × (s'.fds fd ≡ record {
          fd = some fd;
          interest = interest;
          handler = some handler;
          user = some user;
        })
        × ((i : ℕ) → i ≢ fd → s'.fds i ≡ s.fds i)
  register_success allocate s fd handler interest user v e =
      elim (register_lem allocate s fd handler interest user v) [
        | inl r ↦ (r.1, r.2, r.3, r.4)
        | inr r ↦ absurd (refused_not_success (leb items_max_size fd) _ r.0 e)
      ]

  -- Changing an interest keeps the invariant.
  pub set_interest-WellFormed :
      (s : FdSelector H D) (fd : ℤ) (interest : ℕ)
      → WellFormed s
      → WellFormed (selector_set_interest s fd interest).1
  unfolding selector_set_interest
  set_interest-WellFormed s (negsuc k) interest v = v
  set_interest-WellFormed s (pos fd) interest v = record {
    room = ground (arith, v.room);
    max_in = ground (arith, v.max_in);
    cells = λ i l.
        let c = v.cells i (ground arith) in
        record {
          own = ground (arith, c);
          bounded = ground (arith, c);
          reads = ground (arith, c);
          writes = ground (arith, c);
        };
  }

  -- The table without a descriptor, before the greatest one is found anew.
  abbrev pub emptied : FdSelector H D → ℕ → FdSelector H D
  emptied s fd = let s2 = update_fdset fd op_noop s in record s2 { fds = at_fd s2.fds fd unused }

  pub emptied-own :
      (s : FdSelector H D) (fd i : ℕ)
      → WellFormed s
      → i < s.fd_size
      → (((emptied s fd).fds i).fd ≡ none) ⊎ (((emptied s fd).fds i).fd ≡ some i)
  unfolding update_fdset
  emptied-own s fd i v l = let c = v.cells i l in ground (arith, c)

  -- What `items_max_fd` finds is in the array, is no less than any descriptor in use, and is one of
  -- them or 0.
  pub emptied-max :
      (s : FdSelector H D) (fd : ℕ)
      → WellFormed s
      → let m = items_max_fd (emptied s fd) in
        (m < s.fd_size)
        × ((i : ℕ) → i < s.fd_size → ((emptied s fd).fds i).fd ≡ some i → i ≤ m)
        × ((m ≡ 0) ⊎ (((emptied s fd).fds m).fd ≡ some m))
  unfolding items_max_fd update_fdset
  emptied-max s fd v =
      let n = s.max_fd + 1 in
      let used =
        max_loop-used n (emptied s fd) (λ i l. emptied-own s fd i v (omega (arith, v.max_in))) in
      (
        omega (arith, used, v.max_in, v.room),
        λ i l e.
            let old : (s.fds i).fd ≡ some i = ground (arith, e) in
            max_loop-ge n (emptied s fd) i (omega (arith, (v.cells i l).bounded old)) e,
        ground (arith, used),
      )

  module _ (close : H → ℕ → Option D → FdSelector H D → FdSelector H D)
      (quiet : (h : H) (fd : ℕ) (user : Option D) (s : FdSelector H D)
        → close h fd user s ≡ s) where
    closed :
        (s : FdSelector H D) (fd : ℕ) (handler : Option H) (user : Option D)
        → elim handler as (λ x. FdSelector H D) [ none ↦ s | some h ↦ close h fd user s ] ≡ s
    closed s fd none user = refl
    closed s fd (some h) user = quiet h fd user s

    pub unregister-eq :
        (s : FdSelector H D) (fd : ℕ)
        → selector_unregister_fd close s (pos fd) ≡ (
            if leb items_max_size fd
            then (iargs, s)
            else if is_used (s.fds fd)
            then (success, record (emptied s fd) { max_fd = items_max_fd (emptied s fd) })
            else (iargs, s))
    unfolding selector_unregister_fd
    unregister-eq s fd = rw (closed s fd (s.fds fd).handler (s.fds fd).user)

    removed-WellFormed :
        (s : FdSelector H D) (fd : ℕ)
        → WellFormed s
        → WellFormed (record (emptied s fd) { max_fd = items_max_fd (emptied s fd) })
    removed-WellFormed s fd v =
        let m = emptied-max s fd v in
        unfold update_fdset in
        record {
          room = v.room;
          max_in = m.0;
          cells = λ i l.
              let c = v.cells i l in
              record {
                own = ground (arith, c);
                bounded = m.1 i l;
                reads = ground (arith, c);
                writes = ground (arith, c);
              };
        }

    -- Unregistering keeps the invariant, where a handler's `handle_close` leaves the selector alone.
    pub unregister-WellFormed :
        (s : FdSelector H D) (fd : ℤ)
        → WellFormed s
        → WellFormed (selector_unregister_fd close s fd).1
    unregister-WellFormed s (negsuc k) v = unfold selector_unregister_fd in v
    unregister-WellFormed s (pos fd) v =
        rw (unregister-eq s fd) (ground (arith, v, removed-WellFormed s fd v))

    -- In a well-formed selector, and with `handle_close` leaving the selector alone, a
    -- descriptor of 0 or more is unregistered with success, where it is below 1024 and its item
    -- is used: then the item is unused, the other cells are as before, and the greatest
    -- descriptor is in use or 0. Otherwise the answer is an illegal argument and the selector
    -- is as before.
    pub unregister_lem :
        (s : FdSelector H D) (fd : ℕ)
        → WellFormed s
        → let (status, s') = selector_unregister_fd close s (pos fd) in
          ((status ≡ success)
            × (fd < items_max_size)
            × (is_used (s.fds fd) ≡ true)
            × (is_used (s'.fds fd) ≡ false)
            × ((i : ℕ) → i ≢ fd → s'.fds i ≡ s.fds i)
            × ((s'.max_fd ≡ 0) ⊎ ((s'.fds s'.max_fd).fd ≡ some s'.max_fd)))
          ⊎ ((status ≡ iargs) × ((items_max_size ≤ fd) ⊎ (is_used (s.fds fd) ≡ false)) × (s' ≡ s))
    unregister_lem s fd v = rw (unregister-eq s fd) (elim (Bool-cases (leb items_max_size fd)) [
      | inl big ↦ rw big (inr (refl, inl (leb→le items_max_size fd big), refl))
      | inr small ↦ elim (Bool-cases (is_used (s.fds fd))) [
        | inr free ↦ rw (small, free) (inr (refl, inr refl, refl))
        | inl used ↦
            rw (small, used)
              (inl (
                refl,
                ground arith,
                refl,
                unfold update_fdset in ground arith,
                λ i ne. unfold update_fdset in ground arith,
                (emptied-max s fd v).2,
              ))
      ]
    ])
