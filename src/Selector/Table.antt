-- ===== src/Selector/Table.antt =====
-- The selector's invariant: the table, the greatest descriptor and the sets for `pselect` agree.
use proxy_server_http.Base.{
  ℕ, zero, suc, ◌≤◌, ◌<◌, ◌≡◌, refl, subst, arith, Bool, ltb, Bool-cases, inl, inr, ◌⊎◌, ◌&&◌, none,
  some, ltb→ge, ltb→lt,
}
use proxy_server_http.Selector.{
  FdSelector, op_read, op_write, items_max_size, is_used, wants, max_loop, selector_new,
  ensure_capacity, items_init,
}
use proxy_server_http.Selector.Capacity.{next_capacity_bounds}

-- One cell of the table: it is unused or holds its own index, the greatest descriptor is no less,
-- and the two sets have the index exactly where the item is used and has the interest.
pub record Cell {H D : Type 0} (s : FdSelector H D) (i : ℕ) : Type 0 where
  pub own : ((s.fds i).fd ≡ none) ⊎ ((s.fds i).fd ≡ some i)
  pub bounded : (s.fds i).fd ≡ some i → i ≤ s.max_fd
  pub reads : s.master_r i ≡ (is_used (s.fds i) && wants (s.fds i).interest op_read)
  pub writes : s.master_w i ≡ (is_used (s.fds i) && wants (s.fds i).interest op_write)

-- Every descriptor that the platform can handle has its cell in the array.
pub record WellFormed {H D : Type 0} (s : FdSelector H D) : Type 0 where
  pub room : items_max_size < s.fd_size
  pub max_in : s.max_fd < s.fd_size
  pub cells : (i : ℕ) → i < s.fd_size → Cell s i

module _ {H D : Type 0} where
  -- The loop finds no less than the used items that it passes.
  pub max_loop-ge :
      (n : ℕ) (s : FdSelector H D) (i : ℕ) → i < n → (s.fds i).fd ≡ some i → i ≤ max_loop n s
  unfolding max_loop
  max_loop-ge zero s i h e = absurd (omega arith)
  max_loop-ge (suc n) s i h e = elim (Bool-cases (ltb i n)) [
    | inl below ↦ ground (arith, max_loop-ge n s i (ltb→lt i n below) e)
    | inr last ↦
        let q : i ≡ n = omega (arith, ltb→ge i n last) in
        let e' = subst (λ j. (s.fds j).fd ≡ some j) q e in ground (arith, e', q)
  ]

  -- The loop's result is 0 or a used item's descriptor.
  pub max_loop-used :
      (n : ℕ) (s : FdSelector H D)
      → ((i : ℕ) → i < n → ((s.fds i).fd ≡ none) ⊎ ((s.fds i).fd ≡ some i))
      → (max_loop n s ≡ 0)
        ⊎ ((max_loop n s < n) × ((s.fds (max_loop n s)).fd ≡ some (max_loop n s)))
  unfolding max_loop
  max_loop-used zero s h = inl refl
  max_loop-used (suc n) s h =
      let ih = max_loop-used n s (λ i l. h i (omega arith)) in ground (arith, ih, h n (omega arith))

  -- A selector that `selector_new` makes for at least as many items as the platform's limit.
  pub new-WellFormed :
      (allocate allocate_fds : Bool) (initial_elements : ℕ) (s : FdSelector H D)
      → items_max_size ≤ initial_elements
      → selector_new allocate allocate_fds initial_elements ≡ some s
      → WellFormed s
  unfolding selector_new ensure_capacity items_init
  new-WellFormed allocate allocate_fds n s h e = record {
    room = ground (arith, next_capacity_bounds n);
    max_in = ground (arith, next_capacity_bounds n);
    cells = λ i l. record {
      own = ground arith;
      bounded = ground arith;
      reads = ground arith;
      writes = ground arith;
    };
  }
