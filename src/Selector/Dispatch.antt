-- ===== src/Selector/Dispatch.antt =====
-- `handle_iteration` and `handle_block_notifications` of bin/selector.c: the handlers that a round of
-- `selector_select` calls. `W` is all that the handlers can change, the selector among it.
use proxy_server_http.Base.{
  ℕ, zero, suc, ◌+◌, ◌≡◌, refl, ap, ◌∙◌, arith, Bool, true, false, ◌&&◌, if◌then◌else◌, Option,
  none, some, List, [], ◌∷◌,
}
use proxy_server_http.Selector.{Item, FdSelector, op_read, op_write, is_used, wants, unused}

-- What the handlers are to the selector: how to find it, to replace its list of jobs, and the three
-- callbacks with the descriptor and the data of their key.
pub record Handlers (H D W : Type 0) : Type 0 where
  pub selector : W → FdSelector H D
  pub clear_jobs : W → W
  pub handle_read : H → ℕ → Option D → W → W
  pub handle_write : H → ℕ → Option D → W → W
  pub handle_block : H → ℕ → Option D → W → W

module _ {H D W : Type 0} (hs : Handlers H D W) where
  -- A call through an item's handler.
  abbrev pub call : (H → ℕ → Option D → W → W) → Option H → ℕ → Option D → W → W
  call f none fd user w = w
  call f (some h) fd user w = f h fd user w

  -- The second half of a round: the item is looked at again, behind its read handler, but the key is
  -- the one from before.
  unfoldable pub write_half : (ℕ → Bool) → ℕ → ℕ → Option D → W → W
  write_half slave_w i fd user w =
      let item = (hs.selector w).fds i in
      if slave_w i && wants item.interest op_write
      then call hs.handle_write item.handler fd user w
      else w

  -- The round for an item, by its descriptor.
  unfoldable pub item_round : (ℕ → Bool) → (ℕ → Bool) → ℕ → Item H D → Option ℕ → W → W
  item_round slave_r slave_w i item none w = w
  item_round slave_r slave_w i item (some fd) w = write_half slave_w i fd item.user (
      if slave_r fd && wants item.interest op_read
      then call hs.handle_read item.handler fd item.user w
      else w)

  -- The round for the cell `i`.
  unfoldable pub handle_item : (ℕ → Bool) → (ℕ → Bool) → ℕ → W → W
  unfolding item_round
  handle_item slave_r slave_w i w =
      let item = (hs.selector w).fds i in item_round slave_r slave_w i item item.fd w

  -- `n` rounds from the cell `i` on.
  unfoldable pub iterate : ℕ → (ℕ → Bool) → (ℕ → Bool) → ℕ → W → W
  iterate zero slave_r slave_w i w = w
  iterate (suc n) slave_r slave_w i w =
      iterate n slave_r slave_w (i + 1) (handle_item slave_r slave_w i w)

  -- The last cell is that of the greatest descriptor before the first handler runs.
  unfoldable pub handle_iteration : (ℕ → Bool) → (ℕ → Bool) → W → W
  unfolding iterate
  handle_iteration slave_r slave_w w = iterate ((hs.selector w).max_fd + 1) slave_r slave_w 0 w

  unfoldable pub notify_jobs : List ℕ → W → W
  notify_jobs [] w = w
  notify_jobs (fd ∷ jobs) w =
      let item = (hs.selector w).fds fd in
      let w1 = if is_used item then call hs.handle_block item.handler fd item.user w else w in
      notify_jobs jobs w1

  unfoldable pub handle_block_notifications : W → W
  unfolding notify_jobs
  handle_block_notifications w = hs.clear_jobs (notify_jobs (hs.selector w).resolution_jobs w)

  unused_half :
      (slave_w : ℕ → Bool) (i fd : ℕ) (user : Option D) (w : W)
      → (hs.selector w).fds i ≡ unused
      → write_half slave_w i fd user w ≡ w
  unfolding write_half wants
  unused_half slave_w i fd user w e = rw e (ground arith)

  item_read :
      (slave_r slave_w : ℕ → Bool) (i fd : ℕ) (w : W)
      → ((hs.selector w).fds i).fd ≡ some fd
      → slave_r fd ≡ true
      → wants ((hs.selector w).fds i).interest op_read ≡ true
      → handle_item slave_r slave_w i w
        ≡ write_half slave_w i fd
            ((hs.selector w).fds i).user
            (call hs.handle_read ((hs.selector w).fds i).handler fd ((hs.selector w).fds i).user w)
  unfolding handle_item
  item_read slave_r slave_w i fd w e r want = rw (e, r, want)

  -- Where an item is ready for reading and wants it, and its read handler leaves the cell unused,
  -- the round for the cell ends with that handler: the write handler is not called, though the
  -- descriptor may be ready for writing.
  removed_not_written :
      (slave_r slave_w : ℕ → Bool) (i fd : ℕ) (w w1 : W)
      → ((hs.selector w).fds i).fd ≡ some fd
      → slave_r fd ≡ true
      → wants ((hs.selector w).fds i).interest op_read ≡ true
      → call hs.handle_read ((hs.selector w).fds i).handler fd ((hs.selector w).fds i).user w ≡ w1
      → (hs.selector w1).fds i ≡ unused
      → handle_item slave_r slave_w i w ≡ w1
  removed_not_written slave_r slave_w i fd w w1 e r want done gone =
      item_read slave_r slave_w i fd w e r want
      ∙ ap (write_half slave_w i fd ((hs.selector w).fds i).user) done
      ∙ unused_half slave_w i fd ((hs.selector w).fds i).user w1 gone

  idle_half :
      (slave_w : ℕ → Bool) (i fd : ℕ) (user : Option D) (w : W)
      → slave_w i ≡ false
      → write_half slave_w i fd user w ≡ w
  unfolding write_half
  idle_half slave_w i fd user w e = rw e

  idle_round :
      (slave_r slave_w : ℕ → Bool) (i : ℕ) (item : Item H D) (fd : Option ℕ) (w : W)
      → ((j : ℕ) → slave_r j ≡ false)
      → slave_w i ≡ false
      → item_round slave_r slave_w i item fd w ≡ w
  unfolding item_round
  idle_round slave_r slave_w i item none w r e = refl
  idle_round slave_r slave_w i item (some fd) w r e =
      rw (r fd) (idle_half slave_w i fd item.user w e)

  idle_iterate :
      (n : ℕ) (slave_r slave_w : ℕ → Bool) (i : ℕ) (w : W)
      → ((j : ℕ) → slave_r j ≡ false)
      → ((j : ℕ) → slave_w j ≡ false)
      → iterate n slave_r slave_w i w ≡ w
  unfolding iterate handle_item
  idle_iterate zero slave_r slave_w i w r e = refl
  idle_iterate (suc n) slave_r slave_w i w r e =
      let item = (hs.selector w).fds i in
      ap (iterate n slave_r slave_w (i + 1)) (idle_round slave_r slave_w i item item.fd w r (e i))
      ∙ idle_iterate n slave_r slave_w (i + 1) w r e

  -- Where nothing is ready no handler is called.
  pub idle_iteration :
      (slave_r slave_w : ℕ → Bool) (w : W)
      → ((j : ℕ) → slave_r j ≡ false)
      → ((j : ℕ) → slave_w j ≡ false)
      → handle_iteration slave_r slave_w w ≡ w
  unfolding handle_iteration
  idle_iteration slave_r slave_w w r e =
      idle_iterate ((hs.selector w).max_fd + 1) slave_r slave_w 0 w r e
