-- ===== src/Selector/Select.antt =====
-- `selector_select` of bin/selector.c with what `pselect` answers, and the small functions beside it:
-- `selector_error`, `selector_init`, `selector_fd_set_nio` and `selector_destroy`.
use proxy_server_http.Base.{
  ℕ, zero, suc, ◌+◌, ◌==◌, Bool, false, not, ◌&&◌, ◌||◌, if◌then◌else◌, List, [], ◌∷◌, Option, none,
  some, ℤ, pos, negsuc,
}
use Prim.Native.Nat.{bit_or}
use proxy_server_http.Settings.{codes}
use proxy_server_http.Selector.{
  Status, success, enomem, maxfd, iargs, fdinuse, io, FdSelector, is_used, selector_unregister_fd,
}
use proxy_server_http.Selector.Dispatch.{Handlers, handle_iteration, handle_block_notifications}

-- There is no text of its own for a descriptor in use.
unfoldable pub selector_error : Status → List ℕ
selector_error success = codes "Success"
selector_error enomem = codes "Not enough memory"
selector_error maxfd = codes "Can't handle any more file descriptors"
selector_error iargs = codes "Illegal argument"
selector_error io = codes "I/O error"
selector_error fdinuse = codes "something failed"

-- Whether `sigprocmask` and `sigaction` succeed.
unfoldable pub selector_init : Bool → Bool → Status
selector_init blocked handled = if blocked then (if handled then success else io) else io

-- `O_NONBLOCK`
abbrev pub o_nonblock : ℕ
o_nonblock = 2048

-- What `fcntl` gives for `F_GETFD`, and whether it takes the flags: the answer of the function and
-- the flags that it asks for.
unfoldable pub selector_fd_set_nio : Option ℕ → (ℕ → Bool) → ℤ × List ℕ
selector_fd_set_nio none takes = (negsuc 0, [])
selector_fd_set_nio (some flags) takes =
    let wanted = bit_or flags o_nonblock in (if takes wanted then pos 0 else negsuc 0, wanted ∷ [])

-- The test `== -1` of its callers.
abbrev pub nio_fails : ℤ × List ℕ → Bool
nio_fails (pos _, asked) = false
nio_fails (negsuc k, asked) = k == 0

module _ {H D : Type 0} where
  -- A round of the loop of `selector_destroy`, and the loop from `i` on.
  unfoldable pub destroy_round :
      (H → ℕ → Option D → FdSelector H D → FdSelector H D) → ℕ → FdSelector H D → FdSelector H D
  unfolding selector_unregister_fd
  destroy_round close i s =
      if is_used (s.fds i) then (selector_unregister_fd close s (pos i)).1 else s

  unfoldable pub destroy_loop :
      (H → ℕ → Option D → FdSelector H D → FdSelector H D) → ℕ → ℕ → FdSelector H D → FdSelector H D
  unfolding destroy_round
  destroy_loop close zero i s = s
  destroy_loop close (suc n) i s = destroy_loop close n (i + 1) (destroy_round close i s)

  -- `selector_destroy`, up to the release of the memory
  unfoldable pub selector_destroy :
      (H → ℕ → Option D → FdSelector H D → FdSelector H D) → FdSelector H D → FdSelector H D
  unfolding destroy_loop
  selector_destroy close s = destroy_loop close s.fd_size 0 s

  -- The descriptors that are printed behind `EBADF`; `valid` is what `fcntl` finds.
  abbrev pub watched : FdSelector H D → ℕ → Bool
  watched s i = s.master_r i || s.master_w i

  unfoldable pub bad_loop : (ℕ → Bool) → FdSelector H D → ℕ → ℕ → List ℕ
  bad_loop valid s zero i = []
  bad_loop valid s (suc n) i =
      let rest = bad_loop valid s n (i + 1) in
      if watched s i && not (valid i) then i ∷ rest else rest

  unfoldable pub bad_descriptors : (ℕ → Bool) → FdSelector H D → List ℕ
  unfolding bad_loop
  bad_descriptors valid s = bad_loop valid s s.max_fd 0

-- What `pselect` gives: an error, by its number, or the sets of the descriptors that are ready.
pub data Waited : Type 0 where
  interrupted bad_descriptor failed : Waited
  ready : (ℕ → Bool) → (ℕ → Bool) → Waited

module _ {H D W : Type 0} (hs : Handlers H D W) where
  -- The status, the descriptors printed, and the state.
  abbrev pub on_waited : (ℕ → Bool) → Waited → W → Status × List ℕ × W
  on_waited valid interrupted w = (success, [], handle_block_notifications hs w)
  on_waited valid bad_descriptor w = (io, bad_descriptors valid (hs.selector w), w)
  on_waited valid failed w = (io, [], w)
  on_waited valid (ready r wr) w =
      (success, [], handle_block_notifications hs (handle_iteration hs r wr w))

  -- `pselect` is given the number of descriptors and the two sets.
  unfoldable pub selector_select :
      (ℕ → (ℕ → Bool) → (ℕ → Bool) → Waited) → (ℕ → Bool) → W → Status × List ℕ × W
  unfolding bad_descriptors handle_iteration handle_block_notifications
  selector_select pselect valid w =
      let s = hs.selector w in on_waited valid (pselect (s.max_fd + 1) s.master_r s.master_w) w
