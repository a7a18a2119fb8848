-- ===== src/Selector/Outcomes.antt =====
-- All that registering and unregistering a descriptor change, and what they refuse.
use proxy_server_http.Base.{
  ℕ, ◌≤◌, ◌<◌, ◌≡◌, ◌≢◌, true, false, ◌⊎◌, Option, none, some, ℤ, pos, negsuc,
}
use proxy_server_http.Selector.{
  Status, success, iargs, fdinuse, FdSelector, op_read, op_write, items_max_size, is_used, wants,
  unused,
}

-- Behind a registration: the item, the greatest descriptor and the two sets, and all else as before.
pub record Added {H D : Type 0} (fd : ℕ) (handler : H) (interest : ℕ) (user : D)
    (s s' : FdSelector H D) : Type 0 where
  pub in_range : fd < items_max_size
  pub was_free : is_used (s.fds fd) ≡ false
  pub item :
      s'.fds fd
      ≡ record { fd = some fd; interest = interest; handler = some handler; user = some user }
  pub others : (i : ℕ) → i ≢ fd → s'.fds i ≡ s.fds i
  pub no_less : (s.max_fd ≤ s'.max_fd) × (fd ≤ s'.max_fd)
  pub no_more : (s'.max_fd ≡ s.max_fd) ⊎ (s'.max_fd ≡ fd)
  pub sets : (s'.master_r fd ≡ wants interest op_read) × (s'.master_w fd ≡ wants interest op_write)
  pub other_sets :
      (i : ℕ) → i ≢ fd → (s'.master_r i ≡ s.master_r i) × (s'.master_w i ≡ s.master_w i)
  pub jobs : s'.resolution_jobs ≡ s.resolution_jobs

-- Behind the removal of a descriptor. The greatest descriptor is no less than any in use, and it is
-- in use itself, or 0.
pub record Removed {H D : Type 0} (fd : ℕ) (s s' : FdSelector H D) : Type 0 where
  pub in_range : fd < items_max_size
  pub was_used : is_used (s.fds fd) ≡ true
  pub item : s'.fds fd ≡ unused
  pub others : (i : ℕ) → i ≢ fd → s'.fds i ≡ s.fds i
  pub no_less : (i : ℕ) → i < items_max_size → is_used (s'.fds i) ≡ true → i ≤ s'.max_fd
  pub no_more : (s'.max_fd ≡ 0) ⊎ ((s'.fds s'.max_fd).fd ≡ some s'.max_fd)
  pub sets : (s'.master_r fd ≡ false) × (s'.master_w fd ≡ false)
  pub other_sets :
      (i : ℕ) → i ≢ fd → (s'.master_r i ≡ s.master_r i) × (s'.master_w i ≡ s.master_w i)
  pub jobs : s'.resolution_jobs ≡ s.resolution_jobs

-- A refusal for its reason.
abbrev pub Refused : {H D : Type 0} → Status → FdSelector H D → Status × FdSelector H D → Type 0
Refused reason s (status, s') = (status ≡ reason) × (s' ≡ s)

module _ {H D : Type 0} where
  abbrev pub RegisterOutcome :
      ℤ → Option H → ℕ → D → FdSelector H D → Status × FdSelector H D → Type 0
  RegisterOutcome (negsuc k) handler interest user s r = Refused iargs s r
  RegisterOutcome (pos fd) none interest user s r = Refused iargs s r
  RegisterOutcome (pos fd) (some handler) interest user s r =
      ((r.0 ≡ success) × Added fd handler interest user s (r.1))
      ⊎ ((items_max_size ≤ fd) × Refused iargs s r)
      ⊎ ((fd < items_max_size) × (is_used (s.fds fd) ≡ true) × Refused fdinuse s r)

  abbrev pub UnregisterOutcome : ℤ → FdSelector H D → Status × FdSelector H D → Type 0
  UnregisterOutcome (negsuc k) s r = Refused iargs s r
  UnregisterOutcome (pos fd) s r =
      ((r.0 ≡ success) × Removed fd s (r.1))
      ⊎ (((items_max_size ≤ fd) ⊎ (is_used (s.fds fd) ≡ false)) × Refused iargs s r)
