-- ===== src/Selector.antt =====
-- bin/selector.c and bin/include/selector.h: the multiplexer. It keeps a table of items by file
-- descriptor and the sets that `pselect` is given. `H` stands for the handlers and `D` for the data
-- that a caller attaches. A descriptor is an `int`, which can be negative. The table is a function
-- from indices: cells at or past `fd_size` lie outside the array.
pub mod Capacity
pub mod Table
pub mod Keeps
pub mod Outcomes
pub mod Runs
pub mod Dispatch
pub mod Select
pub mod Rounds
pub mod Calls
use proxy_server_http.Base.{
  ℕ, zero, suc, ◌+◌, ◌-◌, ◌*◌, ◌/◌, ◌^◌, ◌==◌, ltb, leb, if◌then◌else◌, Bool, true, false, not,
  ◌||◌, ◌&&◌, List, [], ◌∷◌, Option, none, some, ℤ, pos, negsuc,
}
use Prim.Native.Nat.{bit_and}

-- `selector_status`
pub data Status : Type 0 where
  success enomem maxfd iargs fdinuse io : Status

-- `fd_interest`
abbrev pub op_noop : ℕ
op_noop = 0

abbrev pub op_read : ℕ
op_read = 1

abbrev pub op_write : ℕ
op_write = 4

-- `ITEMS_MAX_SIZE`, which is `FD_SETSIZE`
abbrev pub items_max_size : ℕ
items_max_size = 1024

-- `struct item`; `fd` is `none` for `FD_UNUSED`. A used item has a handler.
pub record Item (H D : Type 0) : Type 0 where
  pub fd : Option ℕ
  pub interest : ℕ
  pub handler : Option H
  pub user : Option D

-- The item that `memset` and `item_init` leave.
abbrev pub unused : {H D : Type 0} → Item H D
unused = record { fd = none; interest = op_noop; handler = none; user = none }

-- `ITEM_USED`
abbrev pub is_used : {H D : Type 0} → Item H D → Bool
is_used item = elim item.fd [ none ↦ false | some _ ↦ true ]

-- `struct fdselector`. The timeouts, the thread and its mutex are left out: the calls that read them
-- are the system's. `resolution_jobs` holds the descriptors of the jobs, the newest first.
pub record FdSelector (H D : Type 0) : Type 0 where
  pub fds : ℕ → Item H D
  pub fd_size : ℕ
  pub max_fd : ℕ
  pub master_r : ℕ → Bool
  pub master_w : ℕ → Bool
  pub resolution_jobs : List ℕ

-- `i` of a function, given anew
abbrev pub at_fd : {A : Type 0} → (ℕ → A) → ℕ → A → ℕ → A
at_fd f i a j = if i == j then a else f j

-- The rounds of `while(tmp != 0) { tmp >>= 1; bits++; }`, with fuel for them.
unfoldable pub bit_count : ℕ → ℕ → ℕ
bit_count zero n = 0
bit_count (suc fuel) n = let rest = bit_count fuel (n / 2) in if n == 0 then 0 else rest + 1

-- A number has fewer bits than itself, or as many.
unfoldable pub next_capacity : ℕ → ℕ
next_capacity n =
    let tmp = 2 ^ bit_count n n in (if ltb items_max_size tmp then items_max_size else tmp) + 1

-- Whether a descriptor has the interest given by `mask`.
unfoldable pub wants : ℕ → ℕ → Bool
wants interest mask = not (bit_and interest mask == 0)

-- `INVALID_FD`, for a descriptor that is not negative
abbrev pub invalid_fd : ℕ → Bool
invalid_fd fd = leb items_max_size fd

module _ {H D : Type 0} where
  -- `items_init`: the items from `last` up to `fd_size` are marked unused.
  unfoldable pub items_init : ℕ → FdSelector H D → FdSelector H D
  items_init last s = record s {
    fds = λ i. if leb last i && ltb i s.fd_size then record (s.fds i) { fd = none } else s.fds i;
  }

  -- The loop of `items_max_fd`: `n` rounds, the last at `n - 1`.
  unfoldable pub max_loop : ℕ → FdSelector H D → ℕ
  max_loop zero s = 0
  max_loop (suc n) s =
      let max = max_loop n s in
      elim (s.fds n).fd [ none ↦ max | some fd ↦ if ltb max fd then fd else max ]

  unfoldable pub items_max_fd : FdSelector H D → ℕ
  unfolding max_loop
  items_max_fd s = max_loop (s.max_fd + 1) s

  -- `items_update_fdset_for_fd` at a used item
  unfoldable pub update_fdset : ℕ → ℕ → FdSelector H D → FdSelector H D
  unfolding wants
  update_fdset fd interest s = record s {
    master_r = at_fd s.master_r fd (wants interest op_read);
    master_w = at_fd s.master_w fd (wants interest op_write);
  }

  -- `ensure_capacity`, its first allocation and its later ones alike: `fd_size` is 0 before the first,
  -- and the items from the old `fd_size` on are marked unused in both. `allocate` is whether `calloc`
  -- or `realloc` gives the memory. The test against `SIZE_MAX` never holds, since a capacity is at
  -- most 1025.
  unfoldable pub ensure_capacity : Bool → ℕ → FdSelector H D → Status × FdSelector H D
  unfolding items_init next_capacity
  ensure_capacity allocate n s =
      if ltb n s.fd_size
      then (success, s)
      else if ltb items_max_size n
      then (maxfd, s)
      else if allocate
      then (success, items_init s.fd_size (record s { fd_size = next_capacity n }))
      else (enomem, s)

  -- The registration, where the table has room.
  unfoldable pub register_item : ℕ → H → ℕ → D → FdSelector H D → Status × FdSelector H D
  unfolding update_fdset
  register_item fd handler interest user s =
      let item : Item H D = record {
        fd = some fd;
        interest = interest;
        handler = some handler;
        user = some user;
      } in
      let s1 = record s {
        fds = at_fd s.fds fd item;
        max_fd = if ltb s.max_fd fd then fd else s.max_fd;
      } in
      if is_used (s.fds fd) then (fdinuse, s) else (success, update_fdset fd interest s1)

  unfoldable pub selector_register :
      Bool → FdSelector H D → ℤ → Option H → ℕ → D → Status × FdSelector H D
  unfolding ensure_capacity register_item
  selector_register allocate s (negsuc _) handler interest user = (iargs, s)
  selector_register allocate s (pos fd) none interest user = (iargs, s)
  selector_register allocate s (pos fd) (some handler) interest user =
      let (status, s1) = ensure_capacity allocate fd s in
      let go = register_item fd handler interest user in
      if invalid_fd fd
      then (iargs, s)
      else if ltb s.fd_size fd
      then elim status [ success ↦ go s1 | failed ↦ (failed, s1) ]
      else go s

  -- `selector_unregister_fd`. The handler's `handle_close` gets the item's key; what it may do to the
  -- selector is `close`.
  unfoldable pub selector_unregister_fd :
      (H → ℕ → Option D → FdSelector H D → FdSelector H D)
      → FdSelector H D
      → ℤ
      → Status × FdSelector H D
  unfolding update_fdset items_max_fd
  selector_unregister_fd close s (negsuc _) = (iargs, s)
  selector_unregister_fd close s (pos fd) =
      let item = s.fds fd in
      let s1 : FdSelector H D = elim item.handler [ none ↦ s | some h ↦ close h fd item.user s ] in
      let s2 = update_fdset fd op_noop s1 in
      let s3 = record s2 { fds = at_fd s2.fds fd unused } in
      if invalid_fd fd
      then (iargs, s)
      else if is_used item
      then (success, record s3 { max_fd = items_max_fd s3 })
      else (iargs, s)

  unfoldable pub selector_set_interest : FdSelector H D → ℤ → ℕ → Status × FdSelector H D
  unfolding update_fdset
  selector_set_interest s (negsuc _) i = (iargs, s)
  selector_set_interest s (pos fd) i =
      let s1 = record s { fds = at_fd s.fds fd (record (s.fds fd) { interest = i }) } in
      if invalid_fd fd
      then (iargs, s)
      else if is_used (s.fds fd)
      then (success, update_fdset fd i s1)
      else (iargs, s)

  -- `selector_new`: an empty table, and the first allocation. `none` is a null pointer.
  unfoldable pub selector_new : Bool → Bool → ℕ → Option (FdSelector H D)
  unfolding ensure_capacity
  selector_new allocate allocate_fds initial_elements =
      let empty : FdSelector H D = record {
        fds = λ _. unused;
        fd_size = 0;
        max_fd = 0;
        master_r = λ _. false;
        master_w = λ _. false;
        resolution_jobs = [];
      } in
      let (status, s) = ensure_capacity allocate_fds initial_elements empty in
      if allocate then (elim status [ success ↦ some s | _ ↦ none ]) else none

  -- `selector_notify_block`, where `malloc` gives the job
  unfoldable pub selector_notify_block : Bool → FdSelector H D → ℕ → Status × FdSelector H D
  selector_notify_block allocate s fd =
      if allocate
      then (success, record s { resolution_jobs = fd ∷ s.resolution_jobs })
      else (enomem, s)
