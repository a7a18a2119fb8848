-- ===== src/Selector/Calls.antt =====
-- Which handlers a round of `selector_select` calls, with handlers that leave the table alone.
use proxy_server_http.Base.{
  ℕ, zero, suc, ◌+◌, ◌-◌, ◌<◌, ◌≤◌, ◌≡◌, refl, sym, ap, ◌∙◌, arith, Bool, true, false, ◌&&◌,
  if◌then◌else◌, List, [], ◌∷◌, ◌++◌, append-nil, append_assoc, none, some, Bool-cases, inl, inr,
}
use proxy_server_http.Selector.{Status, success, io, FdSelector, is_used, wants, op_read, op_write}
use proxy_server_http.Selector.Table.{WellFormed, Cell}
use proxy_server_http.Selector.Dispatch.{
  Handlers, write_half, item_round, handle_item, iterate, handle_iteration, notify_jobs,
  handle_block_notifications,
}
use proxy_server_http.Selector.Select.{
  Waited, interrupted, bad_descriptor, failed, ready, on_waited, bad_descriptors, selector_select,
}

-- A call of a handler for reading, for writing or for a notification, by its descriptor.
pub data Call : Type 0 where
  reading writing notified : ℕ → Call

-- A selector with the calls so far.
pub record Logged (H D : Type 0) : Type 0 where
  pub selector : FdSelector H D
  pub log : List Call

not_called :
    (a b : Bool) (xs ys : List Call)
    → (if a && false then xs else []) ++ (if b && false then ys else []) ≡ []
not_called true true xs ys = refl
not_called true false xs ys = refl
not_called false true xs ys = refl
not_called false false xs ys = refl

module _ {H D : Type 0} where
  abbrev noted : Call → Logged H D → Logged H D
  noted c w = record w { log = w.log ++ (c ∷ []) }

  -- Handlers that only note their calls.
  abbrev pub recorder : Handlers H D (Logged H D)
  recorder = record {
    selector = λ w. w.selector;
    clear_jobs = λ w. record w { selector = record w.selector { resolution_jobs = [] } };
    handle_read = λ h fd user w. noted (reading fd) w;
    handle_write = λ h fd user w. noted (writing fd) w;
    handle_block = λ h fd user w. noted (notified fd) w;
  }

  -- A used item has a handler.
  abbrev pub HasHandlers : FdSelector H D → Type 0
  HasHandlers s = (i : ℕ) → is_used (s.fds i) ≡ true → (h : H) × ((s.fds i).handler ≡ some h)

  -- The calls for the descriptor `i`, by the sets that `pselect` is given and those that it answers:
  -- the one for reading ahead of the one for writing.
  abbrev pub calls_of : (ℕ → Bool) → (ℕ → Bool) → FdSelector H D → ℕ → List Call
  calls_of r w s i =
      (if r i && s.master_r i then reading i ∷ [] else [])
      ++ (if w i && s.master_w i then writing i ∷ [] else [])

  -- Those for `n` descriptors from `i` on.
  abbrev pub calls_from : (ℕ → Bool) → (ℕ → Bool) → FdSelector H D → ℕ → ℕ → List Call
  calls_from r w s zero i = []
  calls_from r w s (suc n) i = calls_of r w s i ++ calls_from r w s n (i + 1)

  -- Those for the jobs.
  abbrev pub notified_of : FdSelector H D → List ℕ → List Call
  notified_of s [] = []
  notified_of s (fd ∷ jobs) =
      (if is_used (s.fds fd) then notified fd ∷ [] else []) ++ notified_of s jobs

  abbrev pub at : FdSelector H D → List Call → Logged H D
  at s log = record { selector = s; log = log }

  -- The round for a used item.
  used_round :
      (r w : ℕ → Bool) (i : ℕ) (s : FdSelector H D) (log : List Call) (h : H)
      → (s.fds i).fd ≡ some i
      → (s.fds i).handler ≡ some h
      → Cell s i
      → handle_item recorder r w i (at s log) ≡ at s (log ++ calls_of r w s i)
  unfolding handle_item item_round write_half
  used_round r w i s log h e hd c = elim (Bool-cases (r i && wants (s.fds i).interest op_read)) [
    | inl x ↦ elim (Bool-cases (w i && wants (s.fds i).interest op_write)) [
      | inl y ↦
          rw (c.reads, c.writes, e, hd, x, y)
            (rw hd (ap (at s) (append_assoc log (reading i ∷ []) (writing i ∷ []))))
      | inr y ↦ rw (c.reads, c.writes, e, hd, x, y) refl
    ]
    | inr x ↦ elim (Bool-cases (w i && wants (s.fds i).interest op_write)) [
      | inl y ↦ rw (c.reads, c.writes, e, hd, x, y) (rw hd refl)
      | inr y ↦ rw (c.reads, c.writes, e, hd, x, y) (ap (at s) (sym (append-nil log)))
    ]
  ]

  -- An unused item is in neither set.
  unused_calls :
      (r w : ℕ → Bool) (i : ℕ) (s : FdSelector H D)
      → (s.fds i).fd ≡ none
      → Cell s i
      → calls_of r w s i ≡ []
  unused_calls r w i s e c = rw (c.reads, c.writes, e) (not_called (r i) (w i) _ _)

  unused_round :
      (r w : ℕ → Bool) (i : ℕ) (s : FdSelector H D) (log : List Call)
      → (s.fds i).fd ≡ none
      → Cell s i
      → handle_item recorder r w i (at s log) ≡ at s (log ++ calls_of r w s i)
  unfolding handle_item item_round
  unused_round r w i s log e c =
      let same : handle_item recorder r w i (at s log) ≡ at s log = rw e refl in
      same
      ∙ ap (at s) (sym (append-nil log))
      ∙ ap (λ xs. at s (log ++ xs)) (sym (unused_calls r w i s e c))

  round_calls :
      (r w : ℕ → Bool) (i : ℕ) (s : FdSelector H D) (log : List Call)
      → WellFormed s
      → HasHandlers s
      → i < s.fd_size
      → handle_item recorder r w i (at s log) ≡ at s (log ++ calls_of r w s i)
  round_calls r w i s log v k l =
      let c = v.cells i l in
      elim c.own [
        | inl e ↦ unused_round r w i s log e c
        | inr e ↦
            let (h, hd) =
              k i (ap (λ o. elim o as (λ x. Bool) [ none ↦ false | some y ↦ true ]) e) in
            used_round r w i s log h e hd c
      ]

  loop_calls :
      (r w : ℕ → Bool) (s : FdSelector H D) (n i : ℕ) (log : List Call)
      → WellFormed s
      → HasHandlers s
      → i + n ≤ s.fd_size
      → iterate recorder n r w i (at s log) ≡ at s (log ++ calls_from r w s n i)
  unfolding iterate
  loop_calls r w s zero i log v k l = ap (at s) (sym (append-nil log))
  loop_calls r w s (suc n) i log v k l =
      ap (iterate recorder n r w (i + 1)) (round_calls r w i s log v k (omega arith))
      ∙ loop_calls r w s n (i + 1) (log ++ calls_of r w s i) v k (omega arith)
      ∙ ap (at s) (append_assoc log (calls_of r w s i) (calls_from r w s n (i + 1)))

  -- Behind the greatest descriptor there are none.
  none_behind :
      (r w : ℕ → Bool) (s : FdSelector H D) (n i : ℕ)
      → WellFormed s
      → s.max_fd < i
      → i + n ≤ s.fd_size
      → calls_from r w s n i ≡ []
  none_behind r w s zero i v b l = refl
  none_behind r w s (suc n) i v b l =
      let c = v.cells i (omega arith) in
      let free : (s.fds i).fd ≡ none = elim c.own [
        | inl e ↦ e
        | inr e ↦ absurd (omega (arith, c.bounded e))
      ] in
      ap (λ xs. xs ++ calls_from r w s n (i + 1)) (unused_calls r w i s free c)
      ∙ none_behind r w s n (i + 1) v (omega arith) (omega arith)

  calls_split :
      (r w : ℕ → Bool) (s : FdSelector H D) (m n i : ℕ)
      → calls_from r w s (m + n) i ≡ calls_from r w s m i ++ calls_from r w s n (i + m)
  calls_split r w s zero n i =
      let more : 0 + n ≡ n = omega arith in
      let here : i ≡ i + 0 = omega arith in
      ap (λ k. calls_from r w s k i) more ∙ ap (calls_from r w s n) here
  calls_split r w s (suc m) n i =
      let more : suc m + n ≡ suc (m + n) = omega arith in
      let place : i + 1 + m ≡ i + suc m = omega arith in
      ap (λ k. calls_from r w s k i) more
      ∙ ap (λ xs. calls_of r w s i ++ xs)
          (calls_split r w s m n (i + 1)
            ∙ ap (λ j. calls_from r w s m (i + 1) ++ calls_from r w s n j) place)
      ∙ sym (
          append_assoc (calls_of r w s i) (calls_from r w s m (i + 1))
            (calls_from r w s n (i + suc m)))

  jobs_calls :
      (s : FdSelector H D) (jobs : List ℕ) (log : List Call)
      → HasHandlers s
      → notify_jobs recorder jobs (at s log) ≡ at s (log ++ notified_of s jobs)
  unfolding notify_jobs
  jobs_calls s [] log k = ap (at s) (sym (append-nil log))
  jobs_calls s (fd ∷ jobs) log k = elim (Bool-cases (is_used (s.fds fd))) [
    | inl used ↦
        let (h, hd) = k fd used in
        rw (used, hd)
          (jobs_calls s jobs (log ++ (notified fd ∷ [])) k
            ∙ ap (at s) (append_assoc log (notified fd ∷ []) (notified_of s jobs)))
    | inr free ↦ rw free (jobs_calls s jobs log k)
  ]

  -- All cells of the table, though the loop ends at the greatest descriptor.
  iteration_calls :
      (r w : ℕ → Bool) (s : FdSelector H D) (log : List Call)
      → WellFormed s
      → HasHandlers s
      → handle_iteration recorder r w (at s log) ≡ at s (log ++ calls_from r w s s.fd_size 0)
  unfolding handle_iteration
  iteration_calls r w s log v k =
      let rest = s.fd_size - (s.max_fd + 1) in
      let all : s.max_fd + 1 + rest ≡ s.fd_size = omega (arith, v.max_in) in
      let none_left =
        none_behind r w s rest (0 + (s.max_fd + 1)) v (omega arith) (omega (arith, v.max_in)) in
      let whole : calls_from r w s s.fd_size 0 ≡ calls_from r w s (s.max_fd + 1) 0 =
        ap (λ n. calls_from r w s n 0) (sym all)
        ∙ calls_split r w s (s.max_fd + 1) rest 0
        ∙ ap (λ xs. calls_from r w s (s.max_fd + 1) 0 ++ xs) none_left
        ∙ append-nil (calls_from r w s (s.max_fd + 1) 0) in
      loop_calls r w s (s.max_fd + 1) 0 log v k (omega (arith, v.max_in))
      ∙ ap (λ xs. at s (log ++ xs)) (sym whole)

  block_calls :
      (s : FdSelector H D) (log : List Call)
      → HasHandlers s
      → handle_block_notifications recorder (at s log)
        ≡ at (record s { resolution_jobs = [] }) (log ++ notified_of s s.resolution_jobs)
  unfolding handle_block_notifications
  block_calls s log k = ap recorder.clear_jobs (jobs_calls s s.resolution_jobs log k)

  -- What a round answers, prints and leaves for what `pselect` gives.
  abbrev pub Expected :
      FdSelector H D → List Call → (ℕ → Bool) → Waited → Status × List ℕ × Logged H D
  Expected s log valid interrupted =
      (success, [], at (record s { resolution_jobs = [] }) (log ++ notified_of s s.resolution_jobs))
  Expected s log valid bad_descriptor = (io, bad_descriptors valid s, at s log)
  Expected s log valid failed = (io, [], at s log)
  Expected s log valid (ready r w) = (
    success,
    [],
    at (record s { resolution_jobs = [] })
        ((log ++ calls_from r w s s.fd_size 0) ++ notified_of s s.resolution_jobs),
  )

  -- In a consistent table whose used items have handlers, and with handlers that leave the table
  -- alone, a round calls, where `pselect` answers two sets, the read handler of exactly the
  -- descriptors that are in the first set and in the one it was given, and the write handler of
  -- those in the second set and in the other it was given, by ascending descriptors, the one for
  -- reading first; then it tells the jobs whose descriptors are in use, the newest first, and
  -- there are none left. Interrupted it only tells the jobs. Where `pselect` fails it calls none,
  -- answers an I/O error and changes nothing; it prints only for a bad descriptor.
  pub select_calls :
      (pselect : ℕ → (ℕ → Bool) → (ℕ → Bool) → Waited) (valid : ℕ → Bool) (s : FdSelector H D)
      (log : List Call)
      → WellFormed s
      → HasHandlers s
      → selector_select recorder pselect valid (at s log)
        ≡ Expected s log valid (pselect (s.max_fd + 1) s.master_r s.master_w)
  unfolding selector_select
  select_calls pselect valid s log v k = outcome (pselect (s.max_fd + 1) s.master_r s.master_w)
    where
      outcome : (a : Waited) → on_waited recorder valid a (at s log) ≡ Expected s log valid a
      outcome interrupted = ap (λ w. (success, [], w)) (block_calls s log k)
      outcome bad_descriptor = refl
      outcome failed = refl
      outcome (ready r w) =
          ap (λ x. (success, [], x))
            (ap (handle_block_notifications recorder) (iteration_calls r w s log v k)
              ∙ block_calls s (log ++ calls_from r w s s.fd_size 0) k)
