-- ===== src/Selector/Rounds.antt =====
-- What a round of `selector_select` leaves, and what `selector_destroy` does.
use proxy_server_http.Base.{
  ℕ, zero, suc, ◌+◌, ◌≤◌, ◌<◌, ◌≡◌, refl, sym, ap, ◌∙◌, arith, Bool, true, false, not, ◌&&◌, ◌==◌,
  ltb, if◌then◌else◌, List, [], ◌∷◌, Option, pos, inl, inr, Bool-cases, ◌||◌, subst,
}
use proxy_server_http.Selector.{FdSelector, items_max_size, is_used, selector_unregister_fd}
use proxy_server_http.Selector.Table.{WellFormed}
use proxy_server_http.Selector.Keeps.{unregister-WellFormed, unregister_lem}
use proxy_server_http.Selector.Select.{
  watched, bad_loop, bad_descriptors, destroy_round, destroy_loop, selector_destroy,
}

abbrev pub reports : ℕ → List ℕ → Bool
reports fd [] = false
reports fd (x ∷ xs) = (fd == x) || reports fd xs

reports_one :
    (t : Bool) (fd i : ℕ) (rest : List ℕ)
    → reports fd (if t then i ∷ rest else rest) ≡ (((fd == i) && t) || reports fd rest)
reports_one true fd i rest = ground arith
reports_one false fd i rest = ground arith

-- A descriptor is `i`, or one of those behind it.
from_next :
    (n i fd : ℕ) (here there : Bool)
    → (fd ≡ i → here ≡ there)
    → (((fd == i) && here) || ((not (ltb fd (i + 1)) && ltb fd (i + 1 + n)) && there))
      ≡ ((not (ltb fd i) && ltb fd (i + suc n)) && there)
from_next n i fd here true same = ground (arith, same)
from_next n i fd here false same = ground (arith, same)

from_start : (fd m : ℕ) (t : Bool) → ((not (ltb fd 0) && ltb fd (0 + m)) && t) ≡ (ltb fd m && t)
from_start fd m t = ground arith

module _ {H D : Type 0} where
  abbrev is_bad : (ℕ → Bool) → FdSelector H D → ℕ → Bool
  is_bad valid s i = watched s i && not (valid i)

  reports_from :
      (valid : ℕ → Bool) (s : FdSelector H D) (n i fd : ℕ)
      → reports fd (bad_loop valid s n i)
        ≡ ((not (ltb fd i) && ltb fd (i + n)) && is_bad valid s fd)
  unfolding bad_loop
  reports_from valid s zero i fd = ground arith
  reports_from valid s (suc n) i fd =
      reports_one (is_bad valid s i) fd i (bad_loop valid s n (i + 1))
      ∙ ap (λ b. ((fd == i) && is_bad valid s i) || b) (reports_from valid s n (i + 1) fd)
      ∙ from_next n i fd (is_bad valid s i) (is_bad valid s fd) (λ e. sym (ap (is_bad valid s) e))

  -- What is printed where a descriptor is bad are exactly the bad ones among the descriptors
  -- below the greatest one that are watched; the greatest one itself never is.
  pub bad_descriptors_lem :
      (valid : ℕ → Bool) (s : FdSelector H D) (fd : ℕ)
      → reports fd (bad_descriptors valid s) ≡ (ltb fd s.max_fd && (watched s fd && not (valid fd)))
  unfolding bad_descriptors
  bad_descriptors_lem valid s fd =
      reports_from valid s s.max_fd 0 fd ∙ from_start fd s.max_fd (is_bad valid s fd)

  module _ (close : H → ℕ → Option D → FdSelector H D → FdSelector H D)
      (quiet : (h : H) (fd : ℕ) (user : Option D) (s : FdSelector H D)
        → close h fd user s ≡ s) where
    -- The table stays consistent, no cell gets used, and that of `i` is free.
    abbrev Freed : ℕ → FdSelector H D → FdSelector H D → Type 0
    Freed i s s' =
        WellFormed s'
        × ((j : ℕ) → is_used (s.fds j) ≡ false → is_used (s'.fds j) ≡ false)
        × (i < items_max_size → is_used (s'.fds i) ≡ false)

    abbrev removed : FdSelector H D → ℕ → FdSelector H D
    removed s i = (selector_unregister_fd close s (pos i)).1

    removed-Freed : (i : ℕ) (s : FdSelector H D) → WellFormed s → Freed i s (removed s i)
    removed-Freed i s v =
        let l = unregister_lem close quiet s i v in
        (
          unregister-WellFormed close quiet s (pos i) v,
          λ j e. elim l [
            | inl u ↦ elim (Bool-cases (j == i)) [
              | inl same ↦
                  subst (λ k. is_used ((selector_unregister_fd close s (pos i)).1.fds k) ≡ false)
                    (let q : i ≡ j = ground arith in q) (u.3)
              | inr other ↦ ap is_used (u.4 j (λ q. absurd (ground arith))) ∙ e
            ]
            | inr u ↦ ap (λ r. is_used (r.fds j)) (u.2) ∙ e
          ],
          λ k. elim l [
            | inl u ↦ u.3
            | inr u ↦ elim (u.1) [
              | inl big ↦ absurd (omega arith)
              | inr free ↦ ap (λ r. is_used (r.fds i)) (u.2) ∙ free
            ]
          ],
        )

    round_is :
        (i : ℕ) (s : FdSelector H D)
        → destroy_round close i s ≡ (if is_used (s.fds i) then removed s i else s)
    unfolding destroy_round
    round_is i s = refl

    round_lem : (i : ℕ) (s : FdSelector H D) → WellFormed s → Freed i s (destroy_round close i s)
    round_lem i s v = elim (Bool-cases (is_used (s.fds i))) [
      | inl t ↦
          subst (Freed i s) (sym (round_is i s ∙ ap (λ b. if b then removed s i else s) t))
            (removed-Freed i s v)
      | inr t ↦
          subst (Freed i s) (sym (round_is i s ∙ ap (λ b. if b then removed s i else s) t))
            (v, λ j e. e, λ l. t)
    ]

    loop_lem :
        (n i : ℕ) (s : FdSelector H D)
        → WellFormed s
        → ((j : ℕ) → is_used (s.fds j) ≡ false → is_used ((destroy_loop close n i s).fds j) ≡ false)
          × ((j : ℕ)
              → i ≤ j
              → j < i + n
              → j < items_max_size
              → is_used ((destroy_loop close n i s).fds j) ≡ false)
    unfolding destroy_loop
    loop_lem zero i s v = (λ j e. e, λ j a b c. absurd (omega arith))
    loop_lem (suc n) i s v =
        let (v', keeps, frees) = round_lem i s v in
        let (later, behind) = loop_lem n (i + 1) (destroy_round close i s) v' in
        (
          λ j e. later j (keeps j e),
          λ j a b c. elim (Bool-cases (j == i)) [
            | inl same ↦
                let q : i ≡ j = ground arith in
                later j (
                  subst (λ k. is_used ((destroy_round close i s).fds k) ≡ false) q
                    (frees (omega arith)))
            | inr other ↦ behind j (ground arith) (omega arith) c
          ],
        )

    -- In a selector whose table is consistent, and with `handle_close` leaving the selector alone,
    -- no descriptor below 1024 is in use when the loop of the destruction has ended.
    selector_destroy-frees :
        (s : FdSelector H D) (fd : ℕ)
        → WellFormed s
        → fd < items_max_size
        → is_used ((selector_destroy close s).fds fd) ≡ false
    unfolding selector_destroy
    selector_destroy-frees s fd v h =
        (loop_lem s.fd_size 0 s v).1 fd (omega arith) (omega (arith, v.room)) h
