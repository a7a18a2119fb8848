-- ===== src/Protocol/Total.antt =====
-- When the loop of `read_structure` comes to an end.
use proxy_server_http.Base.{
  ℕ, zero, suc, ◌≤◌, ◌<◌, ◌≡◌, refl, arith, true, Bool-cases, inl, inr, ◌⊎◌, leb, leb→le, some,
  none,
}
use proxy_server_http.Protocol.{World, kill_socket, header_index}
use proxy_server_http.Protocol.Reader.{structure_step, read_structure}
use proxy_server_http.Protocol.Valid.{Valid, waiting, Handled, login-Handled}
use proxy_server_http.Protocol.Progress.{metrics-Handled, read_header-Handled}
use proxy_server_http.Protocol.Requests.{transformations-Handled}

-- With both buffers in range and one of the four structures expected, a round of the reader leaves
-- both buffers in range. Where it goes on, fewer bytes wait than before; where it ends the loop,
-- the bytes to read are the same.
structure_step-Handled :
    (unset : ℕ) (w : World)
    → Valid w
    → w.session.expected_structure_index ≤ header_index
    → Handled w (structure_step unset w)
unfolding structure_step
structure_step-Handled unset w v h = ground (
  arith,
  read_header-Handled w v,
  login-Handled w v,
  metrics-Handled unset w v,
  transformations-Handled w v,
)

-- The sessions that rounds of the reader lead to.
pub data Rounds (unset : ℕ) : World → World → Type 0 where
  here : {w : World} → Rounds unset w w
  round :
      {w u : World}
      → (structure_step unset w).0 ≡ true
      → Rounds unset (structure_step unset w).1 u
      → Rounds unset w u

-- A session that waits for a structure that there is none of.
pub record Unknown (unset : ℕ) (w : World) : Type 0 where
  pub at : World
  pub reached : Rounds unset w at
  pub beyond : header_index < at.session.expected_structure_index

-- With both buffers in range and more fuel than bytes that wait, the reader returns with both
-- buffers in range, or its rounds lead to a session that expects a structure beyond the four that
-- there are.
pub read_structure_returns :
    (fuel unset : ℕ) (w : World)
    → Valid w
    → waiting w < fuel
    → ((w' : World) × (read_structure fuel unset w ≡ some w') × Valid w') ⊎ Unknown unset w
unfolding read_structure
read_structure_returns zero unset w v h = absurd (omega arith)
read_structure_returns (suc fuel) unset w v h =
    elim (Bool-cases (leb w.session.expected_structure_index header_index)) [
      | inr beyond ↦ inr (record { at = w; reached = here; beyond = ground arith })
      | inl known ↦
          let k = structure_step-Handled unset w v (leb→le _ _ known) in
          let w1 = (structure_step unset w).1 in
          elim (Bool-cases (structure_step unset w).0) [
            | inr done ↦ inl (w1, rw done, k.valid)
            | inl again ↦
                elim (read_structure_returns fuel unset w1 k.valid
                  (omega (arith, k.progress again))) [
                    | inl (w', e, v') ↦ inl (w', rw again e, v')
                    | inr u ↦
                        inr
                          (record { at = u.at; reached = round again u.reached; beyond = u.beyond })
                  ]
          ]
    ]

step_beyond :
    (unset : ℕ) (w : World)
    → header_index < w.session.expected_structure_index
    → structure_step unset w ≡ (true, kill_socket w)
unfolding structure_step
step_beyond unset w h = ground arith

expected_killed :
    (w : World)
    → (kill_socket w).session.expected_structure_index ≡ w.session.expected_structure_index
unfolding kill_socket
expected_killed w = refl

-- A session that expects a structure beyond the four never leaves the loop: no fuel is enough.
pub read_structure_spins :
    (fuel unset : ℕ) (w : World)
    → header_index < w.session.expected_structure_index
    → read_structure fuel unset w ≡ none
unfolding read_structure
read_structure_spins zero unset w h = refl
read_structure_spins (suc fuel) unset w h =
    rw (step_beyond unset w h)
      (read_structure_spins fuel unset (kill_socket w) (omega (arith, expected_killed w)))
