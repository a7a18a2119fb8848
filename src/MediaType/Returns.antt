-- ===== src/MediaType/Returns.antt =====
-- The termination of `media_type_match`.
use proxy_server_http.Base.{
  ℕ, zero, suc, ◌+◌, ◌-◌, ◌*◌, ◌≤◌, ◌<◌, ◌≡◌, refl, arith, Bool, true, false, ◌==◌, List, [], ◌∷◌,
  length, Option, some, if◌then◌else◌, Bool-cases, inl, inr,
}
use proxy_server_http.Protocol.{byte_at}
use proxy_server_http.MediaType.{
  MatchState, match_type, match_subtype, skip_type, skip_spaces, Switched, matched, kept, back,
  switch, ended, on_switched, match_loop, media_type_match, without_spaces, ends_entry,
  ends_content,
}

-- How many rounds a state takes at its place, at most, before it moves on.
abbrev weight : MatchState → ℕ
weight match_type = 0
weight match_subtype = 0
weight skip_type = 2
weight skip_spaces = 1

weight-le : (s : MatchState) → weight s ≤ 2
weight-le match_type = omega arith
weight-le match_subtype = omega arith
weight-le skip_type = omega arith
weight-le skip_spaces = omega arith

-- A byte that is not null is within the text.
byte_at-inside : (i : ℕ) (xs : List ℕ) → (byte_at i xs == 0) ≡ false → i < length xs
byte_at-inside i [] h = ground arith
byte_at-inside zero (x ∷ xs) h = omega arith
byte_at-inside (suc i) (x ∷ xs) h = omega (arith, byte_at-inside i xs h)

-- `bound` is the greatest place: the length, or 1 where that is 0.
not_ended-inside :
    (bound : ℕ) (media : List ℕ) (i : ℕ)
    → 0 < bound
    → length media ≤ bound
    → ended media i ≡ false
    → i < bound
not_ended-inside bound media zero h k e = h
not_ended-inside bound media (suc i) h k e =
    omega (arith, byte_at-inside (suc i) media (ground arith))

-- A step back is to a state that takes fewer rounds.
abbrev Lighter : MatchState → Switched → Type 0
Lighter s matched = Unit
Lighter s (kept s' j) = Unit
Lighter s (back s' j) = weight s' < weight s

Lighter-if :
    (s : MatchState) (t : Bool) (x y : Switched)
    → Lighter s x
    → Lighter s y
    → Lighter s (if t then x else y)
Lighter-if s true x y l m = l
Lighter-if s false x y l m = m

switch-Lighter :
    (s : MatchState) (before at beyond wanted j : ℕ)
    → Lighter s (switch s before at beyond wanted j)
unfolding switch
switch-Lighter match_type before at beyond wanted j =
    Lighter-if match_type (at == wanted) _ _
      (Lighter-if match_type (at == b'/') _ _ (Lighter-if match_type (beyond == b'*') _ _ tt tt) tt)
      tt
switch-Lighter match_subtype before at beyond wanted j =
    Lighter-if match_subtype (ends_entry at) _ _
      (Lighter-if match_subtype (ends_content wanted) _ _ tt tt)
      (Lighter-if match_subtype (at == wanted) _ _ tt tt)
switch-Lighter skip_type before at beyond wanted j =
    Lighter-if skip_type (before == b',') _ _ (omega arith) tt
switch-Lighter skip_spaces before at beyond wanted j =
    Lighter-if skip_spaces (at == b' ') _ _ tt
      (Lighter-if skip_spaces (at == b'*') _ _ tt (omega arith))

-- A round returns where the later rounds do.
round_returns :
    (s : MatchState) (x : Switched) (at_end before_end : Bool)
    (forth again : MatchState → ℕ → Option Bool)
    → Lighter s x
    → ((s' : MatchState) (j' : ℕ) → at_end ≡ false → (r : Bool) × (forth s' j' ≡ some r))
    → ((s' : MatchState) (j' : ℕ) → weight s' < weight s → (r : Bool) × (again s' j' ≡ some r))
    → (r : Bool) × (on_switched x at_end before_end forth again ≡ some r)
round_returns s matched at_end before_end forth again l f g = (true, refl)
round_returns s (kept s' j') true before_end forth again l f g = (false, refl)
round_returns s (kept s' j') false before_end forth again l f g = f s' j' refl
round_returns s (back s' j') at_end true forth again l f g = (false, refl)
round_returns s (back s' j') at_end false forth again l f g = g s' j' l

loop_returns :
    (bound fuel : ℕ) (media content : List ℕ) (s : MatchState) (i j : ℕ)
    → 0 < bound
    → length media ≤ bound
    → i ≤ bound
    → 3 * (bound - i) + weight s < fuel
    → (r : Bool) × (match_loop fuel media content s i j ≡ some r)
unfolding match_loop
loop_returns bound zero media content s i j some_place all h f = absurd (omega arith)
loop_returns bound (suc fuel) media content s i j some_place all h f =
    round_returns s _ (ended media i) (ended media (i - 1)) _ _ (switch-Lighter s _ _ _ _ j)
      (λ s' j' e.
        let inside = not_ended-inside bound media i some_place all e in
        loop_returns bound fuel media content s' (suc i) j' some_place all inside
          (omega (arith, weight-le s')))
      (λ s' j' l. loop_returns bound fuel media content s' i j' some_place all h (omega arith))

-- The loop returns, whatever the media types are and whatever stands behind them in their array,
-- with fuel for three rounds at each of the bytes of the array and two more, and for five at least.
pub media_type_match_returns :
    (fuel : ℕ) (media content : List ℕ)
    → 4 < fuel
    → 3 * length media + 1 < fuel
    → (r : Bool) × (media_type_match fuel media content ≡ some r)
unfolding media_type_match
media_type_match_returns fuel media content some_fuel f = elim (Bool-cases (length media == 0)) [
  | inl t ↦
      loop_returns 1 fuel media (without_spaces content) skip_spaces 0 0 (omega arith)
        (ground arith) (omega arith) (omega arith)
  | inr t ↦
      loop_returns (length media) fuel media (without_spaces content) skip_spaces 0 0 (ground arith)
        (omega arith) (omega arith) (omega arith)
]
