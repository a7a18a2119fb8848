-- ===== src/Scan/Spans.antt =====
-- The text in front of a byte that stops.
use proxy_server_http.Base.{ℕ, ◌≡◌, refl, Bool, true, false, List, [], ◌∷◌, ◌++◌, some}
use proxy_server_http.Scan.{span, scan_until}

-- No byte stops.
abbrev pub Without : (ℕ → Bool) → List ℕ → Type 0
Without stop [] = Unit
Without stop (c ∷ cs) = (stop c ≡ false) × Without stop cs

-- Nothing follows, or a byte that stops.
abbrev pub Stops : (ℕ → Bool) → List ℕ → Type 0
Stops stop [] = Unit
Stops stop (c ∷ cs) = stop c ≡ true

pub span-append :
    (stop : ℕ → Bool) (u rest : List ℕ)
    → Without stop u
    → Stops stop rest
    → span stop (u ++ rest) ≡ (u, rest)
unfolding span
span-append stop [] [] h e = refl
span-append stop [] (c ∷ rest) h e = rw e
span-append stop (c ∷ u) rest h e = rw (h.0, span-append stop u rest h.1 e)

pub scan_until-append :
    (stop : ℕ → Bool) (c : ℕ) (u rest : List ℕ)
    → Without stop (c ∷ u)
    → Stops stop rest
    → scan_until stop (c ∷ u ++ rest) ≡ some (c ∷ u, rest)
unfolding scan_until
scan_until-append stop c u rest h e = rw (span-append stop (c ∷ u) rest h e)

pub Without-append :
    (stop : ℕ → Bool) (xs ys : List ℕ) → Without stop xs → Without stop ys → Without stop (xs ++ ys)
Without-append stop [] ys hx hy = hy
Without-append stop (x ∷ xs) ys hx hy = (hx.0, Without-append stop xs ys hx.1 hy)

pub Without-weaken :
    (stop stop' : ℕ → Bool) (xs : List ℕ)
    → ((c : ℕ) → stop c ≡ false → stop' c ≡ false)
    → Without stop xs
    → Without stop' xs
Without-weaken stop stop' [] f h = tt
Without-weaken stop stop' (x ∷ xs) f h = (f x h.0, Without-weaken stop stop' xs f h.1)
