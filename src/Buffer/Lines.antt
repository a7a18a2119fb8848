-- ===== src/Buffer/Lines.antt =====
-- The scans for a newline and for a null byte, against a search through a list.
use proxy_server_http.Base.{
  ℕ, zero, suc, ◌+◌, ◌≤◌, ◌<◌, ◌≡◌, refl, List, [], ◌∷◌, ◌++◌, arith, ◌==◌, if◌then◌else◌, Bool,
  true, false, inl, inr, take, pos, negsuc, Option, none, some, ◌⊎◌,
}
use proxy_server_http.Buffer.{Buffer, buffer_size, next, scan_loop}
use proxy_server_http.Buffer.Window.{window, next-lt, next-mod, advance, advance-next}
use proxy_server_http.Buffer.Fifo.{IsValid}

abbrev pub bump : Option ℕ → Option ℕ
bump none = none
bump (some n) = some (suc n)

-- How many bytes of a list its first line has, the delimiter counted.
unfoldable pub line_length : ℕ → List ℕ → Option ℕ
line_length delimiter [] = none
line_length delimiter (x ∷ xs) = if x == delimiter then some 1 else bump (line_length delimiter xs)

abbrev pub LineStart : ℕ → ℕ → List ℕ → ℕ → Type 0
LineStart d x xs k =
    (((x == d) ≡ true) × (k ≡ 1))
    ⊎ ((j : ℕ) × ((x == d) ≡ false) × (k ≡ suc j) × (line_length d xs ≡ some j))

pub line_length-some :
    (d x : ℕ) (xs : List ℕ) (k : ℕ) → line_length d (x ∷ xs) ≡ some k → LineStart d x xs k
unfolding line_length
line_length-some d x xs k e = go (x == d) (line_length d xs) refl refl (ground arith)
  where
    go :
        (t : Bool) (o : Option ℕ)
        → (x == d) ≡ t
        → line_length d xs ≡ o
        → (if t then some 1 else bump o) ≡ some k
        → LineStart d x xs k
    go true o p q r = inl (p, ground arith)
    go false none p q r = absurd (cc)
    go false (some j) p q r = inr (j, p, ground arith, q)

pub line_length-none :
    (d x : ℕ) (xs : List ℕ)
    → line_length d (x ∷ xs) ≡ none
    → ((x == d) ≡ false) × (line_length d xs ≡ none)
unfolding line_length
line_length-none d x xs e = go (x == d) (line_length d xs) refl refl (ground arith)
  where
    go :
        (t : Bool) (o : Option ℕ)
        → (x == d) ≡ t
        → line_length d xs ≡ o
        → (if t then some 1 else bump o) ≡ none
        → ((x == d) ≡ false) × (line_length d xs ≡ none)
    go true o p q r = absurd (cc)
    go false none p q r = (p, q)
    go false (some j) p q r = absurd (cc)

module _ (d : ℕ) (b : Buffer) (v : IsValid b) (start : ℕ) where
  -- `aux` stands `n` bytes before the writing position
  abbrev pub Ahead : ℕ → ℕ → Type 0
  Ahead aux n = (aux < buffer_size) × (n < buffer_size) × (b.write ≡ advance aux n)

  Ahead-next : (aux n : ℕ) → Ahead aux (suc n) → Ahead (next aux) n
  Ahead-next aux n h = (next-lt aux h.0, omega arith, omega (arith, next-mod aux h.0))

  Ahead-end : (aux n : ℕ) → Ahead aux n → n ≡ 0 → (aux == b.write) ≡ true
  Ahead-end aux n h e = ground arith

  Ahead-more : (aux n : ℕ) → Ahead aux (suc n) → (aux == b.write) ≡ false
  Ahead-more aux n h = ground arith

  pub scan_found :
      (room i aux n k : ℕ)
      → Ahead aux n
      → line_length d (window b.cells aux n) ≡ some k
      → k ≤ room
      → scan_loop d room i b start aux ≡ record {
        ret = pos (i + k);
        dest = take k (window b.cells aux n) ++ (0 ∷ []);
        aux = advance aux k;
      }
  unfolding scan_loop
  scan_found room i aux zero k h e p = absurd (unfold line_length in cc)
  scan_found zero i aux (suc n) k h e p =
      elim (line_length-some d (b.cells aux) (window b.cells (next aux) n) k e) [
        | inl (t, q) ↦ absurd (omega arith)
        | inr (j, t, q, r) ↦ absurd (omega arith)
      ]
  scan_found (suc room) i aux (suc n) k h e p =
      elim (line_length-some d (b.cells aux) (window b.cells (next aux) n) k e) [
        | inl (t, q) ↦
            rw (Ahead-more aux n h, t, q)
              (λ l. record {
                ret = pos (i + 1);
                dest = b.cells aux ∷ 0 ∷ [];
                aux = next-mod aux h.0 l;
              })
        | inr (j, t, q, r) ↦
            rw
              (
                Ahead-more aux n h,
                t,
                q,
                scan_found room (i + 1) (next aux) n j (Ahead-next aux n h) r (omega arith),
              )
              (λ l. record {
                ret = pos (let e : i + 1 + j ≡ i + suc j = omega arith in e l);
                dest = b.cells aux ∷ (take j (window b.cells (next aux) n) ++ (0 ∷ []));
                aux = advance-next aux j h.0 l;
              })
      ]

  pub scan_unfinished :
      (room i aux n : ℕ)
      → Ahead aux n
      → line_length d (window b.cells aux n) ≡ none
      → n ≤ room
      → scan_loop d room i b start aux
        ≡ record { ret = pos 0; dest = window b.cells aux n; aux = start }
  unfolding scan_loop
  scan_unfinished zero i aux zero h e p = rw (Ahead-end aux 0 h refl)
  scan_unfinished (suc room) i aux zero h e p = rw (Ahead-end aux 0 h refl)
  scan_unfinished zero i aux (suc n) h e p = absurd (omega arith)
  scan_unfinished (suc room) i aux (suc n) h e p =
      let (t, r) = line_length-none d (b.cells aux) (window b.cells (next aux) n) e in
      rw (
        Ahead-more aux n h,
        t,
        scan_unfinished room (i + 1) (next aux) n (Ahead-next aux n h) r (omega arith),
      )

  pub scan_too_long :
      (room i aux n : ℕ)
      → Ahead aux n
      → line_length d (window b.cells aux room) ≡ none
      → room < n
      → scan_loop d room i b start aux
        ≡ record { ret = negsuc 0; dest = window b.cells aux room; aux = start }
  unfolding scan_loop
  scan_too_long room i aux zero h e p = absurd (omega arith)
  scan_too_long zero i aux (suc n) h e p = rw (Ahead-more aux n h)
  scan_too_long (suc room) i aux (suc n) h e p =
      let (t, r) = line_length-none d (b.cells aux) (window b.cells (next aux) room) e in
      rw (
        Ahead-more aux n h,
        t,
        scan_too_long room (i + 1) (next aux) n (Ahead-next aux n h) r (omega arith),
      )
