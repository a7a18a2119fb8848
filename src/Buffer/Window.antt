-- ===== src/Buffer/Window.antt =====
-- The bytes that a stretch of the ring holds, going round at its end.
use proxy_server_http.Base.{
  ℕ, zero, suc, ◌+◌, ◌-◌, ◌%◌, ◌≤◌, ◌<◌, ◌≡◌, refl, ap, ap₂, List, [], ◌∷◌, ◌++◌, arith, length,
  take, drop, ◌∙◌,
}
use proxy_server_http.Buffer.{buffer_size, next, update}

abbrev pub window : (ℕ → ℕ) → ℕ → ℕ → List ℕ
window cells h zero = []
window cells h (suc n) = cells h ∷ window cells (next h) n

pub next-lt : (h : ℕ) → h < buffer_size → next h < buffer_size
unfolding next
next-lt h p = ground arith

pub next-mod : (h : ℕ) → h < buffer_size → next h ≡ (h + 1) % buffer_size
unfolding next
next-mod h p = ground arith

pub length-window : (cells : ℕ → ℕ) (h n : ℕ) → length (window cells h n) ≡ n
length-window cells h zero = refl
length-window cells h (suc n) = ap suc (length-window cells (next h) n)

update_ne : (cells : ℕ → ℕ) (i x j : ℕ) → (i ≡ j → ⊥) → update cells i x j ≡ cells j
update_ne cells i x j ne = ground arith

update_self : (cells : ℕ → ℕ) (i x j : ℕ) → i ≡ j → update cells i x j ≡ x
update_self cells i x j e = ground arith

-- A byte stored just past a stretch extends it.
pub window-update :
    (cells : ℕ → ℕ) (x n h i : ℕ)
    → h < buffer_size
    → n < buffer_size
    → i ≡ (h + n) % buffer_size
    → window (update cells i x) h (suc n) ≡ window cells h n ++ (x ∷ [])
window-update cells x zero h i hh hn e = ap (λ y. y ∷ []) (update_self cells i x h (omega arith))
window-update cells x (suc n) h i hh hn e =
    ap₂ ◌∷◌ (update_ne cells i x h (λ p. omega arith)) (
      window-update cells x n (next h) i (next-lt h hh) (omega arith)
        (omega (arith, next-mod h hh)))

pub take-window : (cells : ℕ → ℕ) (k h n : ℕ) → k ≤ n → take k (window cells h n) ≡ window cells h k
take-window cells zero h n p = refl
take-window cells (suc k) h zero p = absurd (omega arith)
take-window cells (suc k) h (suc n) p =
    ap (◌∷◌ (cells h)) (take-window cells k (next h) n (omega arith))

-- `k` steps round the ring
abbrev pub advance : ℕ → ℕ → ℕ
advance h k = (h + k) % buffer_size

pub advance-next : (h k : ℕ) → h < buffer_size → advance (next h) k ≡ advance h (suc k)
advance-next h k p = omega (arith, next-mod h p)

pub drop-window :
    (cells : ℕ → ℕ) (k h n : ℕ)
    → h < buffer_size
    → k ≤ n
    → drop k (window cells h n) ≡ window cells (advance h k) (n - k)
drop-window cells zero h n hh p = ap₂ (window cells) (omega arith) (omega arith)
drop-window cells (suc k) h zero hh p = absurd (omega arith)
drop-window cells (suc k) h (suc n) hh p =
    drop-window cells k (next h) n (next-lt h hh) (omega arith)
    ∙ ap₂ (window cells) (advance-next h k hh) (omega arith)
