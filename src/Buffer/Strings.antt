-- ===== src/Buffer/Strings.antt =====
-- A scan that meets a whole line.
use proxy_server_http.Base.{
  ℕ, zero, suc, ◌+◌, ◌<◌, ◌≡◌, refl, ap, ◌∙◌, List, [], ◌∷◌, ◌++◌, arith, length, take, drop, false,
  ◌==◌, pos, append_assoc, some,
}
use proxy_server_http.Buffer.{Buffer, buffer_count, peek_until, buffer_reset_peek_line}
use proxy_server_http.Buffer.Window.{advance}
use proxy_server_http.Buffer.Lines.{line_length}
use proxy_server_http.Buffer.Fifo.{contents}
use proxy_server_http.Buffer.Peek.{PeekAt, unscanned, peek_found, found-PeekAt}

-- The byte is nowhere in the list.
abbrev pub Avoids : ℕ → List ℕ → Type 0
Avoids d [] = Unit {0}
Avoids d (x ∷ xs) = ((x == d) ≡ false) × Avoids d xs

pub line_length-append :
    (d : ℕ) (u rest : List ℕ) → Avoids d u → line_length d (u ++ (d ∷ rest)) ≡ some (suc (length u))
unfolding line_length
line_length-append d [] rest h = ground arith
line_length-append d (x ∷ u) rest h = rw (h.0, line_length-append d u rest h.1)

pub take_line : (d : ℕ) (u rest : List ℕ) → take (suc (length u)) (u ++ (d ∷ rest)) ≡ u ++ (d ∷ [])
take_line d [] rest = refl
take_line d (x ∷ u) rest = ap (◌∷◌ x) (take_line d u rest)

pub drop_line : (d : ℕ) (u rest : List ℕ) → drop (suc (length u)) (u ++ (d ∷ rest)) ≡ rest
drop_line d [] rest = refl
drop_line d (x ∷ u) rest = drop_line d u rest

drop-drop : (m k : ℕ) (xs : List ℕ) → drop (m + k) xs ≡ drop k (drop m xs)
drop-drop zero k xs = ap (λ j. drop j xs) (omega arith)
drop-drop (suc m) zero [] = let e : suc m + 0 ≡ suc m = omega arith in rw e
drop-drop (suc m) (suc k) [] = let e : suc m + suc k ≡ suc (m + suc k) = omega arith in rw e
drop-drop (suc m) k (x ∷ xs) =
    let e : suc m + k ≡ suc (m + k) = omega arith in rw e (drop-drop m k xs)

pub contents_reset : (b : Buffer) → contents (buffer_reset_peek_line b) ≡ contents b
unfolding buffer_count buffer_reset_peek_line
contents_reset b = refl

pub contents-peek_line : (b : Buffer) (j : ℕ) → contents (record b { peek_line = j }) ≡ contents b
unfolding buffer_count
contents-peek_line b j = refl

-- The scan takes the line, and the next one starts at what follows it.
pub record Line (d size : ℕ) (b : Buffer) (m : ℕ) (u rest : List ℕ) : Type 0 where
  pub after : Buffer
  pub is : peek_until d b size ≡ (pos (suc (length u)), u ++ (d ∷ 0 ∷ []), after)
  pub at : PeekAt after (m + suc (length u))
  pub left : unscanned after (m + suc (length u)) ≡ rest
  pub same : contents after ≡ contents b

-- Where the bytes that are not yet scanned start with `u` and the delimiter, `u` has no delimiter
-- and fewer than `size` bytes, the scan returns the length of both, stores both and a null byte,
-- leaves the contents alone, and the next scan starts at what follows.
pub peek_line_lem :
    {b : Buffer} {m : ℕ} (d size : ℕ) (u rest : List ℕ)
    → PeekAt b m
    → unscanned b m ≡ u ++ (d ∷ rest)
    → Avoids d u
    → length u < size
    → Line d size b m u rest
peek_line_lem {b} {m} d size u rest p e h l =
    let k = suc (length u) in
    let line : line_length d (unscanned b m) ≡ some k = rw e (line_length-append d u rest h) in
    record {
      after = record b { peek_line = advance b.peek_line k };
      is =
          peek_found p d size k line l
          ∙ rw (e, take_line d u rest, append_assoc u (d ∷ []) (0 ∷ []));
      at = found-PeekAt d k p line;
      left =
          rw (contents-peek_line b (advance b.peek_line k), drop-drop m k (contents b), e)
            (drop_line d u rest);
      same = contents-peek_line b (advance b.peek_line k);
    }
