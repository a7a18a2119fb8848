-- ===== src/MediaType/Exact.antt =====
-- `media_type_match` on a content type that is the first of the media types.
use proxy_server_http.Base.{
  ℕ, zero, suc, ◌+◌, ◌<◌, ◌≡◌, refl, ap, arith, true, false, ◌==◌, List, [], ◌∷◌, ◌++◌, length,
  some, Bool-cases, inl, inr, ==_iff,
}
use proxy_server_http.Protocol.{byte_at}
use proxy_server_http.MediaType.{
  match_type, match_subtype, switch, ended, match_loop, media_type_match, without_spaces,
  ends_entry, ends_content,
}

-- From the index `i` on, a text has the bytes of another.
abbrev Suffix : ℕ → List ℕ → List ℕ → Type 0
Suffix i text xs = (k : ℕ) → byte_at (i + k) text ≡ byte_at k xs

Suffix-here : (i : ℕ) (text xs : List ℕ) → Suffix i text xs → byte_at i text ≡ byte_at 0 xs
Suffix-here i text xs h = let z : i + 0 ≡ i = omega arith in rw z at (h 0)

Suffix-later : (i c : ℕ) (text xs : List ℕ) → Suffix i text (c ∷ xs) → Suffix (suc i) text xs
Suffix-later i c text xs h k = let z : i + suc k ≡ suc i + k = omega arith in rw z at (h (suc k))

-- Bytes of a type, and bytes of a subtype.
abbrev pub IsType : List ℕ → Type 0
IsType [] = Unit
IsType (c ∷ cs) = ((c == 0) ≡ false) × ((c == b'/') ≡ false) × IsType cs

abbrev pub IsSubtype : List ℕ → Type 0
IsSubtype [] = Unit
IsSubtype (c ∷ cs) = (ends_entry c ≡ false) × IsSubtype cs

not_ended :
    (media : List ℕ) (i c : ℕ) → byte_at i media ≡ c → (c == 0) ≡ false → ended media i ≡ false
not_ended media i c e h = rw (e, h)

subtype_run :
    (fuel : ℕ) (s rest crest media content : List ℕ) (i j : ℕ)
    → length s < fuel
    → IsSubtype s
    → ends_entry (byte_at 0 rest) ≡ true
    → ends_content (byte_at 0 crest) ≡ true
    → Suffix i media (s ++ rest)
    → Suffix j content (s ++ crest)
    → match_loop fuel media content match_subtype i j ≡ some true
unfolding match_loop switch
subtype_run zero s rest crest media content i j f h e e' m c = absurd (omega arith)
subtype_run (suc fuel) [] rest crest media content i j f h e e' m c =
    rw (Suffix-here i media rest m, Suffix-here j content crest c, e, e')
subtype_run (suc fuel) (x ∷ s) rest crest media content i j f h e e' m c =
    let at = Suffix-here i media (x ∷ s ++ rest) m in
    let wanted = Suffix-here j content (x ∷ s ++ crest) c in
    let later =
      subtype_run fuel s rest crest media content (suc i) (suc j) (omega arith) h.1 e e'
        (Suffix-later i x media (s ++ rest) m) (Suffix-later j x content (s ++ crest) c) in
    let same : (x == x) ≡ true = (==_iff x x).1 refl in
    let inside : ended media i ≡ false = not_ended media i x at (ground (arith, h.0)) in
    rw (inside, at, wanted, h.0, same) later

-- A subtype behind the slash.
type_run :
    (fuel : ℕ) (t s rest crest media content : List ℕ) (i j : ℕ)
    → length t + length s + 1 < fuel
    → IsType t
    → IsSubtype s
    → ends_entry (byte_at 0 rest) ≡ true
    → ends_content (byte_at 0 crest) ≡ true
    → Suffix i media (t ++ (b'/' ∷ (s ++ rest)))
    → Suffix j content (t ++ (b'/' ∷ (s ++ crest)))
    → match_loop fuel media content match_type i j ≡ some true
unfolding match_loop switch
type_run zero t s rest crest media content i j f ht hs e e' m c = absurd (omega arith)
type_run (suc fuel) [] s rest crest media content i j f ht hs e e' m c =
    let at = Suffix-here i media (b'/' ∷ (s ++ rest)) m in
    let wanted = Suffix-here j content (b'/' ∷ (s ++ crest)) c in
    let later =
      subtype_run fuel s rest crest media content (suc i) (suc j) (omega arith) hs e e'
        (Suffix-later i b'/' media (s ++ rest) m) (Suffix-later j b'/' content (s ++ crest) c) in
    let inside : ended media i ≡ false = not_ended media i b'/' at refl in
    elim (Bool-cases (byte_at (suc i) media == b'*')) [
      | inl star ↦ rw (inside, at, wanted, star)
      | inr plain ↦ rw (inside, at, wanted, plain) later
    ]
type_run (suc fuel) (x ∷ t) s rest crest media content i j f ht hs e e' m c =
    let ms = t ++ (b'/' ∷ (s ++ rest)) in
    let cs = t ++ (b'/' ∷ (s ++ crest)) in
    let at = Suffix-here i media (x ∷ ms) m in
    let wanted = Suffix-here j content (x ∷ cs) c in
    let later =
      type_run fuel t s rest crest media content (suc i) (suc j) (omega arith) ht.2 hs e e'
        (Suffix-later i x media ms m) (Suffix-later j x content cs c) in
    let same : (x == x) ≡ true = (==_iff x x).1 refl in
    let inside : ended media i ≡ false = not_ended media i x at ht.0 in
    rw (inside, at, wanted, same, ht.1) later

head-append : (t ys : List ℕ) → byte_at 0 (t ++ (b'/' ∷ ys)) ≡ byte_at 0 (t ++ (b'/' ∷ []))
head-append [] ys = refl
head-append (x ∷ t) ys = refl

no_spaces :
    (t ys : List ℕ)
    → (byte_at 0 (t ++ (b'/' ∷ [])) == b' ') ≡ false
    → without_spaces (t ++ (b'/' ∷ ys)) ≡ t ++ (b'/' ∷ ys)
no_spaces [] ys h = refl
no_spaces (x ∷ t) ys h = rw h

ended_start : (media : List ℕ) → ended media 0 ≡ false
ended_start media = ground arith

-- A type is bytes other than the null byte and the slash, and a subtype is bytes that do not end an
-- entry. Where the media types start with a type, a slash and a subtype, no space in front, and the
-- entry ends there, and the content type starts with the same bytes and ends there or goes on with
-- a semicolon or a space, the content type matches, with more fuel than two rounds and the bytes of
-- the type and the subtype.
pub media_type_match_first :
    (fuel : ℕ) (t s rest crest : List ℕ)
    → length t + length s + 2 < fuel
    → IsType t
    → IsSubtype s
    → (byte_at 0 (t ++ (b'/' ∷ [])) == b' ') ≡ false
    → ends_entry (byte_at 0 rest) ≡ true
    → ends_content (byte_at 0 crest) ≡ true
    → media_type_match fuel (t ++ (b'/' ∷ (s ++ rest))) (t ++ (b'/' ∷ (s ++ crest))) ≡ some true
unfolding media_type_match match_loop switch
media_type_match_first zero t s rest crest f ht hs first e e' = absurd (omega arith)
media_type_match_first (suc fuel) t s rest crest f ht hs first e e' =
    let media = t ++ (b'/' ∷ (s ++ rest)) in
    let content = t ++ (b'/' ∷ (s ++ crest)) in
    let later =
      type_run fuel t s rest crest media content 0 0 (omega arith) ht hs e e'
        (λ k. ap (λ n. byte_at n media) (omega arith))
        (λ k. ap (λ n. byte_at n content) (omega arith)) in
    let space : (byte_at 0 media == b' ') ≡ false = rw (head-append t (s ++ rest)) first in
    elim (Bool-cases (byte_at 0 media == b'*')) [
      | inl star ↦ rw (space, star)
      | inr plain ↦ rw (space, plain, ended_start media, no_spaces t (s ++ crest) first) later
    ]
