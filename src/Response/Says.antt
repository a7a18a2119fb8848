-- ===== src/Response/Says.antt =====
-- What a header says of the coding of its body.
use proxy_server_http.Base.{
  ℕ, ◌+◌, ◌==◌, ltb, take, length, ◌++◌, sym, arith, if◌then◌else◌, ◌≡◌, refl, ap, ◌∙◌, Bool, true,
  false, not, ◌||◌, ◌&&◌, List, [], ◌∷◌, drop, Bool-cases, inl, inr, Option, none, some, ℤ,
}
use proxy_server_http.Settings.{codes}
use proxy_server_http.Helpers.{trim, to_lower}
use proxy_server_http.Protocol.{c_string}
use proxy_server_http.Scan.{starts_nocase, scan_int}
use proxy_server_http.Response.{
  Facts, names, is_length_line, store_length, store_status, is_no_content, note_length, note_type,
  note_status, note_chunked, note_gzip, note_line, scan_status,
}
use proxy_server_http.Chunked.{is_unset}
use proxy_server_http.Response.Lines.{full, noted}
use proxy_server_http.Response.Header.{noted_length, noted_other}

-- Two texts byte by byte.
abbrev pub same_bytes : List ℕ → List ℕ → Bool
same_bytes [] [] = true
same_bytes [] (y ∷ ys) = false
same_bytes (x ∷ xs) [] = false
same_bytes (x ∷ xs) (y ∷ ys) = y == x && same_bytes xs ys

-- ASCII letters in small, whatever else as it is.
abbrev pub in_lower_case : List ℕ → List ℕ
in_lower_case [] = []
in_lower_case (c ∷ cs) = (if ltb 64 c && ltb c 91 then c + 32 else c) ∷ in_lower_case cs

-- The line, without the newlines at its end and in small letters, starts with these bytes.
abbrev pub starts_in_lower_case : List ℕ → List ℕ → Bool
starts_in_lower_case words text = same_bytes (take (length words) (in_lower_case text)) words

abbrev pub says_chunked : List ℕ → Bool
says_chunked line =
    let text = trim (c_string line) in
    starts_in_lower_case (codes "transfer-encoding: chunked") text
    || starts_in_lower_case (codes "transfer-encoding:chunked") text

abbrev pub says_gzip : List ℕ → Bool
says_gzip line =
    let text = trim (c_string line) in
    starts_in_lower_case (codes "content-encoding: gzip") text
    || starts_in_lower_case (codes "content-encoding:gzip") text

lower_is : (c : ℕ) → to_lower c ≡ (if ltb 64 c && ltb c 91 then c + 32 else c)
unfolding to_lower
lower_is c = ground arith

-- The comparison without regard to case is one of small letters.
starts_nocase-lower : (b s : List ℕ) → starts_nocase b s ≡ starts_in_lower_case (in_lower_case b) s
unfolding starts_nocase
starts_nocase-lower [] [] = refl
starts_nocase-lower [] (c ∷ cs) = refl
starts_nocase-lower (b ∷ bs) [] = refl
starts_nocase-lower (b ∷ bs) (c ∷ cs) =
    ap (λ t. to_lower b == to_lower c && t) (starts_nocase-lower bs cs)
    ∙ ap (λ x. (x == to_lower c) && starts_in_lower_case (in_lower_case bs) cs) (lower_is b)
    ∙ ap
        (λ x.
          ((if ltb 64 b && ltb b 91 then b + 32 else b) == x)
          && starts_in_lower_case (in_lower_case bs) cs)
        (lower_is c)

-- A prefix in two parts.
starts_nocase-append :
    (a b s : List ℕ)
    → starts_nocase (a ++ b) s ≡ (starts_nocase a s && starts_nocase b (drop (length a) s))
unfolding starts_nocase
starts_nocase-append [] b s = refl
starts_nocase-append (x ∷ a) b [] = refl
starts_nocase-append (x ∷ a) b (c ∷ s) = elim (Bool-cases (to_lower x == to_lower c)) [
  | inl t ↦ rw t (starts_nocase-append a b s)
  | inr t ↦ rw t refl
]

-- The code's test of a field and a word.
field_names :
    (field word text : List ℕ)
    → (starts_nocase field text && names word (drop (length field) text))
      ≡ starts_in_lower_case (in_lower_case (field ++ (b' ' ∷ word))) text
        || starts_in_lower_case (in_lower_case (field ++ word)) text
field_names field word text =
    and_or (starts_nocase field text) _ _
    ∙ ap (λ x. x || (starts_nocase field text && starts_nocase word (drop (length field) text)))
        (sym (starts_nocase-append field (b' ' ∷ word) text)
          ∙ starts_nocase-lower (field ++ (b' ' ∷ word)) text)
    ∙ ap (λ x. starts_in_lower_case (in_lower_case (field ++ (b' ' ∷ word))) text || x)
        (sym (starts_nocase-append field word text) ∙ starts_nocase-lower (field ++ word) text)
  where
    and_or : (a b c : Bool) → (a && (b || c)) ≡ (a && b) || (a && c)
    and_or true b c = refl
    and_or false b c = refl

chunked_says :
    (line : List ℕ)
    → (starts_nocase (codes "Transfer-Encoding:") (trim (c_string line))
        && names (codes "chunked") (drop 18 (trim (c_string line))))
      ≡ says_chunked line
chunked_says line =
    field_names (codes "Transfer-Encoding:") (codes "chunked") (trim (c_string line))

gzip_says :
    (line : List ℕ)
    → (starts_nocase (codes "Content-Encoding:") (trim (c_string line))
        && names (codes "gzip") (drop 17 (trim (c_string line))))
      ≡ says_gzip line
gzip_says line = field_names (codes "Content-Encoding:") (codes "gzip") (trim (c_string line))

-- One of the lines, but for those of a length, says so.
abbrev pub some_line : (List ℕ → Bool) → List (List ℕ) → Bool
some_line p [] = false
some_line p (u ∷ us) = (not (is_length_line (full u)) && p (full u)) || some_line p us

-- Nothing is changed of what is known of the coding.
abbrev SameCoding : Facts → Facts → Type 0
SameCoding g f = (g.parser.chunk_enabled ≡ f.parser.chunk_enabled) × (g.gzip ≡ f.gzip)

store_length-SameCoding : (o : Option (ℤ × List ℕ)) (f : Facts) → SameCoding (store_length o f) f
store_length-SameCoding none f = (refl, refl)
store_length-SameCoding (some (n, rest)) f = (refl, refl)

-- A line of a length says nothing of the coding.
note_length-SameCoding : (line : List ℕ) (f : Facts) → SameCoding (note_length line f) f
unfolding note_length
note_length-SameCoding line f = store_length-SameCoding (scan_int (drop 15 (c_string line))) f

note_type-SameCoding : (aux : List ℕ) (f : Facts) → SameCoding (note_type aux f) f
unfolding note_type
note_type-SameCoding aux f = elim (Bool-cases (starts_nocase (codes "Content-Type:") aux)) [
  | inl t ↦ rw t (refl, refl)
  | inr t ↦ rw t (refl, refl)
]

store_status-SameCoding : (o : Option (ℤ × List ℕ)) (f : Facts) → SameCoding (store_status o f) f
store_status-SameCoding none f = (refl, refl)
store_status-SameCoding (some (status, rest)) f = elim (Bool-cases (is_no_content status)) [
  | inl t ↦ rw t (refl, refl)
  | inr t ↦ rw t (refl, refl)
]

note_status-SameCoding : (aux : List ℕ) (f : Facts) → SameCoding (note_status aux f) f
unfolding note_status
note_status-SameCoding aux f = elim (Bool-cases (is_unset f.status_code)) [
  | inl t ↦ rw t (store_status-SameCoding (scan_status aux) f)
  | inr t ↦ rw t (refl, refl)
]

chunked_noted :
    (aux : List ℕ) (f : Facts)
    → ((note_chunked aux f).parser.chunk_enabled
        ≡ (starts_nocase (codes "Transfer-Encoding:") aux && names (codes "chunked") (drop 18 aux))
          || f.parser.chunk_enabled)
      × ((note_chunked aux f).gzip ≡ f.gzip)
unfolding note_chunked
chunked_noted aux f =
    elim (Bool-cases
      (starts_nocase (codes "Transfer-Encoding:") aux && names (codes "chunked") (drop 18 aux))) [
        | inl t ↦ rw t (refl, refl)
        | inr t ↦ rw t (refl, refl)
      ]

gzip_noted :
    (aux : List ℕ) (f : Facts)
    → ((note_gzip aux f).parser.chunk_enabled ≡ f.parser.chunk_enabled)
      × ((note_gzip aux f).gzip
          ≡ (starts_nocase (codes "Content-Encoding:") aux && names (codes "gzip") (drop 17 aux))
            || f.gzip)
unfolding note_gzip
gzip_noted aux f =
    elim (Bool-cases
      (starts_nocase (codes "Content-Encoding:") aux && names (codes "gzip") (drop 17 aux))) [
        | inl t ↦ rw t (refl, refl)
        | inr t ↦ rw t (refl, refl)
      ]

line_says :
    (line : List ℕ) (f : Facts)
    → ((note_line line f).parser.chunk_enabled ≡ says_chunked line || f.parser.chunk_enabled)
      × ((note_line line f).gzip ≡ says_gzip line || f.gzip)
unfolding note_line
line_says line f =
    let aux = trim (c_string line) in
    let f1 = note_type aux f in
    let f2 = note_status aux f1 in
    let f3 = note_chunked aux f2 in
    let same1 = note_type-SameCoding aux f in
    let same2 = note_status-SameCoding aux f1 in
    let c = chunked_noted aux f2 in
    let g = gzip_noted aux f3 in
    (
      g.0
          ∙ c.0
          ∙ ap (λ x. x || f2.parser.chunk_enabled) (chunked_says line)
          ∙ ap (λ x. says_chunked line || x) (same2.0 ∙ same1.0),
      g.1
          ∙ ap (λ x. x || f3.gzip) (gzip_says line)
          ∙ ap (λ x. says_gzip line || x) (c.1 ∙ same2.1 ∙ same1.1),
    )

or_swap : (a b c : Bool) → a || (b || c) ≡ (b || a) || c
or_swap true true c = refl
or_swap true false c = refl
or_swap false true c = refl
or_swap false false c = refl

-- Behind any lines of a header, chunks are enabled exactly where they were before or one of the
-- lines, those of a length left aside, starts in small letters with `transfer-encoding:chunked`, a
-- space behind the colon or not, the newlines at its end left out; and gzip is set exactly where it
-- was or one of them starts so with `content-encoding:gzip`.
pub noted-says :
    (lines : List (List ℕ)) (f : Facts)
    → ((noted lines f).parser.chunk_enabled
        ≡ some_line says_chunked lines || f.parser.chunk_enabled)
      × ((noted lines f).gzip ≡ some_line says_gzip lines || f.gzip)
noted-says [] f = (refl, refl)
noted-says (u ∷ us) f = elim (Bool-cases (is_length_line (full u))) [
  | inl t ↦
      let (c, g) = noted-says us (note_length (full u) f) in
      let (c', g') = note_length-SameCoding (full u) f in
      rw (noted_length u us f t, t)
        (
          c ∙ ap (λ x. some_line says_chunked us || x) c',
          g ∙ ap (λ x. some_line says_gzip us || x) g',
        )
  | inr t ↦
      let (c, g) = noted-says us (note_line (full u) f) in
      let (c', g') = line_says (full u) f in
      rw (noted_other u us f t, t)
        (
          c
              ∙ ap (λ x. some_line says_chunked us || x) c'
              ∙ or_swap (some_line says_chunked us) (says_chunked (full u)) f.parser.chunk_enabled,
          g
              ∙ ap (λ x. some_line says_gzip us || x) g'
              ∙ or_swap (some_line says_gzip us) (says_gzip (full u)) f.gzip,
        )
]
