-- ===== src/Helpers.antt =====
-- `trim` and `lineToLowerCase` of bin/helpers.c, on the bytes of a C string.
use proxy_server_http.Base.{ℕ, ◌+◌, ◌==◌, leb, if◌then◌else◌, Bool, ◌&&◌, ◌||◌, List, [], ◌∷◌}

abbrev pub is_newline : ℕ → Bool
is_newline c = c == b'\n' || c == b'\r'

abbrev pub cons_unless_trimmed : ℕ → List ℕ → List ℕ
cons_unless_trimmed c [] = if is_newline c then [] else c ∷ []
cons_unless_trimmed c (d ∷ ds) = c ∷ d ∷ ds

-- The loop goes on to `line[-1]` where a line has nothing but newlines; the model stops there.
unfoldable pub trim : List ℕ → List ℕ
trim [] = []
trim (c ∷ cs) = cons_unless_trimmed c (trim cs)

-- `tolower`, in the C locale
unfoldable pub to_lower : ℕ → ℕ
to_lower c = if leb b'A' c && leb c b'Z' then c + 32 else c

unfoldable pub line_to_lower_case : List ℕ → List ℕ
unfolding to_lower
line_to_lower_case [] = []
line_to_lower_case (c ∷ cs) = to_lower c ∷ line_to_lower_case cs
