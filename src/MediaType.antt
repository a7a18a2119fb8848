-- ===== src/MediaType.antt =====
-- `media_type_match` of bin/proxyTransformation.c: whether a content type is among the media types
-- that are set. The content type is the list of the bytes before its null byte. The media types are
-- the bytes of their array, with the null byte of their text and what stands behind it: where the
-- text is empty, the loop passes over that null byte. `byte_at` gives 0 behind the last byte.
pub mod Returns
pub mod Exact
use proxy_server_http.Base.{
  ℕ, zero, suc, ◌+◌, ◌-◌, ◌==◌, ltb, leb, if◌then◌else◌, Bool, true, false, ◌||◌, ◌&&◌, List, [],
  ◌∷◌, Option, none, some,
}
use proxy_server_http.Protocol.{byte_at}

-- `media_type_match_states`
pub data MatchState : Type 0 where
  match_type match_subtype skip_type skip_spaces : MatchState

-- How the `switch` ends: with `return 1`, at the same `i`, or at one less, with the new state and `j`.
pub data Switched : Type 0 where
  matched : Switched
  kept back : MatchState → ℕ → Switched

abbrev pub without_spaces : List ℕ → List ℕ
without_spaces [] = []
without_spaces (c ∷ cs) = if c == b' ' then without_spaces cs else c ∷ cs

-- The bytes that end a content type, and those that end an entry.
abbrev pub ends_content : ℕ → Bool
ends_content c = c == b';' || (c == b' ' || c == 0)

abbrev pub ends_entry : ℕ → Bool
ends_entry c = c == b',' || ends_content c

-- The `switch`, with `at` and `beyond` for `media_types[i]` and the byte behind it, `before` for the
-- byte in front of it and `wanted` for `content_type[j]`.
unfoldable pub switch : MatchState → ℕ → ℕ → ℕ → ℕ → ℕ → Switched
switch match_type before at beyond wanted j =
    if at == wanted
    then (if at == b'/'
        then (if beyond == b'*' then matched else kept match_subtype (suc j))
        else kept match_type (suc j))
    else kept skip_type j
switch match_subtype before at beyond wanted j =
    if ends_entry at
    then (if ends_content wanted then matched else kept skip_type j)
    else if at == wanted
    then kept match_subtype (suc j)
    else kept skip_type j
switch skip_type before at beyond wanted j =
    if before == b',' then back skip_spaces j else kept skip_type j
switch skip_spaces before at beyond wanted j =
    if at == b' ' then kept skip_spaces j else if at == b'*' then matched else back match_type 0

-- `media_types[i] == '\0' && i > 0`
abbrev pub ended : List ℕ → ℕ → Bool
ended media i = byte_at i media == 0 && ltb 0 i

-- What follows the `switch`: the test, and `i++`. Behind an `i--` the test is on one less, which is
-- -1 at the start, and is false there.
abbrev pub on_switched :
    Switched
    → Bool
    → Bool
    → (MatchState → ℕ → Option Bool)
    → (MatchState → ℕ → Option Bool)
    → Option Bool
on_switched matched at_end before_end forth again = some true
on_switched (kept s j) at_end before_end forth again = if at_end then some false else forth s j
on_switched (back s j) at_end before_end forth again = if before_end then some false else again s j

-- `for (i = 0;; i++)`; `none` means that the fuel ran out.
unfoldable pub match_loop : ℕ → List ℕ → List ℕ → MatchState → ℕ → ℕ → Option Bool
unfolding switch
match_loop zero media content s i j = none
match_loop (suc fuel) media content s i j =
    on_switched
      (switch s (byte_at (i - 1) media) (byte_at i media) (byte_at (suc i) media)
        (byte_at j content) j)
      (ended media i) (ended media (i - 1)) (λ s' j'. match_loop fuel media content s' (suc i) j')
      (λ s' j'. match_loop fuel media content s' i j')

unfoldable pub media_type_match : ℕ → List ℕ → List ℕ → Option Bool
unfolding match_loop
media_type_match fuel media content = match_loop fuel media (without_spaces content) skip_spaces 0 0
