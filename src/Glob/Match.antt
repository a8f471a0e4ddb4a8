-- ===== src/Glob/Match.antt =====
-- `path.Match` of the standard library over code points: a pattern is cut at its stars into chunks,
-- and each chunk is tried where it stands, then after each further character up to a slash. The library retries a star at each byte of the name:
-- on names of ASCII this is the same.
use nockguard.Base.{
  ℕ, Bool, true, false, not, ◌&&◌, ◌||◌, Option, none, some, List, [], ◌∷◌, leb, ◌==◌,
  if◌then◌else◌, Text, contains_char, is_nonempty,
}

-- Where the scan of a chunk stands. In a class: the character under test, whether a range has
-- matched it, and whether the class is negated.
pub data Mode : Type 0 where
  plain : Mode
  escaped : Mode
  class_open : ℕ → Mode
  range_start : Bool → ℕ → Bool → Bool → Mode
  low_escaped : ℕ → Bool → Bool → Mode
  after_low : ℕ → ℕ → Bool → Bool → Mode
  high_start : ℕ → ℕ → Bool → Bool → Mode
  high_escaped : ℕ → ℕ → Bool → Bool → Mode

-- The name that is left, or `none` once the match has failed: the rest of the chunk is still read.
abbrev pub Left : Type 0
Left = Option Text

-- A chunk with characters left needs a character of the name.
abbrev pub need_char : Left → Left
need_char none = none
need_char (some []) = none
need_char (some (x ∷ t)) = some (x ∷ t)

abbrev pub eat_literal : ℕ → Left → Left
eat_literal c none = none
eat_literal c (some []) = none
eat_literal c (some (x ∷ t)) = if x == c then some t else none

abbrev pub eat_any : Left → Left
eat_any none = none
eat_any (some []) = none
eat_any (some (x ∷ t)) = if x == b'/' then none else some t

abbrev pub first_char : Left → ℕ
first_char none = 0
first_char (some []) = 0
first_char (some (x ∷ t)) = x

abbrev pub drop_char : Left → Left
drop_char none = none
drop_char (some []) = none
drop_char (some (x ∷ t)) = some t

-- `]` closes a class: the match fails where its answer is the negated one.
abbrev pub close_class : Bool → Bool → Left → Left
close_class hit negated s = if hit then if negated then none else s else if negated then s else none

unfoldable pub step_plain : Left → ℕ → Option (Mode × Left)
step_plain s c =
    if c == b'['
    then some (class_open (first_char s), drop_char s)
    else if c == b'?'
    then some (plain, eat_any s)
    else if c == 92
    then some (escaped, s)
    else some (plain, eat_literal c s)

-- At the start of a range. `ranged` says that the class has a range already.
unfoldable pub step_range : Bool → ℕ → Bool → Bool → Left → ℕ → Option (Mode × Left)
step_range ranged r hit negated s c =
    if ranged && c == b']'
    then some (plain, close_class hit negated s)
    else if c == b'-' || c == b']'
    then none
    else if c == 92
    then some (low_escaped r hit negated, s)
    else some (after_low c r hit negated, s)

unfoldable pub step : Mode → Left → ℕ → Option (Mode × Left)
unfolding step_plain step_range
step plain s c = step_plain (need_char s) c
step escaped s c = some (plain, eat_literal c s)
step (class_open r) s c =
    if c == b'^'
    then some (range_start false r false true, s)
    else step_range false r false false s c
step (range_start ranged r hit negated) s c = step_range ranged r hit negated s c
step (low_escaped r hit negated) s c = some (after_low c r hit negated, s)
step (after_low low r hit negated) s c =
    if c == b'-'
    then some (high_start low r hit negated, s)
    else step_range true r (hit || r == low) negated s c
step (high_start low r hit negated) s c =
    if c == b'-' || c == b']'
    then none
    else if c == 92
    then some (high_escaped low r hit negated, s)
    else some (range_start true r (hit || (leb low r && leb r c)) negated, s)
step (high_escaped low r hit negated) s c =
    some (range_start true r (hit || (leb low r && leb r c)) negated, s)

-- What a chunk makes of a name: `hit` holds the rest of the name.
pub data ChunkResult : Type 0 where
  bad : ChunkResult
  miss : ChunkResult
  hit : Text → ChunkResult

abbrev pub finish : Mode → Left → ChunkResult
finish plain none = miss
finish plain (some t) = hit t
finish _ _ = bad

-- `matchChunk`
unfoldable pub scan : Mode → Left → Text → ChunkResult
scan m s [] = finish m s
scan m s (c ∷ cs) = elim (step m s c) [ none ↦ bad | some (m', s') ↦ scan m' s' cs ]

abbrev pub match_chunk : Text → Text → ChunkResult
match_chunk chunk name = scan plain (some name) chunk

-- The text before the first free star, and the texts between and after the stars.
unfoldable pub split : Bool → Bool → Text → Text × List Text
split quoted in_class [] = ([], [])
split quoted in_class (c ∷ cs) =
    let free = not quoted && not in_class in
    let quoted' = not quoted && c == 92 in
    let in_class' =
      if quoted
      then in_class
      else if c == b'['
      then true
      else if c == b']'
      then false
      else in_class in
    let (first, more) = split quoted' in_class' cs in
    if free && c == b'*' then ([], first ∷ more) else (c ∷ first, more)

-- A run of stars is one star.
unfoldable pub join_stars : List Text → List Text
join_stars [] = []
join_stars (t ∷ []) = t ∷ []
join_stars ([] ∷ u ∷ us) = join_stars (u ∷ us)
join_stars ((c ∷ t) ∷ u ∷ us) = (c ∷ t) ∷ join_stars (u ∷ us)

abbrev pub starred : List Text → List (Bool × Text)
starred [] = []
starred (t ∷ ts) = (true, t) ∷ starred ts

abbrev pub head_chunk : Text → List (Bool × Text) → List (Bool × Text)
head_chunk [] rest = rest
head_chunk (c ∷ cs) rest = (false, c ∷ cs) ∷ rest

-- The chunks of a pattern as `scanChunk` yields them, each with whether a star stands before it.
unfoldable pub chunks : Text → List (Bool × Text)
unfolding split join_stars
chunks pattern =
    let (first, more) = split false false pattern in head_chunk first (starred (join_stars more))

-- The last chunk has to use up the name.
abbrev pub fits : Bool → Text → Bool
fits last [] = true
fits last (x ∷ t) = not last

-- Tries the chunk after one more character, and again, up to a slash.
unfoldable pub skip : Bool → Text → Text → ChunkResult
skip last chunk [] = miss
skip last chunk (x ∷ name) =
    let further = skip last chunk name in
    if x == b'/' then miss else elim (match_chunk chunk name) [
      | bad ↦ bad
      | miss ↦ further
      | hit t ↦ if fits last t then hit t else further
    ]

unfoldable pub place : Bool → Bool → Text → Text → ChunkResult
place last star chunk name = elim (match_chunk chunk name) [
  | bad ↦ bad
  | miss ↦ if star then skip last chunk name else miss
  | hit t ↦ if fits last t then hit t else if star then skip last chunk name else miss
]

-- The chunks that are left are still checked after a mismatch.
unfoldable pub check_rest : List (Bool × Text) → Option Bool
check_rest [] = some false
check_rest ((star, chunk) ∷ rest) = elim (scan plain (some []) chunk) [
  | bad ↦ none
  | _ ↦ check_rest rest
]

unfoldable pub match_chunks : List (Bool × Text) → Text → Option Bool
unfolding skip place scan step check_rest contains_char
match_chunks [] name = some (not (is_nonempty name))
match_chunks ((star, chunk) ∷ rest) name =
    if star && not (is_nonempty chunk) && not (is_nonempty rest)
    then some (not (contains_char b'/' name))
    else elim (place (not (is_nonempty rest)) star chunk name) [
      | bad ↦ none
      | miss ↦ check_rest rest
      | hit t ↦ match_chunks rest t
    ]

unfoldable pub path_match : Text → Text → Option Bool
unfolding match_chunks chunks
path_match pattern name = match_chunks (chunks pattern) name
