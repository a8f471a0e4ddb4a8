-- ===== src/Glob/Syntax.antt =====
-- Whether a pattern is malformed does not depend on the name.
use nockguard.Base.{
  ℕ, Bool, true, false, not, ◌||◌, Option, none, some, List, [], ◌∷◌, ◌≡◌, ◌≢◌, refl, sym, ◌∙◌, ap,
  Text, is_nonempty, arith,
}
use nockguard.Glob.Match.{
  Mode, plain, escaped, class_open, range_start, low_escaped, after_low, high_start, high_escaped,
  Left, ChunkResult, bad, miss, hit, finish, step, step_range, scan, match_chunk, skip, place,
  check_rest, match_chunks, chunks, path_match,
}

-- The part of a mode that the syntax check depends on.
shape : Mode → Mode
shape plain = plain
shape escaped = escaped
shape (class_open r) = class_open 0
shape (range_start ranged r h n) = range_start ranged 0 false false
shape (low_escaped r h n) = low_escaped 0 false false
shape (after_low low r h n) = after_low 0 0 false false
shape (high_start low r h n) = high_start 0 0 false false
shape (high_escaped low r h n) = high_escaped 0 0 false false

abbrev SameStep : Option (Mode × Left) → Option (Mode × Left) → Type 0
SameStep none none = Unit
SameStep none (some q) = ⊥
SameStep (some p) none = ⊥
SameStep (some p) (some q) = shape p.0 ≡ shape q.0

step_range-shape :
    (ranged : Bool) (r : ℕ) (h n : Bool) (s : Left) (c : ℕ)
    → SameStep (step_range ranged r h n s c) (step_range ranged 0 false false none c)
unfolding step_range shape
step_range-shape ranged r h n s c = ground arith

step-shape : (m : Mode) (s : Left) (c : ℕ) → SameStep (step m s c) (step (shape m) none c)
unfolding step shape
step-shape plain s c = ground arith
step-shape escaped s c = ground arith
step-shape (class_open r) s c = ground arith
step-shape (range_start ranged r h n) s c = step_range-shape ranged r h n s c
step-shape (low_escaped r h n) s c = ground arith
step-shape (after_low low r h n) s c = ground arith
step-shape (high_start low r h n) s c = ground arith
step-shape (high_escaped low r h n) s c = ground arith

abbrev is_bad : ChunkResult → Bool
is_bad bad = true
is_bad miss = false
is_bad (hit t) = false

-- A chunk is malformed if the scan of it fails on its syntax.
malformed_chunk : Text → Bool
malformed_chunk chunk = is_bad (scan plain none chunk)

finish-shape : (m : Mode) (s : Left) → is_bad (finish m s) ≡ is_bad (finish (shape m) none)
unfolding shape
finish-shape plain none = refl
finish-shape plain (some t) = refl
finish-shape _ s = refl

scan-shape :
    (cs : Text) (m : Mode) (s : Left) → is_bad (scan m s cs) ≡ is_bad (scan (shape m) none cs)
unfolding scan
scan-shape [] m s = finish-shape m s
scan-shape (c ∷ cs) m s = go (step m s c) (step (shape m) none c) (step-shape m s c) (scan-shape cs)
  where
    go :
        (p q : Option (Mode × Left))
        → SameStep p q
        → ((m' : Mode) (s' : Left) → is_bad (scan m' s' cs) ≡ is_bad (scan (shape m') none cs))
        → is_bad (elim p [ none ↦ bad | some (m', s') ↦ scan m' s' cs ])
          ≡ is_bad (elim q [ none ↦ bad | some (m', s') ↦ scan m' s' cs ])
    go none none h ih = refl
    go none (some q) h ih = absurd h
    go (some p) none h ih = absurd h
    go (some (m', s')) (some (n', t')) h ih =
        ih m' s' ∙ ap (λ k. is_bad (scan k none cs)) h ∙ sym (ih n' t')

-- Trying a chunk reports a bad pattern exactly if the chunk is malformed, whatever the name.
match_chunk-bad : (chunk name : Text) → is_bad (match_chunk chunk name) ≡ malformed_chunk chunk
unfolding malformed_chunk shape
match_chunk-bad chunk name = scan-shape chunk plain (some name)

skip-bad :
    (last : Bool) (chunk name : Text)
    → malformed_chunk chunk ≡ false
    → is_bad (skip last chunk name) ≡ false
unfolding skip
skip-bad last chunk [] h = refl
skip-bad last chunk (x ∷ name) h =
    ground (arith, match_chunk-bad chunk name, skip-bad last chunk name h)

place-bad :
    (last star : Bool) (chunk name : Text)
    → is_bad (place last star chunk name) ≡ malformed_chunk chunk
unfolding place
place-bad last star chunk name =
    ground (arith, match_chunk-bad chunk name, skip-bad last chunk name)

abbrev pub is_error : Option Bool → Bool
is_error none = true
is_error (some b) = false

any_malformed : List (Bool × Text) → Bool
any_malformed [] = false
any_malformed ((star, chunk) ∷ rest) = malformed_chunk chunk || any_malformed rest

check_rest-error : (l : List (Bool × Text)) → is_error (check_rest l) ≡ any_malformed l
unfolding check_rest any_malformed
check_rest-error [] = refl
check_rest-error ((star, chunk) ∷ rest) =
    ground
      (arith, scan-shape chunk plain (some []), match_chunk-bad chunk [], check_rest-error rest)

-- A last lone star ends the match early, and an empty chunk is well formed.
malformed_chunk-nil : malformed_chunk [] ≡ false
unfolding malformed_chunk scan
malformed_chunk-nil = refl

-- The branch on what a chunk makes of the name.
dispatch-error :
    (r : ChunkResult) (rest : List (Bool × Text))
    → ((t : Text) → is_error (match_chunks rest t) ≡ any_malformed rest)
    → is_error (elim r [ bad ↦ none | miss ↦ check_rest rest | hit t ↦ match_chunks rest t ])
      ≡ (is_bad r || any_malformed rest)
dispatch-error bad rest ih = refl
dispatch-error miss rest ih = check_rest-error rest
dispatch-error (hit t) rest ih = ih t

match_chunks-error :
    (l : List (Bool × Text)) (name : Text) → is_error (match_chunks l name) ≡ any_malformed l
unfolding match_chunks any_malformed
match_chunks-error [] name = refl
match_chunks-error ((star, chunk) ∷ rest) name = ground (
  arith,
  dispatch-error (place (not (is_nonempty rest)) star chunk name) rest (match_chunks-error rest),
  place-bad (not (is_nonempty rest)) star chunk name,
  malformed_chunk-nil,
)

pub malformed : Text → Bool
malformed pattern = any_malformed (chunks pattern)

pub path_match-error :
    (pattern name : Text) → is_error (path_match pattern name) ≡ malformed pattern
unfolding path_match malformed
path_match-error pattern name = match_chunks-error (chunks pattern) name

-- What `path.Match` reports of one name it reports of every name: that the pattern is malformed.
pub path_match_total :
    (pattern m n : Text) → path_match pattern m ≢ none → path_match pattern n ≢ none
path_match_total pattern m n h =
    ground (arith, path_match-error pattern m, path_match-error pattern n)
