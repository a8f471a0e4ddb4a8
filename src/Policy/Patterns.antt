-- ===== src/Policy/Patterns.antt =====
-- Tool patterns: `isGlobPattern`, `matchPattern` and what stands on them, of internal/policy/policy.go.
use nockguard.Base.{
  Bool, true, false, not, ◌&&◌, Option, none, some, List, [], ◌∷◌, if◌then◌else◌, Text, codes,
  text_eq, contains_any,
}
use nockguard.Glob.Match.{path_match}

unfoldable pub is_glob_pattern : Text → Bool
unfolding contains_any
is_glob_pattern pattern = contains_any pattern (codes "*?[")

-- `none` is the error of a malformed pattern.
unfoldable pub match_pattern_err : Text → Text → Option Bool
match_pattern_err pattern tool =
    if is_glob_pattern pattern then path_match pattern tool else some (text_eq pattern tool)

-- `matchPattern` drops the error; `path.Match` answers false beside it.
abbrev pub matched_or_false : Option Bool → Bool
matched_or_false none = false
matched_or_false (some b) = b

unfoldable pub match_pattern : Text → Text → Bool
match_pattern pattern tool = matched_or_false (match_pattern_err pattern tool)

unfoldable pub matches_any : List Text → Text → Bool
matches_any [] tool = false
matches_any (p ∷ ps) tool = if match_pattern p tool then true else matches_any ps tool

-- `validateGlob`: whether the pattern is usable.
unfoldable pub validate_glob : Text → Bool
validate_glob pattern =
    if is_glob_pattern pattern
    then elim (path_match pattern []) [ none ↦ false | some b ↦ true ]
    else true

unfoldable pub is_glob_pattern_disjoint : Text → Text → Bool
is_glob_pattern_disjoint p q =
    let a = is_glob_pattern p in
    let b = is_glob_pattern q in
    if not a && not b
    then not (text_eq p q)
    else if not a && b
    then not (matched_or_false (path_match q p))
    else if a && not b
    then not (matched_or_false (path_match p q))
    else false
