-- ===== src/Policy/Injection.antt =====
-- No two credential rules that a loaded policy applies to one call write the same argument.
use mathlib.Core.Path.{subst}
use nockguard.Base.{
  sym, true, false, not, Option, List, [], ◌∷◌, ◌≡◌, ◌≢◌, inl, inr, arith, Text, text_eq,
  text_eq_refl, eq_of_text_eq, All, Bool-cases, Option-cases, ℤ, ok, IsOk, >>-IsOk, each, each-IsOk,
  each_fail-IsOk,
}
use nockguard.Policy.Types.{Config, Engine, InjectRule}
use nockguard.Policy.Patterns.{
  match_pattern_err, match_pattern, matches_any, is_glob_pattern_disjoint,
}
use nockguard.Policy.Evaluate.{agent_policy, inject_rules_for, matching_rules}
use nockguard.Policy.Load.{check_overlap, check_overlaps, load_from, inject_overlap}
use nockguard.Policy.Loaded.{governing-Checked}

-- Patterns that are proved disjoint match no common tool.
pub disjoint_sound :
    (p q tool : Text)
    → is_glob_pattern_disjoint p q ≡ true
    → match_pattern p tool ≡ true
    → match_pattern q tool ≡ true
    → ⊥
unfolding is_glob_pattern_disjoint match_pattern match_pattern_err
disjoint_sound p q tool h a b =
    ground (arith, eq_of_text_eq p tool, eq_of_text_eq q tool, text_eq_refl p)

abbrev Disjoint : Text → Text → Type 0
Disjoint p q = not (is_glob_pattern_disjoint p q) ≡ false

matches-Disjoint :
    (p tool : Text) (qs : List Text)
    → All (Disjoint p) qs
    → match_pattern p tool ≡ true
    → matches_any qs tool ≡ true
    → ⊥
unfolding matches_any
matches-Disjoint p tool [] h a b = cc
matches-Disjoint p tool (q ∷ qs) (d, h) a b = elim (Bool-cases (match_pattern q tool)) [
  | inl e ↦ disjoint_sound p q tool (ground arith) a e
  | inr e ↦ matches-Disjoint p tool qs h a (ground arith)
]

All-Disjoint :
    (tool : Text) (ps qs : List Text)
    → All (λ p. All (Disjoint p) qs) ps
    → matches_any ps tool ≡ true
    → matches_any qs tool ≡ true
    → ⊥
unfolding matches_any
All-Disjoint tool [] qs h a b = cc
All-Disjoint tool (p ∷ ps) qs (d, h) a b = elim (Bool-cases (match_pattern p tool)) [
  | inl e ↦ matches-Disjoint p tool qs d e b
  | inr e ↦ All-Disjoint tool ps qs h (ground arith) b
]

All-map {ℓ} :
    {A : Type ℓ} (P Q : A → Type 0) (xs : List A) → ((x : A) → P x → Q x) → All P xs → All Q xs
All-map P Q [] f h = tt
All-map P Q (x ∷ xs) f (a, h) = (f x a, All-map P Q xs f h)

check_overlap-Disjoint :
    (agent : Text) (r s : InjectRule)
    → text_eq r.arg s.arg ≡ true
    → IsOk (check_overlap agent r s)
    → All (λ p. All (Disjoint p) s.tools) r.tools
unfolding check_overlap
check_overlap-Disjoint agent r s e h =
    All-map _ (λ p. All (Disjoint p) s.tools) r.tools
      (λ p k.
        each_fail-IsOk (λ q. not (is_glob_pattern_disjoint p q)) (inject_overlap agent r.arg p)
          s.tools k)
      (each-IsOk _ r.tools (rw e at h))

-- Two rules that pass the overlap check and both match a tool write different arguments.
check_overlap_sound :
    (agent tool : Text) (r s : InjectRule)
    → IsOk (check_overlap agent r s)
    → matches_any r.tools tool ≡ true
    → matches_any s.tools tool ≡ true
    → r.arg ≢ s.arg
check_overlap_sound agent tool r s h a b e =
    All-Disjoint tool r.tools s.tools
      (check_overlap-Disjoint agent r s (subst (λ t. text_eq r.arg t ≡ true) e (text_eq_refl r.arg))
        h)
      a b

-- The rule writes another argument than every rule of the list.
abbrev pub ArgApart : InjectRule → List InjectRule → Type 0
ArgApart r = All (λ s. r.arg ≢ s.arg)

abbrev pub DistinctArgs : List InjectRule → Type 0
DistinctArgs [] = Unit
DistinctArgs (r ∷ rs) = ArgApart r rs × DistinctArgs rs

matching-ArgApart :
    (agent tool : Text) (r : InjectRule) (rs : List InjectRule)
    → matches_any r.tools tool ≡ true
    → All (λ s. IsOk (check_overlap agent r s)) rs
    → ArgApart r (matching_rules rs tool)
unfolding matching_rules
matching-ArgApart agent tool r [] a h = tt
matching-ArgApart agent tool r (s ∷ rs) a (o, h) =
    let rest = matching-ArgApart agent tool r rs a h in
    elim (Bool-cases (matches_any s.tools tool)) [
      | inl e ↦ rw e (check_overlap_sound agent tool r s o a e, rest)
      | inr e ↦ rw e rest
    ]

matching-DistinctArgs :
    (agent tool : Text) (rs : List InjectRule)
    → IsOk (check_overlaps agent rs)
    → DistinctArgs (matching_rules rs tool)
unfolding matching_rules check_overlaps
matching-DistinctArgs agent tool [] h = tt
matching-DistinctArgs agent tool (r ∷ rs) h =
    let (o, k) = >>-IsOk (each (check_overlap agent r) rs) (check_overlaps agent rs) h in
    let rest = matching-DistinctArgs agent tool rs k in
    elim (Bool-cases (matches_any r.tools tool)) [
      | inl e ↦
          rw e (matching-ArgApart agent tool r rs e (each-IsOk (check_overlap agent r) rs o), rest)
      | inr e ↦ rw e rest
    ]

-- The credential rules that a loaded policy applies to one tool call write pairwise different
-- argument paths; one path may still lead through the other.
pub inject_rules-DistinctArgs :
    (parse_duration : Text → Option ℤ) (cfg : Config) (e : Engine) (agent tool : Text)
    → load_from parse_duration cfg ≡ ok e
    → DistinctArgs (inject_rules_for e agent tool)
unfolding inject_rules_for
inject_rules-DistinctArgs parse_duration cfg e agent tool h =
    elim (Option-cases (agent_policy e agent)) [
      | inl n ↦
          let same : inject_rules_for e agent tool ≡ [] = ground arith in
          subst DistinctArgs (sym same) tt
      | inr (pol, g) ↦
          let (j, c) = governing-Checked parse_duration cfg e agent pol h g in
          let same : inject_rules_for e agent tool ≡ matching_rules pol.inject tool =
            ground arith in
          subst DistinctArgs (sym same) (matching-DistinctArgs j tool pol.inject c.overlaps)
    ]
