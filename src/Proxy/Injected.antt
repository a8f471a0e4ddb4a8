-- ===== src/Proxy/Injected.antt =====
-- What injection writes, and what it leaves alone.
use nockguard.Base.{
  Option, none, some, List, [], ◌∷◌, ◌≡◌, ◌≢◌, inl, inr, sym, ap, ◌∙◌, arith, if◌then◌else◌, Text,
  codes, text_eq, text_eq_refl, eq_of_text_eq, Result, ok, err, ◌>>◌, >>=-eq-ok, ok_injective,
  Option-cases, Bool-cases, and_then, and_then-eq-some, some_injective,
}
use nockguard.Policy.Types.{InjectRule}
use nockguard.Audit.Validate.{split_dots}
use nockguard.Proxy.Json.{
  Json, text, obj, Fields, member, set_member, member-set_member, as_object, get_path,
}
use nockguard.Proxy.Inject.{
  object_or_new, set_at_path, set_arg_path, InjectError, ResolvedRule, injected_value,
  resolve_rules, check_conflicts, apply_rules, apply_inject,
}

member-set_member_self :
    (key : Text) (new : Json) (fs : Fields) → member key (set_member key new fs) ≡ some new
member-set_member_self key new fs =
    member-set_member key key new fs
    ∙ ap (λ b. if b then some new else member key fs) (text_eq_refl key)

member-set_member_other :
    (key other : Text) (new : Json) (fs : Fields)
    → key ≢ other
    → member other (set_member key new fs) ≡ member other fs
member-set_member_other key other new fs ne = elim (Bool-cases (text_eq key other)) [
  | inl same ↦ absurd (ne (eq_of_text_eq key other same))
  | inr differ ↦
      member-set_member key other new fs ∙ ap (λ b. if b then some new else member other fs) differ
]

-- A value that was set at a path is what is read there.
pub get_path-set_at_path :
    (path : List Text) (value : Text) (fs fs' : Fields)
    → set_at_path path value fs ≡ some fs'
    → get_path path fs' ≡ some (text value)
unfolding set_at_path get_path
get_path-set_at_path [] value fs fs' h = cc
get_path-set_at_path (key ∷ []) value fs fs' h =
    ap (member key) (sym (some_injective (set_member key (text value) fs) fs' h))
    ∙ member-set_member_self key (text value) fs
get_path-set_at_path (key ∷ next ∷ path) value fs fs' h =
    let (inside, opens, h1) = and_then-eq-some (object_or_new (member key fs)) _ h in
    let (done, set, h2) = and_then-eq-some (set_at_path (next ∷ path) value inside) _ h1 in
    let same = some_injective (set_member key (obj done) fs) fs' h2 in
    let here : member key fs' ≡ some (obj done) =
      ap (member key) (sym same) ∙ member-set_member_self key (obj done) fs in
    ap (λ o. and_then (as_object o) (get_path (next ∷ path))) here
    ∙ get_path-set_at_path (next ∷ path) value inside done set

set_arg_path-member :
    (path value key : Text) (params params' : Fields)
    → set_arg_path path value params ≡ some params'
    → codes "arguments" ≢ key
    → member key params' ≡ member key params
unfolding set_arg_path
set_arg_path-member path value key params params' h ne =
    let (arguments, opens, h1) =
      and_then-eq-some (object_or_new (member (codes "arguments") params)) _ h in
    let (done, set, h2) = and_then-eq-some (set_at_path (split_dots path) value arguments) _ h1 in
    let same = some_injective (set_member (codes "arguments") (obj done) params) params' h2 in
    ap (member key) (sym same)
    ∙ member-set_member_other (codes "arguments") key (obj done) params ne

apply_rules-member :
    (resolved : List ResolvedRule) (key : Text) (params params' : Fields)
    → apply_rules resolved params ≡ ok params'
    → codes "arguments" ≢ key
    → member key params' ≡ member key params
unfolding apply_rules
apply_rules-member [] key params params' h ne =
    ap (member key) (sym (ok_injective params params' h))
apply_rules-member (rr ∷ rest) key params params' h ne =
    elim (Option-cases (set_arg_path rr.rule.arg (injected_value rr) params)) [
      | inl stuck ↦ absurd (refused stuck h)
      | inr (next, set) ↦
          apply_rules-member rest key next params' (continues next set h) ne
          ∙ set_arg_path-member rr.rule.arg (injected_value rr) key params next set ne
    ]
  where
    refused :
        set_arg_path rr.rule.arg (injected_value rr) params ≡ none
        → apply_rules (rr ∷ rest) params ≢ ok params'
    refused e h = cc

    continues :
        (next : Fields)
        → set_arg_path rr.rule.arg (injected_value rr) params ≡ some next
        → apply_rules (rr ∷ rest) params ≡ ok params'
        → apply_rules rest next ≡ ok params'
    continues next e h = ground arith

-- An injected call is the call that was gated but for its arguments: its name and every other
-- parameter are as they were.
pub apply_inject-member :
    (resolver : Text → Option Text) (rules : List InjectRule) (key : Text) (params params' : Fields)
    (resolved : List ResolvedRule)
    → apply_inject resolver params rules ≡ ok (params', resolved)
    → codes "arguments" ≢ key
    → member key params' ≡ member key params
unfolding apply_inject
apply_inject-member resolver rules key params params' resolved h ne =
    let (found, r, h1) = >>=-eq-ok (resolve_rules resolver rules) _ h in
    let (out, applied, h2) =
      >>=-eq-ok (apply_rules found params) _ (after (check_conflicts found) h1) in
    let same =
      ap (λ (t : Fields × List ResolvedRule). t.0)
        (ok_injective (out, found) (params', resolved) h2) in
    ap (member key) (sym same) ∙ apply_rules-member found key params out applied ne
  where
    after :
        {A : Type 0} {k : Result InjectError A} {a : A} (m : Result InjectError (Unit {0}))
        → (m >> k) ≡ ok a
        → k ≡ ok a
    after (ok u) h = h
    after (err e) h = cc
