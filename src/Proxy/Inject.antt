-- ===== src/Proxy/Inject.antt =====
-- Credential injection, internal/proxy/inject.go, on decoded JSON: all rules of a call or none.
use nockguard.Base.{
  ℕ, zero, suc, Bool, true, false, ◌||◌, Option, none, some, List, [], ◌∷◌, ◌++◌, ltb,
  if◌then◌else◌, Text, codes, text_eq, byte_length, has_prefix, Result, ok, err, ◌>>=◌, ◌>>◌,
  fail_if, and_then, is_nonempty,
}
use nockguard.Policy.Types.{InjectRule}
use nockguard.Proxy.Json.{Json, null, text, obj, Fields, end, member, set_member}
use nockguard.Audit.Validate.{split_dots}

-- A missing or null member is a new object, any other value has no members to set.
abbrev pub object_or_new : Option Json → Option Fields
object_or_new none = some end
object_or_new (some null) = some end
object_or_new (some (obj fs)) = some fs
object_or_new (some _) = none

-- `setAtPathRaw`
unfoldable pub set_at_path : List Text → Text → Fields → Option Fields
set_at_path [] value fs = none
set_at_path (key ∷ []) value fs = some (set_member key (text value) fs)
set_at_path (key ∷ next ∷ path) value fs = and_then (object_or_new (member key fs)) (λ inside.
    and_then (set_at_path (next ∷ path) value inside) (λ done. some (set_member key (obj done) fs)))

-- `setArgPathInParams`
unfoldable pub set_arg_path : Text → Text → Fields → Option Fields
set_arg_path path value params =
    and_then (object_or_new (member (codes "arguments") params)) (λ arguments.
      and_then (set_at_path (split_dots path) value arguments)
        (λ done. some (set_member (codes "arguments") (obj done) params)))

-- `strings.ReplaceAll(template, "{secret}", value)`; the number says how much of a match is left.
unfoldable pub fill_template : ℕ → Text → Text → Text
fill_template skip value [] = []
fill_template (suc skip) value (c ∷ s) = fill_template skip value s
fill_template zero value (c ∷ s) = elim (has_prefix (c ∷ s) (codes "{secret}")) [
  | true ↦ value ++ fill_template 7 value s
  | false ↦ c ∷ fill_template 0 value s
]

pub data InjectError : Type 0 where
  unresolved too_short conflict unsettable : Text → InjectError

pub record ResolvedRule : Type 0 where
  pub rule : InjectRule
  pub value : Text

-- The value that is written.
unfoldable pub injected_value : ResolvedRule → Text
unfolding fill_template
injected_value rr =
    if is_nonempty rr.rule.template then fill_template 0 rr.value rr.rule.template else rr.value

-- The resolver is asked once for each rule, and the first that fails ends the call.
unfoldable pub resolve_rules :
    (Text → Option Text) → List InjectRule → Result InjectError (List ResolvedRule)
resolve_rules resolver [] = ok []
resolve_rules resolver (rule ∷ rules) = elim (resolver rule.ref) [
  | none ↦ err (unresolved rule.ref)
  | some value ↦
      fail_if (ltb (byte_length value) 8) (too_short rule.ref)
      >> (resolve_rules resolver rules >>= λ rest.
          ok (record { rule = rule; value = value } ∷ rest))
]

abbrev writes : Text → List ResolvedRule → Bool
writes arg [] = false
writes arg (rr ∷ rest) = text_eq rr.rule.arg arg || writes arg rest

-- Two rules for one argument.
unfoldable pub check_conflicts : List ResolvedRule → Result InjectError (Unit {0})
check_conflicts [] = ok tt
check_conflicts (rr ∷ rest) =
    fail_if (writes rr.rule.arg rest) (conflict rr.rule.arg) >> check_conflicts rest

unfoldable pub apply_rules : List ResolvedRule → Fields → Result InjectError Fields
apply_rules [] params = ok params
apply_rules (rr ∷ rest) params = elim (set_arg_path rr.rule.arg (injected_value rr) params) [
  | none ↦ err (unsettable rr.rule.arg)
  | some params' ↦ apply_rules rest params'
]

-- `applyInject`: the parameters to send, and the rules whose values are to be scrubbed and audited.
unfoldable pub apply_inject :
    (Text → Option Text)
    → Fields
    → List InjectRule
    → Result InjectError (Fields × List ResolvedRule)
apply_inject resolver params rules = resolve_rules resolver rules >>= λ resolved.
    check_conflicts resolved >> (apply_rules resolved params >>= λ out. ok (out, resolved))

-- The values that responses are scrubbed of.
unfoldable pub scrubbed_values : List ResolvedRule → List Text
unfolding injected_value
scrubbed_values [] = []
scrubbed_values (rr ∷ rest) =
    let others = scrubbed_values rest in
    if is_nonempty rr.rule.template
    then rr.value ∷ injected_value rr ∷ others
    else rr.value ∷ others
