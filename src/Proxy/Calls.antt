-- ===== src/Proxy/Calls.antt =====
-- What the proxy reads of a tools/call, `canonicalToolCall` of internal/proxy/stdio.go and
-- `FromToolCall` of internal/extract/extract.go, on decoded JSON.
use nockguard.Base.{
  ℕ, ◌+◌, ◌*◌, ◌-◌, Bool, not, ◌&&◌, Option, none, some, List, [], ◌∷◌, any, all, ltb, ◌==◌,
  if◌then◌else◌, Text, codes, text_eq, in_range, ℤ, pos, is_positive, is_nonempty,
}
use nockguard.Audit.Event.{Event}
use nockguard.Proxy.Json.{Json, null, raw, text, obj, Fields, end, field, member}
use nockguard.Proxy.Catalog.{equal_fold}

-- Aliases of the word in another case are taken out.
unfoldable pub drop_aliases : Text → Fields → Fields
drop_aliases word end = end
drop_aliases word (field key v rest) =
    let tail = drop_aliases word rest in
    if not (text_eq key word) && equal_fold key word then tail else field key v tail

-- `json.Unmarshal` into a string: null leaves it empty.
abbrev pub as_text : Json → Option Text
as_text null = some []
as_text (text s) = some s
as_text _ = none

-- The parameters decode to an object, or not.
unfoldable pub canonical_tool_call : Option Fields → Option (Text × Fields)
canonical_tool_call none = none
canonical_tool_call (some params) = elim (member (codes "name") params) [
  | none ↦ none
  | some v ↦ elim (as_text v) [
    | none ↦ none
    | some name ↦ some (name, drop_aliases (codes "name") params)
  ]
]

pub record References : Type 0 where
  pub nock_id : ℤ
  pub pr : Text
  pub review_id : Text

abbrev pub no_references : References
no_references = record { nock_id = pos 0; pr = []; review_id = [] }

-- The digits of a Go int: a sign, then digits without an exponent or a fraction, in range.
abbrev digit_value : ℕ → Text → ℕ
digit_value acc [] = acc
digit_value acc (c ∷ s) = digit_value (acc * 10 + (c - b'0')) s

abbrev is_digits : Text → Bool
is_digits s = is_nonempty s && all (in_range b'0' b'9') s

abbrev positive_int : Text → Option ℕ
positive_int s =
    if is_digits s && ltb (digit_value 0 s) 9223372036854775808 && ltb 0 (digit_value 0 s)
    then some (digit_value 0 s)
    else none

-- `strconv.Atoi` takes a leading plus sign, a JSON number has none. Only a positive result matters.
abbrev atoi : Text → Option ℕ
atoi [] = none
atoi (c ∷ s) = if c == b'+' then positive_int s else positive_int (c ∷ s)

abbrev references_of : Option ℕ → References
references_of none = no_references
references_of (some n) = record no_references { nock_id = pos n }

-- A number, or a text of one.
unfoldable pub extract_nock_tool_id : Fields → References
extract_nock_tool_id arguments = elim (member (codes "id") arguments) [
  | some (raw s) ↦ references_of (positive_int s)
  | some (text s) ↦ references_of (atoi s)
  | _ ↦ no_references
]

abbrev nock_tools : List Text
nock_tools =
    codes "nockcc_nock_claim"
    ∷ codes "nockcc_nock_update"
    ∷ codes "nockcc_nock_get"
    ∷ codes "nockcc_nock_release"
    ∷ []

unfoldable pub from_tool_call : Text → Option Fields → References
from_tool_call tool none = no_references
from_tool_call tool (some params) = elim (member (codes "arguments") params) [
  | some (obj arguments) ↦
      if any (text_eq tool) nock_tools then extract_nock_tool_id arguments else no_references
  | _ ↦ no_references
]

-- The references that an audit row takes over.
unfoldable pub set_references : References → Event → Event
set_references refs ev = record ev {
  nock_id = if is_positive refs.nock_id then refs.nock_id else ev.nock_id;
  pr = if is_nonempty refs.pr then refs.pr else ev.pr;
  review_id = if is_nonempty refs.review_id then refs.review_id else ev.review_id;
}
