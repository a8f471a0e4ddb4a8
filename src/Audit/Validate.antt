-- ===== src/Audit/Validate.antt =====
-- `validateAuditEvent`, `validateV2Event` and `validateApprovalActor` on a typed row, of
-- internal/audit/audit.go: each answers whether the row is accepted.
use nockguard.Base.{
  ℕ, ◌+◌, ◌*◌, ◌-◌, Bool, true, false, not, ◌&&◌, ◌||◌, Option, none, some, List, [], ◌∷◌, map, ltb,
  leb, ◌==◌, if◌then◌else◌, Text, codes, text_eq, has_prefix, byte_length, is_hex, lower_char,
  is_nonempty, all, any, in_range, ℤ, pos, negsuc,
}
use nockguard.Audit.Event.{Event}

abbrev pub one_of : List Text → Text → Bool
one_of texts s = any (text_eq s) texts

abbrev pub is_set : Text → Bool
is_set s = is_nonempty s

abbrev pub is_present : Option Bool → Bool
is_present none = false
is_present (some b) = true

abbrev pub is_version : ℕ → ℤ → Bool
is_version n (pos m) = m == n
is_version n (negsuc m) = false

-- The value of a row of decimal digits.
unfoldable pub digits_value : ℕ → Text → ℕ
digits_value acc [] = acc
digits_value acc (c ∷ s) = digits_value (acc * 10 + (c - b'0')) s

abbrev pub has_leading_zero : Text → Bool
has_leading_zero [] = false
has_leading_zero (c ∷ []) = false
has_leading_zero (c ∷ d ∷ s) = c == b'0'

-- `ParseUint(s, 10, bits)` succeeds below `limit`, and `FormatUint` gives the text back: digits
-- with no leading zero.
unfoldable pub is_canonical_uint : ℕ → Text → Bool
unfolding digits_value
is_canonical_uint limit s =
    is_set s
    && all (in_range b'0' b'9') s
    && not (has_leading_zero s)
    && ltb (digits_value 0 s) limit

abbrev drop_prefix : Text → Text → Text
drop_prefix s [] = s
drop_prefix [] (p ∷ ps) = []
drop_prefix (c ∷ s) (p ∷ ps) = drop_prefix s ps

unfoldable pub validate_approval_actor : Event → Bool
unfolding text_eq has_prefix is_canonical_uint
validate_approval_actor ev =
    not (is_set ev.approval_actor)
    || (one_of (codes "approval-granted" ∷ codes "approval-denied" ∷ []) ev.decision
        && has_prefix ev.approval_actor (codes "local:uid:")
        && is_canonical_uint 4294967296 (drop_prefix ev.approval_actor (codes "local:uid:")))

-- Lowercase hexadecimal.
unfoldable pub is_lower_hex : Text → Bool
unfolding text_eq is_hex
is_lower_hex s = text_eq (map lower_char s) s && is_hex s

-- `auditEventFieldSet` of any of the fields that only version 2 has.
unfoldable pub has_v2_field : Event → Bool
has_v2_field ev =
    is_set ev.record_type
    || is_set ev.run_id
    || not (ev.run_seq == 0)
    || is_set ev.run_event
    || not (ev.run_count == 0)
    || is_set ev.run_head
    || is_set ev.action_id
    || is_set ev.observation
    || is_set ev.cause
    || is_set ev.response_class
    || is_present ev.mcp_is_error
    || is_set ev.tool_hash_version
    || is_set ev.tool_definition_hash
    || is_set ev.tool_pin_hash
    || is_set ev.tool_pin_status

-- The values of `RecordType` and of `RunEvent` that the switches name.
pub data RecordKind : Type 0 where
  run_record decision_record observation_record other_record : RecordKind

unfoldable pub record_kind : Text → RecordKind
unfolding text_eq
record_kind s =
    if text_eq s (codes "run")
    then run_record
    else if text_eq s (codes "decision")
    then decision_record
    else if text_eq s (codes "action_observation")
    then observation_record
    else other_record

pub data RunEvent : Type 0 where
  open_run heartbeat_run close_run other_run : RunEvent

unfoldable pub run_event_kind : Text → RunEvent
unfolding text_eq
run_event_kind s =
    if text_eq s (codes "open")
    then open_run
    else if text_eq s (codes "heartbeat")
    then heartbeat_run
    else if text_eq s (codes "close")
    then close_run
    else other_run

abbrev no_close_fields : Event → Bool
no_close_fields ev = ev.run_count == 0 && not (is_set ev.run_head)

-- The inner switch on `RunEvent`.
unfoldable pub validate_run_event : RunEvent → Event → Bool
validate_run_event open_run ev = ev.run_seq == 1 && no_close_fields ev
validate_run_event heartbeat_run ev = leb 2 ev.run_seq && no_close_fields ev
validate_run_event close_run ev =
    leb 2 ev.run_seq
    && not (ev.run_count == 0)
    && ev.run_count == ev.run_seq - 1
    && is_set ev.run_head
validate_run_event other_run ev = false

abbrev xnor : Bool → Bool → Bool
xnor true b = b
xnor false b = not b

-- The switch on `RecordType`.
unfoldable pub validate_record : RecordKind → Event → Bool
unfolding validate_run_event run_event_kind
validate_record run_record ev =
    not (
      is_set ev.tool
      || is_set ev.decision
      || is_set ev.action_id
      || is_set ev.observation
      || is_set ev.cause
      || is_set ev.response_class
      || is_present ev.mcp_is_error)
    && validate_run_event (run_event_kind ev.run_event) ev
validate_record decision_record ev =
    is_set ev.decision
    && not (
        is_set ev.run_event
        || is_set ev.observation
        || is_set ev.cause
        || is_set ev.response_class
        || is_present ev.mcp_is_error
        || not (no_close_fields ev))
    && not (text_eq ev.decision (codes "dispatch") && not (is_set ev.action_id))
    && not (text_eq ev.decision (codes "dispatch") && not (is_set ev.tool))
validate_record observation_record ev =
    not (
      is_set ev.decision
      || is_set ev.run_event
      || not (no_close_fields ev)
      || not (is_set ev.action_id))
    && one_of
        (codes "not_forwarded"
          ∷ codes "response_observed"
          ∷ codes "outcome_unknown"
          ∷ codes "late_response_observed"
          ∷ [])
        ev.observation
    && xnor
        (one_of (codes "response_observed" ∷ codes "late_response_observed" ∷ []) ev.observation)
        (is_set ev.response_class)
    && (not (is_set ev.response_class)
        || one_of (codes "jsonrpc_result" ∷ codes "jsonrpc_error" ∷ []) ev.response_class)
    && not (
        text_eq ev.observation (codes "late_response_observed")
        && not (text_eq ev.cause (codes "late_response")))
validate_record other_record ev = false

-- `strings.Split(s, ".")`
unfoldable pub split_dots : Text → List Text
split_dots [] = [] ∷ []
split_dots (c ∷ s) = let rest = split_dots s in if c == b'.' then [] ∷ rest else add_char c rest
  where
    add_char : ℕ → List Text → List Text
    add_char c [] = (c ∷ []) ∷ []
    add_char c (t ∷ ts) = (c ∷ t) ∷ ts

abbrev two_parts : List Text → Text → Bool
two_parts (run ∷ seq ∷ []) run_id =
    text_eq run run_id
    && is_canonical_uint 18446744073709551616 seq
    && not (text_eq seq (codes "0"))
two_parts _ run_id = false

unfoldable pub validate_action_id : Event → Bool
unfolding split_dots is_canonical_uint text_eq
validate_action_id ev = not (is_set ev.action_id) || two_parts (split_dots ev.action_id) ev.run_id

abbrev known_causes : List Text
known_causes =
    codes "policy_denied"
    ∷ codes "validation_blocked"
    ∷ codes "approval_denied"
    ∷ codes "limit_reached"
    ∷ codes "audit_unavailable"
    ∷ codes "timeout"
    ∷ codes "client_cancel"
    ∷ codes "transport_lost"
    ∷ codes "upstream_exit"
    ∷ codes "shutdown"
    ∷ codes "late_response"
    ∷ codes "tool_catalog_refresh_required"
    ∷ codes "pin_mismatch"
    ∷ codes "pin_unverified"
    ∷ []

abbrev is_digest : Text → Bool
is_digest s = not (is_set s) || (byte_length s == 64 && is_lower_hex s)

abbrev pin_statuses : List Text
pin_statuses =
    codes "matched"
    ∷ codes "mismatch"
    ∷ codes "unobserved"
    ∷ codes "unpinned"
    ∷ codes "unhashable"
    ∷ []

-- The checks on single fields behind the switch.
unfoldable pub validate_fields : Event → Bool
unfolding text_eq byte_length is_lower_hex
validate_fields ev =
    (not (is_set ev.cause) || one_of known_causes ev.cause)
    && (not (is_set ev.tool_hash_version) || text_eq ev.tool_hash_version (codes "jcs-rfc8785-v1"))
    && is_digest ev.tool_definition_hash
    && is_digest ev.tool_pin_hash
    && (not (is_set ev.run_head)
        || ((byte_length ev.run_head == 64 || byte_length ev.run_head == 128)
            && is_lower_hex ev.run_head))
    && (not (is_set ev.tool_pin_status) || one_of pin_statuses ev.tool_pin_status)

unfoldable pub validate_v2_event : Event → Bool
unfolding byte_length is_lower_hex record_kind validate_record validate_action_id validate_fields
    validate_approval_actor
validate_v2_event ev =
    is_version 2 ev.schema_version
    && byte_length ev.run_id == 32
    && is_lower_hex ev.run_id
    && not (ev.run_seq == 0)
    && is_set ev.time
    && is_set ev.agent
    && validate_record (record_kind ev.record_type) ev
    && validate_action_id ev
    && validate_fields ev
    && validate_approval_actor ev

unfoldable pub validate_audit_event : Event → Bool
unfolding has_v2_field validate_v2_event validate_approval_actor
validate_audit_event ev =
    if is_version 0 ev.schema_version
    then not (has_v2_field ev) && validate_approval_actor ev
    else validate_v2_event ev
