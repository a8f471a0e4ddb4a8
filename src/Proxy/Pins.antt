-- ===== src/Proxy/Pins.antt =====
-- What the catalog says of a tool's pin, `pinObservation` and `setToolObservationFields` of
-- internal/proxy/tool_catalog.go.
use nockguard.Base.{
  Bool, false, not, ◌&&◌, ◌||◌, Option, none, some, [], ◌≡◌, ◌⊎◌, inl, inr, refl, arith,
  if◌then◌else◌, Text, codes, text_eq, eq_of_text_eq, is_nonempty,
}
use nockguard.Policy.Types.{Engine, ToolPin}
use nockguard.Policy.Evaluate.{tool_pin, strict_tool_pins, has_tool_pin_constraints}
use nockguard.Audit.Event.{Event}
use nockguard.Proxy.Catalog.{
  ToolObservation, PinStatus, no_status, unobserved, unhashable, unpinned, matched, mismatch,
}

pub data PinCause : Type 0 where
  pin_unverified tool_catalog_refresh_required pin_mismatch : PinCause

unfoldable pub cause_text : PinCause → Text
cause_text pin_unverified = codes "pin_unverified"
cause_text tool_catalog_refresh_required = codes "tool_catalog_refresh_required"
cause_text pin_mismatch = codes "pin_mismatch"

unfoldable pub status_text : PinStatus → Text
status_text no_status = []
status_text unobserved = codes "unobserved"
status_text unhashable = codes "unhashable"
status_text unpinned = codes "unpinned"
status_text matched = codes "matched"
status_text mismatch = codes "mismatch"

-- The switch on the status of a pinned tool.
unfoldable pub compare_pin :
    ToolPin → ToolObservation → PinStatus → ToolObservation × Option PinCause
compare_pin pin o no_status =
    (record o { pin_hash = pin.sha256; status = unobserved }, some tool_catalog_refresh_required)
compare_pin pin o unobserved =
    (record o { pin_hash = pin.sha256; status = unobserved }, some tool_catalog_refresh_required)
compare_pin pin o unhashable = (record o { pin_hash = pin.sha256 }, some pin_unverified)
compare_pin pin o _ =
    if not (text_eq o.hash pin.sha256)
    then (record o { pin_hash = pin.sha256; status = mismatch }, some pin_mismatch)
    else (record o { pin_hash = pin.sha256; status = matched }, none)

-- Whether a tool without a pin is refused.
abbrev pub refuses_unpinned : Engine → Text → Text → Bool
refuses_unpinned e agent upstream_id =
    strict_tool_pins e agent || (not (is_nonempty upstream_id) && has_tool_pin_constraints e agent)

unfoldable pub pin_observation :
    Engine → Text → Text → Text → ToolObservation → ToolObservation × Option PinCause
pin_observation e agent upstream_id tool o = elim (tool_pin e agent upstream_id tool) [
  | none ↦
      if refuses_unpinned e agent upstream_id
      then (record o { status = unpinned }, some pin_unverified)
      else (o, none)
  | some pin ↦ compare_pin pin o o.status
]

unfoldable pub set_tool_observation_fields : ToolObservation → Event → Event
unfolding status_text
set_tool_observation_fields o ev = record ev {
  tool_pin_status = status_text o.status;
  tool_pin_hash = o.pin_hash;
  tool_hash_version =
      if is_nonempty o.hash || is_nonempty o.pin_hash
      then codes "jcs-rfc8785-v1"
      else ev.tool_hash_version;
  tool_definition_hash = o.hash;
}

compare_pin-none :
    (pin : ToolPin) (o : ToolObservation) (s : PinStatus)
    → (compare_pin pin o s).1 ≡ none
    → o.hash ≡ pin.sha256
unfolding compare_pin
compare_pin-none pin o no_status h = cc
compare_pin-none pin o unobserved h = cc
compare_pin-none pin o unhashable h = cc
compare_pin-none pin o unpinned h = ground (arith, eq_of_text_eq o.hash pin.sha256)
compare_pin-none pin o matched h = ground (arith, eq_of_text_eq o.hash pin.sha256)
compare_pin-none pin o mismatch h = ground (arith, eq_of_text_eq o.hash pin.sha256)

-- A tool that passes the pin check either has no pin and its agent's policy does without, or was
-- advertised with the very definition that the pin names.
pub pin_observation-none :
    (e : Engine) (agent upstream_id tool : Text) (o : ToolObservation)
    → (pin_observation e agent upstream_id tool o).1 ≡ none
    → ((tool_pin e agent upstream_id tool ≡ none) × (refuses_unpinned e agent upstream_id ≡ false))
      ⊎ ((pin : ToolPin) × (tool_pin e agent upstream_id tool ≡ some pin) × (o.hash ≡ pin.sha256))
unfolding pin_observation
pin_observation-none e agent upstream_id tool o h = go (tool_pin e agent upstream_id tool) h
  where
    go :
        (p : Option ToolPin)
        → (elim p as (λ k. ToolObservation × Option PinCause) [
          | none ↦
              if refuses_unpinned e agent upstream_id
              then (record o { status = unpinned }, some pin_unverified)
              else (o, none)
          | some pin ↦ compare_pin pin o o.status
        ]).1
          ≡ none
        → ((p ≡ none) × (refuses_unpinned e agent upstream_id ≡ false))
          ⊎ ((pin : ToolPin) × (p ≡ some pin) × (o.hash ≡ pin.sha256))
    go none h = inl (refl, ground arith)
    go (some pin) h = inr (pin, refl, compare_pin-none pin o o.status h)
