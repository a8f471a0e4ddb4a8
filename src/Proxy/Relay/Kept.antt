-- ===== src/Proxy/Relay/Kept.antt =====
-- What the steps of the agent's side leave as it is: what was sent to the server, and the rows that were
-- written at once. See internal/proxy/stdio.go.
use nockguard.Base.{
  ℕ, Bool, Option, none, some, [], ◌∷◌, ◌++◌, ◌≡◌, refl, ap, ◌∙◌, arith, count_if, if◌then◌else◌,
  Text, codes, text_eq, ℤ, suc,
}
use nockguard.Audit.Event.{Event}
use nockguard.Proxy.Calls.{References}
use nockguard.Proxy.Pins.{set_tool_observation_fields}
use nockguard.Proxy.Actions.{
  PendingCard, Observation, observe_action, append_action_observation, mark_action_unknown,
}
use nockguard.Proxy.Pending.{Requests, mark_cancelled}
use nockguard.Proxy.Calls.{set_references}
use nockguard.Proxy.Gate.State.{Gate, action_row, row_of, set_action_fields, with_references}
use nockguard.Proxy.Gate.AtOnce.{dispatches, is_dispatch, count_if-append_one}
use nockguard.Proxy.Relay.State.{immediate_row, audit, carded}

pub observe_action-method_rows :
    (refused : ℕ → Bool) (required : Bool) (latched : ℕ → Bool) (o : Observation)
    (cause class : Text) (mcp_is_error : Option Bool) (card : PendingCard) (g : Gate)
    → (observe_action refused required latched o cause class mcp_is_error card g).0.method_rows
      ≡ g.method_rows
unfolding observe_action append_action_observation
observe_action-method_rows refused required latched o cause class mcp_is_error card g = ground arith

pub mark_cancelled-method_rows :
    (decode_id : Text → Option Text) (refused : ℕ → Bool) (required : Bool) (latched : ℕ → Bool)
    (id : Text) (pending : Requests) (g : Gate)
    → (mark_cancelled decode_id refused required latched id pending g).0.method_rows ≡ g.method_rows
unfolding mark_cancelled mark_action_unknown
mark_cancelled-method_rows decode_id refused required latched id [] g = refl
mark_cancelled-method_rows decode_id refused required latched id ((key, w) ∷ rest) g = grind (
  arith,
  mark_cancelled-method_rows decode_id refused required latched id rest g,
  observe_action-method_rows,
)

carded-is_dispatch : (card : ℤ) (ev : Event) → is_dispatch (carded card ev) ≡ is_dispatch ev
carded-is_dispatch card ev = ground arith

with_references-is_dispatch :
    (refs : Option References) (ev : Event) → is_dispatch (with_references refs ev) ≡ is_dispatch ev
unfolding set_references
with_references-is_dispatch none ev = refl
with_references-is_dispatch (some refs) ev = refl

action_row-is_dispatch :
    (g : Gate) (action_id tool : Text) (ev : Event)
    → is_dispatch (action_row g (some action_id) tool ev).0 ≡ is_dispatch ev
unfolding set_action_fields set_tool_observation_fields
action_row-is_dispatch g action_id tool ev = ground arith

immediate_row-is_dispatch :
    (card : ℤ) (tool decision reason : Text) (refs : Option References) (action_id : Text)
    (g : Gate)
    → is_dispatch (immediate_row card tool decision reason refs action_id g)
      ≡ text_eq decision (codes "dispatch")
unfolding immediate_row
immediate_row-is_dispatch card tool decision reason refs action_id g =
    let ev = row_of g tool decision reason [] in
    let acted = (action_row g (some action_id) tool ev).0 in
    carded-is_dispatch card (with_references refs acted)
    ∙ with_references-is_dispatch refs acted
    ∙ action_row-is_dispatch g action_id tool ev

audit-method_rows :
    (card : ℤ) (tool decision reason : Text) (refs : Option References) (action_id : Text)
    (g : Gate)
    → (audit card tool decision reason refs action_id g).method_rows
      ≡ g.method_rows ++ immediate_row card tool decision reason refs action_id g ∷ []
unfolding audit
audit-method_rows card tool decision reason refs action_id g = ground arith

-- The row of `audit` counts if it is a dispatch row.
pub audit-dispatches :
    (card : ℤ) (tool decision reason : Text) (refs : Option References) (action_id : Text)
    (g : Gate)
    → dispatches (audit card tool decision reason refs action_id g)
      ≡ (if text_eq decision (codes "dispatch") then suc (dispatches g) else dispatches g)
unfolding dispatches
audit-dispatches card tool decision reason refs action_id g =
    let row = immediate_row card tool decision reason refs action_id g in
    ap (count_if is_dispatch) (audit-method_rows card tool decision reason refs action_id g)
    ∙ count_if-append_one is_dispatch g.method_rows row
    ∙ ap
        (λ b.
          if b
          then suc (count_if is_dispatch g.method_rows)
          else count_if is_dispatch g.method_rows)
        (immediate_row-is_dispatch card tool decision reason refs action_id g)
