-- ===== src/Proxy/Actions.antt =====
-- The lifecycle of an action, of internal/proxy/stdio.go: a forwarded call waits as a pending card until
-- its response, its cancellation or the end of the run gives it one terminal observation. The mutexes
-- of the card and of the queue make each function one step.
use nockguard.Base.{
  ℕ, ◌+◌, Bool, true, false, not, ◌&&◌, ◌||◌, Option, none, some, [], ◌∷◌, ◌++◌, length, ltb, ◌==◌,
  if◌then◌else◌, Text, codes, text_eq, lookup, delete, put, ℤ, pos, negsuc, is_positive,
  is_nonempty,
}
use nockguard.Audit.Event.{Event, blank_event}
use nockguard.Audit.Chain.{decimal}
use nockguard.Proxy.Calls.{References, no_references}
use nockguard.Proxy.Catalog.{ToolObservation, PinStatus, no_status, observe}
use nockguard.Proxy.Cards.{is_zero}
use nockguard.Proxy.Ranges.{is_resolved}
use nockguard.Proxy.Pins.{pin_observation, set_tool_observation_fields}
use nockguard.Proxy.Queue.{AuditQueue, todo_at, mark_audit_failure, resolve_audit}
use nockguard.Proxy.Gate.State.{Gate}

-- The values of `observation`; the empty text is none yet.
pub data Observation : Type 0 where
  no_observation response_observed outcome_unknown not_forwarded late_response_observed :
      Observation

unfoldable pub observation_text : Observation → Text
observation_text no_observation = []
observation_text response_observed = codes "response_observed"
observation_text outcome_unknown = codes "outcome_unknown"
observation_text not_forwarded = codes "not_forwarded"
observation_text late_response_observed = codes "late_response_observed"

pub record PendingCard : Type 0 where
  pub tool : Text
  pub refs : References
  pub state_tool : Text
  pub state_refs : References
  pub audit_seq : ℕ
  pub action_id : Text
  pub request_id : Text
  pub observed : ToolObservation
  pub observation : Observation
  pub late_response_recorded : Bool
  pub suppress_late_response : Bool
  pub answered : Bool

abbrev no_tool_observation : ToolObservation
no_tool_observation = record { hash = []; pin_hash = []; status = no_status }

-- `actionCard` of a decision on the tool with its references.
unfoldable pub action_card : Text → Option References → ℕ → Text → PendingCard
action_card tool refs seq action_id = record {
  tool = tool;
  refs = elim refs [ none ↦ no_references | some r ↦ r ];
  state_tool = [];
  state_refs = no_references;
  audit_seq = seq;
  action_id = action_id;
  request_id = [];
  observed = no_tool_observation;
  observation = no_observation;
  late_response_recorded = false;
  suppress_late_response = false;
  answered = false;
}

-- The counter and the ID, or none where the counter is used up.
unfoldable pub new_action_id : Text → ℕ → Option (ℕ × Text)
unfolding decimal
new_action_id run_id current =
    if current == 18446744073709551615
    then none
    else some (current + 1, run_id ++ (b'.' ∷ decimal (current + 1)))

-- What a call of `observeAction` observes, given what the card has seen.
unfoldable pub next_observation : Observation → PendingCard → PendingCard × Option Observation
next_observation o card = elim card.observation [
  | no_observation ↦ (record card { observation = o }, some o)
  | outcome_unknown ↦ elim o [
    | response_observed ↦
        if card.late_response_recorded
        then (card, none)
        else (record card { late_response_recorded = true }, some late_response_observed)
    | _ ↦ (card, none)
  ]
  | _ ↦ (card, none)
]

abbrev pub is_late : Observation → Bool
is_late late_response_observed = true
is_late _ = false

abbrev has_status : PinStatus → Bool
has_status no_status = false
has_status _ = true

-- The catalog's observation that a card freezes.
abbrev pub frozen : Gate → PendingCard → ToolObservation
frozen g card =
    let known : ToolObservation = elim (lookup card.action_id g.action_observed) [
      | some o ↦ o
      | none ↦
          (pin_observation g.engine g.agent g.upstream_id card.tool (observe card.tool g.catalog)).0
    ] in
    if has_status card.observed.status then card.observed else known

-- The row of an observation.
unfoldable pub observation_row :
    Gate → PendingCard → Observation → Text → Text → Option Bool → Event
unfolding observation_text
observation_row g card o cause response_class mcp_is_error =
    set_tool_observation_fields (frozen g card) (record blank_event {
      agent = g.agent;
      tool = card.tool;
      schema_version = pos 2;
      record_type = codes "action_observation";
      run_id = g.action_run_id;
      action_id = card.action_id;
      observation = observation_text o;
      cause = cause;
      response_class = response_class;
      mcp_is_error = mcp_is_error;
      pr = card.refs.pr;
      review_id = card.refs.review_id;
      nock_id = if is_positive card.refs.nock_id then card.refs.nock_id else pos 0;
    })

-- `updateCardState` on the current card and the cards of the queue.
unfoldable pub update_card_state : ℕ → Text → References → ℤ → AuditQueue → ℤ × AuditQueue
update_card_state seq tool refs current q =
    if is_zero refs.nock_id
    then (current, q)
    else if text_eq tool (codes "nockcc_nock_claim")
    then (refs.nock_id, record q { cards = put seq refs.nock_id q.cards })
    else if text_eq tool (codes "nockcc_nock_release") && same_card current refs.nock_id
    then (pos 0, record q { cards = put seq (pos 0) q.cards })
    else (current, q)
  where
    same_card : ℤ → ℤ → Bool
    same_card (pos m) (pos n) = m == n
    same_card (negsuc m) (negsuc n) = m == n
    same_card _ _ = false

-- What waits for a response: a listing or a card.
pub data Waiting : Type 0 where
  listing : ℕ → ℕ → Waiting
  waiting_card : PendingCard → Waiting

-- `refused` says which rows the writer refuses, `latched` after how many rows its required error is set.
module _ (refused : ℕ → Bool) (required : Bool) (latched : ℕ → Bool) where
  -- The row is written at once where its sequence is settled, and queued and settled where not; the
  -- Boolean is whether an error came back.
  unfoldable pub write_row : ℕ → Event → AuditQueue → AuditQueue × Bool
  write_row seq ev q =
      let at_once = record q { log = q.log ++ (seq, ev) ∷ [] } in
      let queued =
        resolve_audit refused seq (record q { todo = put seq (todo_at q seq ++ ev ∷ []) q.todo }) in
      if ltb seq q.next || is_resolved seq q.resolved
      then if refused (length q.log)
        then (mark_audit_failure seq at_once, true)
        else (at_once, false)
      else (queued, required && latched (length queued.log))

  unfoldable pub append_action_observation :
      PendingCard → Observation → Text → Text → Option Bool → Gate → Gate × PendingCard × Bool
  append_action_observation card o cause response_class mcp_is_error g =
      let ev = observation_row g card o cause response_class mcp_is_error in
      let (q, failed) = write_row card.audit_seq ev g.queue in
      (record g { queue = q }, record card { observed = frozen g card }, failed)

  unfoldable pub observe_action :
      Observation → Text → Text → Option Bool → PendingCard → Gate → Gate × PendingCard × Bool
  observe_action o cause response_class mcp_is_error card g =
      let (seen, emitted) = next_observation o card in
      if not (is_nonempty card.action_id) then (g, card, false) else elim emitted [
        | none ↦ (g, card, false)
        | some o' ↦
            let reason = if is_late o' then codes "late_response" else cause in
            let (g', card', failed) =
              append_action_observation seen o' reason response_class mcp_is_error g in
            (
              if is_late o'
                  then g'
                  else record g' { action_observed = delete card.action_id g'.action_observed },
              card',
              failed,
            )
      ]

  unfoldable pub mark_action_unknown : Text → PendingCard → Gate → Gate × PendingCard × Bool
  mark_action_unknown cause card g = observe_action outcome_unknown cause [] none card g
