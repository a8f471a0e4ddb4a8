-- ===== src/Proxy/Relay/Response.antt =====
-- The server's side of the stdio proxy, one line of `upstreamToAgent` of internal/proxy/stdio.go, on
-- decoded responses.
use nockguard.Base.{
  ℕ, ◌+◌, Bool, true, false, not, ◌&&◌, ◌||◌, Option, none, some, [], length, if◌then◌else◌, Text,
  codes, text_eq, insert, is_nonempty,
}
use nockguard.Proxy.Queue.{is_durable, clear_audit_failure}
use nockguard.Proxy.Actions.{
  PendingCard, listing, waiting_card, Observation, response_observed, outcome_unknown,
  observe_action, update_card_state,
}
use nockguard.Proxy.Pending.{
  mark_late_reply_suppressed, mark_answered, release_request_id, load_pending_response,
  find_action_pending_response, request_id_in_use, same_id,
}
use nockguard.Proxy.Gate.State.{Gate}
use nockguard.Proxy.Listed.{ListResponse, Filtered, filter_tool_list_response}
use nockguard.Proxy.Relay.State.{Relay, Setting, with_gate, drop_catalog, required_error, settled}

-- A member of a response: absent, not of the type, or of it.
pub record ErrorMember : Type 0 where
  pub is_object : Bool
  pub code_is_int : Bool
  pub message_is_text : Bool

-- `validJSONRPCError`
unfoldable pub valid_json_rpc_error : ErrorMember → Bool
valid_json_rpc_error e = e.is_object && e.code_is_int && e.message_is_text

-- The members of a line, by their exact names as they decode, last of equal names first: the version if
-- it is a text, the raw ID, whether there is a method and a result, and the error.
pub record Members : Type 0 where
  pub version : Option Text
  pub id : Text
  pub has_method : Bool
  pub has_result : Bool
  pub error : Option ErrorMember
  pub is_error_flag : Option Bool

abbrev pub has_error : Option ErrorMember → Bool
has_error none = false
has_error (some e) = true

abbrev pub is_two : Option Text → Bool
is_two none = false
is_two (some version) = text_eq version (codes "2.0")

abbrev pub error_is_valid : Option ErrorMember → Bool
error_is_valid none = true
error_is_valid (some e) = valid_json_rpc_error e

abbrev pub xor : Bool → Bool → Bool
xor true b = not b
xor false b = b

-- `validToolResponseID`, for the equality of raw IDs.
unfoldable pub valid_tool_response_id : (Text → Text → Bool) → Text → Option Members → Bool
valid_tool_response_id same id none = false
valid_tool_response_id same id (some m) =
    is_two m.version
    && same id m.id
    && not m.has_method
    && xor m.has_result (has_error m.error)
    && error_is_valid m.error

-- A line that is one object and nothing else, its names read with `strings.EqualFold`: whether a name
-- comes twice, whether there is an ID, and the members.
pub record FoldedMembers : Type 0 where
  pub members : Members
  pub duplicate_key : Bool
  pub has_id : Bool

-- `invalidActionResponseID`: the ID of a line that answers, and whether it answers badly.
unfoldable pub invalid_action_response_id : Option FoldedMembers → Bool → Option (Text × Bool)
invalid_action_response_id none decode_fails = none
invalid_action_response_id (some f) decode_fails =
    let m = f.members in
    if m.has_method && not m.has_result && not (has_error m.error)
    then none
    else if not f.has_id || not (is_nonempty m.id)
    then none
    else some (
      m.id,
      decode_fails
          || m.has_method
          || f.duplicate_key
          || not (is_two m.version)
          || not (xor m.has_result (has_error m.error))
          || not (error_is_valid m.error),
    )

-- `actionResponseDetails`
unfoldable pub action_response_details : Option Members → Text × Option Bool
action_response_details none = ([], none)
action_response_details (some m) =
    if has_error m.error
    then (codes "jsonrpc_error", none)
    else (codes "jsonrpc_result", m.is_error_flag)

-- A line of the server: whether it decodes, as a notification of a changed list or as a response with
-- an ID, its members read in the two ways, what it is as a listing, and whether its result decodes with
-- an error flag that is set.
pub record ServerLine : Type 0 where
  pub decodes : Bool
  pub list_changed : Bool
  pub response_id : Option Text
  pub decoded_error : Bool
  pub tool_failed : Bool
  pub members : Option Members
  pub folded : Option FoldedMembers
  pub listed : ListResponse

-- What the agent gets of a line: the line, the filtered listing, or an error of the proxy.
pub data Delivery : Type 0 where
  as_sent : Delivery
  filtered : Filtered → Delivery
  unverified failed_after : Text → Delivery

-- The relay, what the agent gets if anything, and whether the write to it failed.
pub record Delivered (Bytes : Type 0) : Type 0 where
  pub relay : Relay Bytes
  pub delivery : Option Delivery
  pub broken : Bool

module _ {Bytes : Type 0} (s : Setting Bytes) where
  abbrev pub observed_by :
      Observation → Text → Option Bool → PendingCard → Gate → Gate × PendingCard
  observed_by o class flag card g =
      let (g', card', failed) =
        observe_action s.world.writer_refuses s.required (λ n. s.latched (n + length g.method_rows))
          o [] class flag card g in
      (g', card')

  abbrev pub quiet : Relay Bytes → Delivered Bytes
  quiet r = record { relay = r; delivery = none; broken = false }

  abbrev pub cleared : ℕ → Relay Bytes → Relay Bytes
  cleared seq r = with_gate (λ g. record g { queue = clear_audit_failure seq g.queue }) r

  -- The write to the agent, and what follows it if it succeeds.
  abbrev pub deliver : Delivery → (Relay Bytes → Relay Bytes) → Relay Bytes → Delivered Bytes
  deliver d next r =
      if s.agent_fails
      then record { relay = r; delivery = some d; broken = true }
      else record { relay = next r; delivery = some d; broken = false }

  abbrev pub released : ℕ → Relay Bytes → Relay Bytes
  released seq r =
      let free = cleared seq r in record free { active = release_request_id seq free.active }

  abbrev pub hold : PendingCard → Relay Bytes → Relay Bytes
  hold card r = record r { pending = insert card.request_id (waiting_card card) r.pending }

  abbrev pub failure_now : Text → Gate → Delivery
  failure_now id g = if required_error s g then failed_after id else unverified id

  -- A bad answer to an action that waits, found by its ID.
  unfoldable pub answer_invalid : PendingCard → Relay Bytes → Delivered Bytes
  answer_invalid card r =
      let (marked, suppressed) = mark_late_reply_suppressed card in
      let (g, card') = observed_by outcome_unknown [] none marked r.gate in
      let noted = settled s card.audit_seq (hold card' (record r { gate = g })) in
      let answered = hold (mark_answered card') in
      if suppressed
      then quiet r
      else deliver (failure_now card.request_id noted.gate)
          (λ done. answered (cleared card.audit_seq done)) noted

  -- A listing's response.
  unfoldable pub answer_listing : ServerLine → ℕ → ℕ → Relay Bytes → Delivered Bytes
  answer_listing line seq build r =
      let (g, result) = filter_tool_list_response s.world.quote seq build line.listed r.gate in
      deliver (filtered result) (released seq) (settled s seq (record r { gate = g }))

  -- What goes to the agent for a good response: an action's only if its rows are written.
  abbrev pub delivery_of : Bool → ℕ → Text → Relay Bytes → Delivery
  delivery_of acts seq id r =
      if required_error s r.gate
      then failed_after id
      else if acts && not (is_durable seq (not (required_error s r.gate)) r.gate.queue)
      then unverified id
      else as_sent

  abbrev pub is_suppressed : PendingCard → Bool
  is_suppressed card = is_nonempty card.action_id && card.suppress_late_response

  -- The card's state, the observation of a good response, and its rows settled.
  unfoldable pub recorded : ServerLine → PendingCard → Relay Bytes → Relay Bytes
  recorded line card r =
      let commits = not (line.decoded_error || is_suppressed card || line.tool_failed) in
      let (current, queue) =
        update_card_state card.audit_seq card.state_tool card.state_refs r.current_card
          r.gate.queue in
      let committed =
        if commits
        then with_gate (λ g. record g { queue = queue }) (record r { current_card = current })
        else r in
      let (class, flag) = action_response_details line.members in
      let g =
        if is_nonempty card.action_id
        then (observed_by response_observed class flag card committed.gate).0
        else committed.gate in
      settled s card.audit_seq (record committed { gate = g })

  -- A good response goes to the agent unless the proxy has answered before.
  unfoldable pub answer_valid : ServerLine → PendingCard → Relay Bytes → Delivered Bytes
  answer_valid line card r =
      let noted = recorded line card r in
      let delivery =
        delivery_of (is_nonempty card.action_id) card.audit_seq card.request_id noted in
      if is_suppressed card
      then quiet (released card.audit_seq noted)
      else deliver delivery (released card.audit_seq) noted

  -- A response whose envelope is bad: the card waits on, and later answers are kept back.
  unfoldable pub answer_flawed : PendingCard → Relay Bytes → Delivered Bytes
  answer_flawed card r =
      let (marked, suppressed) = mark_late_reply_suppressed card in
      let (g, card') = observed_by outcome_unknown [] none marked r.gate in
      let noted = settled s card.audit_seq (hold card' (record r { gate = g })) in
      if suppressed
      then quiet (hold card r)
      else deliver (failure_now card.request_id noted.gate)
          (λ done. hold (mark_answered card') (cleared card.audit_seq done)) noted

  unfoldable pub answer_card : ServerLine → PendingCard → Relay Bytes → Delivered Bytes
  answer_card line card r =
      if is_nonempty card.action_id
        && not (valid_tool_response_id (same_id s.decode_id) card.request_id line.members)
      then answer_flawed card r
      else answer_valid line card r

  -- A response by its ID.
  unfoldable pub answer_response : ServerLine → Text → Relay Bytes → Delivered Bytes
  answer_response line id r =
      let (rest, found) = load_pending_response s.decode_id r.pending id in
      let taken = record r { pending = rest } in
      elim found [
        | some (listing seq build) ↦ answer_listing line seq build taken
        | some (waiting_card card) ↦ answer_card line card taken
        | none ↦
            if request_id_in_use s.decode_id r.pending r.active id
            then quiet r
            else deliver as_sent (λ done. done) r
      ]

  abbrev pub pass_by : ServerLine → Option Text → Relay Bytes → Delivered Bytes
  pass_by line none r = deliver as_sent (λ done. done) r
  pass_by line (some id) r = answer_response line id r

  abbrev pub pass_on : ServerLine → Relay Bytes → Delivered Bytes
  pass_on line r = pass_by line (if line.decodes then line.response_id else none) r

  abbrev pub answer_bad : ServerLine → Text → Option PendingCard → Relay Bytes → Delivered Bytes
  answer_bad line id (some card) r = answer_invalid card r
  answer_bad line id none r =
      if request_id_in_use s.decode_id r.pending r.active id then quiet r else pass_on line r

  -- A bad answer: to an action that waits, to one that has been received, or to none.
  abbrev pub judge_answer : ServerLine → Option (Text × Bool) → Relay Bytes → Delivered Bytes
  judge_answer line none r = pass_on line r
  judge_answer line (some (id, false)) r = pass_on line r
  judge_answer line (some (id, true)) r =
      answer_bad line id (find_action_pending_response s.decode_id r.pending id) r

  -- The whole line.
  unfoldable pub deliver_line : ServerLine → Relay Bytes → Delivered Bytes
  deliver_line line r =
      let fresh = if line.decodes && line.list_changed then drop_catalog r else r in
      judge_answer line (invalid_action_response_id line.folded (not line.decodes)) fresh
