-- ===== src/Proxy/Relay/Keeping.antt =====
-- A line of the server sends nothing to it and takes no row back, `upstreamToAgent` of
-- internal/proxy/stdio.go.
use nockguard.Base.{
  ℕ, ◌+◌, ◌≤◌, Bool, true, false, not, ◌&&◌, ◌||◌, ℤ, Option, none, some, List, [], ◌∷◌, ◌≡◌, refl,
  ap, ◌∙◌, arith, length, Text, if◌then◌else◌, is_nonempty,
}
use nockguard.Proxy.Actions.{
  Observation, outcome_unknown, response_observed, PendingCard, Waiting, listing, waiting_card,
  update_card_state,
}
use nockguard.Proxy.Calls.{References}
use nockguard.Proxy.Pending.{
  load_pending_response, find_action_pending_response, request_id_in_use,
  mark_late_reply_suppressed, mark_answered,
}
use nockguard.Proxy.Queue.{AuditQueue, clear_audit_failure, queue_row}
use nockguard.Proxy.Grown.{resolve_audit-grows, observe_action-grows}
use nockguard.Proxy.Gate.State.{Gate, append_audit, append_audit_by}
use nockguard.Proxy.Listed.{
  ListedTool, ListPage, ListResponse, not_object, bad_result, failed, tool_page, PageView, hide,
  hidden_for, named, keep, invalid, filter_tools, finish_listing, filter_page, view_page,
  filter_tool_list_response,
}
use nockguard.Proxy.Relay.State.{Relay, Setting, drop_catalog, settled}
use nockguard.Proxy.Relay.Kept.{observe_action-method_rows}
use nockguard.Proxy.Relay.Response.{
  ServerLine, Delivery, as_sent, filtered, hold, failure_now, Delivered, observed_by,
  action_response_details, quiet, deliver, released, cleared, recorded, delivery_of, answer_invalid,
  answer_valid, answer_flawed, answer_card, answer_listing, answer_response, judge_answer,
  answer_bad, pass_by, pass_on, is_suppressed, deliver_line, invalid_action_response_id,
}

-- The rows that the writer was called with.
abbrev pub written : Gate → ℕ
written g = length g.queue.log + length g.method_rows

append_audit-written :
    (seq : ℕ) (tool decision reason : Text) (refs : Option References) (g : Gate)
    → written (append_audit seq tool decision reason refs g) ≡ written g
unfolding append_audit append_audit_by queue_row
append_audit-written seq tool decision reason refs g = ground arith

module _ (quote : Text → Text) (seq : ℕ) where
  hide-written :
      (name : Text) (reason : Option Text) (g : Gate)
      → written (hide quote seq name reason g) ≡ written g
  hide-written name none g = refl
  hide-written name (some reason) g = append_audit-written seq name _ reason none g

  filter_tools-written :
      (view : PageView) (tools : List ListedTool) (g : Gate)
      → written (filter_tools quote seq view tools g).0 ≡ written g
  unfolding filter_tools
  filter_tools-written view [] g = refl
  filter_tools-written view (tool ∷ tools) g =
      go (filter_tools-written view tools) (named quote seq tool.name)
    where
      go :
          ((k : Gate) → written (filter_tools quote seq view tools k).0 ≡ written k)
          → (o : Option Text)
          → written (
              let x : Gate × Option (List ListedTool) = elim o [
                | none ↦ (g, none)
                | some name ↦
                    let hidden = hidden_for quote seq view name g in
                    let (g', rest) =
                      filter_tools quote seq view tools (hide quote seq name hidden g) in
                    (
                      g',
                      elim rest [
                        | none ↦ none
                        | some more ↦ some (keep quote seq tool hidden more)
                      ],
                    )
              ] in
              x.0)
            ≡ written g
      go again none = refl
      go again (some name) =
          again (hide quote seq name (hidden_for quote seq view name g) g)
          ∙ hide-written name (hidden_for quote seq view name g) g

  invalid-written : (g : Gate) → written (invalid quote seq g).0 ≡ written g
  unfolding invalid
  invalid-written g = grind (arith, append_audit-written)

  view_page-written :
      (build : ℕ) (page : ListPage) (g : Gate)
      → written (view_page quote seq build page g).0 ≡ written g
  unfolding view_page
  view_page-written build page g = ground arith

  finish_listing-written :
      (view : PageView) (page : ListPage) (cursor : Text) (tools : List ListedTool) (g : Gate)
      → written (finish_listing quote seq view page cursor tools g).0 ≡ written g
  unfolding finish_listing
  finish_listing-written view page cursor tools g = grind (arith, invalid-written)

  filter_page-written :
      (view : PageView) (page : ListPage) (cursor : Text) (g : Gate)
      → written (filter_page quote seq view page cursor g).0 ≡ written g
  unfolding filter_page
  filter_page-written view page cursor g =
      grind (arith, filter_tools-written, invalid-written, finish_listing-written)

  filter_tool_list_response-written :
      (build : ℕ) (response : ListResponse) (g : Gate)
      → written (filter_tool_list_response quote seq build response g).0 ≡ written g
  unfolding filter_tool_list_response
  filter_tool_list_response-written build not_object g = ground arith
  filter_tool_list_response-written build bad_result g = grind (arith, invalid-written)
  filter_tool_list_response-written build (failed has_result) g = grind (arith, invalid-written)
  filter_tool_list_response-written build (tool_page page) g =
      let (g', view, cursor) = view_page quote seq build page g in
      filter_page-written view page cursor g' ∙ view_page-written build page g

module _ {Bytes : Type 0} (s : Setting Bytes) where
  -- Nothing is sent to the server, and no row is taken back.
  abbrev pub Keeps : Relay Bytes → Relay Bytes → Type 0
  Keeps r r' = (r'.to_server ≡ r.to_server) × (written r.gate ≤ written r'.gate)

  Keeps-after : (a b c : Relay Bytes) → Keeps a b → Keeps b c → Keeps a c
  Keeps-after a b c (p, m) (q, n) = (q ∙ p, omega (arith, m, n))

  observed_by-written :
      (o : Observation) (class : Text) (flag : Option Bool) (card : PendingCard) (g : Gate)
      → written g ≤ written (observed_by s o class flag card g).0
  observed_by-written o class flag card g =
      let latch : ℕ → Bool = λ n. s.latched (n + length g.method_rows) in
      let log =
        observe_action-grows s.world.writer_refuses s.required latch o [] class flag card g in
      let rows =
        observe_action-method_rows s.world.writer_refuses s.required latch o [] class flag card g in
      let same = ap length rows in omega (arith, log, same)

  settled-Keeps : (seq : ℕ) (r : Relay Bytes) → Keeps r (settled s seq r)
  settled-Keeps seq r =
      let log = resolve_audit-grows s.world.writer_refuses seq r.gate.queue in
      (refl, omega (arith, log))

  noted-Keeps :
      (o : Observation) (class : Text) (flag : Option Bool) (marked : PendingCard) (seq : ℕ)
      (r : Relay Bytes)
      → Keeps r (settled s seq (record r { gate = (observed_by s o class flag marked r.gate).0 }))
  noted-Keeps o class flag marked seq r =
      let looked = record r { gate = (observed_by s o class flag marked r.gate).0 } in
      Keeps-after r looked (settled s seq looked)
        (refl, observed_by-written o class flag marked r.gate) (settled-Keeps seq looked)

  -- The relay after the write is the one before it or what follows it.
  deliver-Keeps :
      (d : Delivery) (next : Relay Bytes → Relay Bytes) (start r : Relay Bytes)
      → Keeps start r
      → Keeps start (next r)
      → Keeps start (deliver s d next r).relay
  deliver-Keeps d next start r p q = go s.agent_fails
    where
      go :
          (b : Bool)
          → Keeps start (
              let x : Delivered Bytes =
                if b
                then record { relay = r; delivery = some d; broken = true }
                else record { relay = next r; delivery = some d; broken = false } in
              x.relay)
      go true = p
      go false = q

  if-Keeps :
      (b : Bool) (start : Relay Bytes) (x y : Delivered Bytes)
      → Keeps start x.relay
      → Keeps start y.relay
      → Keeps start (if b then x else y).relay
  if-Keeps true start x y p q = p
  if-Keeps false start x y p q = q

  answer_flawed-Keeps :
      (card : PendingCard) (r : Relay Bytes) → Keeps r (answer_flawed s card r).relay
  unfolding answer_flawed mark_late_reply_suppressed clear_audit_failure
  answer_flawed-Keeps card r =
      let marked = record card { suppress_late_response = true } in
      let (g, card') = observed_by s outcome_unknown [] none marked r.gate in
      let noted = settled s card.audit_seq (hold s card' (record r { gate = g })) in
      let next : Relay Bytes → Relay Bytes =
        λ done. hold s (mark_answered card') (cleared s card.audit_seq done) in
      let kept : Keeps r noted = noted-Keeps outcome_unknown [] none marked card.audit_seq r in
      if-Keeps card.suppress_late_response r (quiet s (hold s card r))
        (deliver s (failure_now s card.request_id noted.gate) next noted) (refl, omega arith)
        (deliver-Keeps (failure_now s card.request_id noted.gate) next r noted kept kept)

  answer_invalid-Keeps :
      (card : PendingCard) (r : Relay Bytes) → Keeps r (answer_invalid s card r).relay
  unfolding answer_invalid mark_late_reply_suppressed clear_audit_failure
  answer_invalid-Keeps card r =
      let marked = record card { suppress_late_response = true } in
      let (g, card') = observed_by s outcome_unknown [] none marked r.gate in
      let noted = settled s card.audit_seq (hold s card' (record r { gate = g })) in
      let next : Relay Bytes → Relay Bytes =
        λ done. hold s (mark_answered card') (cleared s card.audit_seq done) in
      let kept : Keeps r noted = noted-Keeps outcome_unknown [] none marked card.audit_seq r in
      if-Keeps card.suppress_late_response r (quiet s r)
        (deliver s (failure_now s card.request_id noted.gate) next noted) (refl, omega arith)
        (deliver-Keeps (failure_now s card.request_id noted.gate) next r noted kept kept)

  either-Keeps :
      (b : Bool) (start x y : Relay Bytes)
      → Keeps start x
      → Keeps start y
      → Keeps start (if b then x else y)
  either-Keeps true start x y p q = p
  either-Keeps false start x y p q = q

  observed-Keeps :
      (acts : Bool) (line : ServerLine) (card : PendingCard) (start r : Relay Bytes)
      → Keeps start r
      → let (class, flag) = action_response_details line.members in
        let g =
          if acts then (observed_by s response_observed class flag card r.gate).0 else r.gate in
        Keeps start (settled s card.audit_seq (record r { gate = g }))
  observed-Keeps true line card start r h =
      let (class, flag) = action_response_details line.members in
      let g = (observed_by s response_observed class flag card r.gate).0 in
      Keeps-after start r (settled s card.audit_seq (record r { gate = g })) h
        (noted-Keeps response_observed class flag card card.audit_seq r)
  observed-Keeps false line card start r h =
      Keeps-after start r (settled s card.audit_seq r) h (settled-Keeps card.audit_seq r)

  update_card_state-log :
      (seq : ℕ) (tool : Text) (refs : References) (current : ℤ) (q : AuditQueue)
      → (update_card_state seq tool refs current q).1.log ≡ q.log
  unfolding update_card_state
  update_card_state-log seq tool refs current q = ground arith

  recorded-Keeps :
      (line : ServerLine) (card : PendingCard) (r : Relay Bytes) → Keeps r (recorded s line card r)
  unfolding recorded
  recorded-Keeps line card r =
      let (current, queue) =
        update_card_state card.audit_seq card.state_tool card.state_refs r.current_card
          r.gate.queue in
      let log =
        update_card_state-log card.audit_seq card.state_tool card.state_refs r.current_card
          r.gate.queue in
      let same = ap length log in
      let stated : Relay Bytes = record r {
        gate = record r.gate { queue = queue };
        current_card = current;
      } in
      observed-Keeps (is_nonempty card.action_id) line card r
        (if not (line.decoded_error || is_suppressed s card || line.tool_failed) then stated else r)
        (either-Keeps (not (line.decoded_error || is_suppressed s card || line.tool_failed)) r
          stated r (refl, omega (arith, same)) (refl, omega arith))

  answer_valid-Keeps :
      (line : ServerLine) (card : PendingCard) (r : Relay Bytes)
      → Keeps r (answer_valid s line card r).relay
  unfolding answer_valid clear_audit_failure
  answer_valid-Keeps line card r =
      let kept = recorded-Keeps line card r in
      let noted = recorded s line card r in
      let d = delivery_of s (is_nonempty card.action_id) card.audit_seq card.request_id noted in
      let next : Relay Bytes → Relay Bytes = released s card.audit_seq in
      if-Keeps (is_suppressed s card) r (quiet s (next noted)) (deliver s d next noted) kept
        (deliver-Keeps d next r noted kept kept)

  answer_card-Keeps :
      (line : ServerLine) (card : PendingCard) (r : Relay Bytes)
      → Keeps r (answer_card s line card r).relay
  unfolding answer_card
  answer_card-Keeps line card r =
      if-Keeps _ r (answer_flawed s card r) (answer_valid s line card r)
        (answer_flawed-Keeps card r) (answer_valid-Keeps line card r)

  answer_listing-Keeps :
      (line : ServerLine) (seq build : ℕ) (r : Relay Bytes)
      → Keeps r (answer_listing s line seq build r).relay
  unfolding answer_listing clear_audit_failure
  answer_listing-Keeps line seq build r =
      let rows = filter_tool_list_response-written s.world.quote seq build line.listed r.gate in
      let g = (filter_tool_list_response s.world.quote seq build line.listed r.gate).0 in
      let kept =
        Keeps-after r (record r { gate = g }) (settled s seq (record r { gate = g }))
          (refl, omega (arith, rows)) (settled-Keeps seq (record r { gate = g })) in
      let result = (filter_tool_list_response s.world.quote seq build line.listed r.gate).1 in
      deliver-Keeps (filtered result) (released s seq) r (settled s seq (record r { gate = g }))
        kept kept

  answer_response-Keeps :
      (line : ServerLine) (id : Text) (r : Relay Bytes)
      → Keeps r (answer_response s line id r).relay
  unfolding answer_response
  answer_response-Keeps line id r = go (load_pending_response s.decode_id r.pending id).1
    where
      taken : Relay Bytes
      taken = record r { pending = (load_pending_response s.decode_id r.pending id).0 }

      go :
          (found : Option Waiting)
          → Keeps r (
              let x : Delivered Bytes = elim found [
                | some (listing seq build) ↦ answer_listing s line seq build taken
                | some (waiting_card card) ↦ answer_card s line card taken
                | none ↦
                    if request_id_in_use s.decode_id r.pending r.active id
                    then quiet s r
                    else deliver s as_sent (λ done. done) r
              ] in
              x.relay)
      go none =
          if-Keeps (request_id_in_use s.decode_id r.pending r.active id) r (quiet s r)
            (deliver s as_sent (λ done. done) r) (refl, omega arith)
            (deliver-Keeps as_sent (λ done. done) r r (refl, omega arith) (refl, omega arith))
      go (some (listing seq build)) = answer_listing-Keeps line seq build taken
      go (some (waiting_card card)) = answer_card-Keeps line card taken

  pass_on-Keeps : (line : ServerLine) (r : Relay Bytes) → Keeps r (pass_on s line r).relay
  pass_on-Keeps line r = go (if line.decodes then line.response_id else none)
    where
      go : (o : Option Text) → Keeps r (pass_by s line o r).relay
      go none = deliver-Keeps as_sent (λ done. done) r r (refl, omega arith) (refl, omega arith)
      go (some id) = answer_response-Keeps line id r

  judge_answer-Keeps :
      (line : ServerLine) (answer : Option (Text × Bool)) (r : Relay Bytes)
      → Keeps r (judge_answer s line answer r).relay
  judge_answer-Keeps line none r = pass_on-Keeps line r
  judge_answer-Keeps line (some (id, false)) r = pass_on-Keeps line r
  judge_answer-Keeps line (some (id, true)) r =
      go (find_action_pending_response s.decode_id r.pending id)
    where
      go : (o : Option PendingCard) → Keeps r (answer_bad s line id o r).relay
      go (some card) = answer_invalid-Keeps card r
      go none =
          if-Keeps (request_id_in_use s.decode_id r.pending r.active id) r (quiet s r)
            (pass_on s line r) (refl, omega arith) (pass_on-Keeps line r)

  pub deliver_line-Keeps :
      (line : ServerLine) (r : Relay Bytes) → Keeps r (deliver_line s line r).relay
  unfolding deliver_line
  deliver_line-Keeps line r = go (line.decodes && line.list_changed)
    where
      answer : Option (Text × Bool)
      answer = invalid_action_response_id line.folded (not line.decodes)

      go : (b : Bool) → Keeps r (judge_answer s line answer (if b then drop_catalog r else r)).relay
      go true = judge_answer-Keeps line answer (drop_catalog r)
      go false = judge_answer-Keeps line answer r
