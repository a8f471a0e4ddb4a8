-- ===== src/Proxy/Relay/Withheld.antt =====
-- What the agent gets of the server's answers to an action, internal/proxy/stdio.go.
use nockguard.Base.{
  ℕ, Bool, true, false, not, ◌&&◌, Option, none, some, ◌≡◌, ◌⊎◌, inl, inr, refl, ap, ◌∙◌, arith,
  ◌<◌, at, if◌then◌else◌, Text, lookup, delete, is_nonempty,
}
use nockguard.Audit.Event.{Event}
use nockguard.Proxy.Ranges.{is_resolved}
use nockguard.Proxy.Actions.{PendingCard, waiting_card}
use nockguard.Proxy.Pending.{
  load_pending_response, find_action_pending_response, action_of, mark_late_reply_suppressed,
}
use nockguard.Proxy.Relay.State.{Relay, Setting, required_error, drop_catalog}
use nockguard.Proxy.Relay.Response.{
  invalid_action_response_id, ServerLine, answer_invalid, answer_valid, answer_flawed, answer_card,
  answer_response, judge_answer, pass_on, pass_by, answer_bad, deliver_line,
}

module _ {Bytes : Type 0} (s : Setting Bytes) where
  -- The card waits under the ID for an action whose agent has had the proxy's error.
  pub record IsSuppressed (id : Text) (card : PendingCard) (r : Relay Bytes) : Type 0 where
    pub waits : lookup id r.pending ≡ some (waiting_card card)
    pub acts : is_nonempty card.action_id ≡ true
    pub suppressed : card.suppress_late_response ≡ true

  -- The line answers the ID, however its members are read.
  abbrev pub Answers : Text → ServerLine → Type 0
  Answers id line =
      (line.decodes ≡ true)
      × (line.response_id ≡ some id)
      × ((invalid_action_response_id line.folded (not line.decodes) ≡ none)
          ⊎ ((bad : Bool) × (invalid_action_response_id line.folded (not line.decodes)
                ≡ some (id, bad))))

  answer_flawed-none :
      (card : PendingCard) (r : Relay Bytes)
      → card.suppress_late_response ≡ true
      → (answer_flawed s card r).delivery ≡ none
  unfolding answer_flawed mark_late_reply_suppressed
  answer_flawed-none card r suppressed = rw (suppressed, answer_flawed) refl

  answer_valid-none :
      (line : ServerLine) (card : PendingCard) (r : Relay Bytes)
      → (is_nonempty card.action_id && card.suppress_late_response) ≡ true
      → (answer_valid s line card r).delivery ≡ none
  unfolding answer_valid
  answer_valid-none line card r suppressed = rw (suppressed, answer_valid) refl

  answer_card-none :
      (line : ServerLine) (card : PendingCard) (r : Relay Bytes)
      → is_nonempty card.action_id ≡ true
      → card.suppress_late_response ≡ true
      → (answer_card s line card r).delivery ≡ none
  unfolding answer_card
  answer_card-none line card r acts suppressed =
      ground (arith, answer_flawed-none card r suppressed, answer_valid-none line card r)

  answer_invalid-none :
      (card : PendingCard) (r : Relay Bytes)
      → card.suppress_late_response ≡ true
      → (answer_invalid s card r).delivery ≡ none
  unfolding answer_invalid mark_late_reply_suppressed
  answer_invalid-none card r suppressed = rw (suppressed, answer_invalid) refl

  load-waiting :
      (id : Text) (card : PendingCard) (r : Relay Bytes)
      → IsSuppressed id card r
      → load_pending_response s.decode_id r.pending id
        ≡ (delete id r.pending, some (waiting_card card))
  unfolding load_pending_response
  load-waiting id card r q = rw (q.waits, load_pending_response) refl

  find-waiting :
      (id : Text) (card : PendingCard) (r : Relay Bytes)
      → IsSuppressed id card r
      → find_action_pending_response s.decode_id r.pending id ≡ some card
  unfolding find_action_pending_response action_of
  find-waiting id card r q =
      rw (q.waits, find_action_pending_response) (rw (q.acts, action_of) refl)

  answer_response-none :
      (line : ServerLine) (id : Text) (card : PendingCard) (r : Relay Bytes)
      → IsSuppressed id card r
      → (answer_response s line id r).delivery ≡ none
  unfolding answer_response
  answer_response-none line id card r q =
      simp (load-waiting id card r q, answer_response)
        (answer_card-none line card (record r { pending = delete id r.pending }) q.acts
          q.suppressed)

  pass_on-none :
      (line : ServerLine) (id : Text) (card : PendingCard) (r : Relay Bytes)
      → IsSuppressed id card r
      → line.decodes ≡ true
      → line.response_id ≡ some id
      → (pass_on s line r).delivery ≡ none
  pass_on-none line id card r q decodes own =
      ap (λ o. (pass_by s line o r).delivery) found ∙ answer_response-none line id card r q
    where
      found : (if line.decodes then line.response_id else none) ≡ some id
      found = ground (arith, decodes, own)

  answers-none :
      (line : ServerLine) (id : Text) (card : PendingCard) (r : Relay Bytes)
      (answer : Option (Text × Bool))
      → IsSuppressed id card r
      → line.decodes ≡ true
      → line.response_id ≡ some id
      → (answer ≡ none) ⊎ ((bad : Bool) × (answer ≡ some (id, bad)))
      → (judge_answer s line answer r).delivery ≡ none
  answers-none line id card r none q decodes own read = pass_on-none line id card r q decodes own
  answers-none line id card r (some (other, false)) q decodes own read =
      pass_on-none line id card r q decodes own
  answers-none line id card r (some (other, true)) q decodes own (inl nothing) = absurd cc
  answers-none line id card r (some (other, true)) q decodes own (inr (bad, same)) =
      let own_id : other ≡ id = cc in
      rw own_id (
        ap (λ c. (answer_bad s line id c r).delivery) (find-waiting id card r q)
        ∙ answer_invalid-none card r q.suppressed)

  -- An action whose agent has had the proxy's own error for a bad answer gets no second answer: a line
  -- that answers its ID again, well or badly, is not delivered while its card waits.
  pub deliver_line-suppressed :
      (line : ServerLine) (id : Text) (card : PendingCard) (r : Relay Bytes)
      → IsSuppressed id card r
      → Answers id line
      → (deliver_line s line r).delivery ≡ none
  unfolding deliver_line
  deliver_line-suppressed line id card r q (decodes, own, read) = fresh line.list_changed
    where
      answer : Option (Text × Bool)
      answer = invalid_action_response_id line.folded (not line.decodes)

      fresh :
          (changed : Bool)
          → (judge_answer s line answer
              (if line.decodes && changed then drop_catalog r else r)).delivery
            ≡ none
      fresh changed = go (line.decodes && changed)
        where
          go :
              (b : Bool)
              → (judge_answer s line answer (if b then drop_catalog r else r)).delivery ≡ none
          go true =
              answers-none line id card (drop_catalog r) answer
                (record { waits = q.waits; acts = q.acts; suppressed = q.suppressed }) decodes own
                read
          go false = answers-none line id card r answer q decodes own read

  -- The writer has refused no row of the sequence and required audit has not failed; and the frontier has
  -- passed the sequence, or it is resolved and none of its rows waits.
  pub record IsRecorded (seq : ℕ) (r : Relay Bytes) : Type 0 where
    pub accepted : at seq r.gate.queue.failed ≡ none
    pub works : required_error s r.gate ≡ false
    pub flushed :
        (seq < r.gate.queue.next)
        ⊎ ((is_resolved seq r.gate.queue.resolved ≡ true) × (at seq r.gate.queue.todo ≡ none))
