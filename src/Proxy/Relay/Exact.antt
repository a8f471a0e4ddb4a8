-- ===== src/Proxy/Relay/Exact.antt =====
-- Every line that `agentToUpstream` of internal/proxy/stdio.go takes is answered or forwarded.
use nockguard.Base.{
  ℕ, Bool, true, false, not, ◌&&◌, ◌||◌, ◌==◌, Option, none, some, [], ◌≡◌, ◌⊎◌, inl, inr, refl,
  sym, arith, if◌then◌else◌, Text, codes, Bool-cases, insert, Result, ok, err,
}
use mathlib.Core.Path.{subst}
use nockguard.Policy.Evaluate.{has_tool_pin_constraints}
use nockguard.Proxy.Json.{Fields, obj, set_member}
use nockguard.Proxy.Actions.{new_action_id, listing}
use nockguard.Proxy.Pending.{track_request_id}
use nockguard.Proxy.Queue.{reserve_audit_sequence, queue_action_id}
use nockguard.Proxy.Gate.Types.{Message, McpDecision, RejectCode, MessageFailure, internal_error}
use nockguard.Proxy.Gate.Decide.{decide_canonical, is_oversized}
use nockguard.Proxy.Gate.AtOnce.{dispatches, decide_canonical-dispatches}
use nockguard.Proxy.Gate.Judged.{
  IsRejected, IsOwn, Judged, decide_canonical-Judged, decide_failure-Judged,
}
use nockguard.Proxy.Relay.State.{
  audit_unavailable, Relay, Line, Setting, with_gate, drop_listing, required_error, reply,
}
use nockguard.Proxy.Relay.Refuse.{
  refuse_oversized, refuse_duplicate, refuse_unaudited, refuse_decided, refuse_listing,
}
use nockguard.Proxy.Relay.Send.{send}
use nockguard.Proxy.Relay.Line.{
  is_call_message, checked_name, checked_kind, begin_listing, is_waiting, carry_out, carry_listing,
  judge, is_in_use, check_id, name_action, admit, checked, relay_line,
}
use nockguard.Proxy.Relay.Answered.{
  Answered, refuse_oversized-Answered, refuse_duplicate-Answered, refuse_unaudited-Answered,
  refuse_decided-Answered, refuse_listing-Answered, reply-Answered_same, drop_listing-to_server,
  drop_listing-to_agent, drop_listing-dispatches,
}
use nockguard.Proxy.Relay.Sent.{Silent}
use nockguard.Proxy.Relay.Outcomes.{
  Outcome, answered, Outcome-before, Answered-after, finish-Silent, send-Outcome,
}

-- The bytes of a message carry its ID, as canonical bytes and encoded anew.
pub record Faithful {Bytes : Type 0} (s : Setting Bytes) (msg : Message) (line : Bytes)
    : Type 0 where
  pub line_id : s.id_of line ≡ msg.id
  pub encoded_id :
      (params : Fields) (b : Bytes)
      → s.world.encode (set_member (codes "params") (obj params) msg.members) ≡ some b
      → s.id_of b ≡ msg.id

-- Both branches of a test have the outcome.
if_either :
    {Bytes : Type 0} (s : Setting Bytes) (id : Option Text) (r : Relay Bytes) (b : Bool)
    (x y : Relay Bytes × Bool)
    → Outcome s id r x.0
    → Outcome s id r y.0
    → Outcome s id r (if b then x else y).0
if_either s id r true x y p q = p
if_either s id r false x y p q = q

module _ {Bytes : Type 0} (s : Setting Bytes) (l : Line Bytes) (id : Option Text) where
  abbrev HasId : Bytes → Type 0
  HasId b = s.id_of b ≡ id

  carry_out-Outcome :
      (d : McpDecision Bytes) (deferred : Bool) (seq : ℕ) (action_id : Text) (r : Relay Bytes)
      → IsRejected HasId id d.reject d.forward d.reject_id
      → Outcome s id r (carry_out s l d deferred seq action_id r).0
  unfolding carry_out
  carry_out-Outcome d deferred seq action_id r = go d.reject d.forward refl refl
    where
      go :
          (reject : Option RejectCode) (forward : Option Bytes)
          → d.reject ≡ reject
          → d.forward ≡ forward
          → IsRejected HasId id reject forward d.reject_id
          → Outcome s id r (carry_out s l d deferred seq action_id r).0
      go (some code) forward e f (nothing, same) =
          rw (e, carry_out)
            (Answered-after s
              (subst (λ i. Answered i r (refuse_decided s l d code seq action_id r).0) same
                (refuse_decided-Answered s l d code seq action_id r))
              (finish-Silent s deferred seq (refuse_decided s l d code seq action_id r)))
      go none none e f bad = absurd bad
      go none (some bytes) e f good =
          rw (e, carry_out)
            (rw f (
              subst
                (λ i.
                  Outcome s i r
                    (send s d bytes (deferred || is_waiting s d.forward_id) seq action_id r).0)
                good
                (send-Outcome s d bytes (deferred || is_waiting s d.forward_id) seq action_id r)))

  carry_listing-Outcome :
      (d : McpDecision Bytes) (seq : ℕ) (action_id : Text) (r : Relay Bytes)
      → Judged HasId id d
      → Outcome s id r (carry_listing s l d seq action_id r).0
  unfolding carry_listing dispatches
  carry_listing-Outcome d seq action_id r (judged, own) = go d.tools_list_id refl own
    where
      begun : Relay Bytes
      begun = with_gate (λ g. record g { catalog = (begin_listing l.params r.gate.catalog).0 }) r

      page : ℕ
      page = (begin_listing l.params r.gate.catalog).1

      tracked : Text → Relay Bytes
      tracked waiting = record begun {
        pending = insert waiting (listing seq page) begun.pending;
        active = track_request_id seq waiting begun.active;
      }

      begun-Silent : Silent s r begun
      begun-Silent = record { server = refl; agent = refl; rows = refl }

      tracked-Silent : (waiting : Text) → Silent s r (tracked waiting)
      tracked-Silent waiting = record { server = refl; agent = refl; rows = refl }

      go :
          (waits : Option Text)
          → d.tools_list_id ≡ waits
          → IsOwn HasId id waits
          → Outcome s id r (carry_listing s l d seq action_id r).0
      go none e own' = simp (e, carry_listing) (carry_out-Outcome d false seq action_id r judged)
      go (some waiting) e own' =
          simp (e, carry_listing)
            (if_either s id r (page == 0 && has_tool_pin_constraints r.gate.engine r.gate.agent)
              (refuse_listing s waiting seq begun)
              (carry_out s l d true seq action_id (tracked waiting))
              (Outcome-before s begun-Silent (
                answered (
                  subst (λ i. Answered i begun (refuse_listing s waiting seq begun).0) (sym own')
                    (refuse_listing-Answered s waiting seq begun))))
              (Outcome-before s (tracked-Silent waiting)
                (carry_out-Outcome d true seq action_id (tracked waiting) judged)))

  refused_id-eq :
      (reject : Option RejectCode) (forward : Option Bytes) (reject_id : Option Text)
      → IsRejected HasId id reject forward reject_id
      → (let i : Option Text = elim forward [ none ↦ reject_id | some bytes ↦ s.id_of bytes ] in i)
        ≡ id
  refused_id-eq (some code) none reject_id (nothing, same) = same
  refused_id-eq (some code) (some b) reject_id (nothing, same) = absurd cc
  refused_id-eq none none reject_id bad = absurd bad
  refused_id-eq none (some b) reject_id good = good

  judge-Outcome :
      (seq : ℕ) (action_id : Text) (r : Relay Bytes)
      → Judged HasId id (decide_canonical s.world l.canonical seq r.gate).1
      → Outcome s id r (judge s l seq action_id r).0
  unfolding judge
  judge-Outcome seq action_id r j =
      let (g, d) = decide_canonical s.world l.canonical seq r.gate in
      let decided = record r { gate = g } in
      let quiet : Silent s r decided = record {
        server = refl;
        agent = refl;
        rows = decide_canonical-dispatches s.world l.canonical seq r.gate;
      } in
      if_either s id r (required_error s g) (refuse_unaudited s d seq action_id decided)
        (carry_listing s l d seq action_id decided)
        (Outcome-before s quiet (
          answered (
            subst (λ i. Answered i decided (refuse_unaudited s d seq action_id decided).0)
              (refused_id-eq d.reject d.forward d.reject_id j.0)
              (refuse_unaudited-Answered s d seq action_id decided))))
        (Outcome-before s quiet (carry_listing-Outcome d seq action_id decided j))

  reserved_Silent :
      (r : Relay Bytes)
      → Silent s r (with_gate (λ g. record g { queue = (reserve_audit_sequence g.queue).0 }) r)
  unfolding dispatches
  reserved_Silent r = record { server = refl; agent = refl; rows = refl }

module _ {Bytes : Type 0} (s : Setting Bytes) (l : Line Bytes) (r : Relay Bytes) where
  abbrev refused_early : Relay Bytes × Bool
  refused_early = reply s l.raw_id internal_error audit_unavailable (drop_listing l (checked s l r))

  checked-Silent : Silent s r (checked s l r)
  unfolding dispatches
  checked-Silent = record { server = ground arith; agent = ground arith; rows = ground arith }

  refused_early-Outcome : Outcome s l.raw_id r refused_early.0
  refused_early-Outcome = Outcome-before s checked-Silent (
      answered (
        reply-Answered_same s l.raw_id internal_error audit_unavailable (checked s l r)
          (drop_listing l (checked s l r)) (drop_listing-to_server l (checked s l r))
          (drop_listing-to_agent l (checked s l r)) (drop_listing-dispatches l (checked s l r))))

-- A line that is a message with its ID.
module _ {Bytes : Type 0} (s : Setting Bytes) (l : Line Bytes) (msg : Message) (line : Bytes)
    (read : l.canonical ≡ ok (msg, line)) (faithful : Faithful s msg line) where
  check_id-Outcome :
      (seq : ℕ) (action_id : Text) (r : Relay Bytes)
      → Outcome s msg.id r (check_id s l msg seq action_id r).0
  unfolding check_id
  check_id-Outcome seq action_id r =
      if_either s msg.id r (is_in_use s msg r) (refuse_duplicate s l msg seq action_id r)
        (judge s l seq action_id r) (answered (refuse_duplicate-Answered s l msg seq action_id r))
        (judge-Outcome s l msg.id seq action_id r (
          subst (λ m. Judged (HasId s l msg.id) msg.id (decide_canonical s.world m seq r.gate).1)
            (sym read)
            (decide_canonical-Judged s.world msg (HasId s l msg.id) faithful.encoded_id line
              faithful.line_id seq r.gate)))

  name_action-Outcome :
      (seq : ℕ) (r : Relay Bytes) → Outcome s msg.id r (name_action s l msg seq r).0
  unfolding name_action dispatches
  name_action-Outcome seq r =
      if_either s msg.id r (not (is_call_message msg)) (check_id s l msg seq [] r) _
        (check_id-Outcome seq [] r) (go (new_action_id r.gate.action_run_id r.counter))
    where
      named : ℕ → Text → Relay Bytes
      named counter action_id =
          with_gate (λ g. record g { queue = queue_action_id seq action_id g.queue })
            (record r { counter = counter })

      named-Silent : (counter : ℕ) (action_id : Text) → Silent s r (named counter action_id)
      named-Silent counter action_id = record { server = refl; agent = refl; rows = refl }

      go :
          (o : Option (ℕ × Text))
          → Outcome s msg.id r (
              let x : Relay Bytes × Bool = elim o [
                | none ↦ ((reply s msg.id internal_error audit_unavailable r).0, true)
                | some (counter, action_id) ↦
                    check_id s l msg seq action_id (named counter action_id)
              ] in
              x.0)
      go none =
          answered
            (reply-Answered_same s msg.id internal_error audit_unavailable r r refl refl refl)
      go (some (counter, action_id)) =
          Outcome-before s (named-Silent counter action_id)
            (check_id-Outcome seq action_id (named counter action_id))

  admit-Outcome : (r : Relay Bytes) → Outcome s msg.id r (admit s l r).0
  unfolding admit
  admit-Outcome r =
      let seq = (reserve_audit_sequence r.gate.queue).1 in
      let reserved = with_gate (λ g. record g { queue = (reserve_audit_sequence g.queue).0 }) r in
      simp (read, admit)
        (if_either s msg.id r (is_oversized s.world (checked_name msg))
          (refuse_oversized s l (checked_kind msg) (checked_name msg) msg.id seq reserved)
          (name_action s l msg seq reserved)
          (Outcome-before s (reserved_Silent s l msg.id r) (
            answered (
              refuse_oversized-Answered s l (checked_kind msg) (checked_name msg) msg.id seq
                reserved)))
          (Outcome-before s (reserved_Silent s l msg.id r) (name_action-Outcome seq reserved)))

  pub relay_line-Outcome :
      (r : Relay Bytes)
      → s.stopping ≡ false
      → l.raw_id ≡ msg.id
      → Outcome s msg.id r (relay_line s l r).0
  unfolding relay_line
  relay_line-Outcome r running same =
      simp (running, relay_line)
        (if_either s msg.id r (required_error s (checked s l r).gate) (refused_early s l r)
          (admit s l (checked s l r))
          (subst (λ i. Outcome s i r (refused_early s l r).0) same (refused_early-Outcome s l r))
          (Outcome-before s (checked-Silent s l r) (admit-Outcome (checked s l r))))

-- What is known of a line's bytes, where it is a message.
abbrev pub IsReadable :
    {Bytes : Type 0} → Setting Bytes → Result MessageFailure (Message × Bytes) → Type 0
IsReadable s (err failure) = Unit
IsReadable s (ok (msg, line)) = Faithful s msg line

admitted-Outcome :
    {Bytes : Type 0} (s : Setting Bytes) (l : Line Bytes)
    (m : Result MessageFailure (Message × Bytes)) (r : Relay Bytes)
    → l.canonical ≡ m
    → IsReadable s m
    → (id : Option Text) × Outcome s id r (admit s l r).0
unfolding admit
admitted-Outcome s l (ok (msg, line)) r read faithful =
    (msg.id, admit-Outcome s l msg line read faithful r)
admitted-Outcome s l (err failure) r read faithful =
    let null_id = some (codes "null") in
    let reserved = with_gate (λ g. record g { queue = (reserve_audit_sequence g.queue).0 }) r in
    let seq = (reserve_audit_sequence r.gate.queue).1 in
    (
      null_id,
      simp (read, admit)
          (Outcome-before s (reserved_Silent s l null_id r) (
            judge-Outcome s l null_id seq [] reserved (
              subst
                (λ m.
                  Judged (HasId s l null_id) null_id
                    (decide_canonical s.world m seq reserved.gate).1)
                (sym read)
                (decide_failure-Judged s.world (HasId s l null_id) failure seq reserved.gate)))),
    )

either_ends :
    {Bytes : Type 0} (s : Setting Bytes) (r : Relay Bytes) (b : Bool) (x y : Relay Bytes × Bool)
    → (id : Option Text) × Outcome s id r x.0
    → (id : Option Text) × Outcome s id r y.0
    → (id : Option Text) × Outcome s id r (if b then x else y).0
either_ends s r true x y p q = p
either_ends s r false x y p q = q

-- Any line has an outcome, or the run is stopping.
pub relay_line-ends :
    {Bytes : Type 0} (s : Setting Bytes) (l : Line Bytes) (r : Relay Bytes)
    → IsReadable s l.canonical
    → (r ≡ (relay_line s l r).0) ⊎ ((id : Option Text) × Outcome s id r (relay_line s l r).0)
unfolding relay_line
relay_line-ends s l r readable = elim (Bool-cases s.stopping) [
  | inl stopping ↦ inl (simp (stopping, relay_line) refl)
  | inr running ↦ inr (
      simp (running, relay_line)
        (either_ends s r (required_error s (checked s l r).gate) (refused_early s l r)
          (admit s l (checked s l r)) (l.raw_id, refused_early-Outcome s l r)
          (admitted.0, Outcome-before s (checked-Silent s l r) admitted.1)))
]
  where
    admitted : (id : Option Text) × Outcome s id (checked s l r) (admit s l (checked s l r)).0
    admitted = admitted-Outcome s l l.canonical (checked s l r) refl readable
