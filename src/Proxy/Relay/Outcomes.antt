-- ===== src/Proxy/Relay/Outcomes.antt =====
-- What becomes of one line of the agent, `agentToUpstream` of internal/proxy/stdio.go: it is answered
-- with an error or it goes to the server.
use nockguard.Base.{
  ℕ, ◌≤◌, Bool, true, false, ◌&&◌, Option, [], ◌∷◌, ◌++◌, ◌≡◌, inl, inr, refl, ap, ◌∙◌, sym, ◌⊎◌,
  arith, if◌then◌else◌, Text, codes, text_eq, Bool-cases, Option-cases, is_nonempty, suc, insert,
  delete,
}
use nockguard.Policy.Evaluate.{has_tool_pin_constraints}
use nockguard.Proxy.Catalog.{ToolObservation, observe}
use nockguard.Proxy.Pins.{PinCause, pin_observation}
use nockguard.Proxy.Gate.Types.{McpDecision, internal_error}
use nockguard.Proxy.Gate.AtOnce.{dispatches}
use nockguard.Proxy.Relay.State.{
  audit_unavailable, Relay, Setting, with_gate, settled, required_error,
}
use nockguard.Proxy.Relay.Send.{
  is_call, note_cancellation, register, lose_line, note_sent, transmit, dispatch, Clearance, clear,
  refused, authorize_audit, authorize, finish, send,
}
use nockguard.Proxy.Relay.Kept.{audit-dispatches}
use nockguard.Proxy.Relay.Answered.{
  ids, listed, Answered, reply-Answered, settled-dispatches, forget-dispatches,
}
use nockguard.Proxy.Relay.Sent.{
  Silent, note_cancellation-Silent, register-Silent, note_sent-Silent, lose_line-Silent,
  refuse_pin-Answered,
}

module _ {Bytes : Type 0} (s : Setting Bytes) where
  -- The dispatch rows after a call goes to the server: one more under required audit.
  abbrev pub counted : Bytes → ℕ → ℕ
  counted bytes n = if s.required && is_call s bytes then suc n else n

  pub record Forwarded (bytes : Bytes) (r r' : Relay Bytes) : Type 0 where
    pub server : r'.to_server ≡ r.to_server ++ bytes ∷ []
    pub agent : ids r'.to_agent ≡ ids r.to_agent
    pub rows : dispatches r'.gate ≡ counted bytes (dispatches r.gate)

  pub record Lost (r r' : Relay Bytes) : Type 0 where
    pub failing : s.server_fails ≡ true
    pub server : r'.to_server ≡ r.to_server
    pub agent : ids r'.to_agent ≡ ids r.to_agent
    pub rows : dispatches r.gate ≤ dispatches r'.gate

  -- What is left of a line that sends: the write, and what follows it, on a relay whose dispatch row has
  -- just been written, after which required audit has not failed.
  pub record Authorized (bytes : Bytes) (r' : Relay Bytes) : Type 0 where
    pub decision : McpDecision Bytes
    pub waits : Bool
    pub seq : ℕ
    pub action_id : Text
    pub before : Relay Bytes
    pub works : required_error s (dispatch s decision action_id before).gate ≡ false
    pub left :
        r'
        ≡ (finish s waits seq
            (transmit s decision bytes seq action_id (dispatch s decision action_id before))).0

  abbrev pub must_dispatch : Bytes → Bool
  must_dispatch bytes = s.required && is_call s bytes

  -- Answered under the ID, forwarded with the ID, or lost as the write to the server fails.
  pub data Outcome (id : Option Text) (r r' : Relay Bytes) : Type 0 where
    answered : Answered id r r' → Outcome id r r'
    forwarded :
        (bytes : Bytes)
        → s.id_of bytes ≡ id
        → Forwarded bytes r r'
        → (must_dispatch bytes ≡ true → Authorized bytes r')
        → Outcome id r r'
    lost : Lost r r' → Outcome id r r'

  -- What the last checks leave.
  record Passed (d : McpDecision Bytes) (action_id : Text) (bytes : Bytes) (r r' : Relay Bytes)
      : Type 0 where
    pub server : r'.to_server ≡ r.to_server
    pub agent : r'.to_agent ≡ r.to_agent
    pub rows : dispatches r'.gate ≡ counted bytes (dispatches r.gate)
    pub written :
        must_dispatch bytes ≡ true
        → (before : Relay Bytes) × (r' ≡ dispatch s d action_id before)
          × (required_error s r'.gate ≡ false)

  abbrev IsChecked : McpDecision Bytes → Text → Bytes → Relay Bytes → Clearance s → Type 0
  IsChecked d action_id bytes r (clear r') = Passed d action_id bytes r r'
  IsChecked d action_id bytes r (refused end) = Answered (s.id_of bytes) r end.0

  dispatch-dispatches :
      (d : McpDecision Bytes) (action_id : Text) (r : Relay Bytes)
      → dispatches (dispatch s d action_id r).gate ≡ suc (dispatches r.gate)
  unfolding text_eq
  dispatch-dispatches d action_id r =
      audit-dispatches r.current_card d.tool (codes "dispatch")
        (codes "required-audit-before-forward") d.refs action_id r.gate

  authorize_audit-IsChecked :
      (d : McpDecision Bytes) (bytes : Bytes) (seq : ℕ) (action_id : Text) (r : Relay Bytes)
      → IsChecked d action_id bytes r (authorize_audit s d bytes seq action_id r)
  unfolding authorize_audit
  authorize_audit-IsChecked d bytes seq action_id r =
      elim (Bool-cases (s.required && is_call s bytes)) [
        | inr plain ↦
            rw (plain, authorize_audit)
              (record {
                server = refl;
                agent = refl;
                rows = rw plain refl;
                written = λ must. absurd cc;
              })
        | inl must ↦
            rw (must, authorize_audit)
              (elim (Bool-cases (required_error s written.gate)) [
                | inl failing ↦ rw failing (
                    reply-Answered s (s.id_of bytes) internal_error audit_unavailable r forgotten
                      refl refl grown)
                | inr working ↦ rw working (record {
                  server = refl;
                  agent = refl;
                  rows = rw must more;
                  written = λ h. (r, refl, working);
                })
              ])
      ]
    where
      written : Relay Bytes
      written = dispatch s d action_id r

      more : dispatches written.gate ≡ suc (dispatches r.gate)
      more = dispatch-dispatches d action_id r

      forgotten : Relay Bytes
      forgotten =
          with_gate (λ g. record g { action_observed = delete action_id g.action_observed })
            (settled s seq written)

      grown : dispatches r.gate ≤ dispatches forgotten.gate
      grown = omega (
        arith,
        more,
        settled-dispatches s seq written,
        forget-dispatches s action_id (settled s seq written).gate,
      )

  IsChecked-after :
      (d : McpDecision Bytes) (action_id : Text) (bytes : Bytes) (before r : Relay Bytes)
      (c : Clearance s)
      → Silent s before r
      → IsChecked d action_id bytes r c
      → IsChecked d action_id bytes before c
  IsChecked-after d action_id bytes before r (clear r') q p = record {
    server = p.server ∙ q.server;
    agent = p.agent ∙ q.agent;
    rows = p.rows ∙ ap (counted bytes) q.rows;
    written = p.written;
  }
  IsChecked-after d action_id bytes before r (refused end) q p = (
    p.0 ∙ q.server,
    p.1 ∙ ap (λ l. ids l ++ listed (s.id_of bytes)) q.agent,
    omega (arith, q.rows, p.2),
  )

  looked_at :
      (action_id : Text) (current : ToolObservation) (r : Relay Bytes)
      → Silent s r (
          if is_nonempty action_id
          then with_gate
              (λ g. record g { action_observed = insert action_id current g.action_observed })
              r
          else r)
  unfolding dispatches
  looked_at action_id current r = record {
    server = ground arith;
    agent = ground arith;
    rows = ground arith;
  }

  authorize-IsChecked :
      (d : McpDecision Bytes) (bytes : Bytes) (seq : ℕ) (action_id : Text) (r : Relay Bytes)
      → IsChecked d action_id bytes r (authorize s d bytes seq action_id r)
  unfolding authorize
  authorize-IsChecked d bytes seq action_id r =
      elim (Bool-cases (is_call s bytes && has_tool_pin_constraints r.gate.engine r.gate.agent)) [
        | inr free ↦ rw (free, authorize) (authorize_audit-IsChecked d bytes seq action_id r)
        | inl pinned ↦
            rw (pinned, authorize)
              (elim (Option-cases found.1) [
                | inl matching ↦ rw matching (
                    IsChecked-after d action_id bytes r _ _ (looked_at action_id found.0 r)
                      (authorize_audit-IsChecked d bytes seq action_id _))
                | inr (cause, differing) ↦
                    rw differing
                      (refuse_pin-Answered s d found.0 cause (s.id_of bytes) seq action_id r)
              ])
      ]
    where
      found : ToolObservation × Option PinCause
      found =
          pin_observation r.gate.engine r.gate.agent r.gate.upstream_id d.tool
            (observe d.tool r.gate.catalog)

  pub Outcome-before :
      {id : Option Text} {before r r' : Relay Bytes}
      → Silent s before r
      → Outcome id r r'
      → Outcome id before r'
  Outcome-before {id} q (answered p) =
      answered
        (p.0 ∙ q.server, p.1 ∙ ap (λ l. ids l ++ listed id) q.agent, omega (arith, q.rows, p.2))
  Outcome-before q (forwarded bytes e p a) =
      forwarded bytes e
        (record {
          server = p.server ∙ ap (λ l. l ++ bytes ∷ []) q.server;
          agent = p.agent ∙ ap ids q.agent;
          rows = p.rows ∙ ap (counted bytes) q.rows;
        })
        a
  Outcome-before q (lost p) = lost (record {
    failing = p.failing;
    server = p.server ∙ q.server;
    agent = p.agent ∙ ap ids q.agent;
    rows = omega (arith, q.rows, p.rows);
  })

  pub Answered-after :
      {id : Option Text} {before r r' : Relay Bytes}
      → Answered id before r
      → Silent s r r'
      → Outcome id before r'
  Answered-after p q = answered (q.server ∙ p.0, ap ids q.agent ∙ p.1, omega (arith, q.rows, p.2))

  pub finish-Silent :
      (waits : Bool) (seq : ℕ) (x : Relay Bytes × Bool) → Silent s x.0 (finish s waits seq x).0
  unfolding dispatches
  finish-Silent waits seq (r, stop) = record {
    server = ground arith;
    agent = ground arith;
    rows = ground arith;
  }

  transmit-sent :
      (d : McpDecision Bytes) (bytes : Bytes) (seq : ℕ) (action_id : Text) (before r : Relay Bytes)
      → Passed d action_id bytes before r
      → Forwarded bytes before (transmit s d bytes seq action_id r).0
        ⊎ Lost before (transmit s d bytes seq action_id r).0
  unfolding transmit dispatches
  transmit-sent d bytes seq action_id before r p = go s.server_fails refl
    where
      registered : Relay Bytes
      registered = register s d seq action_id r

      kept : Silent s r registered
      kept = register-Silent s d seq action_id r

      gone : Silent s registered (lose_line s d bytes seq action_id registered)
      gone = lose_line-Silent s d bytes seq action_id registered

      out : Relay Bytes
      out = record registered { to_server = registered.to_server ++ bytes ∷ [] }

      noted : Silent s out (note_sent s d bytes seq action_id out)
      noted = note_sent-Silent s d bytes seq action_id out

      same : dispatches out.gate ≡ dispatches registered.gate
      same = refl

      chosen : Bool → Relay Bytes
      chosen b =
          (if◌then◌else◌ {A = Relay Bytes × Bool} b
            (lose_line s d bytes seq action_id registered, true)
            (note_sent s d bytes seq action_id out, false)).0

      go :
          (b : Bool)
          → s.server_fails ≡ b
          → Forwarded bytes before (chosen b) ⊎ Lost before (chosen b)
      go true failing = inr (record {
        failing = failing;
        server = gone.server ∙ kept.server ∙ p.server;
        agent = ap ids (gone.agent ∙ kept.agent ∙ p.agent);
        rows = ground (arith, gone.rows, kept.rows, p.rows);
      })
      go false working = inl (record {
        server = noted.server ∙ ap (λ l. l ++ bytes ∷ []) (kept.server ∙ p.server);
        agent = ap ids (noted.agent ∙ kept.agent ∙ p.agent);
        rows = noted.rows ∙ same ∙ kept.rows ∙ p.rows;
      })

  transmit-Outcome :
      (d : McpDecision Bytes) (bytes : Bytes) (waits : Bool) (seq : ℕ) (action_id : Text)
      (before r : Relay Bytes)
      → Passed d action_id bytes before r
      → Outcome (s.id_of bytes) before (finish s waits seq (transmit s d bytes seq action_id r)).0
  transmit-Outcome d bytes waits seq action_id before r p =
      let q = finish-Silent waits seq (transmit s d bytes seq action_id r) in
      elim (transmit-sent d bytes seq action_id before r p) [
        | inl f ↦
            forwarded bytes refl
              (record {
                server = q.server ∙ f.server;
                agent = ap ids q.agent ∙ f.agent;
                rows = q.rows ∙ f.rows;
              })
              (λ must.
                let (v, same, works) = p.written must in
                record {
                  decision = d;
                  waits = waits;
                  seq = seq;
                  action_id = action_id;
                  before = v;
                  works = sym (ap (λ (k : Relay Bytes). required_error s k.gate) same) ∙ works;
                  left = ap (λ k. (finish s waits seq (transmit s d bytes seq action_id k)).0) same;
                })
        | inr l ↦ lost (record {
          failing = l.failing;
          server = q.server ∙ l.server;
          agent = ap ids q.agent ∙ l.agent;
          rows = omega (arith, q.rows, l.rows);
        })
      ]

  pub send-Outcome :
      (d : McpDecision Bytes) (bytes : Bytes) (waits : Bool) (seq : ℕ) (action_id : Text)
      (r : Relay Bytes)
      → Outcome (s.id_of bytes) r (send s d bytes waits seq action_id r).0
  unfolding send
  send-Outcome d bytes waits seq action_id r = Outcome-before (note_cancellation-Silent s bytes r) (
      go (authorize s d bytes seq action_id noted)
        (authorize-IsChecked d bytes seq action_id noted))
    where
      noted : Relay Bytes
      noted = note_cancellation s bytes r

      go :
          (c : Clearance s)
          → IsChecked d action_id bytes noted c
          → Outcome (s.id_of bytes) noted (
              let x : Relay Bytes × Bool = elim c [
                | clear r' ↦ finish s waits seq (transmit s d bytes seq action_id r')
                | refused end ↦ end
              ] in
              x.0)
      go (clear r') p = transmit-Outcome d bytes waits seq action_id noted r' p
      go (refused end) p = answered p
