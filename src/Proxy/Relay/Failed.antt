-- ===== src/Proxy/Relay/Failed.antt =====
-- What the loops of internal/proxy/stdio.go do after required audit has failed, `agentToUpstream` and
-- `upstreamToAgent` interleaved line by line.
use nockguard.Base.{ℕ, ◌≤◌, Bool, true, List, [], ◌∷◌, ◌≡◌, refl, ap, ◌∙◌, arith, All}
use nockguard.Proxy.Relay.State.{Relay, Line, Setting, required_error, reply}
use nockguard.Proxy.Relay.Line.{relay_line}
use nockguard.Proxy.Relay.Response.{ServerLine, deliver_line}
use nockguard.Proxy.Relay.Keeping.{written, Keeps, deliver_line-Keeps}

module _ {Bytes : Type 0} (s : Setting Bytes) where
  -- A latch that is set answers the agent and sends nothing.
  relay_line-Keeps :
      (l : Line Bytes) (r : Relay Bytes)
      → required_error s r.gate ≡ true
      → Keeps s r (relay_line s l r).0
  unfolding relay_line required_error reply
  relay_line-Keeps l r h = ground arith

-- A line of either side, with what surrounds it.
pub data SideLine (Bytes : Type 0) : Type 0 where
  from_agent : Setting Bytes → Line Bytes → SideLine Bytes
  from_server : Setting Bytes → ServerLine → SideLine Bytes

module _ {Bytes : Type 0} where
  abbrev pub setting_of : SideLine Bytes → Setting Bytes
  setting_of (from_agent s l) = s
  setting_of (from_server s line) = s

  abbrev pub take_line : SideLine Bytes → Relay Bytes → Relay Bytes
  take_line (from_agent s l) r = (relay_line s l r).0
  take_line (from_server s line) r = (deliver_line s line r).relay

  -- Both loops, in any interleaving.
  abbrev pub take_lines : List (SideLine Bytes) → Relay Bytes → Relay Bytes
  take_lines [] r = r
  take_lines (x ∷ lines) r = take_lines lines (take_line x r)

module _ {Bytes : Type 0} (latched : ℕ → Bool) where
  abbrev pub IsAudited : SideLine Bytes → Type 0
  IsAudited x = ((setting_of x).required ≡ true) × ((setting_of x).latched ≡ latched)

  -- The error of required audit is set.
  abbrev pub HasFailed : Relay Bytes → Type 0
  HasFailed r = latched (written r.gate) ≡ true

  failing :
      (s : Setting Bytes) (r : Relay Bytes)
      → (s.required ≡ true) × (s.latched ≡ latched)
      → HasFailed r
      → required_error s r.gate ≡ true
  unfolding required_error
  failing s r (required, same) h = rw required (ap (λ f. f (written r.gate)) same ∙ h)

  take_line-Keeps :
      (x : SideLine Bytes) (r : Relay Bytes)
      → IsAudited x
      → HasFailed r
      → Keeps (setting_of x) r (take_line x r)
  take_line-Keeps (from_agent s l) r audited h = relay_line-Keeps s l r (failing s r audited h)
  take_line-Keeps (from_server s line) r audited h = deliver_line-Keeps s line r

  -- Once required audit has failed, nothing more is sent to the server and it stays failed, whatever
  -- lines come from the agent and from the server in whatever order, and whatever rows the server's
  -- lines still write, where the error is that of one auditor, which is never unset.
  pub take_lines-HasFailed :
      (lines : List (SideLine Bytes)) (r : Relay Bytes)
      → ((m n : ℕ) → m ≤ n → latched m ≡ true → latched n ≡ true)
      → All IsAudited lines
      → HasFailed r
      → ((take_lines lines r).to_server ≡ r.to_server) × HasFailed (take_lines lines r)
  take_lines-HasFailed [] r stays audited h = (refl, h)
  take_lines-HasFailed (x ∷ lines) r stays (audited, more) h =
      let (nothing, grown) = take_line-Keeps x r audited h in
      let still = stays (written r.gate) (written (take_line x r).gate) grown h in
      let (rest, last) = take_lines-HasFailed lines (take_line x r) stays more still in
      (rest ∙ nothing, last)
