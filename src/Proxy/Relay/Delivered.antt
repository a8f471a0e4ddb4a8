-- ===== src/Proxy/Relay/Delivered.antt =====
-- What reaches the server and the agent over the lines of a session, `agentToUpstream` of
-- internal/proxy/stdio.go.
use nockguard.Base.{
  ◌≢◌, suc, length-append, true, false, Option, some, List, [], ◌∷◌, ◌++◌, ◌≡◌, ◌⊎◌, inl, inr, ap,
  sym, ◌∙◌, arith, if◌then◌else◌, Text, length, ok,
}
use mathlib.Core.Path.{subst}
use mathlib.Core.List.{append_cancel_left, head-eq_of_cons-eq}
use nockguard.Proxy.Gate.Types.{Message}
use nockguard.Proxy.Gate.AtOnce.{dispatches}
use nockguard.Proxy.Relay.State.{Relay, Line, Setting}
use nockguard.Proxy.Relay.Line.{relay_line}
use nockguard.Proxy.Relay.Answered.{ids}
use nockguard.Proxy.Relay.Outcomes.{Outcome, answered, forwarded, lost, Authorized, must_dispatch}
use nockguard.Proxy.Relay.Exact.{Faithful, IsReadable, relay_line-Outcome, relay_line-ends}

-- One error under the ID goes to the agent, or one message with the ID to the server; never both.
abbrev pub HasOneFate : {Bytes : Type 0} → Setting Bytes → Text → Relay Bytes → Relay Bytes → Type 0
HasOneFate {Bytes} s id r r' =
    ((r'.to_server ≡ r.to_server) × (ids r'.to_agent ≡ ids r.to_agent ++ id ∷ []))
    ⊎ ((bytes : Bytes) × (s.id_of bytes ≡ some id)
        × (r'.to_server ≡ r.to_server ++ bytes ∷ [])
        × (ids r'.to_agent ≡ ids r.to_agent))

fate :
    {Bytes : Type 0} (s : Setting Bytes) (id : Text) (r r' : Relay Bytes)
    → s.server_fails ≡ false
    → Outcome s (some id) r r'
    → HasOneFate s id r r'
fate s id r r' works (answered (server, agent, rows)) = inl (server, agent)
fate s id r r' works (forwarded bytes same f a) = inr (bytes, same, f.server, f.agent)
fate s id r r' works (lost p) = absurd (let failing = p.failing in cc)

-- A request of the agent, with its ID, is either answered with one error under that ID or forwarded
-- once under it, and never both: while the run goes on, the write to the server succeeds, the plain
-- decoding of the line gives the ID, and the ID is that of the canonical bytes and of the message
-- encoded anew.
pub relay_line-HasOneFate :
    {Bytes : Type 0} (s : Setting Bytes) (l : Line Bytes) (msg : Message) (line : Bytes) (id : Text)
    (r : Relay Bytes)
    → l.canonical ≡ ok (msg, line)
    → Faithful s msg line
    → msg.id ≡ some id
    → l.raw_id ≡ some id
    → s.stopping ≡ false
    → s.server_fails ≡ false
    → HasOneFate s id r (relay_line s l r).0
relay_line-HasOneFate s l msg line id r read faithful own raw running works =
    fate s id r (relay_line s l r).0 works (
      subst (λ i. Outcome s i r (relay_line s l r).0) own
        (relay_line-Outcome s l msg line read faithful r running (raw ∙ sym own)))

snoc_longer : {A : Type 0} (xs : List A) (x : A) → xs ≢ xs ++ x ∷ []
snoc_longer xs x h = let n = ap length h ∙ length-append xs (x ∷ []) in absurd (omega (arith, n))

snoc_injective : {A : Type 0} (xs : List A) (x y : A) → xs ++ x ∷ [] ≡ xs ++ y ∷ [] → x ≡ y
snoc_injective xs x y h = head-eq_of_cons-eq (append_cancel_left xs (x ∷ []) (y ∷ []) h)

Outcome-IsDispatched :
    {Bytes : Type 0} (s : Setting Bytes) (id : Option Text) (bytes : Bytes) (r r' : Relay Bytes)
    → must_dispatch s bytes ≡ true
    → r'.to_server ≡ r.to_server ++ bytes ∷ []
    → Outcome s id r r'
    → Authorized s bytes r' × (dispatches r'.gate ≡ suc (dispatches r.gate))
Outcome-IsDispatched s id bytes r r' must sent (answered (server, agent, rows)) =
    absurd (snoc_longer r.to_server bytes (sym server ∙ sent))
Outcome-IsDispatched s id bytes r r' must sent (lost p) =
    absurd (snoc_longer r.to_server bytes (sym p.server ∙ sent))
Outcome-IsDispatched s id bytes r r' must sent (forwarded other same f a) =
    let own : other ≡ bytes = snoc_injective r.to_server other bytes (sym f.server ∙ sent) in
    let due : must_dispatch s other ≡ true = ap (must_dispatch s) own ∙ must in
    (
      subst (λ b. Authorized s b r') own (a due),
      f.rows ∙ ap (λ b. if b then suc (dispatches r.gate) else dispatches r.gate) due,
    )

-- A line under required audit that sends a tools/call to the server, where the bytes of a message carry
-- its ID: it has written exactly one dispatch row at once; and what is left is what the write to the
-- server makes of a relay on which that row had just been written, after which required audit had
-- not failed.
pub relay_line-IsDispatched :
    {Bytes : Type 0} (s : Setting Bytes) (l : Line Bytes) (bytes : Bytes) (r : Relay Bytes)
    → IsReadable s l.canonical
    → must_dispatch s bytes ≡ true
    → (relay_line s l r).0.to_server ≡ r.to_server ++ bytes ∷ []
    → Authorized s bytes (relay_line s l r).0
      × (dispatches (relay_line s l r).0.gate ≡ suc (dispatches r.gate))
relay_line-IsDispatched s l bytes r readable must sent = elim (relay_line-ends s l r readable) [
  | inl same ↦ absurd (snoc_longer r.to_server bytes (ap (λ k. k.to_server) same ∙ sent))
  | inr (id, outcome) ↦ Outcome-IsDispatched s id bytes r (relay_line s l r).0 must sent outcome
]
