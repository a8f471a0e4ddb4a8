-- ===== src/Proxy/Relay/State.antt =====
-- The state of the stdio proxy between two lines of the agent, and what surrounds it, of
-- internal/proxy/stdio.go. What is handed to the two writers is kept in order.
use nockguard.Base.{
  ℕ, ◌+◌, Bool, false, ◌&&◌, Option, none, some, List, [], ◌∷◌, ◌++◌, length, if◌then◌else◌, Text,
  Table, ℤ, is_positive, Result,
}
use nockguard.Audit.Event.{Event}
use nockguard.Proxy.Cards.{is_zero}
use nockguard.Proxy.Catalog.{ListParams, invalidate}
use nockguard.Proxy.Calls.{References}
use nockguard.Proxy.Gate.Types.{World, Message, RejectCode, MessageFailure}
use nockguard.Proxy.Gate.State.{Gate, row_of, action_row, with_references, note_outcome, notify}
use nockguard.Proxy.Gate.Decide.{resolve}
use nockguard.Proxy.Actions.{PendingCard, Observation, observe_action}
use nockguard.Proxy.Pending.{Requests}

-- The text of an error response: the gate's own, or one of the proxy's.
pub data ReplyReason : Type 0 where
  decided audit_unavailable duplicate_id refresh_required not_approved : ReplyReason

pub record Reply : Type 0 where
  pub id : Text
  pub code : RejectCode
  pub reason : ReplyReason

-- `active` are the request IDs that are held, `counter` is the number of the last action.
pub record Relay (Bytes : Type 0) : Type 0 where
  pub gate : Gate
  pub pending : Requests
  pub active : Table Text
  pub counter : ℕ
  pub current_card : ℤ
  pub to_server : List Bytes
  pub to_agent : List Reply

-- A line of the agent, decoded: whether it reads as a listing, the listing's exact parameters if it
-- has such, the ID that its plain decoding gives, and the canonical message with its bytes.
pub record Line (Bytes : Type 0) : Type 0 where
  pub listing : Bool
  pub params : Option ListParams
  pub raw_id : Option Text
  pub canonical : Result MessageFailure (Message × Bytes)

-- What surrounds the proxy while it handles one line: the decoders, the required audit with the
-- numbers of rows after which its error is set, and whether a writer fails.
pub record Setting (Bytes : Type 0) : Type 0 where
  pub world : World Bytes
  pub decode_id : Text → Option Text
  pub id_of : Bytes → Option Text
  pub method_of : Bytes → Text
  pub cancelled_id : Bytes → Text
  pub required : Bool
  pub latched : ℕ → Bool
  pub stopping : Bool
  pub server_fails : Bool
  pub agent_fails : Bool

abbrev pub carded : ℤ → Event → Event
carded card ev = if is_zero ev.nock_id && is_positive card then record ev { nock_id = card } else ev

-- The row of `audit`.
unfoldable pub immediate_row : ℤ → Text → Text → Text → Option References → Text → Gate → Event
immediate_row card tool decision reason refs action_id g =
    carded card (
      with_references refs
        (action_row g (some action_id) tool (row_of g tool decision reason [])).0)

-- `audit`: a row that is written at once and does not pass through the queue.
unfoldable pub audit : ℤ → Text → Text → Text → Option References → Text → Gate → Gate
unfolding immediate_row
audit card tool decision reason refs action_id g =
    let noted = note_outcome decision reason g in
    notify tool decision reason (record noted {
      action_observed = (action_row g (some action_id) tool (row_of g tool decision reason [])).1;
      method_rows =
          noted.method_rows ++ immediate_row card tool decision reason refs action_id g ∷ [];
    })

module _ {Bytes : Type 0} where
  abbrev pub with_gate : (Gate → Gate) → Relay Bytes → Relay Bytes
  with_gate f r = record r { gate = f r.gate }

  abbrev pub drop_catalog : Relay Bytes → Relay Bytes
  drop_catalog r = with_gate (λ g. record g { catalog = invalidate g.catalog }) r

  -- `if listingCandidate { p.catalog.invalidate() }`
  abbrev pub drop_listing : Line Bytes → Relay Bytes → Relay Bytes
  drop_listing l r = if l.listing then drop_catalog r else r

  module _ (s : Setting Bytes) where
    -- `p.requiredAudit && p.auditor.RequiredError() != nil`
    unfoldable pub required_error : Gate → Bool
    required_error g = s.required && s.latched (length g.queue.log + length g.method_rows)

    abbrev pub settled : ℕ → Relay Bytes → Relay Bytes
    settled seq r = with_gate (resolve s.world seq) r

    -- `observeAction` of a card; the Boolean is whether an error came back.
    abbrev pub observed : Observation → Text → PendingCard → Gate → Gate × Bool
    observed o cause card g =
        let (g', card', failed) =
          observe_action s.world.writer_refuses s.required
            (λ n. s.latched (n + length g.method_rows)) o cause [] none card g in
        (g', failed)

    -- `rejectToAgent`: nothing without an ID. The Boolean is whether the loop ends.
    unfoldable pub reply : Option Text → RejectCode → ReplyReason → Relay Bytes → Relay Bytes × Bool
    reply none code reason r = (r, false)
    reply (some id) code reason r = (
      record r { to_agent = r.to_agent ++ record { id = id; code = code; reason = reason } ∷ [] },
      s.agent_fails,
    )
