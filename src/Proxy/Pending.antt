-- ===== src/Proxy/Pending.antt =====
-- The requests that wait for a response, of internal/proxy/stdio.go: the `sync.Map` from raw request IDs
-- to what waits, and the IDs that are held until their response is delivered. A range over the map visits
-- its bindings in the order of the association list. The decoder of a raw ID is given by the environment,
-- as a text that is the same for deeply equal values.
use nockguard.Base.{
  ℕ, Bool, true, false, ◌&&◌, ◌||◌, Option, none, some, [], ◌∷◌, if◌then◌else◌, Text, codes,
  text_eq, Map, lookup, delete, Table, put, drop_key, is_nonempty,
}
use nockguard.Proxy.Gate.State.{Gate}
use nockguard.Proxy.Actions.{PendingCard, Waiting, listing, waiting_card, mark_action_unknown}

abbrev pub Requests : Type 0
Requests = Map Waiting

unfoldable pub mark_late_reply_suppressed : PendingCard → PendingCard × Bool
mark_late_reply_suppressed card =
    (record card { suppress_late_response = true }, card.suppress_late_response)

unfoldable pub mark_answered : PendingCard → PendingCard
mark_answered card = record card { answered = true }

unfoldable pub track_request_id : ℕ → Text → Table Text → Table Text
track_request_id seq id active = if is_nonempty id then put seq id active else active

unfoldable pub release_request_id : ℕ → Table Text → Table Text
release_request_id seq active = drop_key seq active

-- A card with an action.
unfoldable pub action_of : Waiting → Option PendingCard
action_of (listing seq build) = none
action_of (waiting_card card) = if is_nonempty card.action_id then some card else none

module _ (decode_id : Text → Option Text) where
  -- `jsonRPCIDsEqual`
  unfoldable pub same_id : Text → Text → Bool
  same_id left right = is_nonempty left && is_nonempty right && elim (decode_id left) [
    | none ↦ false
    | some a ↦ elim (decode_id right) [ none ↦ false | some b ↦ text_eq a b ]
  ]

  -- The first binding whose ID is equal.
  unfoldable pub first_same : Text → Requests → Option (Text × Waiting)
  first_same id [] = none
  first_same id ((other, w) ∷ rest) =
      let later = first_same id rest in if same_id other id then some (other, w) else later

  abbrev pub is_found : Option (Text × Waiting) → Bool
  is_found none = false
  is_found (some found) = true

  unfoldable pub pending_id_in_use : Requests → Text → Bool
  pending_id_in_use pending id =
      is_nonempty id
      && elim (lookup id pending) [ some w ↦ true | none ↦ is_found (first_same id pending) ]

  abbrev any_active : Table Text → Text → Bool
  any_active [] id = false
  any_active ((seq, other) ∷ active) id = same_id other id || any_active active id

  unfoldable pub request_id_in_use : Requests → Table Text → Text → Bool
  request_id_in_use pending active id = pending_id_in_use pending id || any_active active id

  -- The exact ID first, then an equal one; what is found is taken out.
  unfoldable pub load_pending_response : Requests → Text → Requests × Option Waiting
  load_pending_response pending id = elim (lookup id pending) [
    | some w ↦ (delete id pending, some w)
    | none ↦ elim (first_same id pending) [
      | none ↦ (pending, none)
      | some (other, w) ↦ (delete other pending, some w)
    ]
  ]

  abbrev first_action : Text → Requests → Option PendingCard
  first_action id [] = none
  first_action id ((other, w) ∷ rest) =
      let later = first_action id rest in
      elim (action_of w) [
        | none ↦ later
        | some card ↦ if same_id other id then some card else later
      ]

  unfoldable pub find_action_pending_response : Requests → Text → Option PendingCard
  find_action_pending_response pending id =
      let scanned = first_action id pending in
      elim (lookup id pending) [
        | none ↦ scanned
        | some w ↦ elim (action_of w) [ some card ↦ some card | none ↦ scanned ]
      ]

  module _ (refused : ℕ → Bool) (required : Bool) (latched : ℕ → Bool) where
    abbrev pub unknown : Text → PendingCard → Gate → Gate × PendingCard
    unknown cause card g =
        let (g', card', failed) = mark_action_unknown refused required latched cause card g in
        (g', card')

    -- The range of `markCancelledAction`, up to the first action with the ID.
    unfoldable pub mark_cancelled : Text → Requests → Gate → Gate × Requests
    mark_cancelled id [] g = (g, [])
    mark_cancelled id ((key, w) ∷ rest) g =
        let (later, rest') = mark_cancelled id rest g in
        elim (action_of w) [
          | none ↦ (later, (key, w) ∷ rest')
          | some card ↦
              let (g', card') = unknown (codes "client_cancel") card g in
              if same_id card.request_id id
              then (g', (key, waiting_card card') ∷ rest)
              else (later, (key, w) ∷ rest')
        ]

    unfoldable pub mark_cancelled_action : Text → Requests → Gate → Gate × Requests
    mark_cancelled_action id pending g =
        if is_nonempty id then mark_cancelled id pending g else (g, pending)

    unfoldable pub finish_pending_actions : Text → Requests → Gate → Gate × Requests
    finish_pending_actions cause [] g = (g, [])
    finish_pending_actions cause ((key, w) ∷ rest) g = elim (action_of w) [
      | none ↦ let (g', rest') = finish_pending_actions cause rest g in (g', (key, w) ∷ rest')
      | some card ↦
          let (seen, card') = unknown cause card g in
          let (g', rest') = finish_pending_actions cause rest seen in
          (g', (key, waiting_card card') ∷ rest')
    ]
