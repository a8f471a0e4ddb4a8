-- ===== src/Proxy/Settled.antt =====
-- What becomes of waiting requests, internal/proxy/stdio.go.
use nockguard.Base.{
  ℕ, Bool, true, false, Option, none, some, [], ◌∷◌, ◌≡◌, inl, inr, refl, sym, ap, ◌∙◌,
  some_injective, arith, All, Text, lookup, is_nonempty, Option-cases, Bool-cases,
}
use nockguard.Proxy.Gate.State.{Gate}
use nockguard.Proxy.Actions.{
  Observation, no_observation, response_observed, outcome_unknown, not_forwarded,
  late_response_observed, PendingCard, Waiting, listing, waiting_card, next_observation,
  observe_action, append_action_observation, mark_action_unknown,
}
use nockguard.Proxy.Lifecycle.{has_ended}
use nockguard.Proxy.Pending.{
  Requests, pending_id_in_use, load_pending_response, finish_pending_actions, first_same, action_of,
  unknown,
}

abbrev pub is_loaded : Option Waiting → Bool
is_loaded none = false
is_loaded (some w) = true

-- A waiting action has been observed.
abbrev pub IsObserved : Waiting → Type 0
IsObserved (listing seq build) = Unit
IsObserved (waiting_card card) =
    is_nonempty card.action_id ≡ true → has_ended card.observation ≡ true

next_observation-ends :
    (card : PendingCard) → has_ended (next_observation outcome_unknown card).0.observation ≡ true
unfolding next_observation
next_observation-ends card = go card.observation
  where
    go :
        (s : Observation)
        → has_ended
            (next_observation outcome_unknown (record card { observation = s })).0.observation
          ≡ true
    go no_observation = refl
    go response_observed = refl
    go outcome_unknown = refl
    go not_forwarded = refl
    go late_response_observed = refl

next_observation-silent :
    (card : PendingCard)
    → (next_observation outcome_unknown card).1 ≡ none
    → has_ended card.observation ≡ true
unfolding next_observation
next_observation-silent card h = go card.observation h
  where
    go :
        (s : Observation)
        → (next_observation outcome_unknown (record card { observation = s })).1 ≡ none
        → has_ended s ≡ true
    go no_observation h = cc
    go response_observed h = refl
    go outcome_unknown h = refl
    go not_forwarded h = refl
    go late_response_observed h = refl

no_action : (w : Waiting) → action_of w ≡ none → IsObserved w
unfolding action_of
no_action (listing seq build) h = tt
no_action (waiting_card card) h = λ k. ground arith

action_of-some :
    (w : Waiting) (card : PendingCard) → action_of w ≡ some card → is_nonempty card.action_id ≡ true
unfolding action_of
action_of-some (listing seq build) card h = cc
action_of-some (waiting_card other) card h = elim (Bool-cases (is_nonempty other.action_id)) [
  | inl acts ↦
      let same : other ≡ card = some_injective other card (ground (arith, acts, h)) in
      ap (λ (c : PendingCard). is_nonempty c.action_id) (sym same) ∙ acts
  | inr plain ↦ absurd (ground (arith, plain, h))
]

module _ (decode_id : Text → Option Text) where
  -- A response with an ID finds a waiting request exactly if the ID is in use.
  pub load_pending_response-pending_id_in_use :
      (pending : Requests) (id : Text)
      → is_nonempty id ≡ true
      → is_loaded (load_pending_response decode_id pending id).1
        ≡ pending_id_in_use decode_id pending id
  unfolding load_pending_response pending_id_in_use
  load_pending_response-pending_id_in_use pending id h = elim (Option-cases (lookup id pending)) [
    | inr (w, here) ↦ rw (here, h, load_pending_response) refl
    | inl absent ↦ elim (Option-cases (first_same decode_id id pending)) [
      | inr (found, there) ↦ rw (absent, there, h, load_pending_response) refl
      | inl nowhere ↦ rw (absent, nowhere, h, load_pending_response) refl
    ]
  ]

  module _ (refused : ℕ → Bool) (required : Bool) (latched : ℕ → Bool) where
    mark_action_unknown-ends :
        (cause : Text) (card : PendingCard) (g : Gate)
        → is_nonempty card.action_id ≡ true
        → has_ended (mark_action_unknown refused required latched cause card g).1.observation ≡ true
    unfolding mark_action_unknown observe_action append_action_observation
    mark_action_unknown-ends cause card g h =
        elim (Option-cases (next_observation outcome_unknown card).1) [
          | inl silent ↦ rw (h, silent) (next_observation-silent card silent)
          | inr (o, told) ↦ rw (h, told) (next_observation-ends card)
        ]

    -- At the end of a run the card of every waiting action has its terminal observation.
    pub finish_pending_actions-IsObserved :
        (cause : Text) (pending : Requests) (g : Gate)
        → All
            (λ (r : Text × Waiting). IsObserved r.1)
            (finish_pending_actions decode_id refused required latched cause pending g).1
    unfolding finish_pending_actions
    finish_pending_actions-IsObserved cause [] g = tt
    finish_pending_actions-IsObserved cause ((key, w) ∷ rest) g =
        go (λ k. finish_pending_actions-IsObserved cause rest k) (action_of w) refl
      where
        go :
            ((k : Gate)
              → All
                  (λ (r : Text × Waiting). IsObserved r.1)
                  (finish_pending_actions decode_id refused required latched cause rest k).1)
            → (o : Option PendingCard) → action_of w ≡ o
            → All
                (λ (r : Text × Waiting). IsObserved r.1)
                (elim o as (λ k. Gate × Requests) [
                  | none ↦
                      let (g', rest') =
                        finish_pending_actions decode_id refused required latched cause rest g in
                      (g', (key, w) ∷ rest')
                  | some card ↦
                      let (seen, card') = unknown decode_id refused required latched cause card g in
                      let (g', rest') =
                        finish_pending_actions decode_id refused required latched cause rest seen in
                      (g', (key, waiting_card card') ∷ rest')
                ]).1
        go again none e = (no_action w e, again g)
        go again (some card) e =
            let acts = action_of-some w card e in
            (λ k. mark_action_unknown-ends cause card g acts, again _)
