-- ===== src/Proxy/Lifecycle.antt =====
-- The observations of one action, by internal/proxy/stdio.go, as internal/audit/completeness.go reads
-- them.
use mathlib.Core.Path.{subst}
use nockguard.Base.{
  suc, Bool, true, false, Option, none, some, List, [], ◌∷◌, ◌≡◌, refl, sym, ap, ◌∙◌, arith, ◌==◌,
  Text, text_eq, is_nonempty, all, count_if,
}
use nockguard.Audit.Completeness.{
  ActionState, Observed, outcome_unknown as is_unknown_outcome, other_outcome, observed_as,
  note_observation, observed, row_kind,
}
use nockguard.Proxy.Actions.{
  Observation, no_observation, response_observed, outcome_unknown, not_forwarded,
  late_response_observed, observation_text, PendingCard, next_observation, observation_row,
}
use nockguard.Proxy.Gate.State.{Gate}
use nockguard.Proxy.Pins.{set_tool_observation_fields}

-- What calls of `observeAction` on a card write, in order.
abbrev pub observations : List Observation → PendingCard → List Observation
observations [] card = []
observations (o ∷ os) card =
    let (seen, emitted) = next_observation o card in
    let rest = observations os seen in elim emitted [ none ↦ rest | some o' ↦ o' ∷ rest ]

-- The assessor takes the observations one by one and finds none out of place.
abbrev pub Accepted : ActionState → List Observation → Type 0
Accepted a [] = Unit
Accepted a (o ∷ os) =
    ((note_observation (observed_as (observation_text o)) a).1 ≡ false)
    × Accepted (note_observation (observed_as (observation_text o)) a).0 os

-- What a forwarded call's waiting observes.
abbrev pub is_outcome : Observation → Bool
is_outcome response_observed = true
is_outcome outcome_unknown = true
is_outcome _ = false

abbrev pub is_final : Observation → Bool
is_final late_response_observed = false
is_final _ = true

abbrev pub has_ended : Observation → Bool
has_ended no_observation = false
has_ended _ = true

-- The assessor's state of an action agrees with the card.
abbrev Agrees : Observation → Bool → ActionState → Type 0
Agrees no_observation recorded a =
    (a.dispatch ≡ true)
    × (a.terminal ≡ false)
    × (a.late ≡ false)
    × ((a.decisions == 0) ≡ false)
    × (recorded ≡ false)
Agrees outcome_unknown recorded a = (a.unknown ≡ true) × (a.late ≡ recorded)
Agrees _ recorded a = Unit

settles :
    (a : ActionState) (o : Observed)
    → a.dispatch ≡ true
    → a.terminal ≡ false
    → (a.decisions == 0) ≡ false
    → ((note_observation other_outcome a).1 ≡ false)
      × ((note_observation is_unknown_outcome a).1 ≡ false)
unfolding note_observation
settles a o d t n = (ground arith, ground arith)

Accepted-from :
    (os : List Observation) (base : PendingCard) (s : Observation) (recorded : Bool)
    (a : ActionState)
    → all is_outcome os ≡ true
    → Agrees s recorded a
    → Accepted a
        (observations os (record base { observation = s; late_response_recorded = recorded }))
unfolding next_observation text_eq observation_text note_observation
Accepted-from [] base s recorded a h g = tt
Accepted-from (response_observed ∷ os) base no_observation recorded a h (d, t, l, n, z) = (
  ground arith,
  Accepted-from os base response_observed recorded (record a { terminal = true; unknown = false }) h
      tt,
)
Accepted-from (outcome_unknown ∷ os) base no_observation recorded a h (d, t, l, n, z) = (
  ground arith,
  Accepted-from os base outcome_unknown recorded (record a { terminal = true; unknown = true }) h
      (refl, l ∙ sym z),
)
Accepted-from (response_observed ∷ os) base outcome_unknown false a h (u, l) = (
  ground arith,
  Accepted-from os base outcome_unknown true (record a { late = true }) h (u, refl),
)
Accepted-from (response_observed ∷ os) base outcome_unknown true a h g =
    Accepted-from os base outcome_unknown true a h g
Accepted-from (outcome_unknown ∷ os) base outcome_unknown recorded a h g =
    Accepted-from os base outcome_unknown recorded a h g
Accepted-from (no_observation ∷ os) base s recorded a h g = absurd cc
Accepted-from (not_forwarded ∷ os) base s recorded a h g = absurd cc
Accepted-from (late_response_observed ∷ os) base s recorded a h g = absurd cc
Accepted-from (response_observed ∷ os) base response_observed recorded a h g =
    Accepted-from os base response_observed recorded a h tt
Accepted-from (outcome_unknown ∷ os) base response_observed recorded a h g =
    Accepted-from os base response_observed recorded a h tt
Accepted-from (response_observed ∷ os) base not_forwarded recorded a h g =
    Accepted-from os base not_forwarded recorded a h tt
Accepted-from (outcome_unknown ∷ os) base not_forwarded recorded a h g =
    Accepted-from os base not_forwarded recorded a h tt
Accepted-from (response_observed ∷ os) base late_response_observed recorded a h g =
    Accepted-from os base late_response_observed recorded a h tt
Accepted-from (outcome_unknown ∷ os) base late_response_observed recorded a h g =
    Accepted-from os base late_response_observed recorded a h tt

-- Whatever responses, cancellations and timeouts reach a new card of a dispatched action, and in
-- whatever order: the observations that are written are all in place for the assessment of runs.
pub observations-Accepted :
    (os : List Observation) (card : PendingCard) (a : ActionState)
    → card.observation ≡ no_observation
    → card.late_response_recorded ≡ false
    → a.dispatch ≡ true
    → a.terminal ≡ false
    → a.late ≡ false
    → (a.decisions == 0) ≡ false
    → all is_outcome os ≡ true
    → Accepted a (observations os card)
observations-Accepted os card a s r d t l n h =
    Accepted-from os card card.observation card.late_response_recorded a h
      (subst (λ o. Agrees o card.late_response_recorded a) (sym s) (d, t, l, n, r))

-- The row that is written for an observation of a card with an action is one that the assessment reads
-- as this observation.
pub row_kind-observation_row :
    (g : Gate) (card : PendingCard) (o : Observation) (cause response_class : Text)
    (mcp_is_error : Option Bool)
    → is_nonempty card.action_id ≡ true
    → row_kind (observation_row g card o cause response_class mcp_is_error)
      ≡ observed (observed_as (observation_text o))
unfolding row_kind observation_row set_tool_observation_fields text_eq
row_kind-observation_row g card o cause response_class mcp_is_error h = rw h refl

-- After its first observation a card writes no final one.
one_final_from :
    (os : List Observation) (base : PendingCard) (s : Observation) (recorded : Bool)
    → has_ended s ≡ true
    → count_if is_final
        (observations os (record base { observation = s; late_response_recorded = recorded }))
      ≡ 0
unfolding next_observation
one_final_from [] base s recorded h = refl
one_final_from (o ∷ os) base no_observation recorded h = absurd cc
one_final_from (o ∷ os) base response_observed recorded h =
    one_final_from os base response_observed recorded refl
one_final_from (o ∷ os) base not_forwarded recorded h =
    one_final_from os base not_forwarded recorded refl
one_final_from (o ∷ os) base late_response_observed recorded h =
    one_final_from os base late_response_observed recorded refl
one_final_from (response_observed ∷ os) base outcome_unknown false h =
    one_final_from os base outcome_unknown true refl
one_final_from (response_observed ∷ os) base outcome_unknown true h =
    one_final_from os base outcome_unknown true refl
one_final_from (no_observation ∷ os) base outcome_unknown recorded h =
    one_final_from os base outcome_unknown recorded refl
one_final_from (outcome_unknown ∷ os) base outcome_unknown recorded h =
    one_final_from os base outcome_unknown recorded refl
one_final_from (not_forwarded ∷ os) base outcome_unknown recorded h =
    one_final_from os base outcome_unknown recorded refl
one_final_from (late_response_observed ∷ os) base outcome_unknown recorded h =
    one_final_from os base outcome_unknown recorded refl

-- A new card that is observed at all writes exactly one final observation, whatever else is observed
-- later; the others are late responses.
pub observations_one_final :
    (o : Observation) (os : List Observation) (card : PendingCard)
    → card.observation ≡ no_observation
    → is_outcome o ≡ true
    → count_if is_final (observations (o ∷ os) card) ≡ 1
unfolding next_observation
observations_one_final o os card s h =
    subst (λ k. count_if is_final (observations (o ∷ os) (record card { observation = k })) ≡ 1)
      (sym s) (first o h)
  where
    first :
        (o : Observation)
        → is_outcome o ≡ true
        → count_if is_final (observations (o ∷ os) (record card { observation = no_observation }))
          ≡ 1
    first response_observed h =
        ap suc (one_final_from os card response_observed card.late_response_recorded refl)
    first outcome_unknown h =
        ap suc (one_final_from os card outcome_unknown card.late_response_recorded refl)
    first no_observation h = absurd cc
    first not_forwarded h = absurd cc
    first late_response_observed h = absurd cc
