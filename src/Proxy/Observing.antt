-- ===== src/Proxy/Observing.antt =====
-- The rows that `observeAction` of internal/proxy/stdio.go writes for one action, as
-- internal/audit/completeness.go reads them.
use nockguard.Base.{
  ℕ, Bool, true, false, Option, none, some, List, [], ◌∷◌, ◌++◌, ◌≡◌, inl, inr, refl, sym, ap, ◌∙◌,
  arith, map, ◌==◌, Text, codes, delete, text_eq, is_nonempty, all, count_if, if◌then◌else◌, not,
  Option-cases,
}
use mathlib.Core.Path.{subst}
use mathlib.Core.List.{append-nil, append_assoc}
use nockguard.Audit.Event.{Event}
use nockguard.Audit.Completeness.{
  ActionState, observed_as, note_observation, RowKind, observed, row_kind,
}
use nockguard.Proxy.Actions.{
  Observation, no_observation, response_observed, outcome_unknown, not_forwarded,
  late_response_observed, observation_text, PendingCard, next_observation, observation_row, is_late,
  frozen, write_row, append_action_observation, observe_action,
}
use nockguard.Proxy.Catalog.{ToolObservation}
use nockguard.Proxy.Pins.{set_tool_observation_fields}
use nockguard.Proxy.Gate.State.{Gate}
use nockguard.Proxy.Queue.{AuditQueue}
use nockguard.Proxy.Rows.{bare, rows_of}
use nockguard.Proxy.Written.{IsLive, IsAppended, write_row-IsAppended}
use nockguard.Proxy.Lifecycle.{
  observations, Accepted, is_outcome, is_final, observations-Accepted, observations_one_final,
  row_kind-observation_row,
}

-- One call of `observeAction`.
pub record Call : Type 0 where
  pub observation : Observation
  pub cause : Text
  pub response_class : Text
  pub mcp_is_error : Option Bool

abbrev pub seen_by : Call → Observation
seen_by call = call.observation

-- The assessor takes a row of the action; the Boolean is whether it is out of place.
abbrev pub note_row : RowKind → ActionState → ActionState × Bool
note_row (observed o) a = note_observation o a
note_row _ a = (a, true)

abbrev pub AcceptedRows : ActionState → List Event → Type 0
AcceptedRows a [] = Unit
AcceptedRows a (ev ∷ rows) =
    ((note_row (row_kind ev) a).1 ≡ false) × AcceptedRows (note_row (row_kind ev) a).0 rows

-- A row that ends the wait, not one of a late response.
abbrev pub is_final_row : Event → Bool
is_final_row ev = not (text_eq ev.observation (codes "late_response_observed"))

-- The rows are those of the observations, in their order.
abbrev Matches : List Event → List Observation → Type 0
Matches [] [] = Unit
Matches (ev ∷ rows) (o ∷ os) =
    (row_kind ev ≡ observed (observed_as (observation_text o)))
    × (ev.observation ≡ observation_text o)
    × Matches rows os
Matches _ _ = ⊥

Matches-Accepted :
    (rows : List Event) (os : List Observation) (a : ActionState)
    → Matches rows os
    → Accepted a os
    → AcceptedRows a rows
Matches-Accepted [] [] a m h = tt
Matches-Accepted (ev ∷ rows) (o ∷ os) a (kind, text, m) (fine, h) =
    rw kind (fine, Matches-Accepted rows os _ m h)
Matches-Accepted [] (o ∷ os) a m h = absurd m
Matches-Accepted (ev ∷ rows) [] a m h = absurd m

is_final-text :
    (o : Observation)
    → not (text_eq (observation_text o) (codes "late_response_observed")) ≡ is_final o
unfolding text_eq observation_text
is_final-text no_observation = refl
is_final-text response_observed = refl
is_final-text outcome_unknown = refl
is_final-text not_forwarded = refl
is_final-text late_response_observed = refl

Matches-count :
    (rows : List Event) (os : List Observation)
    → Matches rows os
    → count_if is_final_row rows ≡ count_if is_final os
Matches-count [] [] m = refl
Matches-count (ev ∷ rows) (o ∷ os) (kind, text, m) =
    let same : is_final_row ev ≡ is_final o =
      ap (λ t. not (text_eq t (codes "late_response_observed"))) text ∙ is_final-text o in
    ground (arith, same, Matches-count rows os m)
Matches-count [] (o ∷ os) m = absurd m
Matches-count (ev ∷ rows) [] m = absurd m

Matches-append :
    (rows : List Event) (os : List Observation) (rows' : List Event) (os' : List Observation)
    → Matches rows os
    → Matches rows' os'
    → Matches (rows ++ rows') (os ++ os')
Matches-append [] [] rows' os' m m' = m'
Matches-append (ev ∷ rows) (o ∷ os) rows' os' (kind, text, m) m' =
    (kind, text, Matches-append rows os rows' os' m m')
Matches-append [] (o ∷ os) rows' os' m m' = absurd m
Matches-append (ev ∷ rows) [] rows' os' m m' = absurd m

frozen_from :
    (os : List Observation) (base : PendingCard) (s : Observation) (late : Bool)
    (x : ToolObservation)
    → observations os (record base { observation = s; late_response_recorded = late; observed = x })
      ≡ observations os (record base { observation = s; late_response_recorded = late })
unfolding next_observation
frozen_from [] base s late x = refl
frozen_from (o ∷ os) base no_observation late x = ap (λ l. o ∷ l) (frozen_from os base o late x)
frozen_from (o ∷ os) base response_observed late x = frozen_from os base response_observed late x
frozen_from (o ∷ os) base not_forwarded late x = frozen_from os base not_forwarded late x
frozen_from (o ∷ os) base late_response_observed late x =
    frozen_from os base late_response_observed late x
frozen_from (response_observed ∷ os) base outcome_unknown false x =
    ap (λ l. late_response_observed ∷ l) (frozen_from os base outcome_unknown true x)
frozen_from (response_observed ∷ os) base outcome_unknown true x =
    frozen_from os base outcome_unknown true x
frozen_from (no_observation ∷ os) base outcome_unknown late x =
    frozen_from os base outcome_unknown late x
frozen_from (outcome_unknown ∷ os) base outcome_unknown late x =
    frozen_from os base outcome_unknown late x
frozen_from (not_forwarded ∷ os) base outcome_unknown late x =
    frozen_from os base outcome_unknown late x
frozen_from (late_response_observed ∷ os) base outcome_unknown late x =
    frozen_from os base outcome_unknown late x

-- What a card froze of its tool does not bear on what it observes.
observations-frozen :
    (os : List Observation) (card : PendingCard) (x : ToolObservation)
    → observations os (record card { observed = x }) ≡ observations os card
observations-frozen os card x = frozen_from os card card.observation card.late_response_recorded x

next_observation-keeps :
    (o : Observation) (card : PendingCard)
    → ((next_observation o card).0.action_id ≡ card.action_id)
      × ((next_observation o card).0.audit_seq ≡ card.audit_seq)
unfolding next_observation
next_observation-keeps o card = (ground arith, ground arith)

next_observation-silent_same :
    (o : Observation) (card : PendingCard)
    → (next_observation o card).1 ≡ none
    → (next_observation o card).0 ≡ card
unfolding next_observation
next_observation-silent_same o card h = go o card.observation card.late_response_recorded h
  where
    go :
        (o s : Observation) (late : Bool)
        → (next_observation o (record card { observation = s; late_response_recorded = late })).1
          ≡ none
        → (next_observation o (record card { observation = s; late_response_recorded = late })).0
          ≡ record card { observation = s; late_response_recorded = late }
    go o no_observation late h = cc
    go o response_observed late h = refl
    go o not_forwarded late h = refl
    go o late_response_observed late h = refl
    go response_observed outcome_unknown false h = cc
    go response_observed outcome_unknown true h = refl
    go no_observation outcome_unknown late h = refl
    go outcome_unknown outcome_unknown late h = refl
    go not_forwarded outcome_unknown late h = refl
    go late_response_observed outcome_unknown late h = refl

observations-silent :
    (o : Observation) (os : List Observation) (card : PendingCard)
    → (next_observation o card).1 ≡ none
    → observations (o ∷ os) card ≡ observations os card
observations-silent o os card h =
    ap
      (λ e. elim e as (λ k. List Observation) [
        | none ↦ observations os (next_observation o card).0
        | some o' ↦ o' ∷ observations os (next_observation o card).0
      ])
      h
    ∙ ap (observations os) (next_observation-silent_same o card h)

observations-told :
    (o : Observation) (os : List Observation) (card : PendingCard) (o' : Observation)
    → (next_observation o card).1 ≡ some o'
    → observations (o ∷ os) card ≡ o' ∷ observations os (next_observation o card).0
observations-told o os card o' h =
    ap
      (λ e. elim e as (λ k. List Observation) [
        | none ↦ observations os (next_observation o card).0
        | some o' ↦ o' ∷ observations os (next_observation o card).0
      ])
      h

row_kind-bare : (ev : Event) → row_kind (bare ev) ≡ row_kind ev
unfolding row_kind
row_kind-bare ev = refl

row_observation :
    (g : Gate) (card : PendingCard) (o : Observation) (cause class : Text) (flag : Option Bool)
    → (observation_row g card o cause class flag).observation ≡ observation_text o
unfolding observation_row set_tool_observation_fields
row_observation g card o cause class flag = refl

module _ (refused : ℕ → Bool) (required : Bool) (latched : ℕ → Bool) where
  -- The calls of `observeAction` on a card, one after the other.
  abbrev pub observe_all : List Call → PendingCard → Gate → Gate × PendingCard
  observe_all [] card g = (g, card)
  observe_all (call ∷ calls) card g =
      let (g', card', failed) =
        observe_action refused required latched call.observation call.cause call.response_class
          call.mcp_is_error card g in
      observe_all calls card' g'

  -- Rows that are in the log or wait, after those of before.
  record Told (seq : ℕ) (os : List Observation) (q q' : AuditQueue) : Type 0 where
    pub rows : List Event
    pub added : rows_of q' seq ≡ rows_of q seq ++ rows
    pub matching : Matches rows os

  Told-append :
      (seq : ℕ) (os os' : List Observation) (q q' q'' : AuditQueue)
      → Told seq os q q'
      → Told seq os' q' q''
      → Told seq (os ++ os') q q''
  Told-append seq os os' q q' q'' a b = record {
    rows = a.rows ++ b.rows;
    added = b.added ∙ ap (λ l. l ++ b.rows) a.added ∙ append_assoc (rows_of q seq) a.rows b.rows;
    matching = Matches-append a.rows os b.rows os' a.matching b.matching;
  }

  -- What one call does.
  record Step (o : Observation) (card : PendingCard) (g g' : Gate) (card' : PendingCard)
      : Type 0 where
    pub emitted : List Observation
    pub told : Told card.audit_seq emitted g.queue g'.queue
    pub live : IsLive refused card.audit_seq g'.queue
    pub acts : is_nonempty card'.action_id ≡ true
    pub number : card'.audit_seq ≡ card.audit_seq
    pub tail :
        (os : List Observation) → observations (o ∷ os) card ≡ emitted ++ observations os card'

  silent_call :
      (call : Call) (card : PendingCard) (g : Gate)
      → is_nonempty card.action_id ≡ true
      → (next_observation call.observation card).1 ≡ none
      → observe_action refused required latched call.observation call.cause call.response_class
          call.mcp_is_error card g
        ≡ (g, card, false)
  unfolding observe_action
  silent_call call card g acts silent = rw (acts, silent, observe_action) refl

  silent_Step :
      (call : Call) (card : PendingCard) (g : Gate)
      → is_nonempty card.action_id ≡ true
      → IsLive refused card.audit_seq g.queue
      → (next_observation call.observation card).1 ≡ none
      → Step call.observation card g g card
  silent_Step call card g acts live silent = record {
    emitted = [];
    told = record {
      rows = [];
      added = sym (append-nil (rows_of g.queue card.audit_seq));
      matching = tt;
    };
    live = live;
    acts = acts;
    number = refl;
    tail = λ os. observations-silent call.observation os card silent;
  }

  -- The row of a call that tells, on the card that has seen it.
  abbrev told_row : Call → PendingCard → Observation → Gate → Event
  told_row call seen o g =
      observation_row g seen o (if is_late o then codes "late_response" else call.cause)
        call.response_class call.mcp_is_error

  abbrev told_queue : Call → PendingCard → Observation → Gate → AuditQueue × Bool
  told_queue call seen o g =
      write_row refused required latched seen.audit_seq (told_row call seen o g) g.queue

  abbrev told_gate : Call → Text → PendingCard → Observation → Gate → Gate
  told_gate call action_id seen o g =
      let g' = record g { queue = (told_queue call seen o g).0 } in
      if is_late o then g' else record g' { action_observed = delete action_id g'.action_observed }

  telling_call :
      (call : Call) (card : PendingCard) (g : Gate) (o : Observation)
      → is_nonempty card.action_id ≡ true
      → (next_observation call.observation card).1 ≡ some o
      → let seen = (next_observation call.observation card).0 in
        observe_action refused required latched call.observation call.cause call.response_class
          call.mcp_is_error card g
        ≡ (
          told_gate call card.action_id seen o g,
          record seen { observed = frozen g seen },
          (told_queue call seen o g).1,
        )
  unfolding observe_action append_action_observation
  telling_call call card g o acts told = rw (acts, told, observe_action) refl

  told_gate-queue :
      (call : Call) (action_id : Text) (seen : PendingCard) (o : Observation) (g : Gate)
      → (told_gate call action_id seen o g).queue ≡ (told_queue call seen o g).0
  told_gate-queue call action_id seen o g = ground arith

  telling_Step :
      (call : Call) (card : PendingCard) (g : Gate) (o : Observation)
      → is_nonempty card.action_id ≡ true
      → IsLive refused card.audit_seq g.queue
      → (next_observation call.observation card).1 ≡ some o
      → let seen = (next_observation call.observation card).0 in
        Step call.observation card g
          (told_gate call card.action_id seen o g)
          (record seen { observed = frozen g seen })
  telling_Step call card g o acts live told =
      let seen = (next_observation call.observation card).0 in
      let (same_action, same_seq) = next_observation-keeps call.observation card in
      let seen_acts : is_nonempty seen.action_id ≡ true =
        ap (λ t. is_nonempty t) same_action ∙ acts in
      let ev = told_row call seen o g in
      let a : IsAppended refused required latched card.audit_seq ev g.queue
          (told_gate call card.action_id seen o g).queue =
        subst (λ q. IsAppended refused required latched card.audit_seq ev g.queue q)
          (sym (told_gate-queue call card.action_id seen o g))
          (subst
            (λ n.
              IsAppended refused required latched card.audit_seq ev g.queue
                (write_row refused required latched n ev g.queue).0)
            (sym same_seq)
            (write_row-IsAppended refused required latched card.audit_seq ev g.queue live)) in
      record {
        emitted = o ∷ [];
        told = record {
          rows = bare ev ∷ [];
          added = a.rows;
          matching = (
            row_kind-bare ev
                ∙ row_kind-observation_row g seen o _ call.response_class call.mcp_is_error
                    seen_acts,
            row_observation g seen o _ call.response_class call.mcp_is_error,
            tt,
          );
        };
        live = a.live;
        acts = seen_acts;
        number = same_seq;
        tail = λ os.
            observations-told call.observation os card o told
            ∙ ap (λ l. o ∷ l) (sym (observations-frozen os seen (frozen g seen)));
      }

  observe_action-Step :
      (call : Call) (card : PendingCard) (g : Gate)
      → is_nonempty card.action_id ≡ true
      → IsLive refused card.audit_seq g.queue
      → let (g', card', failed) =
          observe_action refused required latched call.observation call.cause call.response_class
            call.mcp_is_error card g in
        Step call.observation card g g' card'
  observe_action-Step call card g acts live =
      elim (Option-cases (next_observation call.observation card).1) [
        | inl silent ↦
            subst (λ (r : Gate × PendingCard × Bool). Step call.observation card g r.0 r.1)
              (sym (silent_call call card g acts silent)) (silent_Step call card g acts live silent)
        | inr (o, told) ↦
            subst (λ (r : Gate × PendingCard × Bool). Step call.observation card g r.0 r.1)
              (sym (telling_call call card g o acts told))
              (telling_Step call card g o acts live told)
      ]

  observe_all-Told :
      (calls : List Call) (card : PendingCard) (g : Gate)
      → is_nonempty card.action_id ≡ true
      → IsLive refused card.audit_seq g.queue
      → Told card.audit_seq
          (observations (map seen_by calls) card)
          g.queue
          (observe_all calls card g).0.queue
  observe_all-Told [] card g acts live = record {
    rows = [];
    added = sym (append-nil (rows_of g.queue card.audit_seq));
    matching = tt;
  }
  observe_all-Told (call ∷ calls) card g acts live =
      let (g', card', failed) =
        observe_action refused required latched call.observation call.cause call.response_class
          call.mcp_is_error card g in
      let s = observe_action-Step call card g acts live in
      let next : Told card.audit_seq (observations (map seen_by calls) card') g'.queue
          (observe_all calls card' g').0.queue =
        subst
          (λ n.
            Told n (observations (map seen_by calls) card') g'.queue
              (observe_all calls card' g').0.queue)
          s.number
          (observe_all-Told calls card' g' s.acts
            (subst (λ n. IsLive refused n g'.queue) (sym s.number) s.live)) in
      subst (λ os. Told card.audit_seq os g.queue (observe_all calls card' g').0.queue)
        (sym (s.tail (map seen_by calls)))
        (Told-append card.audit_seq s.emitted _ g.queue g'.queue _ s.told next)

  -- Whatever responses, cancellations and timeouts reach a new card of a dispatched action whose sequence
  -- waits, one after the other and in whatever order, and whether or not the writer refuses rows: the
  -- rows that are added for its sequence, in the log or waiting, are all in place for the assessment
  -- of runs.
  pub observe_all-AcceptedRows :
      (calls : List Call) (card : PendingCard) (a : ActionState) (g : Gate)
      → is_nonempty card.action_id ≡ true
      → IsLive refused card.audit_seq g.queue
      → card.observation ≡ no_observation
      → card.late_response_recorded ≡ false
      → a.dispatch ≡ true
      → a.terminal ≡ false
      → a.late ≡ false
      → (a.decisions == 0) ≡ false
      → all is_outcome (map seen_by calls) ≡ true
      → (rows : List Event) × (rows_of (observe_all calls card g).0.queue card.audit_seq
          ≡ rows_of g.queue card.audit_seq ++ rows)
        × AcceptedRows a rows
  observe_all-AcceptedRows calls card a g acts live s r d t l n h =
      let told = observe_all-Told calls card g acts live in
      (
        told.rows,
        told.added,
        Matches-Accepted told.rows (observations (map seen_by calls) card) a told.matching
            (observations-Accepted (map seen_by calls) card a s r d t l n h),
      )

  -- A new card of an action whose sequence waits, if it is observed at all, adds exactly one row to its
  -- sequence, in the log or waiting, that is not of a late response, whatever else is observed of it
  -- later.
  pub observe_all_one_final :
      (call : Call) (calls : List Call) (card : PendingCard) (g : Gate)
      → is_nonempty card.action_id ≡ true
      → IsLive refused card.audit_seq g.queue
      → card.observation ≡ no_observation
      → is_outcome call.observation ≡ true
      → (rows : List Event) × (rows_of (observe_all (call ∷ calls) card g).0.queue card.audit_seq
          ≡ rows_of g.queue card.audit_seq ++ rows)
        × (count_if is_final_row rows ≡ 1)
  observe_all_one_final call calls card g acts live s h =
      let told = observe_all-Told (call ∷ calls) card g acts live in
      (
        told.rows,
        told.added,
        Matches-count told.rows _ told.matching
            ∙ observations_one_final call.observation (map seen_by calls) card s h,
      )
