-- ===== src/Pool/Budget.antt =====
-- The budget of the pool, internal/pool/budget.go: the spend of each root session, the downgrade to
-- cheap upstreams at the cap, and the thresholds at which somebody is asked. Money is float64.
use nockguard.Base.{
  Bool, true, false, not, ◌||◌, Option, none, some, List, [], ◌∷◌, ℕ, if◌then◌else◌, Text, codes,
  Map, lookup, insert, Result, ok, err, is_nonempty, any,
}
use nockguard.Pool.Router.{Router, RouteReason, RouteError, route, route_candidates}

pub data Tier : Type 0 where
  cheap standard expensive : Tier

pub record BudgetUpstream (Float : Type 0) : Type 0 where
  pub tier : Tier
  pub cost_per_call : Float

pub record BudgetState (Float : Type 0) : Type 0 where
  pub max_cost : Float
  pub thresholds : List Float
  pub upstreams : Map (BudgetUpstream Float)
  pub spend : Map Float
  pub asked : Map (List Float)

pub data BudgetReason : Type 0 where
  routed : RouteReason → BudgetReason
  budget_downgrade : BudgetReason

pub data BudgetError : Type 0 where
  unroutable : RouteError → BudgetError
  no_cheap_upstreams : BudgetError

pub record BudgetRoute (Float : Type 0) : Type 0 where
  pub label : Text
  pub reason : BudgetReason
  pub downgraded : Bool
  pub ask_thresholds : List Float

-- An empty tier counts as expensive.
unfoldable pub effective_tier : Option Tier → Tier
effective_tier none = expensive
effective_tier (some t) = t

unfoldable pub budget_root : Text → Text → Text
budget_root root session =
    if is_nonempty root then root else if is_nonempty session then session else codes "default"

abbrev pub is_cheap_tier : Tier → Bool
is_cheap_tier cheap = true
is_cheap_tier _ = false

-- The arithmetic of float64: its constants, comparisons and sum.
pub record Money (Float : Type 0) : Type 0 where
  pub zero_cost : Float
  pub full : Float
  pub lowest : Float
  pub gt : Float → Float → Bool
  pub ge : Float → Float → Bool
  pub eq : Float → Float → Bool
  pub plus : Float → Float → Float

module _ {Float : Type 0} (m : Money Float) where
  abbrev pub spend_of : BudgetState Float → Text → Float
  spend_of b root = elim (lookup root b.spend) [ none ↦ m.zero_cost | some c ↦ c ]

  unfoldable pub is_cheap : BudgetState Float → Text → Bool
  is_cheap b l = elim (lookup l b.upstreams) [ none ↦ false | some u ↦ is_cheap_tier u.tier ]

  abbrev pub cost_of : BudgetState Float → Text → Float
  cost_of b l = elim (lookup l b.upstreams) [ none ↦ m.zero_cost | some u ↦ u.cost_per_call ]

  abbrev pub at_cap : BudgetState Float → Text → Bool
  at_cap b root = m.ge (spend_of b root) b.max_cost

  abbrev pub downgrade_of :
      Result RouteError (Text × RouteReason) → Result BudgetError (Text × BudgetReason)
  downgrade_of (ok (l, reason)) = ok (l, budget_downgrade)
  downgrade_of (err e) = err no_cheap_upstreams

  -- `routeLocked`: at the cap a session's pin is ignored.
  unfoldable pub route_locked :
      BudgetState Float → Router Float → Text → Text → ℕ → Result BudgetError (Text × BudgetReason)
  route_locked b r session root_session now =
      if not (at_cap b (budget_root root_session session))
      then elim (route_candidates m.gt m.full m.lowest r session now none) [
        | ok (l, reason) ↦ ok (l, routed reason)
        | err e ↦ err (unroutable e)
      ]
      else downgrade_of (route_candidates m.gt m.full m.lowest r [] now (some (is_cheap b)))

  -- The loop of `newAskThresholdsLocked`: the thresholds already asked, and the new ones.
  unfoldable pub new_asks : Float → Float → List Float → List Float → List Float × List Float
  new_asks before after asked [] = (asked, [])
  new_asks before after asked (t ∷ ts) =
      let fresh = not (m.ge before t || not (m.ge after t) || any (m.eq t) asked) in
      let (asked', out) = new_asks before after (if fresh then t ∷ asked else asked) ts in
      (asked', if fresh then t ∷ out else out)

  abbrev pub asked_of : BudgetState Float → Text → List Float
  asked_of b root = elim (lookup root b.asked) [ none ↦ [] | some ts ↦ ts ]

  abbrev is_downgrade : BudgetReason → Bool
  is_downgrade (routed r) = false
  is_downgrade budget_downgrade = true

  -- The books after a request was routed to a label.
  unfoldable pub charge : BudgetState Float → Text → Text → BudgetState Float × List Float
  charge b root l =
      let before = spend_of b root in
      let after = m.plus before (cost_of b l) in
      let (asked', out) = new_asks before after (asked_of b root) b.thresholds in
      (record b { spend = insert root after b.spend; asked = insert root asked' b.asked }, out)

  abbrev unbudgeted :
      Option (BudgetState Float)
      → Result RouteError (Text × RouteReason)
      → Option (BudgetState Float) × Result BudgetError (BudgetRoute Float)
  unbudgeted b (ok (l, reason)) = (
    b,
    ok (record { label = l; reason = routed reason; downgraded = false; ask_thresholds = [] }),
  )
  unbudgeted b (err e) = (b, err (unroutable e))

  -- `RouteWithBudget`, whose events are a function of its result.
  unfoldable pub route_with_budget :
      Option (BudgetState Float)
      → Router Float
      → Text
      → Text
      → ℕ
      → Option (BudgetState Float) × Result BudgetError (BudgetRoute Float)
  route_with_budget none r session root_session now =
      unbudgeted none (route m.gt m.full m.lowest r session now)
  route_with_budget (some b) r session root_session now =
      if not (m.gt b.max_cost m.zero_cost)
      then unbudgeted (some b) (route m.gt m.full m.lowest r session now)
      else elim (route_locked b r session root_session now) [
        | err e ↦ (some b, err e)
        | ok (l, reason) ↦
            let (b', asks) = charge b (budget_root root_session session) l in
            (
              some b',
              ok (record {
                label = l;
                reason = reason;
                downgraded = is_downgrade reason;
                ask_thresholds = asks;
              }),
            )
      ]

  unfoldable pub record_spend : BudgetState Float → Text → Float → BudgetState Float
  record_spend b root_session cost =
      let root = budget_root root_session [] in
      if not (m.gt cost m.zero_cost)
      then b
      else record b { spend = insert root (m.plus (spend_of b root) cost) b.spend }
