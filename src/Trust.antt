-- ===== src/Trust.antt =====
-- The trust that an agent has earned, internal/trust/trust.go. The mutex makes each method one step.
-- Scores are float64: a type parameter with the comparisons, constants and sums that the code uses.
use nockguard.Base.{
  ℕ, suc, ◌+◌, ◌-◌, ◌≤◌, Bool, true, false, not, ◌&&◌, ◌||◌, Option, none, some, List, [], ◌∷◌, ◌≡◌,
  ◌≢◌, refl, arith, ltb, leb, if◌then◌else◌, Text, ℤ, pos, negsuc, is_positive, is_nonempty, Result,
  ok, err, Bool-cases, inl, inr,
}
use nockguard.Proxy.Gate.State.{Outcome, allow_outcome, warn_outcome, deny_outcome}
pub mod Range
mod Tests

pub data Tier : Type 0 where
  excellent normal reduced restricted : Tier

-- `decayed s elapsed` is Baseline + (s - Baseline) * (1 - elapsed / 60 s), and `scaled n tier` the
-- integer above n times the tier's multiplier.
pub record Floats (S : Type 0) : Type 0 where
  pub less : S → S → Bool
  pub at_least : S → S → Bool
  pub same : S → S → Bool
  pub lowest : S
  pub highest : S
  pub baseline : S
  pub excellent_from : S
  pub normal_from : S
  pub reduced_from : S
  pub plus_allow : S → S
  pub minus_warn : S → S
  pub minus_deny : S → S
  pub decayed : S → ℕ → S
  pub scaled : ℤ → Tier → ℤ

-- `updated` is none at the zero time; `saved` is what was last handed to the file, of which failures
-- are ignored.
pub record Accumulator (S : Type 0) : Type 0 where
  pub has_path : Bool
  pub score : S
  pub updated : Option ℕ
  pub enabled : Bool
  pub saved : Option (S × Option ℕ)

-- What `load` finds in the file: where there is none, whether a new one can be written; otherwise the
-- score and the time, none if it is empty, where the zero time is none in turn.
pub data Stored (S : Type 0) : Type 0 where
  unreadable malformed bad_time : Stored S
  absent : Bool → Stored S
  snapshot : S → Option (Option ℕ) → Stored S

pub data TrustError : Type 0 where
  no_home read_failed not_json not_a_time save_failed : TrustError

abbrev pub default_half : ℕ
default_half = 60000000000

-- The calls that change the score.
pub data TrustOp : Type 0 where
  outcome : ℕ → Outcome → TrustOp
  limit : ℕ → ℤ → TrustOp

module _ {S : Type 0} (f : Floats S) where
  unfoldable pub clamp : S → S
  clamp v = if f.less v f.lowest then f.lowest else if f.less f.highest v then f.highest else v

  unfoldable pub save : Accumulator S → Accumulator S
  save a = if a.has_path then record a { saved = some (a.score, a.updated) } else a

  unfoldable pub decay_to : ℕ → Accumulator S → Accumulator S
  unfolding clamp
  decay_to now a = elim a.updated [
    | none ↦ record a { updated = some now }
    | some before ↦
        if leb now before || f.same a.score f.baseline
        then record a { updated = some now }
        else if leb default_half (now - before)
        then record a { score = f.baseline; updated = some now }
        else record a { score = clamp (f.decayed a.score (now - before)); updated = some now }
  ]

  abbrev pub shifted : Outcome → S → S
  shifted allow_outcome s = f.plus_allow s
  shifted warn_outcome s = f.minus_warn s
  shifted deny_outcome s = f.minus_deny s

  -- The accumulator and the score that is returned.
  unfoldable pub apply_outcome : ℕ → Outcome → Accumulator S → Accumulator S × S
  apply_outcome now o a =
      let decayed = decay_to now a in
      let moved = save (record decayed { score = clamp (shifted o decayed.score) }) in
      if a.enabled then (moved, moved.score) else (a, f.baseline)

  unfoldable pub score : ℕ → Accumulator S → Accumulator S × S
  score now a =
      let decayed = save (decay_to now a) in
      if a.enabled then (decayed, decayed.score) else (a, f.baseline)

  unfoldable pub tier_for : S → Tier
  tier_for s =
      if f.at_least s f.excellent_from
      then excellent
      else if f.at_least s f.normal_from
      then normal
      else if f.at_least s f.reduced_from
      then reduced
      else restricted

  unfoldable pub rate_limit_for_score : ℤ → S → ℤ
  rate_limit_for_score base s =
      if not (is_positive base)
      then base
      else if is_positive (f.scaled base (tier_for s))
      then f.scaled base (tier_for s)
      else pos 1

  unfoldable pub rate_limit_for : ℕ → ℤ → Accumulator S → Accumulator S × ℤ
  rate_limit_for now base a =
      let (a', s) = score now a in
      if a.enabled then (a', rate_limit_for_score base s) else (a, base)

  unfoldable pub read_stored : Stored S → Accumulator S → Result TrustError (Accumulator S)
  read_stored unreadable a = err read_failed
  read_stored (absent true) a = ok (save a)
  read_stored (absent false) a = err save_failed
  read_stored malformed a = err not_json
  read_stored bad_time a = err not_a_time
  read_stored (snapshot s none) a = ok (record a { score = clamp s })
  read_stored (snapshot s (some t)) a = ok (record a { score = clamp s; updated = t })

  unfoldable pub load : Stored S → Accumulator S → Result TrustError (Accumulator S)
  load stored a = if not a.has_path then ok a else read_stored stored a

  -- `New`, at a path that is given or under the home directory.
  unfoldable pub new : Bool → Bool → ℕ → Stored S → Result TrustError (Accumulator S)
  new enabled has_home now stored =
      let a : Accumulator S = record {
        has_path = has_home;
        score = f.baseline;
        updated = none;
        enabled = enabled;
        saved = none;
      } in
      if not enabled
      then ok a
      else if not has_home
      then err no_home
      else load stored (record a { updated = some now })

  unfoldable pub trust_step : TrustOp → Accumulator S → Accumulator S
  trust_step (outcome now o) a = (apply_outcome now o a).0
  trust_step (limit now base) a = (rate_limit_for now base a).0

  unfoldable pub run_trust : List TrustOp → Accumulator S → Accumulator S
  run_trust [] a = a
  run_trust (op ∷ ops) a = run_trust ops (trust_step op a)
