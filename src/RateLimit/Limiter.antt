-- ===== src/RateLimit/Limiter.antt =====
-- The limiter of internal/ratelimit/ratelimit.go. Times are nanoseconds of the clock; the mutex makes
-- each call of `Allow` one step. The counter `total` is a Go `int` that counts allowed calls and is
-- left unbounded.
use nockguard.Base.{
  ℕ, suc, ◌+◌, Bool, false, not, ◌&&◌, ◌||◌, Option, none, some, List, [], ◌∷◌, ◌++◌, ltb,
  if◌then◌else◌, length, ℤ, pos, negsuc, is_positive, at_least,
}

pub record Config : Type 0 where
  pub max_calls : ℤ
  pub window : ℤ
  pub spend_cap : ℤ

-- `dynamic` says that `WithMaxCallsFunc` has installed a function; what that function answers at a
-- call is an argument of the call.
pub record Limiter : Type 0 where
  pub cfg : Config
  pub dynamic : Bool
  pub times : List ℕ
  pub total : ℕ

pub data Answer : Type 0 where
  allowed spend_capped rate_limited : Answer

unfoldable pub new : Config → Limiter
new cfg = record { cfg = cfg; dynamic = false; times = []; total = 0 }

-- Given whether the function is one and not nil.
unfoldable pub with_max_calls_func : Bool → Limiter → Limiter
with_max_calls_func given l = record l { dynamic = given }

unfoldable pub config_enabled : Config → Bool
config_enabled cfg = is_positive cfg.max_calls || is_positive cfg.spend_cap

-- A nil limiter is `none`.
unfoldable pub enabled : Option Limiter → Bool
enabled none = false
enabled (some l) = config_enabled l.cfg

-- `t.After(now.Add(-window))`
unfoldable pub in_window : ℤ → ℕ → ℕ → Bool
in_window (pos w) now t = ltb now (t + w)
in_window (negsuc w) now t = ltb (now + suc w) t

-- `prune`: the times drop off at the front, up to the first that is inside the window.
unfoldable pub prune : ℤ → ℕ → List ℕ → List ℕ
prune w now [] = []
prune w now (t ∷ ts) = let rest = prune w now ts in if in_window w now t then t ∷ ts else rest

unfoldable pub effective_max : Bool → (ℤ → ℤ) → ℤ → ℤ
effective_max dynamic func base = if dynamic then func base else base

unfoldable pub cap_reached : ℤ → ℕ → Bool
cap_reached cap total = is_positive cap && at_least total cap

-- `Allow` at a moment of the clock.
unfoldable pub allow : Limiter → ℕ → (ℤ → ℤ) → Limiter × Answer
allow l now func =
    let max_calls = effective_max l.dynamic func l.cfg.max_calls in
    let kept = prune l.cfg.window now l.times in
    if not (config_enabled l.cfg)
    then (l, allowed)
    else if cap_reached l.cfg.spend_cap l.total
    then (l, spend_capped)
    else if is_positive max_calls
    then if at_least (length kept) max_calls
      then (record l { times = kept }, rate_limited)
      else (record l { times = kept ++ now ∷ []; total = l.total + 1 }, allowed)
    else (record l { total = l.total + 1 }, allowed)

-- A nil limiter allows every call.
unfoldable pub allow_nil : Option Limiter → ℕ → (ℤ → ℤ) → Option Limiter × Answer
unfolding allow
allow_nil none now func = (none, allowed)
allow_nil (some l) now func = let (l', a) = allow l now func in (some l', a)

-- A call: its moment, and what an installed function answers at it.
abbrev pub Call : Type 0
Call = ℕ × (ℤ → ℤ)

-- The answers to a row of calls, and the limiter after them.
unfoldable pub run : Limiter → List Call → Limiter × List Answer
run l [] = (l, [])
run l ((now, func) ∷ calls) =
    let (l', a) = allow l now func in let (l'', answers) = run l' calls in (l'', a ∷ answers)
