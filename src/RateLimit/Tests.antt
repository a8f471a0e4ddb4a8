-- ===== src/RateLimit/Tests.antt =====
-- Runs of the limiter, and the theorems at them.
use nockguard.Base.{
  ◌≤◌, ◌∷◌, [], List, ◌≡◌, refl, false, arith, count_if, pos, ℤ, is_positive, at_least,
}
use nockguard.RateLimit.Limiter.{
  with_max_calls_func, Config, allowed, spend_capped, rate_limited, new, Call, run, in_window,
  prune, allow, config_enabled, effective_max, cap_reached,
}
use nockguard.RateLimit.History.{run-refines, spec_run, fresh, no_history}
use nockguard.RateLimit.Bounds.{
  spend_cap_bounds, window_bounds, within, allowed_times, count_allowed,
}

-- Two calls in ten nanoseconds, and three calls in all.
abbrev small : Config
small = record { max_calls = pos 2; window = pos 10; spend_cap = pos 3 }

abbrev same : ℤ → ℤ
same base = base

abbrev burst : List Call
burst = (1, same) ∷ (2, same) ∷ (3, same) ∷ (11, same) ∷ (12, same) ∷ []

burst_answers :
    (run (fresh small false) burst).1
    ≡ allowed ∷ allowed ∷ rate_limited ∷ allowed ∷ spend_capped ∷ []
unfolding run allow prune in_window new config_enabled effective_max cap_reached is_positive
    at_least with_max_calls_func
burst_answers = refl

run-refines_example :
    ((run (fresh small false) burst).1 ≡ (spec_run small false no_history burst).1)
    × ((run (fresh small false) burst).0.total ≡ (spec_run small false no_history burst).0.total)
run-refines_example = run-refines small false burst (omega arith)

spend_cap_bounds_example :
    (count_allowed (run (fresh small false) burst).1 ≤ 3)
    × ((run (fresh small false) burst).0.total ≡ count_allowed (run (fresh small false) burst).1)
spend_cap_bounds_example = spend_cap_bounds small false 3 burst refl (omega arith)

window_bounds_example :
    count_if (within (pos 10) 11) (allowed_times burst (run (fresh small false) burst).1) ≤ 2
unfolding is_positive at_least effective_max config_enabled
window_bounds_example =
    window_bounds small false 2 burst (omega arith) refl
      ((refl, refl), ((refl, refl), ((refl, refl), ((refl, refl), ((refl, refl), tt))))) 11
