-- ===== src/Pool/Tests.antt =====
-- A pool of three accounts, with headroom in percent, and the theorems at it.
use nockguard.Base.{
  ℕ, Bool, true, false, not, [], ◌∷◌, ◌≡◌, ◌≢◌, refl, arith, ltb, leb, ◌==◌, ◌+◌, Text, text_eq, ok,
  any, All, lookup, insert,
}
use nockguard.Pool.Router.{
  Router, max_headroom, cooldown_skip, sticky_session, on_cooldown, record_failure, pinned,
  headroom_of, consider, scan, route, route_candidates, scan_candidates,
}
use nockguard.Pool.Budget.{
  Money, BudgetState, cheap, standard, BudgetReason, budget_downgrade, budget_root, is_cheap,
  route_locked, charge, new_asks,
}
use nockguard.Pool.Downgrade.{spent_routes_cheap}
use nockguard.Pool.Routing.{
  IsHeadroomOrder, is_ok, Beaten, route_available, route_best, failure_demotes,
}

abbrev more : ℕ → ℕ → Bool
more a b = ltb b a

more-IsHeadroomOrder : IsHeadroomOrder more
more-IsHeadroomOrder = record { irreflexive = λ a. ground arith; below = λ a b c h k. ground arith }

abbrev pool : Router ℕ
pool = record {
  upstreams = (1 ∷ []) ∷ (2 ∷ []) ∷ (3 ∷ []) ∷ [];
  sessions = (9 ∷ [], 1 ∷ []) ∷ [];
  headroom = (1 ∷ [], 30) ∷ (2 ∷ [], 80) ∷ (3 ∷ [], 40) ∷ [];
  cool_until = [];
  cooldown = 60;
}

abbrev failed_pool : Router ℕ
failed_pool = record pool { cool_until = (2 ∷ [], 65) ∷ [] }

picks_most : route more 100 0 pool [] 10 ≡ ok (2 ∷ [], max_headroom)
unfolding route pinned scan consider on_cooldown headroom_of lookup text_eq
picks_most = refl

keeps_pin : route more 100 0 pool (9 ∷ []) 10 ≡ ok (1 ∷ [], sticky_session)
unfolding route pinned lookup text_eq
keeps_pin = refl

skips_failed : route more 100 0 (record_failure pool (2 ∷ []) 5) [] 10 ≡ ok (3 ∷ [], cooldown_skip)
unfolding route pinned scan consider on_cooldown headroom_of record_failure lookup insert text_eq
skips_failed = refl

comes_back : route more 100 0 failed_pool [] 65 ≡ ok (2 ∷ [], max_headroom)
unfolding route pinned scan consider on_cooldown headroom_of lookup text_eq
comes_back = refl

route_available_example :
    is_ok (route more 100 0 failed_pool [] 10)
    ≡ any (λ l. not (on_cooldown failed_pool 10 l)) failed_pool.upstreams
unfolding pinned
route_available_example =
    route_available more 100 0 failed_pool [] 10 (refl, (refl, (refl, tt))) refl

route_best_example :
    (on_cooldown pool 10 (2 ∷ []) ≡ false)
    × All (Beaten more 100 0 pool 10 (headroom_of more 100 0 pool (2 ∷ []))) pool.upstreams
unfolding pinned
route_best_example =
    route_best more 100 0 pool [] 10 (2 ∷ []) max_headroom more-IsHeadroomOrder
      (refl, (refl, (refl, tt))) refl picks_most

abbrev second : Text
second = 2 ∷ []

abbrev third : Text
third = 3 ∷ []

failure_demotes_example : third ≢ second
unfolding pinned
failure_demotes_example =
    failure_demotes more 100 0 pool [] second third 5 10 cooldown_skip more-IsHeadroomOrder
      (refl, (refl, (refl, tt))) refl (omega arith) skips_failed

-- Money in cents.
abbrev cents : Money ℕ
cents = record {
  zero_cost = 0;
  full = 100;
  lowest = 0;
  gt = more;
  ge = λ a b. leb b a;
  eq = λ a b. a == b;
  plus = λ a b. a + b;
}

-- The root session 8 has spent its 50 cents.
abbrev budget : BudgetState ℕ
budget = record {
  max_cost = 50;
  thresholds = 20 ∷ 40 ∷ [];
  upstreams =
      (1 ∷ [], record { tier = standard; cost_per_call = 10 })
      ∷ (3 ∷ [], record { tier = cheap; cost_per_call = 1 })
      ∷ [];
  spend = (8 ∷ [], 50) ∷ (7 ∷ [], 35) ∷ [];
  asked = [];
}

abbrev root : Text
root = 8 ∷ []

cheap_only : route_locked cents budget pool (9 ∷ []) root 10 ≡ ok (3 ∷ [], budget_downgrade)
unfolding route_locked budget_root is_cheap route_candidates pinned scan_candidates consider
    on_cooldown headroom_of lookup text_eq
cheap_only = refl

-- The call over 40 cents asks once.
asks_at_threshold : (charge cents budget (7 ∷ []) (1 ∷ [])).1 ≡ 40 ∷ []
unfolding charge new_asks lookup text_eq
asks_at_threshold = refl

spent_routes_cheap_example :
    (is_cheap cents budget third ≡ true)
    × (◌≡◌ {A = BudgetReason} budget_downgrade budget_downgrade)
unfolding budget_root lookup text_eq
spent_routes_cheap_example =
    spent_routes_cheap cents budget pool (9 ∷ []) root 10 third budget_downgrade refl cheap_only
