-- ===== src/RateLimit/Bounds.antt =====
-- The two limits, over any row of calls.
use mathlib.Core.List.{append-nil, append_assoc}
use mathlib.Core.Path.{subst}
use nockguard.Base.{
  ℕ, suc, ◌+◌, ◌≤◌, ◌<◌, Bool, true, false, ◌&&◌, List, [], ◌∷◌, ◌++◌, ◌≡◌, refl, sym, ap, ◌∙◌,
  arith, leb, if◌then◌else◌, count_if, ℤ, pos, negsuc, is_positive, at_least, inl, inr, Bool-cases,
  All,
}
use nockguard.RateLimit.Limiter.{
  Config, Limiter, Answer, allowed, spend_capped, rate_limited, new, with_max_calls_func,
  config_enabled, in_window, effective_max, cap_reached, allow, Call, run,
}
use nockguard.RateLimit.History.{
  History, spec_allow, spec_run, InOrder, fresh, no_history, run-refines, count_if-append,
  out_of_window_later,
}

abbrev is_allowed : Answer → Bool
is_allowed allowed = true
is_allowed spend_capped = false
is_allowed rate_limited = false

pub count_allowed : List Answer → ℕ
count_allowed [] = 0
count_allowed (allowed ∷ answers) = suc (count_allowed answers)
count_allowed (_ ∷ answers) = count_allowed answers

-- One call under a spend cap `c`.
allow-capped :
    (l : Limiter) (now c : ℕ) (func : ℤ → ℤ)
    → l.cfg.spend_cap ≡ pos c
    → 0 < c
    → l.total ≤ c
    → ((allow l now func).0.total
        ≡ (if is_allowed (allow l now func).1 then l.total + 1 else l.total))
      × ((allow l now func).0.total ≤ c)
      × ((allow l now func).0.cfg ≡ l.cfg)
unfolding allow cap_reached is_positive at_least config_enabled
allow-capped l now c func e p h = ground arith

run-capped :
    (c : ℕ) (calls : List Call) (l : Limiter)
    → l.cfg.spend_cap ≡ pos c
    → 0 < c
    → l.total ≤ c
    → (l.total + count_allowed (run l calls).1 ≡ (run l calls).0.total)
      × ((run l calls).0.total ≤ c)
unfolding run count_allowed
run-capped c [] l e p h = (omega arith, h)
run-capped c ((now, func) ∷ calls) l e p h =
    let (one, below, same) = allow-capped l now c func e p h in
    let (sum, end) =
      run-capped c calls (allow l now func).0 (ap (λ (g : Config). g.spend_cap) same ∙ e) p below in
    (ground arith, end)

-- Under a spend cap no row of calls gets more than that many allowed, whatever the clock does, and
-- the refused calls use up nothing.
pub spend_cap_bounds :
    (cfg : Config) (dynamic : Bool) (c : ℕ) (calls : List Call)
    → cfg.spend_cap ≡ pos c
    → 0 < c
    → (count_allowed (run (fresh cfg dynamic) calls).1 ≤ c)
      × ((run (fresh cfg dynamic) calls).0.total ≡ count_allowed (run (fresh cfg dynamic) calls).1)
unfolding new with_max_calls_func
spend_cap_bounds cfg true c calls e p =
    let (sum, end) = run-capped c calls (fresh cfg true) e p (omega arith) in omega arith
spend_cap_bounds cfg false c calls e p =
    let (sum, end) = run-capped c calls (fresh cfg false) e p (omega arith) in omega arith

-- The moments of the allowed calls.
pub allowed_times : List Call → List Answer → List ℕ
allowed_times ((now, func) ∷ calls) (allowed ∷ answers) = now ∷ allowed_times calls answers
allowed_times (call ∷ calls) (_ ∷ answers) = allowed_times calls answers
allowed_times _ _ = []

-- The moment lies in the window that ends at `at`.
abbrev pub within : ℤ → ℕ → ℕ → Bool
within w at t = in_window w at t && leb t at

-- Each call meets a positive limit of at most `m`.
abbrev pub Limited : Config → Bool → ℕ → List Call → Type 0
Limited cfg dynamic m = All (λ (call : Call).
    (is_positive (effective_max dynamic call.1 cfg.max_calls) ≡ true)
    × (at_least m (effective_max dynamic call.1 cfg.max_calls) ≡ true))

module _ (w : ℤ) (m : ℕ) where
  -- No window holds more than `m` of the moments, wherever it ends.
  abbrev Sparse : List ℕ → Type 0
  Sparse hs = (at : ℕ) → count_if (within w at) hs ≤ m

  within-le :
      (now at : ℕ) (hs : List ℕ)
      → now ≤ at
      → count_if (within w at) hs ≤ count_if (in_window w now) hs
  within-le now at [] h = omega arith
  within-le now at (t ∷ hs) h =
      ground (arith, out_of_window_later w now at t h, within-le now at hs h)

  Sparse-snoc :
      (now : ℕ) (hs : List ℕ)
      → Sparse hs
      → count_if (in_window w now) hs < m
      → Sparse (hs ++ now ∷ [])
  Sparse-snoc now hs s h at = elim (Bool-cases (within w at now)) [
    | inl e ↦ ground (arith, count_if-append (within w at) hs (now ∷ []), within-le now at hs)
    | inr e ↦ ground (arith, count_if-append (within w at) hs (now ∷ []), s at)
  ]

below_limit : (n m : ℕ) (k : ℤ) → at_least m k ≡ true → at_least n k ≡ false → n < m
unfolding at_least
below_limit n m (pos k) h e = ground arith
below_limit n m (negsuc k) h e = cc

-- A step of the history: what is counted is what is allowed, and it stays sparse.
spec_allow-Sparse :
    (cfg : Config) (dynamic : Bool) (m : ℕ) (h : History) (now : ℕ) (func : ℤ → ℤ)
    → is_positive (effective_max dynamic func cfg.max_calls) ≡ true
    → at_least m (effective_max dynamic func cfg.max_calls) ≡ true
    → config_enabled cfg ≡ true
    → Sparse cfg.window m h.counted
    → Sparse cfg.window m (spec_allow cfg dynamic h now func).0.counted
      × ((spec_allow cfg dynamic h now func).0.counted ≡ (
          if is_allowed (spec_allow cfg dynamic h now func).1
          then h.counted ++ now ∷ []
          else h.counted))
unfolding spec_allow
spec_allow-Sparse cfg dynamic m h now func p q on s =
    let n = count_if (in_window cfg.window now) h.counted in
    elim (Bool-cases (cap_reached cfg.spend_cap h.total)) [
      | inl capped ↦ rw (on, capped) (s, refl)
      | inr free ↦ elim (Bool-cases (at_least n (effective_max dynamic func cfg.max_calls))) [
        | inl full ↦ rw (on, free, p, full) (s, refl)
        | inr room ↦
            rw (on, free, p, room)
              (Sparse-snoc cfg.window m now h.counted s (below_limit n m _ q room), refl)
      ]
    ]

regroup_times :
    (now : ℕ) (func : ℤ → ℤ) (calls : List Call) (a : Answer) (answers : List Answer)
    (hs hs' : List ℕ)
    → hs' ≡ (if is_allowed a then hs ++ now ∷ [] else hs)
    → hs ++ allowed_times ((now, func) ∷ calls) (a ∷ answers) ≡ hs' ++ allowed_times calls answers
unfolding allowed_times
regroup_times now func calls allowed answers hs hs' e =
    rw e (sym (append_assoc hs (now ∷ []) (allowed_times calls answers)))
regroup_times now func calls spend_capped answers hs hs' e = rw e
regroup_times now func calls rate_limited answers hs hs' e = rw e

spec_run-Sparse :
    (cfg : Config) (dynamic : Bool) (m : ℕ) (calls : List Call) (h : History)
    → Limited cfg dynamic m calls
    → config_enabled cfg ≡ true
    → Sparse cfg.window m h.counted
    → Sparse cfg.window m (h.counted ++ allowed_times calls (spec_run cfg dynamic h calls).1)
unfolding spec_run allowed_times
spec_run-Sparse cfg dynamic m [] h l on s = rw append-nil s
spec_run-Sparse cfg dynamic m ((now, func) ∷ calls) h ((p, q), l) on s =
    let (s', same) = spec_allow-Sparse cfg dynamic m h now func p q on s in
    let ih = spec_run-Sparse cfg dynamic m calls (spec_allow cfg dynamic h now func).0 l on s' in
    subst (Sparse cfg.window m) (sym (regroup_times now func calls _ _ h.counted _ same)) ih

-- With a clock that does not run backwards, and limits that are positive and at most `m`, at most `m`
-- calls are allowed within any window, wherever it ends.
pub window_bounds :
    (cfg : Config) (dynamic : Bool) (m : ℕ) (calls : List Call)
    → InOrder 0 calls
    → config_enabled cfg ≡ true
    → Limited cfg dynamic m calls
    → (at : ℕ)
    → count_if (within cfg.window at) (allowed_times calls (run (fresh cfg dynamic) calls).1) ≤ m
window_bounds cfg dynamic m calls o on l at =
    rw (run-refines cfg dynamic calls o).0
      (spec_run-Sparse cfg dynamic m calls no_history l on (λ at. omega arith) at)
