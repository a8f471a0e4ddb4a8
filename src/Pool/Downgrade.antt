-- ===== src/Pool/Downgrade.antt =====
-- What the budget forbids at its cap.
use mathlib.Core.Path.{subst}
use nockguard.Base.{
  ℕ, Bool, true, not, some, List, [], ◌∷◌, ◌≡◌, inl, inr, refl, sym, ap, arith, if◌then◌else◌, Text,
  Result, ok, err, is_nonempty, Bool-cases, ok_injective,
}
use nockguard.Pool.Router.{
  Router, RouteReason, RouteError, Pick, on_cooldown, consider, no_pick, answer, pinned,
  scan_candidates, route_candidates,
}
use nockguard.Pool.Budget.{
  Money, BudgetState, BudgetReason, budget_downgrade, downgrade_of, budget_root, at_cap, is_cheap,
  route_locked,
}

module _ {Float : Type 0} (m : Money Float) where
  consider-best :
      (r : Router Float) (now : ℕ) (p : Pick Float) (l : Text) (allow : Text → Bool)
      → allow l ≡ true
      → (is_nonempty p.best ≡ true → allow p.best ≡ true)
      → is_nonempty (consider m.gt m.full m.lowest r now p l).best ≡ true
      → allow (consider m.gt m.full m.lowest r now p l).best ≡ true
  unfolding consider
  consider-best r now p l allow h k f = elim (Bool-cases (on_cooldown r now l)) [
    | inl cool ↦ ground (arith, cool, k)
    | inr warm ↦ ground (arith, warm, h, k)
  ]

  -- A filtered loop picks what the filter permits.
  scan_candidates-permits :
      (r : Router Float) (now : ℕ) (p : Pick Float) (ls : List Text) (allow : Text → Bool)
      → (is_nonempty p.best ≡ true → allow p.best ≡ true)
      → is_nonempty (scan_candidates m.gt m.full m.lowest (some allow) r now p ls).best ≡ true
      → allow (scan_candidates m.gt m.full m.lowest (some allow) r now p ls).best ≡ true
  unfolding scan_candidates
  scan_candidates-permits r now p [] allow k f = k f
  scan_candidates-permits r now p (l ∷ ls) allow k f = elim (Bool-cases (allow l)) [
    | inl yes_l ↦
        let p' = consider m.gt m.full m.lowest r now p l in
        let same : (if not (allow l) then p else p') ≡ p' = rw yes_l in
        subst
          (λ q. allow (scan_candidates m.gt m.full m.lowest (some allow) r now q ls).best ≡ true)
          (sym same)
          (scan_candidates-permits r now p' ls allow (consider-best r now p l allow yes_l k) (
            subst
              (λ q.
                is_nonempty (scan_candidates m.gt m.full m.lowest (some allow) r now q ls).best
                ≡ true)
              same f))
    | inr no_l ↦
        let p' = consider m.gt m.full m.lowest r now p l in
        let same : (if not (allow l) then p else p') ≡ p = rw no_l in
        subst
          (λ q. allow (scan_candidates m.gt m.full m.lowest (some allow) r now q ls).best ≡ true)
          (sym same)
          (scan_candidates-permits r now p ls allow k (
            subst
              (λ q.
                is_nonempty (scan_candidates m.gt m.full m.lowest (some allow) r now q ls).best
                ≡ true)
              same f))
  ]

  answer-best :
      (p : Pick Float) (l : Text) (reason : RouteReason)
      → answer m.gt m.full m.lowest p ≡ ok (l, reason)
      → (is_nonempty p.best ≡ true) × (p.best ≡ l)
  answer-best p l reason h = (ground arith, ground arith)

  filtered_route :
      (r : Router Float) (now : ℕ) (allow : Text → Bool) (l : Text) (reason : RouteReason)
      → route_candidates m.gt m.full m.lowest r [] now (some allow) ≡ ok (l, reason)
      → allow l ≡ true
  unfolding route_candidates pinned
  filtered_route r now allow l reason h =
      let e =
        scan_candidates m.gt m.full m.lowest (some allow) r now (no_pick m.gt m.full m.lowest)
          r.upstreams in
      let (found, same) = answer-best e l reason h in
      subst (λ k. allow k ≡ true) same
        (scan_candidates-permits r now (no_pick m.gt m.full m.lowest) r.upstreams allow
          (λ none_yet. absurd (ground arith)) found)

  cheap_answer :
      (b : BudgetState Float) (r : Router Float) (now : ℕ) (l : Text) (reason : BudgetReason)
      (o : Result RouteError (Text × RouteReason))
      → route_candidates m.gt m.full m.lowest r [] now (some (is_cheap m b)) ≡ o
      → downgrade_of m o ≡ ok (l, reason)
      → (is_cheap m b l ≡ true) × (reason ≡ budget_downgrade)
  cheap_answer b r now l reason (ok (k, why)) h same =
      let both = ok_injective (k, budget_downgrade) (l, reason) same in
      (
        subst (λ t. is_cheap m b t ≡ true) (ap (λ (t : Text × BudgetReason). t.0) both)
            (filtered_route r now (is_cheap m b) k why h),
        sym (ap (λ (t : Text × BudgetReason). t.1) both),
      )
  cheap_answer b r now l reason (err e) h same = cc

  -- A root session that has spent its budget is routed to cheap upstreams only, whatever its pin, and
  -- the route says so.
  pub spent_routes_cheap :
      (b : BudgetState Float) (r : Router Float) (session root_session : Text) (now : ℕ) (l : Text)
      (reason : BudgetReason)
      → at_cap m b (budget_root root_session session) ≡ true
      → route_locked m b r session root_session now ≡ ok (l, reason)
      → (is_cheap m b l ≡ true) × (reason ≡ budget_downgrade)
  unfolding route_locked
  spent_routes_cheap b r session root_session now l reason spent routed =
      cheap_answer b r now l reason
        (route_candidates m.gt m.full m.lowest r [] now (some (is_cheap m b))) refl (ground arith)
