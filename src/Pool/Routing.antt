-- ===== src/Pool/Routing.antt =====
-- Which upstream the router picks.
use mathlib.Core.Path.{subst}
use nockguard.Base.{
  ℕ, ◌+◌, ◌<◌, Bool, true, false, not, ◌||◌, Option, none, some, List, [], ◌∷◌, ◌≡◌, ◌≢◌, ◌⊎◌, inl,
  inr, refl, sym, ap, ◌∙◌, arith, if◌then◌else◌, Text, text_eq_refl, lookup-insert, Result, ok, err,
  is_nonempty, any, All, Bool-cases,
}
use nockguard.Pool.Router.{
  Router, RouteReason, sticky_session, RouteError, Pick, on_cooldown, record_failure, pinned,
  headroom_of, consider, scan, no_pick, answer, route, permits, scan_candidates, route_candidates,
}

-- What holds of `>` on float64 but for NaN: what does not beat a number does not beat a larger one.
pub record IsHeadroomOrder {Float : Type 0} (gt : Float → Float → Bool) : Type 0 where
  pub irreflexive : (a : Float) → gt a a ≡ false
  pub below : (a b c : Float) → gt a b ≡ true → gt c b ≡ false → gt c a ≡ false

abbrev pub is_ok {ℓ} : {E : Type 0} {A : Type ℓ} → Result E A → Bool
is_ok (ok a) = true
is_ok (err e) = false

abbrev pub IsLabelled : {Float : Type 0} → Router Float → Type 0
IsLabelled r = All (λ l. is_nonempty l ≡ true) r.upstreams

module _ {Float : Type 0} (gt : Float → Float → Bool) (full lowest : Float) where
  scan_candidates-scan :
      (r : Router Float) (now : ℕ) (p : Pick Float) (ls : List Text)
      → scan_candidates gt full lowest none r now p ls ≡ scan gt full lowest r now p ls
  unfolding scan scan_candidates
  scan_candidates-scan r now p [] = refl
  scan_candidates-scan r now p (l ∷ ls) =
      scan_candidates-scan r now (consider gt full lowest r now p l) ls

  no_filter :
      (o : Option Text) (x : Result RouteError (Text × RouteReason))
      → (elim o [
        | some label ↦ if permits gt full lowest none label then ok (label, sticky_session) else x
        | none ↦ x
      ])
        ≡ (elim o [ some label ↦ ok (label, sticky_session) | none ↦ x ])
  no_filter (some label) x = refl
  no_filter none x = refl

  -- The loop that the budget uses, with no filter, routes like `Route`.
  pub route_candidates-route :
      (r : Router Float) (session : Text) (now : ℕ)
      → route_candidates gt full lowest r session now none ≡ route gt full lowest r session now
  unfolding route route_candidates
  route_candidates-route r session now =
      no_filter (pinned r session) (
        answer gt full lowest
          (scan_candidates gt full lowest none r now (no_pick gt full lowest) r.upstreams))
      ∙ ap
          (λ p. elim (pinned r session) [
            | some label ↦ ok (label, sticky_session)
            | none ↦ answer gt full lowest p
          ])
          (scan_candidates-scan r now (no_pick gt full lowest) r.upstreams)

  consider_found :
      (r : Router Float) (now : ℕ) (p : Pick Float) (l : Text)
      → is_nonempty l ≡ true
      → is_nonempty (consider gt full lowest r now p l).best
        ≡ (is_nonempty p.best || not (on_cooldown r now l))
  unfolding consider
  consider_found r now p l h = ground arith

  scan_found :
      (r : Router Float) (now : ℕ) (p : Pick Float) (ls : List Text)
      → All (λ l. is_nonempty l ≡ true) ls
      → is_nonempty (scan gt full lowest r now p ls).best
        ≡ (is_nonempty p.best || any (λ l. not (on_cooldown r now l)) ls)
  unfolding scan
  scan_found r now p [] h = ground arith
  scan_found r now p (l ∷ ls) (h, hs) = ground (
    arith,
    scan_found r now (consider gt full lowest r now p l) ls hs,
    consider_found r now p l h,
  )

  is_ok-answer : (p : Pick Float) → is_ok (answer gt full lowest p) ≡ is_nonempty p.best
  is_ok-answer p = ground arith

  free_route :
      (r : Router Float) (session : Text) (now : ℕ)
      → pinned r session ≡ none
      → route gt full lowest r session now
        ≡ answer gt full lowest (scan gt full lowest r now (no_pick gt full lowest) r.upstreams)
  unfolding route
  free_route r session now free =
      ap
        (λ o. elim o [
          | some label ↦ ok (label, sticky_session)
          | none ↦
              answer gt full lowest (scan gt full lowest r now (no_pick gt full lowest) r.upstreams)
        ])
        free

  -- A session with no pin is refused exactly if every upstream is on cooldown.
  pub route_available :
      (r : Router Float) (session : Text) (now : ℕ)
      → IsLabelled r
      → pinned r session ≡ none
      → is_ok (route gt full lowest r session now)
        ≡ any (λ l. not (on_cooldown r now l)) r.upstreams
  route_available r session now h free =
      ap is_ok (free_route r session now free)
      ∙ is_ok-answer (scan gt full lowest r now (no_pick gt full lowest) r.upstreams)
      ∙ scan_found r now (no_pick gt full lowest) r.upstreams h

  -- A pick is an upstream that is not on cooldown, with its headroom.
  record Chosen (r : Router Float) (now : ℕ) (p : Pick Float) : Type 0 where
    nonempty : is_nonempty p.best ≡ true
    warm : on_cooldown r now p.best ≡ false
    reading : p.best_h ≡ headroom_of gt full lowest r p.best

  -- No upstream that is not on cooldown has more headroom.
  abbrev pub Beaten : Router Float → ℕ → Float → Text → Type 0
  Beaten r now h k = (on_cooldown r now k ≡ true) ⊎ (gt (headroom_of gt full lowest r k) h ≡ false)

  consider_skip :
      (r : Router Float) (now : ℕ) (p : Pick Float) (l : Text)
      → on_cooldown r now l ≡ true
      → consider gt full lowest r now p l ≡ record p { any_cooled = true }
  unfolding consider
  consider_skip r now p l h = rw h

  consider_take :
      (r : Router Float) (now : ℕ) (p : Pick Float) (l : Text)
      → on_cooldown r now l ≡ false
      → (not (is_nonempty p.best) || gt (headroom_of gt full lowest r l) p.best_h) ≡ true
      → consider gt full lowest r now p l
        ≡ record p { best = l; best_h = headroom_of gt full lowest r l }
  unfolding consider
  consider_take r now p l h k = rw (h, k)

  consider_keep :
      (r : Router Float) (now : ℕ) (p : Pick Float) (l : Text)
      → on_cooldown r now l ≡ false
      → (not (is_nonempty p.best) || gt (headroom_of gt full lowest r l) p.best_h) ≡ false
      → consider gt full lowest r now p l ≡ p
  unfolding consider
  consider_keep r now p l h k = rw (h, k)

  -- The loop from a pick on: the pick that it ends with is as good, and beats what follows.
  abbrev Ends : Router Float → ℕ → Float → List Text → Pick Float → Type 0
  Ends r now floor ls e =
      Chosen r now e
      × ((x : Float) → gt x floor ≡ false → gt x e.best_h ≡ false)
      × All (Beaten r now e.best_h) ls

  scan-Chosen :
      (r : Router Float) (now : ℕ) (p : Pick Float) (ls : List Text)
      → IsHeadroomOrder gt
      → All (λ l. is_nonempty l ≡ true) ls
      → Chosen r now p
      → Ends r now p.best_h ls (scan gt full lowest r now p ls)
  unfolding scan
  scan-Chosen r now p [] o h c = (c, λ x below. below, tt)
  scan-Chosen r now p (l ∷ ls) o (h, hs) c = elim (Bool-cases (on_cooldown r now l)) [
    | inl cool ↦
        let p' : Pick Float = record p { any_cooled = true } in
        let rest : Ends r now p.best_h ls (scan gt full lowest r now p' ls) =
          scan-Chosen r now p' ls o hs
            (record { nonempty = c.nonempty; warm = c.warm; reading = c.reading }) in
        let goal : Ends r now p.best_h (l ∷ ls) (scan gt full lowest r now p' ls) =
          (rest.0, rest.1, (inl cool, rest.2)) in
        subst (λ k. Ends r now p.best_h (l ∷ ls) (scan gt full lowest r now k ls))
          (sym (consider_skip r now p l cool)) goal
    | inr warm ↦ elim (Bool-cases (gt (headroom_of gt full lowest r l) p.best_h)) [
      | inl more ↦
          let p' : Pick Float = record p { best = l; best_h = headroom_of gt full lowest r l } in
          let rest : Ends r now p'.best_h ls (scan gt full lowest r now p' ls) =
            scan-Chosen r now p' ls o hs (record { nonempty = h; warm = warm; reading = refl }) in
          let goal : Ends r now p.best_h (l ∷ ls) (scan gt full lowest r now p' ls) = (
            rest.0,
            (λ x low. rest.1 x (o.below (headroom_of gt full lowest r l) p.best_h x more low)),
            (inr (rest.1 (headroom_of gt full lowest r l) (o.irreflexive _)), rest.2),
          ) in
          subst (λ k. Ends r now p.best_h (l ∷ ls) (scan gt full lowest r now k ls))
            (sym (consider_take r now p l warm (ground (arith, more)))) goal
      | inr less ↦
          let found = c.nonempty in
          let rest : Ends r now p.best_h ls (scan gt full lowest r now p ls) =
            scan-Chosen r now p ls o hs c in
          let goal : Ends r now p.best_h (l ∷ ls) (scan gt full lowest r now p ls) =
            (rest.0, rest.1, (inr (rest.1 _ less), rest.2)) in
          subst (λ k. Ends r now p.best_h (l ∷ ls) (scan gt full lowest r now k ls))
            (sym (consider_keep r now p l warm (ground (arith, less, found)))) goal
    ]
  ]

  -- The loop from no pick on.
  scan_first :
      (r : Router Float) (now : ℕ) (p : Pick Float) (ls : List Text)
      → IsHeadroomOrder gt
      → All (λ l. is_nonempty l ≡ true) ls
      → is_nonempty p.best ≡ false
      → is_nonempty (scan gt full lowest r now p ls).best ≡ true
      → Chosen r now (scan gt full lowest r now p ls)
        × All (Beaten r now (scan gt full lowest r now p ls).best_h) ls
  unfolding scan
  scan_first r now p [] o h e f = cc
  scan_first r now p (l ∷ ls) o (h, hs) e f = elim (Bool-cases (on_cooldown r now l)) [
    | inl cool ↦
        let (c, rest) =
          scan_first r now (consider gt full lowest r now p l) ls o hs
            (consider_found r now p l h ∙ ground arith) f in
        (c, (inl cool, rest))
    | inr warm ↦
        let p' : Pick Float = record p { best = l; best_h = headroom_of gt full lowest r l } in
        let rest : Ends r now p'.best_h ls (scan gt full lowest r now p' ls) =
          scan-Chosen r now p' ls o hs (record { nonempty = h; warm = warm; reading = refl }) in
        subst
          (λ k.
            Chosen r now (scan gt full lowest r now k ls)
            × All (Beaten r now (scan gt full lowest r now k ls).best_h) (l ∷ ls))
          (sym (consider_take r now p l warm (ground arith)))
          (rest.0, (inr (rest.1 (headroom_of gt full lowest r l) (o.irreflexive _)), rest.2))
  ]

  answer-eq-ok :
      (p : Pick Float) (l : Text) (reason : RouteReason)
      → answer gt full lowest p ≡ ok (l, reason)
      → (is_nonempty p.best ≡ true) × (p.best ≡ l)
  answer-eq-ok p l reason h = (ground arith, ground arith)

  -- A session with no pin gets an upstream that is not on cooldown, and no other such upstream has
  -- more headroom.
  pub route_best :
      (r : Router Float) (session : Text) (now : ℕ) (l : Text) (reason : RouteReason)
      → IsHeadroomOrder gt
      → IsLabelled r
      → pinned r session ≡ none
      → route gt full lowest r session now ≡ ok (l, reason)
      → (on_cooldown r now l ≡ false)
        × All (Beaten r now (headroom_of gt full lowest r l)) r.upstreams
  route_best r session now l reason o h free routed =
      let e = scan gt full lowest r now (no_pick gt full lowest) r.upstreams in
      let (found, same) = answer-eq-ok e l reason (sym (free_route r session now free) ∙ routed) in
      let (c, best) = scan_first r now (no_pick gt full lowest) r.upstreams o h refl found in
      (
        subst (λ k. on_cooldown r now k ≡ false) same c.warm,
        subst (λ k. All (Beaten r now k) r.upstreams)
            (c.reading ∙ ap (headroom_of gt full lowest r) same) best,
      )

  failed_cools :
      (r : Router Float) (failed : Text) (failed_at now : ℕ)
      → now < failed_at + r.cooldown
      → on_cooldown (record_failure r failed failed_at) now failed ≡ true
  unfolding on_cooldown record_failure
  failed_cools r failed failed_at now lt = ground (
    arith,
    lookup-insert failed failed (failed_at + r.cooldown) r.cool_until,
    text_eq_refl failed,
  )

  -- An upstream that has failed gets no session without a pin until its cooldown is over.
  pub failure_demotes :
      (r : Router Float) (session failed l : Text) (failed_at now : ℕ) (reason : RouteReason)
      → IsHeadroomOrder gt
      → IsLabelled r
      → pinned r session ≡ none
      → now < failed_at + r.cooldown
      → route gt full lowest (record_failure r failed failed_at) session now ≡ ok (l, reason)
      → l ≢ failed
  unfolding record_failure pinned
  failure_demotes r session failed l failed_at now reason o h free lt routed same =
      let warm =
        (route_best (record_failure r failed failed_at) session now l reason o h free routed).0 in
      let cool = failed_cools r failed failed_at now lt in cc
