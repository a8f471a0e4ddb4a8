-- ===== src/Pool/Router.antt =====
-- The pool's router, internal/pool/router.go, and the candidate loop of internal/pool/budget.go. The
-- mutex makes each method one step. Times are nanoseconds of the clock, and a label without a
-- cooldown has no binding where Go reads the zero time.
use nockguard.Base.{
  ℕ, ◌+◌, ◌-◌, Bool, true, false, not, ◌||◌, Option, none, some, List, [], ◌∷◌, map, ltb,
  if◌then◌else◌, Text, Map, lookup, insert, delete, Result, ok, err, is_nonempty,
}

pub record Router (Float : Type 0) : Type 0 where
  pub upstreams : List Text
  pub sessions : Map Text
  pub headroom : Map Float
  pub cool_until : Map ℕ
  pub cooldown : ℕ

pub data RouteReason : Type 0 where
  sticky_session max_headroom cooldown_skip : RouteReason

pub data RouteError : Type 0 where
  all_exhausted : RouteError

pub record UpstreamStatus (Float : Type 0) : Type 0 where
  pub label : Text
  pub known_headroom : Option Float
  pub cooldown_remaining : Option ℕ

-- The variables of the loop in `Route`.
pub record Pick (Float : Type 0) : Type 0 where
  pub best : Text
  pub best_h : Float
  pub any_cooled : Bool

module _ {Float : Type 0} where
  unfoldable pub new_router : List Text → ℕ → Router Float
  new_router labels cooldown = record {
    upstreams = labels;
    sessions = [];
    headroom = [];
    cool_until = [];
    cooldown = cooldown;
  }

  unfoldable pub on_cooldown : Router Float → ℕ → Text → Bool
  on_cooldown r now l = elim (lookup l r.cool_until) [ none ↦ false | some t ↦ ltb now t ]

  unfoldable pub pin : Router Float → Text → Text → Router Float
  pin r session label = record r { sessions = insert session label r.sessions }

  unfoldable pub unpin : Router Float → Text → Router Float
  unpin r session = record r { sessions = delete session r.sessions }

  unfoldable pub record_headroom : Router Float → Text → Float → Router Float
  record_headroom r label remaining = record r { headroom = insert label remaining r.headroom }

  unfoldable pub record_failure : Router Float → Text → ℕ → Router Float
  record_failure r label now = record r {
    cool_until = insert label (now + r.cooldown) r.cool_until;
  }

  unfoldable pub remaining_of : Router Float → ℕ → Text → Option ℕ
  remaining_of r now l = elim (lookup l r.cool_until) [
    | none ↦ none
    | some t ↦ if ltb now t then some (t - now) else none
  ]

  unfoldable pub status : Router Float → ℕ → List (UpstreamStatus Float)
  unfolding remaining_of
  status r now =
      map
        (λ l. record {
          label = l;
          known_headroom = lookup l r.headroom;
          cooldown_remaining = remaining_of r now l;
        })
        r.upstreams

  -- A session's label; the empty session is never pinned.
  unfoldable pub pinned : Router Float → Text → Option Text
  pinned r session = if is_nonempty session then lookup session r.sessions else none

  -- `>` of float64, and the constants 1.0 and -1.0.
  module _ (gt : Float → Float → Bool) (full lowest : Float) where
    unfoldable pub headroom_of : Router Float → Text → Float
    headroom_of r l = elim (lookup l r.headroom) [ none ↦ full | some h ↦ h ]

    -- One round of the loop.
    unfoldable pub consider : Router Float → ℕ → Pick Float → Text → Pick Float
    unfolding on_cooldown headroom_of
    consider r now p l =
        if on_cooldown r now l
        then record p { any_cooled = true }
        else if not (is_nonempty p.best) || gt (headroom_of r l) p.best_h
        then record p { best = l; best_h = headroom_of r l }
        else p

    unfoldable pub scan : Router Float → ℕ → Pick Float → List Text → Pick Float
    scan r now p [] = p
    scan r now p (l ∷ ls) = scan r now (consider r now p l) ls

    abbrev pub no_pick : Pick Float
    no_pick = record { best = []; best_h = lowest; any_cooled = false }

    abbrev pub answer : Pick Float → Result RouteError (Text × RouteReason)
    answer p =
        if not (is_nonempty p.best)
        then err all_exhausted
        else ok (p.best, if p.any_cooled then cooldown_skip else max_headroom)

    unfoldable pub route : Router Float → Text → ℕ → Result RouteError (Text × RouteReason)
    unfolding pinned scan
    route r session now = elim (pinned r session) [
      | some label ↦ ok (label, sticky_session)
      | none ↦ answer (scan r now no_pick r.upstreams)
    ]

    -- `routeCandidatesLocked`: a nil `allow` is `none`.
    abbrev pub permits : Option (Text → Bool) → Text → Bool
    permits none l = true
    permits (some allow) l = allow l

    unfoldable pub scan_candidates :
        Option (Text → Bool) → Router Float → ℕ → Pick Float → List Text → Pick Float
    unfolding consider
    scan_candidates allow r now p [] = p
    scan_candidates allow r now p (l ∷ ls) =
        scan_candidates allow r now (if not (permits allow l) then p else consider r now p l) ls

    unfoldable pub route_candidates :
        Router Float → Text → ℕ → Option (Text → Bool) → Result RouteError (Text × RouteReason)
    unfolding pinned scan_candidates
    route_candidates r session now allow =
        let picked = answer (scan_candidates allow r now no_pick r.upstreams) in
        elim (pinned r session) [
          | some label ↦ if permits allow label then ok (label, sticky_session) else picked
          | none ↦ picked
        ]
