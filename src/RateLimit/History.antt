-- ===== src/RateLimit/History.antt =====
-- Forgetting the old times is invisible: the limiter answers as one that keeps every counted call
-- and looks at those inside the window.
use native.Mathlib.Nat.{le_refl, le_trans}
use nockguard.Base.{
  ℕ, ◌+◌, ◌≤◌, Bool, true, false, not, List, [], ◌∷◌, ◌++◌, ◌≡◌, refl, sym, ◌∙◌, arith,
  if◌then◌else◌, length, count_if, ℤ, pos, negsuc, is_positive, at_least, inl, inr, Bool-cases,
}
use nockguard.RateLimit.Limiter.{
  Config, Limiter, Answer, allowed, spend_capped, rate_limited, new, with_max_calls_func,
  config_enabled, in_window, prune, effective_max, cap_reached, allow, Call, run,
}

-- The moments of all counted calls, and the number of allowed ones.
pub record History : Type 0 where
  pub counted : List ℕ
  pub total : ℕ

unfoldable pub spec_allow : Config → Bool → History → ℕ → (ℤ → ℤ) → History × Answer
spec_allow cfg dynamic h now func =
    let max_calls = effective_max dynamic func cfg.max_calls in
    if not (config_enabled cfg)
    then (h, allowed)
    else if cap_reached cfg.spend_cap h.total
    then (h, spend_capped)
    else if is_positive max_calls
    then if at_least (count_if (in_window cfg.window now) h.counted) max_calls
      then (h, rate_limited)
      else (record { counted = h.counted ++ now ∷ []; total = h.total + 1 }, allowed)
    else (record h { total = h.total + 1 }, allowed)

unfoldable pub spec_run : Config → Bool → History → List Call → History × List Answer
spec_run cfg dynamic h [] = (h, [])
spec_run cfg dynamic h ((now, func) ∷ calls) =
    let (h', a) = spec_allow cfg dynamic h now func in
    let (h'', answers) = spec_run cfg dynamic h' calls in (h'', a ∷ answers)

-- The numbers do not fall, and lie between the bounds.
abbrev pub Climbs : ℕ → List ℕ → ℕ → Type 0
Climbs lo [] hi = lo ≤ hi
Climbs lo (t ∷ ts) hi = (lo ≤ t) × Climbs t ts hi

-- The calls come in the order of their moments, from `lo` on: a clock that does not run backwards.
abbrev pub InOrder : ℕ → List Call → Type 0
InOrder lo [] = Unit
InOrder lo ((now, func) ∷ calls) = (lo ≤ now) × InOrder now calls

Climbs-snoc :
    (lo hi now : ℕ) (ts : List ℕ) → Climbs lo ts hi → hi ≤ now → Climbs lo (ts ++ now ∷ []) now
Climbs-snoc lo hi now [] c h = omega arith
Climbs-snoc lo hi now (t ∷ ts) (a, c) h = (a, Climbs-snoc t hi now ts c h)

Climbs-later : (lo hi now : ℕ) (ts : List ℕ) → Climbs lo ts hi → hi ≤ now → Climbs lo ts now
Climbs-later lo hi now [] c h = omega arith
Climbs-later lo hi now (t ∷ ts) (a, c) h = (a, Climbs-later t hi now ts c h)

Climbs-lower : (lo lo' hi : ℕ) (ts : List ℕ) → Climbs lo ts hi → lo' ≤ lo → Climbs lo' ts hi
Climbs-lower lo lo' hi [] c h = omega arith
Climbs-lower lo lo' hi (t ∷ ts) (a, c) h = (omega arith, c)

prune-Climbs :
    (w : ℤ) (now lo hi : ℕ) (ts : List ℕ) → Climbs lo ts hi → Climbs lo (prune w now ts) hi
unfolding prune
prune-Climbs w now lo hi [] c = c
prune-Climbs w now lo hi (t ∷ ts) (a, c) = elim (Bool-cases (in_window w now t)) [
  | inl e ↦ rw e (a, c)
  | inr e ↦ rw e (prune-Climbs w now lo hi ts (Climbs-lower t lo hi ts c a))
]

in_window_later :
    (w : ℤ) (now s t : ℕ) → s ≤ t → in_window w now s ≡ true → in_window w now t ≡ true
unfolding in_window
in_window_later (pos w) now s t h e = ground arith
in_window_later (negsuc w) now s t h e = ground arith

pub out_of_window_later :
    (w : ℤ) (now later t : ℕ)
    → now ≤ later
    → in_window w now t ≡ false
    → in_window w later t ≡ false
unfolding in_window
out_of_window_later (pos w) now later t h e = ground arith
out_of_window_later (negsuc w) now later t h e = ground arith

count_all :
    (w : ℤ) (now lo hi : ℕ) (ts : List ℕ)
    → Climbs lo ts hi
    → in_window w now lo ≡ true
    → count_if (in_window w now) ts ≡ length ts
count_all w now lo hi [] c e = refl
count_all w now lo hi (t ∷ ts) (a, c) e =
    let f = in_window_later w now lo t a e in ground (arith, count_all w now t hi ts c f)

-- What is left after pruning is what lies inside the window.
length-prune :
    (w : ℤ) (now lo hi : ℕ) (ts : List ℕ)
    → Climbs lo ts hi
    → length (prune w now ts) ≡ count_if (in_window w now) ts
unfolding prune
length-prune w now lo hi [] c = refl
length-prune w now lo hi (t ∷ ts) (a, c) = elim (Bool-cases (in_window w now t)) [
  | inl e ↦ ground (arith, count_all w now t hi ts c e)
  | inr e ↦ ground (arith, length-prune w now t hi ts c)
]

-- A later look at the window finds the same whether or not it was pruned before.
count_if-prune :
    (w : ℤ) (now later : ℕ) (ts : List ℕ)
    → now ≤ later
    → count_if (in_window w later) (prune w now ts) ≡ count_if (in_window w later) ts
unfolding prune
count_if-prune w now later [] h = refl
count_if-prune w now later (t ∷ ts) h = elim (Bool-cases (in_window w now t)) [
  | inl e ↦ rw e refl
  | inr e ↦ ground (arith, out_of_window_later w now later t h e, count_if-prune w now later ts h)
]

pub count_if-append :
    (p : ℕ → Bool) (xs ys : List ℕ) → count_if p (xs ++ ys) ≡ count_if p xs + count_if p ys
count_if-append p [] ys = omega arith
count_if-append p (x ∷ xs) ys = ground (arith, count_if-append p xs ys)

module _ (cfg : Config) (dynamic : Bool) where
  abbrev limiter : List ℕ → ℕ → Limiter
  limiter ts n = record { cfg = cfg; dynamic = dynamic; times = ts; total = n }

  abbrev history : List ℕ → ℕ → History
  history hs n = record { counted = hs; total = n }

  -- The times that are kept show what a later moment can still see of all the counted calls.
  record Tracks (now : ℕ) (ts hs : List ℕ) : Type 0 where
    climbs : Climbs 0 ts now
    sees :
        (later : ℕ)
        → now ≤ later
        → count_if (in_window cfg.window later) hs ≡ count_if (in_window cfg.window later) ts

  -- The limiter and its history take a step to the same answer, and track one another after it.
  record Together (now : ℕ) (p : Limiter × Answer) (q : History × Answer) : Type 0 where
    ts : List ℕ
    hs : List ℕ
    n : ℕ
    a : Answer
    left : p ≡ (limiter ts n, a)
    right : q ≡ (history hs n, a)
    tracks : Tracks now ts hs

  Tracks-later : {last now : ℕ} {ts hs : List ℕ} → last ≤ now → Tracks last ts hs → Tracks now ts hs
  Tracks-later {last} {now} {ts} le t = record {
    climbs = Climbs-later 0 last now ts t.climbs le;
    sees = λ later h. t.sees later (le_trans le h);
  }

  Tracks-prune :
      {now : ℕ} {ts hs : List ℕ} → Tracks now ts hs → Tracks now (prune cfg.window now ts) hs
  Tracks-prune {now} {ts} t = record {
    climbs = prune-Climbs cfg.window now 0 now ts t.climbs;
    sees = λ later h. t.sees later h ∙ sym (count_if-prune cfg.window now later ts h);
  }

  Tracks-snoc :
      {now : ℕ} {ts hs : List ℕ} → Tracks now ts hs → Tracks now (ts ++ now ∷ []) (hs ++ now ∷ [])
  Tracks-snoc {now} {ts} {hs} t = record {
    climbs = Climbs-snoc 0 now now ts t.climbs (le_refl now);
    sees = λ later h.
        let p = in_window cfg.window later in
        omega
          (arith, t.sees later h, count_if-append p ts (now ∷ []), count_if-append p hs (now ∷ []));
  }

  allow-Together :
      (last now n : ℕ) (func : ℤ → ℤ) (ts hs : List ℕ)
      → last ≤ now
      → Tracks last ts hs
      → Together now
          (allow (limiter ts n) now func)
          (spec_allow cfg dynamic (history hs n) now func)
  unfolding allow spec_allow
  allow-Together last now n func ts hs le t0 =
      let t = Tracks-later le t0 in
      let kept = prune cfg.window now ts in
      let max_calls = effective_max dynamic func cfg.max_calls in
      let seen : count_if (in_window cfg.window now) hs ≡ length kept =
        t.sees now (le_refl now) ∙ sym (length-prune cfg.window now 0 now ts t.climbs) in
      elim (Bool-cases (config_enabled cfg)) [
        | inr off ↦ record {
          ts = ts;
          hs = hs;
          n = n;
          a = allowed;
          left = (ground arith);
          right = (ground arith);
          tracks = t;
        }
        | inl on ↦ elim (Bool-cases (cap_reached cfg.spend_cap n)) [
          | inl capped ↦ record {
            ts = ts;
            hs = hs;
            n = n;
            a = spend_capped;
            left = (ground arith);
            right = (ground arith);
            tracks = t;
          }
          | inr uncapped ↦ elim (Bool-cases (is_positive max_calls)) [
            | inr unlimited ↦ record {
              ts = ts;
              hs = hs;
              n = n + 1;
              a = allowed;
              left = (ground arith);
              right = (ground arith);
              tracks = t;
            }
            | inl limited ↦ elim (Bool-cases (at_least (length kept) max_calls)) [
              | inl full ↦ record {
                ts = kept;
                hs = hs;
                n = n;
                a = rate_limited;
                left = (ground arith);
                right = (ground arith);
                tracks = Tracks-prune t;
              }
              | inr free ↦ record {
                ts = kept ++ now ∷ [];
                hs = hs ++ now ∷ [];
                n = n + 1;
                a = allowed;
                left = (ground arith);
                right = (ground arith);
                tracks = Tracks-snoc (Tracks-prune t);
              }
            ]
          ]
        ]
      ]

  -- What is left of `Together` over a whole row of calls.
  run-spec_run :
      (last n : ℕ) (calls : List Call) (ts hs : List ℕ)
      → InOrder last calls
      → Tracks last ts hs
      → ((run (limiter ts n) calls).1 ≡ (spec_run cfg dynamic (history hs n) calls).1)
        × ((run (limiter ts n) calls).0.total ≡ (spec_run cfg dynamic (history hs n) calls).0.total)
  unfolding run spec_run
  run-spec_run last n [] ts hs o t = (refl, refl)
  run-spec_run last n ((now, func) ∷ calls) ts hs (le, o) t =
      let s = allow-Together last now n func ts hs le t in
      let (answers, totals) = run-spec_run now s.n calls s.ts s.hs o s.tracks in
      (rw (s.left, s.right, answers) refl, rw (s.left, s.right, totals) refl)

-- A new limiter after `WithMaxCallsFunc` of a function or of nil.
abbrev pub fresh : Config → Bool → Limiter
fresh cfg dynamic = with_max_calls_func dynamic (new cfg)

abbrev pub no_history : History
no_history = record { counted = []; total = 0 }

-- Over calls in the order of their moments, the limiter that forgets what has left the window
-- answers each call as the one that keeps every counted call, and counts as many allowed calls.
pub run-refines :
    (cfg : Config) (dynamic : Bool) (calls : List Call)
    → InOrder 0 calls
    → ((run (fresh cfg dynamic) calls).1 ≡ (spec_run cfg dynamic no_history calls).1)
      × ((run (fresh cfg dynamic) calls).0.total ≡ (spec_run cfg dynamic no_history calls).0.total)
unfolding new with_max_calls_func
run-refines cfg true calls o =
    run-spec_run cfg true 0 0 calls [] [] o
      (record { climbs = omega arith; sees = λ later h. refl })
run-refines cfg false calls o =
    run-spec_run cfg false 0 0 calls [] [] o
      (record { climbs = omega arith; sees = λ later h. refl })
