-- ===== src/Trust/Range.antt =====
-- The bounds of trust: scores between 0 and 1, limits that stay positive; internal/trust/trust.go.
use mathlib.Core.Path.{subst}
use nockguard.Base.{
  ℕ, ◌-◌, Bool, true, false, not, ◌||◌, Option, none, some, List, [], ◌∷◌, ◌≡◌, refl, leb,
  if◌then◌else◌, ℤ, is_positive, Result, ok, err, Bool-cases, inl, inr,
}
use nockguard.Trust.{
  Floats, Accumulator, Stored, unreadable, absent, malformed, bad_time, snapshot, TrustError,
  default_half, TrustOp, outcome, limit, clamp, save, decay_to, shifted, apply_outcome, score,
  tier_for, rate_limit_for_score, rate_limit_for, read_stored, load, new, trust_step, run_trust,
}

module _ {S : Type 0} (f : Floats S) where
  -- What holds of 0, 1 and the baseline 0.5.
  pub record IsUnitRange : Type 0 where
    pub zero_zero : f.less f.lowest f.lowest ≡ false
    pub one_zero : f.less f.highest f.lowest ≡ false
    pub one_one : f.less f.highest f.highest ≡ false
    pub low : f.less f.baseline f.lowest ≡ false
    pub high : f.less f.highest f.baseline ≡ false

  -- Neither below 0 nor above 1.
  abbrev pub IsWithin : S → Type 0
  IsWithin s = (f.less s f.lowest ≡ false) × (f.less f.highest s ≡ false)

  clamp-IsWithin : (s : S) → IsUnitRange → IsWithin (clamp f s)
  unfolding clamp
  clamp-IsWithin s u = elim (Bool-cases (f.less s f.lowest)) [
    | inl below ↦ rw (below) (u.zero_zero, u.one_zero)
    | inr above ↦ elim (Bool-cases (f.less f.highest s)) [
      | inl over ↦ rw (above, over) (u.one_zero, u.one_one)
      | inr under ↦ rw (above, under) (above, under)
    ]
  ]

  decay_to-IsWithin :
      (now : ℕ) (a : Accumulator S)
      → IsUnitRange
      → IsWithin a.score
      → IsWithin (decay_to f now a).score
  unfolding decay_to
  decay_to-IsWithin now a u i = go a.updated
    where
      at_score : (s : S) (b : Bool) → IsWithin s → IsWithin (if b then a.score else s)
      at_score s true k = i
      at_score s false k = k

      go :
          (t : Option ℕ)
          → IsWithin
              (elim t as (λ k. Accumulator S) [
                | none ↦ record a { updated = some now }
                | some before ↦
                    if leb now before || f.same a.score f.baseline
                    then record a { updated = some now }
                    else if leb default_half (now - before)
                    then record a { score = f.baseline; updated = some now }
                    else record a {
                      score = clamp f (f.decayed a.score (now - before));
                      updated = some now;
                    }
              ]).score
      go none = i
      go (some before) = elim (Bool-cases (leb now before || f.same a.score f.baseline)) [
        | inl early ↦ rw (early) i
        | inr later ↦ elim (Bool-cases (leb default_half (now - before))) [
          | inl long ↦ rw (later, long) (u.low, u.high)
          | inr short ↦ rw (later, short) (clamp-IsWithin (f.decayed a.score (now - before)) u)
        ]
      ]

  either-IsWithin :
      {B : Type 0} (b : Bool) (x y : Accumulator S × B)
      → IsWithin x.0.score
      → IsWithin y.0.score
      → IsWithin (if b then x else y).0.score
  either-IsWithin true x y h k = h
  either-IsWithin false x y h k = k

  save-IsWithin : (a : Accumulator S) → IsWithin a.score → IsWithin (save f a).score
  unfolding save
  save-IsWithin a i = go a.has_path
    where
      go :
          (b : Bool)
          → IsWithin (if b then record a { saved = some (a.score, a.updated) } else a).score
      go true = i
      go false = i

  trust_step-IsWithin :
      (op : TrustOp) (a : Accumulator S)
      → IsUnitRange
      → IsWithin a.score
      → IsWithin (trust_step f op a).score
  unfolding trust_step apply_outcome rate_limit_for score
  trust_step-IsWithin (outcome now o) a u i =
      let decayed = decay_to f now a in
      either-IsWithin a.enabled _ _
        (save-IsWithin (record decayed { score = clamp f (shifted f o decayed.score) })
          (clamp-IsWithin (shifted f o decayed.score) u))
        i
  trust_step-IsWithin (limit now base) a u i =
      either-IsWithin a.enabled _ _
        (either-IsWithin a.enabled (save f (decay_to f now a), (save f (decay_to f now a)).score)
          (a, f.baseline) (save-IsWithin (decay_to f now a) (decay_to-IsWithin now a u i)) i)
        i

  run_trust_from-IsWithin :
      (ops : List TrustOp) (a : Accumulator S)
      → IsUnitRange
      → IsWithin a.score
      → IsWithin (run_trust f ops a).score
  unfolding run_trust
  run_trust_from-IsWithin [] a u i = i
  run_trust_from-IsWithin (op ∷ ops) a u i =
      run_trust_from-IsWithin ops (trust_step f op a) u (trust_step-IsWithin op a u i)

  abbrev OkWithin : Result TrustError (Accumulator S) → Type 0
  OkWithin (ok a) = IsWithin a.score
  OkWithin (err e) = Unit

  read_stored-OkWithin :
      (stored : Stored S) (a : Accumulator S)
      → IsUnitRange
      → IsWithin a.score
      → OkWithin (read_stored f stored a)
  unfolding read_stored
  read_stored-OkWithin unreadable a u i = tt
  read_stored-OkWithin (absent true) a u i = save-IsWithin a i
  read_stored-OkWithin (absent false) a u i = tt
  read_stored-OkWithin malformed a u i = tt
  read_stored-OkWithin bad_time a u i = tt
  read_stored-OkWithin (snapshot s none) a u i = clamp-IsWithin s u
  read_stored-OkWithin (snapshot s (some t)) a u i = clamp-IsWithin s u

  load-OkWithin :
      (stored : Stored S) (a : Accumulator S)
      → IsUnitRange
      → IsWithin a.score
      → OkWithin (load f stored a)
  unfolding load
  load-OkWithin stored a u i = go a.has_path
    where
      go : (b : Bool) → OkWithin (if not b then ok a else read_stored f stored a)
      go true = read_stored-OkWithin stored a u i
      go false = i

  new-OkWithin :
      (enabled has_home : Bool) (now : ℕ) (stored : Stored S)
      → IsUnitRange
      → OkWithin (new f enabled has_home now stored)
  unfolding new
  new-OkWithin false has_home now stored u = (u.low, u.high)
  new-OkWithin true false now stored u = tt
  new-OkWithin true true now stored u = load-OkWithin stored _ u (u.low, u.high)

  -- Where 0, 1 and the baseline are compared as they should be: whatever the file held for a new
  -- accumulator, and whatever outcomes and questions follow, its score is not below 0 nor above 1.
  pub run_trust-IsWithin :
      (enabled has_home : Bool) (now : ℕ) (stored : Stored S) (a : Accumulator S)
      (ops : List TrustOp)
      → IsUnitRange
      → new f enabled has_home now stored ≡ ok a
      → IsWithin (run_trust f ops a).score
  run_trust-IsWithin enabled has_home now stored a ops u h =
      run_trust_from-IsWithin ops a u
        (subst OkWithin h (new-OkWithin enabled has_home now stored u))

  rate_limit_for_score-positive :
      (base : ℤ) (s : S)
      → is_positive base ≡ true
      → is_positive (rate_limit_for_score f base s) ≡ true
  unfolding rate_limit_for_score is_positive
  rate_limit_for_score-positive base s h =
      elim (Bool-cases (is_positive (f.scaled base (tier_for f s)))) [
        | inl more ↦ rw (h, more) more
        | inr none_left ↦ rw (h, none_left) refl
      ]

  -- Trust turns no positive limit into none.
  pub rate_limit_for-positive :
      (now : ℕ) (base : ℤ) (a : Accumulator S)
      → is_positive base ≡ true
      → is_positive (rate_limit_for f now base a).1 ≡ true
  unfolding rate_limit_for
  rate_limit_for-positive now base a h = go a.enabled
    where
      go :
          (b : Bool)
          → is_positive
              (if◌then◌else◌ {A = Accumulator S × ℤ} b
                ((score f now a).0, rate_limit_for_score f base (score f now a).1)
                (a, base)).1
            ≡ true
      go true = rate_limit_for_score-positive base (score f now a).1 h
      go false = h
