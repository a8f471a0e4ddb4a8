-- ===== src/Trust/Tests.antt =====
-- Scores in hundredths.
use nockguard.Base.{
  ℕ, ◌+◌, ◌-◌, ◌*◌, true, some, none, List, [], ◌∷◌, ◌≡◌, refl, ltb, leb, ◌==◌, ok, ℤ, pos,
}
use nockguard.Proxy.Gate.State.{deny_outcome, allow_outcome}
use nockguard.Trust.{
  Tier, excellent, Floats, Accumulator, snapshot, TrustOp, outcome, limit, new, load, read_stored,
  run_trust, clamp,
}
use nockguard.Trust.Range.{IsUnitRange, IsWithin, run_trust-IsWithin}

abbrev scaled_limit : ℤ → Tier → ℤ
scaled_limit (pos n) excellent = pos (n * 2)
scaled_limit base tier = base

abbrev hundredths : Floats ℕ
hundredths = record {
  less = ltb;
  at_least = λ m n. leb n m;
  same = λ m n. m == n;
  lowest = 0;
  highest = 100;
  baseline = 50;
  excellent_from = 80;
  normal_from = 50;
  reduced_from = 30;
  plus_allow = λ s. s + 1;
  minus_warn = λ s. s - 2;
  minus_deny = λ s. s - 5;
  decayed = λ s elapsed. s;
  scaled = scaled_limit;
}

hundredths-IsUnitRange : IsUnitRange hundredths
hundredths-IsUnitRange = record {
  zero_zero = refl;
  one_zero = refl;
  one_one = refl;
  low = refl;
  high = refl;
}

abbrev stored_trust : Accumulator ℕ
stored_trust = record {
  has_path = true;
  score = 100;
  updated = some 7;
  enabled = true;
  saved = none;
}

stored_trust-loaded : new hundredths true true 9 (snapshot 120 (some (some 7))) ≡ ok stored_trust
unfolding new load read_stored clamp
stored_trust-loaded = refl

abbrev a_denial : List TrustOp
a_denial = outcome 10 deny_outcome ∷ outcome 11 allow_outcome ∷ limit 12 (pos 4) ∷ []

run_trust-IsWithin_example : IsWithin hundredths (run_trust hundredths a_denial stored_trust).score
run_trust-IsWithin_example =
    run_trust-IsWithin hundredths true true 9 (snapshot 120 (some (some 7))) stored_trust a_denial
      hundredths-IsUnitRange stored_trust-loaded
