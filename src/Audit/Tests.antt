-- ===== src/Audit/Tests.antt =====
-- Trails under a signing mode that writes the signed message out, and the theorems at them.
use native.Mathlib.Decide.{ℕ_discrete}
use nockguard.Base.{
  ℕ, true, false, ◌&&◌, some, List, [], ◌∷◌, ◌++◌, ◌≡◌, refl, sym, ap, ◌∙◌, arith, Text, text_eq,
  text_eq_refl, eq_of_text_eq, ok, err, is_nonempty, take, drop,
}
use nockguard.Audit.Event.{Event, blank_event}
use nockguard.Audit.Chain.{
  Scheme, Line, row, HighWaterMark, tamper, boundary, mismatch, truncated, IsBinding, IsSigning,
  verify_stream, sign_mark, check_line, walk, check_high_water_mark, hwm_signed_bytes, decimal,
  digits,
}
use nockguard.Audit.Validate.{validate_audit_event, has_v2_field, validate_approval_actor}
use nockguard.Audit.Writer.{last_sig}
use nockguard.Audit.Recorded.{appended_verifies}
use nockguard.Audit.Tamper.{checkpoint_pins, truncation_detected}

Event-discrete : Discrete Event
Event-discrete = hlevel ℕ_discrete

-- A row with nothing but a reason is written as that reason; no other row is encoded.
abbrev only_reason : Text → Event
only_reason r = record blank_event { reason = r }

abbrev write_reason : (e : Event) → Dec (e ≡ only_reason e.reason) → Text
write_reason e (yes p) = 1 ∷ e.reason
write_reason e (no p) = []

abbrev pair_code : Text → Text → Text
pair_code [] p = 0 ∷ p
pair_code (x ∷ c) p = 1 ∷ x ∷ pair_code c p

tail_text : Text → Text
tail_text [] = []
tail_text (x ∷ s) = s

head_text : Text → ℕ
head_text [] = 0
head_text (x ∷ s) = x

abbrev plain_scheme : Scheme
plain_scheme = record {
  canonical = λ e. write_reason e (Event-discrete e (only_reason e.reason));
  sign = pair_code;
  decodes = λ sig. true;
  checks = λ c p sig. is_nonempty c && text_eq sig (pair_code c p);
}

pair_code_injective : (c d p q : Text) → pair_code c p ≡ pair_code d q → (c ≡ d) × (p ≡ q)
unfolding tail_text head_text
pair_code_injective [] [] p q h = (refl, ap tail_text h)
pair_code_injective [] (y ∷ d) p q h = absurd (let first = ap head_text h in omega arith)
pair_code_injective (x ∷ c) [] p q h = absurd (let first = ap head_text h in omega arith)
pair_code_injective (x ∷ c) (y ∷ d) p q h =
    let (same, rest) = pair_code_injective c d p q (ap (λ t. tail_text (tail_text t)) h) in
    let first : x ≡ y = ap (λ t. head_text (tail_text t)) h in (cc, rest)

write_reason_injective :
    (e f : Event) (d : Dec (e ≡ only_reason e.reason)) (d' : Dec (f ≡ only_reason f.reason))
    → is_nonempty (write_reason e d) ≡ true
    → write_reason e d ≡ write_reason f d'
    → e ≡ f
unfolding tail_text
write_reason_injective e f (yes p) (yes q) n h = p ∙ ap (λ t. only_reason (tail_text t)) h ∙ sym q
write_reason_injective e f (yes p) (no q) n h = cc
write_reason_injective e f (no p) d' n h = cc

checks-parts :
    (c p sig : Text)
    → plain_scheme.checks c p sig ≡ true
    → (is_nonempty c ≡ true) × (sig ≡ pair_code c p)
checks-parts c p sig h = (ground arith, eq_of_text_eq sig (pair_code c p) (ground arith))

plain_scheme-IsBinding : IsBinding plain_scheme
plain_scheme-IsBinding = record {
  one_row = λ e f p q sig h k.
      let (some_text, first) = checks-parts (plain_scheme.canonical e) p sig h in
      let (other_text, second) = checks-parts (plain_scheme.canonical f) q sig k in
      let (same, before) =
        pair_code_injective (plain_scheme.canonical e) (plain_scheme.canonical f) p q
          (sym first ∙ second) in
      (
        write_reason_injective e f (Event-discrete e (only_reason e.reason))
            (Event-discrete f (only_reason f.reason)) some_text same,
        before,
      );
}

abbrev sig_a : Text
sig_a = 1 ∷ 1 ∷ 1 ∷ 97 ∷ 0 ∷ []

abbrev sig_b : Text
sig_b = 1 ∷ 1 ∷ 1 ∷ 98 ∷ 0 ∷ sig_a

abbrev trail : List Line
trail =
    row true (record blank_event { reason = 97 ∷ []; sig = sig_a })
    ∷ row true (record blank_event { reason = 98 ∷ []; sig = sig_b })
    ∷ []

abbrev checkpoint : HighWaterMark
checkpoint = record { count = 2; last_sig = sig_b; sig = pair_code (hwm_signed_bytes 2 sig_b) [] }

trail_verifies : verify_stream plain_scheme false trail (some checkpoint) ≡ ok 2
unfolding verify_stream walk check_line check_high_water_mark hwm_signed_bytes decimal digits
    text_eq validate_audit_event has_v2_field validate_approval_actor Event-discrete ℕ_discrete
trail_verifies = refl

cut_at_front_fails :
    verify_stream plain_scheme false (drop 1 trail) (some checkpoint) ≡ err (tamper 1 mismatch)
unfolding verify_stream walk check_line check_high_water_mark text_eq validate_audit_event
    has_v2_field validate_approval_actor Event-discrete ℕ_discrete
cut_at_front_fails = refl

-- The trail goes on behind its checkpoint.
abbrev longer : List Line
longer =
    trail
    ++ row true (record blank_event { reason = 99 ∷ []; sig = 1 ∷ 1 ∷ 1 ∷ 99 ∷ 0 ∷ sig_b }) ∷ []

longer_verifies : verify_stream plain_scheme false longer (some checkpoint) ≡ ok 3
unfolding verify_stream walk check_line check_high_water_mark hwm_signed_bytes decimal digits
    text_eq validate_audit_event has_v2_field validate_approval_actor Event-discrete ℕ_discrete
longer_verifies = refl

checkpoint_pins_example : take 2 trail ≡ take 2 longer
checkpoint_pins_example =
    checkpoint_pins plain_scheme checkpoint trail longer 2 3 plain_scheme-IsBinding trail_verifies
      longer_verifies

truncation_detected_example :
    verify_stream plain_scheme false (take 1 trail) (some checkpoint) ≡ err (boundary 1 truncated)
truncation_detected_example =
    truncation_detected plain_scheme checkpoint trail 2 1 trail_verifies (omega arith)

-- The same mode for a writer.
abbrev writer_scheme : Scheme
writer_scheme = record plain_scheme { checks = λ c p sig. text_eq sig (pair_code c p) }

pair_code_nonempty : (c p : Text) → is_nonempty (pair_code c p) ≡ true
pair_code_nonempty [] p = refl
pair_code_nonempty (x ∷ c) p = refl

writer_scheme-IsSigning : IsSigning writer_scheme
writer_scheme-IsSigning = record {
  nonempty = pair_code_nonempty;
  decodable = λ c p. refl;
  verifies = λ c p. text_eq_refl (pair_code c p);
}

writer_trail_verifies : verify_stream writer_scheme false trail (some checkpoint) ≡ ok 2
unfolding verify_stream walk check_line check_high_water_mark hwm_signed_bytes decimal digits
    text_eq validate_audit_event has_v2_field validate_approval_actor Event-discrete ℕ_discrete
writer_trail_verifies = refl

abbrev sig_c : Text
sig_c = 1 ∷ 1 ∷ 1 ∷ 99 ∷ 0 ∷ sig_b

appended_verifies_example :
    verify_stream writer_scheme false
      (trail ++ row true (record blank_event { reason = 99 ∷ []; sig = sig_c }) ∷ [])
      (some (sign_mark writer_scheme 3 sig_c))
    ≡ ok 3
unfolding last_sig validate_audit_event has_v2_field validate_approval_actor Event-discrete
    ℕ_discrete
appended_verifies_example =
    appended_verifies writer_scheme trail (some checkpoint) 2 sig_b (only_reason (99 ∷ [])) sig_c
      writer_scheme-IsSigning writer_trail_verifies refl refl refl
