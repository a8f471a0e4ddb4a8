-- ===== src/Audit/Recorded.antt =====
-- Signing and verifying of internal/audit/audit.go against each other: a trail grows by signed rows.
use mathlib.Core.Path.{subst}
use nockguard.Base.{
  ℕ, suc, Bool, true, false, Option, none, some, List, [], ◌∷◌, ◌++◌, ◌≡◌, ◌≢◌, refl, sym, ap, ◌∙◌,
  arith, Text, text_eq_refl, ok, ◌>>=◌, is_nonempty, >>=-eq-ok, ok_injective,
}
use nockguard.Audit.Event.{Event}
use nockguard.Audit.Validate.{validate_audit_event}
use nockguard.Audit.Chain.{
  Scheme, Line, undecodable, row, HighWaterMark, Walk, start, marked_count, hwm_signed_bytes,
  unsigned_bytes, check_line, advance, walk, check_high_water_mark, verify_stream, IsSigning,
  sign_mark,
}
use nockguard.Audit.Writer.{last_sig}

module _ (s : Scheme) where
  verified_walk :
      (lines : List Line) (hwm : Option HighWaterMark) (n : ℕ)
      → verify_stream s false lines hwm ≡ ok n
      → (w : Walk) × (walk s (marked_count hwm) start lines ≡ ok w) × (w.count ≡ n)
  unfolding verify_stream
  verified_walk lines hwm n h =
      let (w, walked, rest) = >>=-eq-ok (walk s (marked_count hwm) start lines) _ h in
      (w, walked, ground arith)

  -- The mark bears on nothing but the signature that is noted at it.
  walk_other_mark :
      (m m' : ℕ) (w w' e : Walk) (ls : List Line)
      → w.count ≡ w'.count
      → w.prev ≡ w'.prev
      → walk s m w ls ≡ ok e
      → (e' : Walk) × (walk s m' w' ls ≡ ok e') × (e.count ≡ e'.count) × (e.prev ≡ e'.prev)
  unfolding walk
  walk_other_mark m m' w w' e [] c p h =
      let same = ok_injective w e h in
      (
        w',
        refl,
        ap (λ (k : Walk). k.count) (sym same) ∙ c,
        ap (λ (k : Walk). k.prev) (sym same) ∙ p,
      )
  walk_other_mark m m' w w' e (l ∷ ls) c p h =
      let (sig, passed, rest) = >>=-eq-ok (check_line s w.prev (suc w.count) l) _ h in
      let passed' : check_line s w'.prev (suc w'.count) l ≡ ok sig =
        subst (λ k. check_line s w'.prev (suc k) l ≡ ok sig) c
          (subst (λ q. check_line s q (suc w.count) l ≡ ok sig) p passed) in
      let (e', walked, counts, prevs) =
        walk_other_mark m m' (advance s m w sig) (advance s m' w' sig) e ls (ap suc c) refl rest in
      (e', ap (λ r. r >>= λ t. walk s m' (advance s m' w' t) ls) passed' ∙ walked, counts, prevs)

  walk-snoc :
      (m : ℕ) (w e : Walk) (ls : List Line) (l : Line) (sig : Text)
      → walk s m w ls ≡ ok e
      → check_line s e.prev (suc e.count) l ≡ ok sig
      → walk s m w (ls ++ l ∷ []) ≡ ok (advance s m e sig)
  unfolding walk
  walk-snoc m w e [] l sig h passed =
      let same : e ≡ w = sym (ok_injective w e h) in
      let passed' : check_line s w.prev (suc w.count) l ≡ ok sig =
        subst (λ (k : Walk). check_line s k.prev (suc k.count) l ≡ ok sig) same passed in
      let here : walk s m w (l ∷ []) ≡ ok (advance s m w sig) =
        ap (λ r. r >>= λ u. walk s m (advance s m w u) []) passed' in
      here ∙ ap (λ k. ok (advance s m k sig)) (sym same)
  walk-snoc m w e (k ∷ ls) l sig h passed =
      let (t, first, rest) = >>=-eq-ok (check_line s w.prev (suc w.count) k) _ h in
      ap (λ r. r >>= λ u. walk s m (advance s m w u) (ls ++ l ∷ [])) first
      ∙ walk-snoc m (advance s m w t) e ls l sig rest passed

  not_a_row : (prev : Text) (n : ℕ) (sig : Text) → check_line s prev n undecodable ≢ ok sig
  unfolding check_line
  not_a_row prev n sig h = cc

  own_sig :
      (prev : Text) (n : ℕ) (b : Bool) (ev : Event) (sig : Text)
      → check_line s prev n (row b ev) ≡ ok sig
      → sig ≡ ev.sig
  unfolding check_line
  own_sig prev n b ev sig h = ground arith

  -- The tail of a verified trail carries the signature where the walk has come to.
  last_sig-walk :
      (m : ℕ) (w e : Walk) (l : Line) (ls : List Line)
      → walk s m w (l ∷ ls) ≡ ok e
      → last_sig (l ∷ ls) ≡ ok e.prev
  unfolding walk last_sig
  last_sig-walk m w e undecodable [] h =
      let (sig, passed, rest) = >>=-eq-ok (check_line s w.prev (suc w.count) undecodable) _ h in
      absurd (not_a_row w.prev (suc w.count) sig passed)
  last_sig-walk m w e (row b ev) [] h =
      let (sig, passed, rest) = >>=-eq-ok (check_line s w.prev (suc w.count) (row b ev)) _ h in
      let same : sig ≡ ev.sig = own_sig w.prev (suc w.count) b ev sig passed in
      ap ok (sym same ∙ ap (λ (k : Walk). k.prev) (ok_injective (advance s m w sig) e rest))
  last_sig-walk m w e l (k ∷ ls) h =
      let (sig, passed, rest) = >>=-eq-ok (check_line s w.prev (suc w.count) l) _ h in
      last_sig-walk m (advance s m w sig) e k ls rest

  tail-walk :
      (m : ℕ) (e : Walk) (lines : List Line) (last : Text)
      → walk s m start lines ≡ ok e
      → last_sig lines ≡ ok last
      → e.prev ≡ last
  unfolding walk last_sig
  tail-walk m e [] last h k =
      ap (λ (w : Walk). w.prev) (sym (ok_injective start e h)) ∙ ok_injective [] last k
  tail-walk m e (l ∷ ls) last h k =
      ok_injective e.prev last (sym (last_sig-walk m start e l ls h) ∙ k)

  -- A row signed after the tail passes the verifier's round.
  check_line-sign :
      (prev : Text) (n : ℕ) (ev : Event) (sig : Text)
      → IsSigning s
      → validate_audit_event (record ev { sig = sig }) ≡ true
      → sig ≡ s.sign (unsigned_bytes s ev) prev
      → check_line s prev n (row true (record ev { sig = sig })) ≡ ok sig
  unfolding check_line
  check_line-sign prev n ev sig i valid signed =
      let c = unsigned_bytes s ev in
      let nonempty : is_nonempty sig ≡ true =
        subst (λ t. is_nonempty t ≡ true) (sym signed) (i.nonempty c prev) in
      let hex : s.decodes sig ≡ true =
        subst (λ t. s.decodes t ≡ true) (sym signed) (i.decodable c prev) in
      let passes : s.checks c prev sig ≡ true =
        subst (λ t. s.checks c prev t ≡ true) (sym signed) (i.verifies c prev) in
      rw (valid, nonempty, hex, passes)

  -- A fresh checkpoint over the last row agrees.
  check_high_water_mark-sign :
      (n : ℕ) (sig : Text)
      → IsSigning s
      → check_high_water_mark s (some (sign_mark s n sig)) n sig ≡ none
  unfolding check_high_water_mark sign_mark
  check_high_water_mark-sign n sig i =
      let c = hwm_signed_bytes n sig in
      let same = text_eq_refl sig in ground (arith, i.decodable c [], i.verifies c [], same)

  verified_by_walk :
      (hwm : HighWaterMark) (lines : List Line) (w : Walk)
      → walk s hwm.count start lines ≡ ok w
      → check_high_water_mark s (some hwm) w.count w.sig_at_count ≡ none
      → verify_stream s false lines (some hwm) ≡ ok w.count
  unfolding verify_stream
  verified_by_walk hwm lines w walked agrees = rw (walked, agrees)

  noted_at_mark :
      (n : ℕ) (e : Walk) (sig : Text) → e.count ≡ n → (advance s (suc n) e sig).sig_at_count ≡ sig
  noted_at_mark n e sig h = ground arith

  -- A verified trail stays verified when a valid row is signed after its tail and the checkpoint is
  -- signed anew.
  pub appended_verifies :
      (lines : List Line) (hwm : Option HighWaterMark) (n : ℕ) (last : Text) (ev : Event)
      (sig : Text)
      → IsSigning s
      → verify_stream s false lines hwm ≡ ok n
      → last_sig lines ≡ ok last
      → validate_audit_event (record ev { sig = sig }) ≡ true
      → sig ≡ s.sign (unsigned_bytes s ev) last
      → verify_stream s false
          (lines ++ row true (record ev { sig = sig }) ∷ [])
          (some (sign_mark s (suc n) sig))
        ≡ ok (suc n)
  unfolding sign_mark
  appended_verifies lines hwm n last ev sig i verified tail valid signed =
      let (w, walked, total) = verified_walk lines hwm n verified in
      let (e, again, counts, prevs) =
        walk_other_mark (marked_count hwm) (suc n) start start w lines refl refl walked in
      let at_tail : e.prev ≡ last =
        sym prevs ∙ tail-walk (marked_count hwm) w lines last walked tail in
      let count : e.count ≡ n = sym counts ∙ total in
      let passed =
        check_line-sign e.prev (suc e.count) ev sig i valid
          (signed ∙ ap (s.sign (unsigned_bytes s ev)) (sym at_tail)) in
      let longer =
        walk-snoc (suc n) start e lines (row true (record ev { sig = sig })) sig again passed in
      let end = advance s (suc n) e sig in
      let noted : end.sig_at_count ≡ sig = noted_at_mark n e sig count in
      let agrees : check_high_water_mark s (some (sign_mark s (suc n) sig)) end.count
            end.sig_at_count
          ≡ none =
        subst
          (λ k. check_high_water_mark s (some (sign_mark s (suc n) sig)) k end.sig_at_count ≡ none)
          (ap suc (sym count))
          (subst (λ t. check_high_water_mark s (some (sign_mark s (suc n) sig)) (suc n) t ≡ none)
            (sym noted) (check_high_water_mark-sign (suc n) sig i)) in
      verified_by_walk (sign_mark s (suc n) sig) (lines ++ row true (record ev { sig = sig }) ∷ [])
        end longer agrees
      ∙ ap (λ k. ok (suc k)) count
