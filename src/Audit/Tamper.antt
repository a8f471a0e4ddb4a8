-- ===== src/Audit/Tamper.antt =====
-- What a verified trail is worth: a trail that is cut below its checkpoint fails, and two trails that
-- verify against one checkpoint agree up to it.
use mathlib.Core.Path.{subst, ap₂}
use mathlib.Core.List.{append-nil}
use nockguard.Base.{
  ℕ, suc, ◌+◌, ◌≤◌, ◌<◌, true, false, Option, none, some, List, [], ◌∷◌, ◌++◌, ◌≡◌, refl, sym, ap,
  ◌∙◌, arith, Text, eq_of_text_eq, ok, err, is_nonempty, length, take, drop, rev_onto,
  rev_onto_twice, take-append-drop, length-take_of_le, >>=-eq-ok, ok_injective,
}
use nockguard.Audit.Event.{Event}
use nockguard.Audit.Chain.{
  Scheme, Line, undecodable, row, HighWaterMark, boundary, truncated, BoundaryCause, Walk, start,
  marked_count, unsigned_bytes, check_line, advance, walk, check_high_water_mark, verify_stream,
  IsBinding,
}

module _ (s : Scheme) where
  -- The lines of a chain, newest first, and its last signature.
  data Chained : List Line → Text → Type 0 where
    bottom : Chained [] []
    link :
        {lines : List Line} {prev sig : Text} (ev : Event)
        → sig ≡ ev.sig
        → is_nonempty sig ≡ true
        → s.checks (unsigned_bytes s ev) prev sig ≡ true
        → Chained lines prev
        → Chained (row true ev ∷ lines) sig

  -- A line that passes is a lossless row that carries its signature.
  pub record Passed (prev : Text) (l : Line) (sig : Text) : Type 0 where
    pub ev : Event
    pub line : l ≡ row true ev
    pub ends : sig ≡ ev.sig
    pub nonempty : is_nonempty sig ≡ true
    pub checked : s.checks (unsigned_bytes s ev) prev sig ≡ true

  pub check_line-Passed :
      (prev : Text) (n : ℕ) (l : Line) (sig : Text)
      → check_line s prev n l ≡ ok sig
      → Passed prev l sig
  unfolding check_line
  check_line-Passed prev n undecodable sig h = cc
  check_line-Passed prev n (row false e) sig h = cc
  check_line-Passed prev n (row true e) sig h =
      let same : sig ≡ e.sig = ground arith in
      record {
        ev = e;
        line = refl;
        ends = same;
        nonempty = subst (λ t. is_nonempty t ≡ true) (sym same) (ground arith);
        checked =
            subst (λ t. s.checks (unsigned_bytes s e) prev t ≡ true) (sym same) (ground arith);
      }

  walk-Chained :
      (mark : ℕ) (w e : Walk) (done ls : List Line)
      → Chained done w.prev
      → walk s mark w ls ≡ ok e
      → Chained (rev_onto ls done) e.prev
  unfolding walk
  walk-Chained mark w e done [] c h =
      subst (λ (k : Walk). Chained done k.prev) (ok_injective w e h) c
  walk-Chained mark w e done (l ∷ ls) c h =
      let (sig, passed, rest) = >>=-eq-ok (check_line s w.prev (suc w.count) l) _ h in
      let p = check_line-Passed w.prev (suc w.count) l sig passed in
      walk-Chained mark (advance s mark w sig) e (l ∷ done) ls
        (subst (λ k. Chained (k ∷ done) sig) (sym p.line) (link p.ev p.ends p.nonempty p.checked c))
        rest

  -- A walk over two parts is a walk over one and then the other.
  walk-append :
      (mark : ℕ) (w e : Walk) (xs ys : List Line)
      → walk s mark w (xs ++ ys) ≡ ok e
      → (m : Walk) × (walk s mark w xs ≡ ok m) × (walk s mark m ys ≡ ok e)
  unfolding walk
  walk-append mark w e [] ys h = (w, refl, h)
  walk-append mark w e (x ∷ xs) ys h =
      let (sig, passed, rest) = >>=-eq-ok (check_line s w.prev (suc w.count) x) _ h in
      let (m, left, right) = walk-append mark (advance s mark w sig) e xs ys rest in
      (m, rw passed left, right)

  pub walk-count :
      (mark : ℕ) (w e : Walk) (ls : List Line)
      → walk s mark w ls ≡ ok e
      → e.count ≡ w.count + length ls
  unfolding walk
  walk-count mark w e [] h = let same = ok_injective w e h in ground arith
  walk-count mark w e (l ∷ ls) h =
      let (sig, passed, rest) = >>=-eq-ok (check_line s w.prev (suc w.count) l) _ h in
      omega (arith, walk-count mark (advance s mark w sig) e ls rest)

  -- Behind the checkpoint its signature stays as it was noted.
  walk_past_mark :
      (mark : ℕ) (w e : Walk) (ls : List Line)
      → mark ≤ w.count
      → walk s mark w ls ≡ ok e
      → e.sig_at_count ≡ w.sig_at_count
  unfolding walk
  walk_past_mark mark w e [] le h =
      let same = ok_injective w e h in ap (λ (k : Walk). k.sig_at_count) (sym same)
  walk_past_mark mark w e (l ∷ ls) le h =
      let (sig, passed, rest) = >>=-eq-ok (check_line s w.prev (suc w.count) l) _ h in
      ground (arith, walk_past_mark mark (advance s mark w sig) e ls (omega arith) rest)

  -- At the checkpoint its signature is the last one.
  walk_at_mark :
      (mark : ℕ) (w e : Walk) (ls : List Line)
      → w.count < mark
      → e.count ≡ mark
      → walk s mark w ls ≡ ok e
      → e.sig_at_count ≡ e.prev
  unfolding walk
  walk_at_mark mark w e [] lt eq h = absurd (let same = ok_injective w e h in ground arith)
  walk_at_mark mark w e (l ∷ []) lt eq h =
      let (sig, passed, rest) = >>=-eq-ok (check_line s w.prev (suc w.count) l) _ h in
      let same = ok_injective (advance s mark w sig) e rest in ground arith
  walk_at_mark mark w e (l ∷ k ∷ ls) lt eq h =
      let (sig, passed, rest) = >>=-eq-ok (check_line s w.prev (suc w.count) l) _ h in
      walk_at_mark mark (advance s mark w sig) e (k ∷ ls)
        (omega (arith, walk-count mark (advance s mark w sig) e (k ∷ ls) rest)) eq rest

  walk-start_mark :
      (mark : ℕ) (e : Walk) (ls : List Line)
      → e.count ≡ mark
      → walk s mark start ls ≡ ok e
      → e.sig_at_count ≡ e.prev
  unfolding walk
  walk-start_mark mark e [] eq h =
      let same = ok_injective start e h in
      ap (λ (k : Walk). k.sig_at_count) (sym same) ∙ ap (λ (k : Walk). k.prev) same
  walk-start_mark mark e (l ∷ ls) eq h =
      walk_at_mark mark start e (l ∷ ls) (omega (arith, walk-count mark start e (l ∷ ls) h)) eq h

  -- What a passing verification says of the walk and of the checkpoint.
  verified-parts :
      (lines : List Line) (hwm : HighWaterMark) (n : ℕ)
      → verify_stream s false lines (some hwm) ≡ ok n
      → (w : Walk) × (walk s hwm.count start lines ≡ ok w)
        × (w.count ≡ n)
        × (check_high_water_mark s (some hwm) w.count w.sig_at_count ≡ none)
  unfolding verify_stream
  verified-parts lines hwm n h =
      let (w, walked, rest) = >>=-eq-ok (walk s hwm.count start lines) _ h in
      (w, walked, ground arith, ground arith)

  -- A checkpoint that agrees lies within the trail, and names the signature at its count.
  agrees-parts :
      (hwm : HighWaterMark) (n : ℕ) (sig : Text)
      → check_high_water_mark s (some hwm) n sig ≡ none
      → (hwm.count ≤ n) × (sig ≡ hwm.last_sig)
  unfolding check_high_water_mark
  agrees-parts hwm n sig h = (ground arith, ground (arith, eq_of_text_eq sig hwm.last_sig))

  -- The checkpoint is genuine, so a shorter trail is reported as truncated.
  check_below :
      (k n : ℕ) (hwm : HighWaterMark) (at_k at_n : Text)
      → check_high_water_mark s (some hwm) n at_n ≡ none
      → k < hwm.count
      → check_high_water_mark s (some hwm) k at_k ≡ some truncated
  unfolding check_high_water_mark
  check_below k n hwm at_k at_n h lt = ground arith

  boundary_of_walk :
      (hwm : Option HighWaterMark) (lines : List Line) (w : Walk) (cause : BoundaryCause)
      → walk s (marked_count hwm) start lines ≡ ok w
      → check_high_water_mark s hwm w.count w.sig_at_count ≡ some cause
      → verify_stream s false lines hwm ≡ err (boundary w.count cause)
  unfolding verify_stream
  boundary_of_walk hwm lines w cause walked checked = ground arith

  -- The lines up to the checkpoint form a chain that ends in the checkpoint's signature.
  verified-Chained :
      (lines : List Line) (hwm : HighWaterMark) (n : ℕ)
      → verify_stream s false lines (some hwm) ≡ ok n
      → Chained (rev_onto (take hwm.count lines) []) hwm.last_sig
  verified-Chained lines hwm n h =
      let (w, walked, total, agrees) = verified-parts lines hwm n h in
      let (within, noted) = agrees-parts hwm w.count w.sig_at_count agrees in
      let k = hwm.count in
      let halves : walk s k start (take k lines ++ drop k lines) ≡ ok w =
        subst (λ l. walk s k start l ≡ ok w) (sym (take-append-drop k lines)) walked in
      let (m, left, right) = walk-append k start w (take k lines) (drop k lines) halves in
      let enough : k ≤ length lines = omega (arith, walk-count k start w lines walked) in
      let at_mark : m.count ≡ k =
        omega (arith, walk-count k start m (take k lines) left, length-take_of_le k lines enough) in
      let kept : w.sig_at_count ≡ m.sig_at_count =
        walk_past_mark k m w (drop k lines) (omega arith) right in
      let last : m.sig_at_count ≡ m.prev = walk-start_mark k m (take k lines) at_mark left in
      subst (Chained (rev_onto (take k lines) [])) (sym last ∙ sym kept ∙ noted)
        (walk-Chained k start m [] (take k lines) bottom left)

  -- A signature commits to the whole chain before it.
  Chained-unique :
      {xs ys : List Line} {p q : Text} → IsBinding s → Chained xs p → Chained ys q → p ≡ q → xs ≡ ys
  Chained-unique b bottom bottom h = refl
  Chained-unique b bottom (link e same n c d) h = absurd (ground arith)
  Chained-unique b (link e same n c d) bottom h = absurd (ground arith)
  Chained-unique b (link {lines} {prev} {sig} e same n c d)
        (link {lines = lines'} {prev = prev'} {sig = sig'} e' same' n' c' d') h =
      let (bare, before) =
        b.one_row (record e { sig = [] }) (record e' { sig = [] }) prev prev' sig c
          (subst (λ t. s.checks (unsigned_bytes s e') prev' t ≡ true) (sym h) c') in
      let rest : lines ≡ lines' = Chained-unique b d d' before in
      let event : e ≡ e' =
        ap₂ (λ (x : Event) (t : Text). record x { sig = t }) bare (sym same ∙ h ∙ same') in
      ap₂ (λ (x : Event) (l : List Line). row true x ∷ l) event rest

  -- Two trails that verify against one checkpoint are the same up to it, line for line: no row below
  -- a checkpoint can be edited, dropped, inserted or moved unless a signature is forged.
  pub checkpoint_pins :
      (hwm : HighWaterMark) (xs ys : List Line) (m n : ℕ)
      → IsBinding s
      → verify_stream s false xs (some hwm) ≡ ok m
      → verify_stream s false ys (some hwm) ≡ ok n
      → take hwm.count xs ≡ take hwm.count ys
  checkpoint_pins hwm xs ys m n b h k =
      let same =
        Chained-unique b (verified-Chained xs hwm m h) (verified-Chained ys hwm n k) refl in
      sym (append-nil (take hwm.count xs))
      ∙ sym (rev_onto_twice (take hwm.count xs) [] [])
      ∙ ap (λ l. rev_onto l []) same
      ∙ rev_onto_twice (take hwm.count ys) [] []
      ∙ append-nil (take hwm.count ys)

  -- A verified trail that is cut below its checkpoint no longer verifies: it is reported as
  -- truncated, at the number of entries that are left.
  pub truncation_detected :
      (hwm : HighWaterMark) (lines : List Line) (n k : ℕ)
      → verify_stream s false lines (some hwm) ≡ ok n
      → k < hwm.count
      → verify_stream s false (take k lines) (some hwm) ≡ err (boundary k truncated)
  truncation_detected hwm lines n k h lt =
      let (w, walked, total, agrees) = verified-parts lines hwm n h in
      let (within, noted) = agrees-parts hwm w.count w.sig_at_count agrees in
      let halves : walk s hwm.count start (take k lines ++ drop k lines) ≡ ok w =
        subst (λ l. walk s hwm.count start l ≡ ok w) (sym (take-append-drop k lines)) walked in
      let (m, left, right) = walk-append hwm.count start w (take k lines) (drop k lines) halves in
      let enough : k ≤ length lines = omega (arith, walk-count hwm.count start w lines walked) in
      let count : m.count ≡ k = omega (
        arith,
        walk-count hwm.count start m (take k lines) left,
        length-take_of_le k lines enough,
      ) in
      boundary_of_walk (some hwm) (take k lines) m truncated left (
        check_below m.count w.count hwm m.sig_at_count w.sig_at_count agrees
          (subst (λ c. c < hwm.count) (sym count) lt))
      ∙ ap (λ c. err (boundary c truncated)) count
