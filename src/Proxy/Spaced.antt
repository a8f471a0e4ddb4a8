-- ===== src/Proxy/Spaced.antt =====
-- The ranges stand for a set of sequences, and stay sorted and apart.
use mathlib.Core.Path.{subst}
use nockguard.Base.{
  suc, ℕ, ◌+◌, ◌≤◌, ◌<◌, ◌≡◌, refl, sym, ap, ◌∙◌, arith, Bool, true, false, not, ◌&&◌, ◌||◌, List,
  [], ◌∷◌, leb, ◌==◌, if◌then◌else◌, ◌⊎◌, inl, inr, Bool-cases,
}
use nockguard.Proxy.Ranges.{
  SeqRange, size, max_seq, before, after, touching, place, join, merge, mark_resolved, is_resolved,
  consume,
}

-- The ranges start at `lo` or behind, and between two of them a sequence is missing.
abbrev pub IsSpaced : ℕ → List SeqRange → Type 0
IsSpaced lo [] = Unit
IsSpaced lo (r ∷ rs) =
    (lo ≤ r.start) × (r.start ≤ r.end) × (r.end ≤ max_seq) × IsSpaced (r.end + 2) rs

abbrev pub covers : SeqRange → ℕ → Bool
covers r x = leb r.start x && leb x r.end

-- The set that the ranges stand for.
abbrev pub holds : List SeqRange → ℕ → Bool
holds [] x = false
holds (r ∷ rs) x = covers r x || holds rs x

-- What the tests say of ranges of uint64.
place-cases :
    (m c : SeqRange)
    → m.start ≤ m.end
    → m.end ≤ max_seq
    → c.start ≤ c.end
    → c.end ≤ max_seq
    → ((place m c ≡ before) × (c.end + 2 ≤ m.start))
      ⊎ (((place m c ≡ after) × (m.end + 2 ≤ c.start))
          ⊎ ((place m c ≡ touching) × (m.start ≤ c.end + 1) × (c.start ≤ m.end + 1)))
unfolding place
place-cases m c h h' k k' = ground arith

merge_before :
    (m c : SeqRange) (inserted : Bool) (rs : List SeqRange)
    → place m c ≡ before
    → merge m inserted (c ∷ rs) ≡ c ∷ merge m inserted rs
unfolding merge
merge_before m c inserted rs h = rw (h, merge)

merge_after :
    (m c : SeqRange) (inserted : Bool) (rs : List SeqRange)
    → place m c ≡ after
    → merge m inserted (c ∷ rs)
      ≡ (if inserted then c ∷ merge m true rs else m ∷ c ∷ merge m true rs)
unfolding merge
merge_after m c inserted rs h = rw (h, merge)

merge_touching :
    (m c : SeqRange) (inserted : Bool) (rs : List SeqRange)
    → place m c ≡ touching
    → merge m inserted (c ∷ rs) ≡ merge (join m c) inserted rs
unfolding merge
merge_touching m c inserted rs h = rw (h, merge)

IsSpaced-weaken : (lo lo' : ℕ) (rs : List SeqRange) → lo' ≤ lo → IsSpaced lo rs → IsSpaced lo' rs
IsSpaced-weaken lo lo' [] h s = tt
IsSpaced-weaken lo lo' (r ∷ rs) h (a, b, c, d) = (omega arith, b, c, d)

-- Behind an inserted range nothing touches it.
merge_done :
    (m : SeqRange) (rs : List SeqRange)
    → m.start ≤ m.end
    → m.end ≤ max_seq
    → IsSpaced (m.end + 2) rs
    → merge m true rs ≡ rs
unfolding merge
merge_done m [] h h' s = refl
merge_done m (r ∷ rs) h h' (a, b, c, d) = elim (place-cases m r h h' b c) [
  | inl (e, f) ↦ absurd (omega arith)
  | inr (inl (e, f)) ↦
      merge_after m r true rs e
      ∙ ap (λ t. r ∷ t)
          (merge_done m rs h h' (IsSpaced-weaken (r.end + 2) (m.end + 2) rs (omega arith) d))
  | inr (inr (e, f, g)) ↦ absurd (omega arith)
]

merge-IsSpaced :
    (lo : ℕ) (m : SeqRange) (rs : List SeqRange)
    → lo ≤ m.start
    → m.start ≤ m.end
    → m.end ≤ max_seq
    → IsSpaced lo rs
    → IsSpaced lo (merge m false rs)
unfolding merge
merge-IsSpaced lo m [] l h h' s = (l, h, h', tt)
merge-IsSpaced lo m (r ∷ rs) l h h' (a, b, c, d) = elim (place-cases m r h h' b c) [
  | inl (e, f) ↦
      subst (IsSpaced lo) (sym (merge_before m r false rs e))
        (a, b, c, merge-IsSpaced (r.end + 2) m rs f h h' d)
  | inr (inl (e, f)) ↦
      let same =
        merge_done m rs h h' (IsSpaced-weaken (r.end + 2) (m.end + 2) rs (omega arith) d) in
      subst (IsSpaced lo) (sym (merge_after m r false rs e ∙ ap (λ t. m ∷ r ∷ t) same))
        (l, h, h', (f, b, c, d))
  | inr (inr (e, f, g)) ↦ subst (IsSpaced lo) (sym (merge_touching m r false rs e)) (
      merge-IsSpaced lo (join m r) rs (ground arith) (ground arith) (ground arith)
        (IsSpaced-weaken (r.end + 2) lo rs (omega arith) d))
]

covers-join :
    (m r : SeqRange) (x : ℕ)
    → m.start ≤ m.end
    → r.start ≤ r.end
    → m.start ≤ r.end + 1
    → r.start ≤ m.end + 1
    → covers (join m r) x ≡ (covers m x || covers r x)
covers-join m r x h k f g = ground arith

merge-holds :
    (lo : ℕ) (m : SeqRange) (rs : List SeqRange) (x : ℕ)
    → m.start ≤ m.end
    → m.end ≤ max_seq
    → IsSpaced lo rs
    → holds (merge m false rs) x ≡ (covers m x || holds rs x)
unfolding merge
merge-holds lo m [] x h h' s = refl
merge-holds lo m (r ∷ rs) x h h' (a, b, c, d) = elim (place-cases m r h h' b c) [
  | inl (e, f) ↦
      let rest = merge-holds (r.end + 2) m rs x h h' d in
      ap (λ t. holds t x) (merge_before m r false rs e) ∙ ground (arith, rest)
  | inr (inl (e, f)) ↦
      let same =
        merge_done m rs h h' (IsSpaced-weaken (r.end + 2) (m.end + 2) rs (omega arith) d) in
      ap (λ t. holds t x) (merge_after m r false rs e ∙ ap (λ t. m ∷ r ∷ t) same)
  | inr (inr (e, f, g)) ↦
      let rest = merge-holds (r.end + 2) (join m r) rs x (ground arith) (ground arith) d in
      let both = covers-join m r x h b f g in
      ap (λ t. holds t x) (merge_touching m r false rs e)
      ∙ rest
      ∙ ap (λ t. t || holds rs x) both
      ∙ assoc (covers m x) (covers r x) (holds rs x)
]
  where
    assoc : (p q r : Bool) → ((p || q) || r) ≡ (p || (q || r))
    assoc true q r = refl
    assoc false q r = refl

-- Marking a sequence adds it to the set and nothing else, and keeps the ranges sorted and apart.
pub mark_resolved-holds :
    (lo seq : ℕ) (rs : List SeqRange) (x : ℕ)
    → IsSpaced lo rs
    → lo ≤ seq
    → seq ≤ max_seq
    → IsSpaced lo (mark_resolved seq rs)
      × (holds (mark_resolved seq rs) x ≡ (x == seq || holds rs x))
unfolding mark_resolved
mark_resolved-holds lo seq rs x s h h' =
    let m : SeqRange = record { start = seq; end = seq } in
    let set = merge-holds lo m rs x (omega arith) h' s in
    (merge-IsSpaced lo m rs h (omega arith) h' s, set ∙ ap (λ t. t || holds rs x) (ground arith))

holds_below : (lo x : ℕ) (rs : List SeqRange) → IsSpaced lo rs → x < lo → holds rs x ≡ false
holds_below lo x [] s h = refl
holds_below lo x (r ∷ rs) (a, b, c, d) h = ground (arith, holds_below (r.end + 2) x rs d)

-- The search finds exactly the members.
pub is_resolved-holds :
    (lo seq : ℕ) (rs : List SeqRange) → IsSpaced lo rs → is_resolved seq rs ≡ holds rs seq
unfolding is_resolved
is_resolved-holds lo seq [] s = refl
is_resolved-holds lo seq (r ∷ rs) (a, b, c, d) =
    ground (arith, is_resolved-holds (r.end + 2) seq rs d, holds_below (r.end + 2) seq rs d)

consume_none :
    (seq : ℕ) (r : SeqRange) (rs : List SeqRange)
    → (r.start == seq) ≡ false
    → consume seq (r ∷ rs) ≡ r ∷ rs
unfolding consume
consume_none seq r rs h = rw (h, consume)

consume_only :
    (seq : ℕ) (r : SeqRange) (rs : List SeqRange)
    → (r.start == seq) ≡ true
    → (r.end == seq) ≡ true
    → consume seq (r ∷ rs) ≡ rs
unfolding consume
consume_only seq r rs h k = rw (h, k, consume)

consume_first :
    (seq : ℕ) (r : SeqRange) (rs : List SeqRange)
    → (r.start == seq) ≡ true
    → (r.end == seq) ≡ false
    → r.start < max_seq
    → consume seq (r ∷ rs) ≡ record r { start = suc seq } ∷ rs
unfolding consume
consume_first seq r rs h k l = ground arith

-- The frontier takes its sequence out of the set, and nothing else.
pub consume-holds :
    (seq : ℕ) (rs : List SeqRange) (x : ℕ)
    → IsSpaced seq rs
    → IsSpaced (suc seq) (consume seq rs)
      × (holds (consume seq rs) x ≡ (not (x == seq) && holds rs x))
unfolding consume
consume-holds seq [] x s = (tt, ground arith)
consume-holds seq (r ∷ rs) x (a, b, c, d) = elim (Bool-cases (r.start == seq)) [
  | inl first ↦ elim (Bool-cases (r.end == seq)) [
    | inl last ↦
        let above = holds_below (r.end + 2) x rs d in
        subst (λ t. IsSpaced (suc seq) t × (holds t x ≡ (not (x == seq) && holds (r ∷ rs) x)))
          (sym (consume_only seq r rs first last))
          (IsSpaced-weaken (r.end + 2) (suc seq) rs (ground arith) d, ground (arith, above))
    | inr more ↦
        let above = holds_below (r.end + 2) x rs d in
        subst (λ t. IsSpaced (suc seq) t × (holds t x ≡ (not (x == seq) && holds (r ∷ rs) x)))
          (sym (consume_first seq r rs first more (ground arith)))
          ((ground arith, ground arith, c, d), ground (arith, above))
  ]
  | inr later ↦
      let below = holds_below r.start x (r ∷ rs) (omega arith, b, c, d) in
      subst (λ t. IsSpaced (suc seq) t × (holds t x ≡ (not (x == seq) && holds (r ∷ rs) x)))
        (sym (consume_none seq r rs later)) ((ground arith, b, c, d), ground (arith, below))
]

size-consume :
    (seq : ℕ) (rs : List SeqRange)
    → IsSpaced seq rs
    → is_resolved seq rs ≡ true
    → suc (size (consume seq rs)) ≡ size rs
unfolding consume is_resolved
size-consume seq [] s h = cc
size-consume seq (r ∷ rs) (a, b, c, d) h =
    let below = holds_below (r.end + 2) seq rs d in
    let inside = is_resolved-holds seq seq (r ∷ rs) (a, b, c, d) in ground (arith, below, inside, h)

pub size-consume_lt :
    (seq : ℕ) (rs : List SeqRange)
    → IsSpaced seq rs
    → is_resolved seq rs ≡ true
    → size (consume seq rs) < size rs
size-consume_lt seq rs s h = omega (arith, size-consume seq rs s h)

pub none_of_size :
    (lo seq : ℕ) (rs : List SeqRange) → IsSpaced lo rs → size rs ≤ 0 → is_resolved seq rs ≡ false
unfolding is_resolved
none_of_size lo seq [] s h = refl
none_of_size lo seq (r ∷ rs) (a, b, c, d) h = absurd (omega arith)
