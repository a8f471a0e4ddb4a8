-- ===== src/Proxy/Cards.antt =====
-- The card that rows are stamped with, of internal/proxy/stdio.go: `cardAfterSeq` says which card a
-- request's success has left claimed. Card 0 is none.
use nockguard.Base.{
  ℕ, Bool, true, false, ◌&&◌, ◌||◌, Option, none, some, List, [], ◌∷◌, ◌++◌, ltb, leb, ◌==◌,
  if◌then◌else◌, Table, ℤ, pos, negsuc, is_positive,
}
use nockguard.Audit.Event.{Event}

abbrev pub Cards : Type 0
Cards = Table ℤ

-- The loop of `flushAuditSequenceLocked` over the map: the latest entry at or before the sequence.
unfoldable pub latest : ℕ → Option (ℕ × ℤ) → Cards → Option (ℕ × ℤ)
latest seq found [] = found
latest seq found ((s, card) ∷ cards) =
    latest seq (if leb s seq && newer s found then some (s, card) else found) cards
  where
    newer : ℕ → Option (ℕ × ℤ) → Bool
    newer s none = true
    newer s (some (t, c)) = ltb t s

unfoldable pub latest_card : ℕ → Cards → ℤ
unfolding latest
latest_card seq cards = elim (latest seq none cards) [ none ↦ pos 0 | some (s, card) ↦ card ]

abbrev pub is_zero : ℤ → Bool
is_zero (pos n) = n == 0
is_zero (negsuc n) = false

unfoldable pub stamped : Cards → ℕ → Event → Event
unfolding latest_card
stamped cards seq ev =
    if is_zero ev.nock_id && is_positive (latest_card seq cards)
    then record ev { nock_id = latest_card seq cards }
    else ev

-- `sort.Slice`
unfoldable pub insert_sorted : ℕ → List ℕ → List ℕ
insert_sorted x [] = x ∷ []
insert_sorted x (y ∷ ys) = let rest = insert_sorted x ys in if leb x y then x ∷ y ∷ ys else y ∷ rest

unfoldable pub sort : List ℕ → List ℕ
unfolding insert_sorted
sort [] = []
sort (x ∷ xs) = insert_sorted x (sort xs)

-- `for cardIndex < len(cardSeqs) && cardSeqs[cardIndex] <= seq { cardIndex++ }`: what was passed
-- last, and what is left.
unfoldable pub skip_to : ℕ → Option ℕ → List ℕ → Option ℕ × List ℕ
skip_to seq passed [] = (passed, [])
skip_to seq passed (c ∷ cs) =
    let further = skip_to seq (some c) cs in if leb c seq then further else (passed, c ∷ cs)

-- The loop over the sorted unsettled sequences: the entries to keep.
unfoldable pub kept_for : List ℕ → Option ℕ → List ℕ → List ℕ
unfolding skip_to
kept_for [] passed cs = []
kept_for (seq ∷ seqs) passed cs =
    let (passed', cs') = skip_to seq passed cs in
    let rest = kept_for seqs passed' cs' in elim passed' [ none ↦ rest | some c ↦ c ∷ rest ]

abbrev last_of : List ℕ → List ℕ
last_of [] = []
last_of (x ∷ []) = x ∷ []
last_of (x ∷ y ∷ xs) = last_of (y ∷ xs)

abbrev pub member : ℕ → List ℕ → Bool
member x [] = false
member x (y ∷ ys) = x == y || member x ys

unfoldable pub retain : List ℕ → Cards → Cards
retain keep [] = []
retain keep ((s, card) ∷ cards) =
    let rest = retain keep cards in if member s keep then (s, card) ∷ rest else rest

abbrev card_seqs : Cards → List ℕ
card_seqs [] = []
card_seqs ((s, card) ∷ cards) = s ∷ card_seqs cards

abbrev few : Cards → Bool
few [] = true
few (x ∷ []) = true
few (x ∷ y ∷ cards) = false

-- `pruneCardHistoryLocked`, given the unsettled sequences.
unfoldable pub prune : List ℕ → Cards → Cards
unfolding sort kept_for retain
prune unsettled cards =
    if few cards
    then cards
    else let seqs = sort (card_seqs cards) in
      retain (last_of seqs ++ kept_for (sort unsettled) none seqs) cards
