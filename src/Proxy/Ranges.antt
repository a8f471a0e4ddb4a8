-- ===== src/Proxy/Ranges.antt =====
-- The resolved sequences of internal/proxy/stdio.go: sorted ranges of uint64, merged where they touch.
use nockguard.Base.{
  ℕ, ◌+◌, ◌-◌, ◌%◌, Bool, true, false, not, ◌&&◌, List, [], ◌∷◌, ltb, leb, ◌==◌, if◌then◌else◌,
}

pub record SeqRange : Type 0 where
  pub start : ℕ
  pub end : ℕ

abbrev pub max_seq : ℕ
max_seq = 18446744073709551615

abbrev pub next_seq : ℕ → ℕ
next_seq n = (n + 1) % 18446744073709551616

abbrev pub min : ℕ → ℕ → ℕ
min a b = if ltb b a then b else a

abbrev pub max : ℕ → ℕ → ℕ
max a b = if ltb a b then b else a

pub data Place : Type 0 where
  before after touching : Place

-- The two tests of the loop in `markAuditSequenceResolvedLocked`.
unfoldable pub place : SeqRange → SeqRange → Place
place merged current =
    if ltb current.end merged.start && ltb (next_seq current.end) merged.start
    then before
    else if ltb merged.end current.start && ltb (next_seq merged.end) current.start
    then after
    else touching

abbrev pub join : SeqRange → SeqRange → SeqRange
join a b = record { start = min a.start b.start; end = max a.end b.end }

-- The loop, and what it does behind its end.
unfoldable pub merge : SeqRange → Bool → List SeqRange → List SeqRange
merge merged inserted [] = if inserted then [] else merged ∷ []
merge merged inserted (current ∷ rest) = elim (place merged current) [
  | before ↦ current ∷ merge merged inserted rest
  | after ↦ let tail = current ∷ merge merged true rest in if inserted then tail else merged ∷ tail
  | touching ↦ merge (join merged current) inserted rest
]

unfoldable pub mark_resolved : ℕ → List SeqRange → List SeqRange
unfolding merge
mark_resolved seq ranges = merge (record { start = seq; end = seq }) false ranges

-- `sort.Search`: the first range that ends at or behind the sequence.
unfoldable pub is_resolved : ℕ → List SeqRange → Bool
is_resolved seq [] = false
is_resolved seq (r ∷ rs) = elim (leb seq r.end) [
  | true ↦ leb r.start seq
  | false ↦ is_resolved seq rs
]

unfoldable pub consume : ℕ → List SeqRange → List SeqRange
consume seq [] = []
consume seq (r ∷ rs) =
    if not (r.start == seq)
    then r ∷ rs
    else if r.end == seq
    then rs
    else record r { start = next_seq r.start } ∷ rs

-- How many sequences are resolved.
abbrev pub size : List SeqRange → ℕ
size [] = 0
size (r ∷ rs) = r.end + 1 - r.start + size rs
