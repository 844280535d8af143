-- ===== src/Stream/Log/Find.antt =====
-- `streamLog.chunk` on a valid log: the chunk that it returns holds the record that is asked for, at
-- the index that the readers compute.
use latticedb_go.Base.{
  ℕ, suc, ◌+◌, ◌-◌, ◌≤◌, ◌<◌, ◌≡◌, refl, ap, ◌∙◌, [], ◌∷◌, arith, length, get_elem?, ltb, ◌==◌, inl,
  inr, ◌⊎◌, Bool-cases, ltb→lt, ltb→le, le→ltb, true, false, some,
}
use latticedb_go.Stream.Chunk.{StreamRecord, StreamChunk, Chain, first_sequence, chain_last, chunk}
use latticedb_go.Stream.Chunk.Search.{reaches, walk_back, find_chunk, chunk-find_chunk}
use latticedb_go.Stream.Log.{StreamLog}
use latticedb_go.Stream.Log.Valid.{
  Runs, chain_start, IsValidLog, Numbered-get, Numbered-last, Numbered-first, Runs-Descends,
}

-- `records[sequence - records[0].Sequence]` is the record numbered `sequence`.
abbrev pub Holds : ℕ → StreamChunk → Type 0
Holds sequence c =
    (first_sequence c.records ≤ sequence)
    × ((r : StreamRecord) × (get_elem? c.records (sequence - first_sequence c.records) ≡ some r)
        × (r.sequence ≡ sequence))

Holds-Numbered :
    (next sequence : ℕ) (c : StreamChunk) (previous : Chain)
    → Runs next (c ∷ previous)
    → next - length c.records ≤ sequence
    → sequence < next
    → Holds sequence c
Holds-Numbered next sequence c previous (some_records, fits, short, numbered, runs) low high =
    let first = Numbered-first (next - length c.records) c.records numbered some_records in
    let (r, at, e) =
      Numbered-get (next - length c.records) c.records (sequence - (next - length c.records))
        numbered (omega arith) in
    (omega arith, (r, ap (λ (n : ℕ). get_elem? c.records (sequence - n)) first ∙ at, omega arith))

reaches-near :
    (next sequence : ℕ) (chain : Chain)
    → Runs next chain
    → chain_start next chain ≤ sequence
    → sequence < next
    → reaches sequence chain ≡ true
reaches-near next sequence [] h start near = absurd (omega arith)
reaches-near next sequence (c ∷ previous) (some_records, fits, short, numbered, runs) start near =
    let m = Numbered-last (next - length c.records) c.records numbered some_records in ground arith

reaches-far :
    (next sequence : ℕ) (chain : Chain)
    → Runs next chain
    → next ≤ sequence
    → reaches sequence chain ≡ false
reaches-far next sequence [] h far = refl
reaches-far next sequence (c ∷ previous) (some_records, fits, short, numbered, runs) far =
    let m = Numbered-last (next - length c.records) c.records numbered some_records in ground arith

before_or_within : (n sequence : ℕ) → (sequence < n) ⊎ (n ≤ sequence)
before_or_within n sequence = elim (Bool-cases (ltb sequence n)) [
  | inl before ↦ inl (ltb→lt sequence n before)
  | inr within ↦ inr (ltb→le sequence n within)
]

walk_back-Holds :
    (next sequence : ℕ) (chain : Chain)
    → Runs next chain
    → chain_start next chain ≤ sequence
    → sequence < next
    → (c : StreamChunk) × (older : Chain) × (walk_back sequence chain ≡ c ∷ older)
      × Holds sequence c
unfolding walk_back
walk_back-Holds next sequence [] h start near = absurd (omega arith)
walk_back-Holds next sequence (c ∷ previous) h start near =
    elim (before_or_within (next - length c.records) sequence) [
      | inl before ↦
          let (d, older, walked, holds) =
            walk_back-Holds (next - length c.records) sequence previous h.4 start before in
          let taken = reaches-near (next - length c.records) sequence previous h.4 start before in
          (d, older, rw taken walked, holds)
      | inr within ↦
          let stays = reaches-far (next - length c.records) sequence previous h.4 within in
          (c, previous, rw stays, Holds-Numbered next sequence c previous h within near)
    ]

pub positive_test : (n : ℕ) → 1 ≤ n → (n == 0) ≡ false
positive_test n h = ground arith

tail_reaches :
    (next : ℕ) (chain : Chain)
    → Runs next chain
    → chain_start next chain < next
    → (1 ≤ length chain) × (next ≤ suc (chain_last chain))
tail_reaches next [] h some_records = absurd (omega arith)
tail_reaches next (c ∷ previous) (filled, fits, short, numbered, runs) some_records =
    let m = Numbered-last (next - length c.records) c.records numbered filled in
    (omega arith, omega arith)

find_chunk-eq :
    (tail : Chain) (count first sequence : ℕ) (c : StreamChunk) (older : Chain)
    → 1 ≤ length tail
    → 1 ≤ count
    → first ≤ sequence
    → sequence ≤ chain_last tail
    → walk_back sequence tail ≡ c ∷ older
    → first_sequence c.records ≤ sequence
    → find_chunk tail count first sequence ≡ c ∷ older
unfolding find_chunk
find_chunk-eq tail count first sequence c older filled kept low high walked begins = rw (
  positive_test (length tail) filled,
  positive_test count kept,
  le→ltb sequence first low,
  le→ltb (chain_last tail) sequence high,
  walked,
  le→ltb sequence (first_sequence c.records) begins,
)

-- In a valid log every retained sequence number from 1 on is found: `chunk` returns a chunk that
-- holds a record with that number, at the index that the readers compute.
pub chunk-Holds :
    (log : StreamLog) (next sequence : ℕ)
    → IsValidLog next log
    → 1 ≤ sequence
    → log.first ≤ sequence
    → sequence < log.first + log.count
    → (c : StreamChunk) × (older : Chain) × (chunk log.tail log.count log.first sequence
        ≡ c ∷ older)
      × Holds sequence c
chunk-Holds log next sequence (linked, runs, inl (empty, gone)) positive low high =
    absurd (omega arith)
chunk-Holds log next sequence (linked, runs, inr (kept, ends, covered)) positive low high =
    let (c, older, walked, holds) =
      walk_back-Holds next sequence log.tail runs (omega arith) (omega arith) in
    let (filled, last) = tail_reaches next log.tail runs (omega arith) in
    let found =
      find_chunk-eq log.tail log.count log.first sequence c older filled kept low (omega arith)
        walked holds.0 in
    (
      c,
      older,
      chunk-find_chunk log.tail log.count log.first sequence positive linked
            (Runs-Descends next log.tail runs)
          ∙ found,
      holds,
    )
