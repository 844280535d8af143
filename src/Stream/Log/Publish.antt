-- ===== src/Stream/Log/Publish.antt =====
-- `Publish` keeps a log valid and appends to what it holds.
use latticedb_go.Base.{
  ℕ, suc, ◌+◌, ◌-◌, ◌%◌, ◌^◌, ◌≤◌, ◌<◌, ◌≡◌, refl, sym, ap, subst, ◌∙◌, List, [], ◌∷◌, ◌++◌, arith,
  length, length-append, append_assoc, ◌==◌, inl, inr, Bool-cases, true, ==_iff,
}
use latticedb_go.Stream.Chunk.{StreamRecord, Chain, stream_chunk_size, new_stream_chunk}
use latticedb_go.Stream.Chunk.Links.{Linked, new_stream_chunk-Linked}
use latticedb_go.Stream.Log.{StreamLog, append_record, publish_log}
use latticedb_go.Stream.Log.Find.{positive_test}
use latticedb_go.Stream.Log.Valid.{
  Numbered, Numbered-append, Runs, chain_start, chain_start-positive, HasWindow, IsValidLog,
}

-- The records of a chain, oldest first.
unfoldable pub records_of : Chain → List StreamRecord
records_of [] = []
records_of (c ∷ previous) = records_of previous ++ c.records

pub append_record-records :
    (chain : Chain) (r : StreamRecord)
    → records_of (append_record chain r) ≡ records_of chain ++ r ∷ []
unfolding records_of append_record new_stream_chunk
append_record-records [] r = refl
append_record-records (c ∷ previous) r = elim (Bool-cases (length c.records == stream_chunk_size)) [
  | inl full ↦ rw full refl
  | inr room ↦ rw room (sym (append_assoc (records_of previous) c.records (r ∷ [])))
]

append_record-Linked :
    (chain : Chain) (r : StreamRecord) → Linked chain → Linked (append_record chain r)
unfolding append_record
append_record-Linked [] r h = new_stream_chunk-Linked [] (r ∷ []) h
append_record-Linked (c ∷ previous) r h =
    elim (Bool-cases (length c.records == stream_chunk_size)) [
      | inl full ↦ rw full (new_stream_chunk-Linked (c ∷ previous) (r ∷ []) h)
      | inr room ↦ rw room h
    ]

-- A chunk of one record behind a chain.
Runs-single :
    (next : ℕ) (chain : Chain) (r : StreamRecord)
    → Runs next chain
    → r.sequence ≡ next
    → 1 ≤ next
    → Runs (suc next) (new_stream_chunk chain (r ∷ []))
unfolding new_stream_chunk
Runs-single next chain r h e positive =
    let same : next ≡ suc next - 1 = omega arith in
    (omega arith, omega arith, omega arith, (e ∙ same, tt), subst (λ (n : ℕ). Runs n chain) same h)

-- What the longer last chunk leaves behind it.
grown_start :
    (next : ℕ) (rs : List StreamRecord) (r : StreamRecord)
    → next - length rs ≡ suc next - length (rs ++ r ∷ [])
grown_start next rs r = omega (arith, length-append rs (r ∷ []))

grown-Numbered :
    (next : ℕ) (rs : List StreamRecord) (r : StreamRecord)
    → Numbered (next - length rs) rs
    → r.sequence ≡ next
    → length rs ≤ next
    → Numbered (suc next - length (rs ++ r ∷ [])) (rs ++ r ∷ [])
grown-Numbered next rs r h e short =
    subst (λ (n : ℕ). Numbered n (rs ++ r ∷ [])) (grown_start next rs r)
      (Numbered-append (next - length rs) rs r h (omega arith))

append_record-Runs :
    (next : ℕ) (chain : Chain) (r : StreamRecord)
    → Runs next chain
    → r.sequence ≡ next
    → 1 ≤ next
    → Runs (suc next) (append_record chain r)
unfolding append_record
append_record-Runs next [] r h e positive = Runs-single next [] r h e positive
append_record-Runs next (c ∷ previous) r (filled, fits, short, numbered, runs) e positive =
    elim (Bool-cases (length c.records == stream_chunk_size)) [
      | inl full ↦
          rw full
            (Runs-single next (c ∷ previous) r (filled, fits, short, numbered, runs) e positive)
      | inr room ↦
          let longer = length-append c.records (r ∷ []) in
          let fit : length c.records < stream_chunk_size = ground arith in
          rw room (
            omega arith,
            omega arith,
            omega arith,
            grown-Numbered next c.records r numbered e (omega arith),
            subst (λ (n : ℕ). Runs n previous) (grown_start next c.records r) runs,
          )
    ]

append_record-start :
    (next : ℕ) (chain : Chain) (r : StreamRecord)
    → chain_start (suc next) (append_record chain r) ≡ chain_start next chain
unfolding append_record new_stream_chunk
append_record-start next [] r = let e : suc next - 1 ≡ next = omega arith in e
append_record-start next (c ∷ previous) r =
    elim (Bool-cases (length c.records == stream_chunk_size)) [
      | inl full ↦
          let e : suc next - 1 ≡ next = omega arith in
          rw full (ap (λ (n : ℕ). chain_start n (c ∷ previous)) e)
      | inr room ↦
          rw room (ap (λ (n : ℕ). chain_start n previous) (sym (grown_start next c.records r)))
    ]

pub small_mod : (n : ℕ) → n < 2 ^ 64 → n % 2 ^ 64 ≡ n
small_mod n h = omega arith

publish_log-HasWindow :
    (next : ℕ) (log : StreamLog) (r : StreamRecord)
    → IsValidLog next log
    → r.sequence ≡ next
    → 1 ≤ next
    → next + 1 < 2 ^ 64
    → HasWindow (suc next) (publish_log log r)
unfolding publish_log
publish_log-HasWindow next log r (linked, runs, inl (empty, gone)) e positive small =
    let start = append_record-start next log.tail r in
    let behind : chain_start next log.tail ≡ next = ap (λ (t : Chain). chain_start next t) gone in
    let none_kept : (log.count == 0) ≡ true = (==_iff log.count 0).1 empty in
    let counted = small_mod (log.count + 1) (omega arith) in
    inr (rw (none_kept, counted) (omega arith, omega arith, omega arith))
publish_log-HasWindow next log r (linked, runs, inr (kept, ends, covered)) e positive small =
    let start = append_record-start next log.tail r in
    let one = chain_start-positive next log.tail positive runs in
    let some_kept = positive_test log.count kept in
    let counted = small_mod (log.count + 1) (omega arith) in
    inr (rw (some_kept, counted) (omega arith, omega arith, omega arith))

pub publish_log-IsValidLog :
    (next : ℕ) (log : StreamLog) (r : StreamRecord)
    → IsValidLog next log
    → r.sequence ≡ next
    → 1 ≤ next
    → next + 1 < 2 ^ 64
    → IsValidLog (suc next) (publish_log log r)
unfolding publish_log
publish_log-IsValidLog next log r valid e positive small = (
  append_record-Linked log.tail r valid.0,
  append_record-Runs next log.tail r valid.1 e positive,
  publish_log-HasWindow next log r valid e positive small,
)
