-- ===== src/Stream/Log/Rebuild.antt =====
-- The compaction of `Trim` keeps what is retained.
use latticedb_go.Base.{
  ℕ, suc, ◌+◌, ◌-◌, ◌≤◌, ◌≡◌, refl, sym, ap, ◌∙◌, List, [], ◌∷◌, ◌++◌, append-nil, arith, length,
  leb, ltb, leb→lt, le→ltb, lt→ltb, ◌==◌, Bool, Bool-cases, inl, inr, true, false, if◌then◌else◌,
  ltb→le,
}
use latticedb_go.Stream.Chunk.{StreamRecord, Chain, last_sequence, new_stream_chunk}
use latticedb_go.Stream.Chunk.Links.{Linked, new_stream_chunk-Linked}
use latticedb_go.Stream.Log.Valid.{Numbered, Numbered-last, Runs}
use latticedb_go.Stream.Log.Publish.{records_of}
use latticedb_go.Stream.Log.Trim.{drop_before, keep_from, rebuild}

keep_from-append :
    (first : ℕ) (rs ss : List StreamRecord)
    → keep_from first (rs ++ ss) ≡ keep_from first rs ++ keep_from first ss
unfolding keep_from
keep_from-append first [] ss = refl
keep_from-append first (r ∷ rs) ss = elim (Bool-cases (ltb r.sequence first)) [
  | inl early ↦ rw early (keep_from-append first rs ss)
  | inr late ↦ rw late (ap (λ (t : List StreamRecord). r ∷ t) (keep_from-append first rs ss))
]

keep_from-none :
    (first n : ℕ) (rs : List StreamRecord)
    → Numbered n rs
    → n + length rs ≤ first
    → keep_from first rs ≡ []
unfolding keep_from
keep_from-none first n [] h past = refl
keep_from-none first n (r ∷ rs) (h, hs) past =
    rw (lt→ltb r.sequence first (omega arith)) (keep_from-none first (suc n) rs hs (omega arith))

keep_from-all :
    (first n : ℕ) (rs : List StreamRecord) → Numbered n rs → first ≤ n → keep_from first rs ≡ rs
unfolding keep_from
keep_from-all first n [] h low = refl
keep_from-all first n (r ∷ rs) (h, hs) low =
    rw (le→ltb r.sequence first (omega arith))
      (ap (λ (t : List StreamRecord). r ∷ t) (keep_from-all first (suc n) rs hs (omega arith)))

drop_before-keep_from :
    (first n : ℕ) (rs : List StreamRecord)
    → Numbered n rs
    → drop_before first rs ≡ keep_from first rs
unfolding drop_before keep_from
drop_before-keep_from first n [] h = refl
drop_before-keep_from first n (r ∷ rs) (h, hs) = elim (Bool-cases (ltb r.sequence first)) [
  | inl early ↦ rw early (drop_before-keep_from first (suc n) rs hs)
  | inr late ↦
      let low = ltb→le r.sequence first late in
      rw late (
        ap (λ (t : List StreamRecord). r ∷ t)
          (sym (keep_from-all first (suc n) rs hs (omega arith))))
]

keep_from-records_of :
    (first next : ℕ) (chain : Chain)
    → Runs next chain
    → next ≤ first
    → keep_from first (records_of chain) ≡ []
unfolding records_of keep_from
keep_from-records_of first next [] h past = refl
keep_from-records_of first next (c ∷ previous) (filled, fits, short, numbered, runs) past =
    let start = next - length c.records in
    keep_from-append first (records_of previous) c.records
    ∙ ap (λ (t : List StreamRecord). t ++ keep_from first c.records)
        (keep_from-records_of first start previous runs (omega arith))
    ∙ keep_from-none first start c.records numbered (omega arith)

nonzero : (n : ℕ) → (suc n == 0) ≡ false
nonzero n = ground arith

if-Linked : (b : Bool) (x y : Chain) → Linked x → Linked y → Linked (if b then x else y)
if-Linked true x y hx hy = hx
if-Linked false x y hx hy = hy

-- A chunk is built only from what is left of one.
add_kept :
    (older : Chain) (kept : List StreamRecord)
    → records_of (if length kept == 0 then older else new_stream_chunk older kept)
      ≡ records_of older ++ kept
unfolding records_of new_stream_chunk
add_kept older [] = sym (append-nil (records_of older))
add_kept older (r ∷ rs) = rw (nonzero (length rs)) refl

rebuild-Linked : (first : ℕ) (chain : Chain) → Linked (rebuild first chain)
unfolding rebuild
rebuild-Linked first [] = tt
rebuild-Linked first (c ∷ previous) =
    let kept = drop_before first c.records in
    let older = rebuild-Linked first previous in
    if-Linked (leb first (last_sequence c.records))
      (if length kept == 0
        then rebuild first previous
        else new_stream_chunk (rebuild first previous) kept)
      []
      (if-Linked (length kept == 0) (rebuild first previous)
        (new_stream_chunk (rebuild first previous) kept) older
        (new_stream_chunk-Linked (rebuild first previous) kept older))
      tt

rebuild-records_of :
    (first next : ℕ) (chain : Chain)
    → Runs next chain
    → records_of (rebuild first chain) ≡ keep_from first (records_of chain)
unfolding rebuild records_of keep_from
rebuild-records_of first next [] h = refl
rebuild-records_of first next (c ∷ previous) (filled, fits, short, numbered, runs) =
    let start = next - length c.records in
    let last = Numbered-last start c.records numbered filled in
    let kept = drop_before-keep_from first start c.records numbered in
    elim (Bool-cases (leb first (last_sequence c.records))) [
      | inl inside ↦ rw inside (
          add_kept (rebuild first previous) (drop_before first c.records)
          ∙ ap (λ (t : List StreamRecord). t ++ drop_before first c.records)
              (rebuild-records_of first start previous runs)
          ∙ ap (λ (t : List StreamRecord). keep_from first (records_of previous) ++ t) kept
          ∙ sym (keep_from-append first (records_of previous) c.records))
      | inr outside ↦
          let over = leb→lt first (last_sequence c.records) outside in
          rw outside (
            sym (
              keep_from-records_of first next (c ∷ previous) (filled, fits, short, numbered, runs)
                (omega arith)))
    ]

-- The compaction of a chain that is numbered without gaps keeps the records from `first` on, in their
-- order, and completes the skip pointers of the new chunks.
pub rebuild-keeps :
    (first next : ℕ) (chain : Chain)
    → Runs next chain
    → (records_of (rebuild first chain) ≡ keep_from first (records_of chain))
      × Linked (rebuild first chain)
rebuild-keeps first next chain runs =
    (rebuild-records_of first next chain runs, rebuild-Linked first chain)
