-- ===== src/Adjacency/Append.antt =====
-- Append adds one id behind the others, inline, at the change to chunks, and in chunks.
use latticedb_go.Base.{
  ℕ, zero, suc, ◌+◌, ◌/◌, ◌≤◌, ◌<◌, ◌≡◌, ◌≢◌, refl, sym, ap, ◌∙◌, Bool, true, false, not, List, [],
  ◌∷◌, ◌++◌, some, arith, length, length-append, take, drop, ◌==◌, ltb, ltb→le, ltb→lt, lt→ltb,
  le→ltb, if◌then◌else◌, Bool-cases, inl, inr, ==_iff,
}
use latticedb_go.PagedMap.{PagedMap, get, has, set, fork_set, new_paged_map}
use latticedb_go.PagedMap.Lookup.{
  get-set, get-fork_set, set-rooted, fork_set-rooted, get-new, ==→ne,
}
use latticedb_go.Adjacency.{
  EdgeList, no_chunks, slice_or_nil, chunk_at, keep, mem, split_small, grow_chunk, append_to,
}
use latticedb_go.Adjacency.Pieces.{
  piece, piece_short, piece-append_last, piece-append_other, keep-append, Distinct-append,
}
use latticedb_go.Adjacency.Layout.{IsEdgeList}

abbrev Laid : PagedMap (List ℕ) → List ℕ → Type 0
Laid chunks xs = (c : ℕ) → chunk_at chunks c ≡ piece c xs

-- The last chunk is written longer by one id.
grown :
    (chunks chunks' : PagedMap (List ℕ)) (xs : List ℕ) (id : ℕ)
    → Laid chunks xs
    → ((c : ℕ)
        → get chunks' c ≡ (
            if c == length xs / 64
            then some (chunk_at chunks (length xs / 64) ++ id ∷ [])
            else get chunks c))
    → Laid chunks' (xs ++ id ∷ [])
grown chunks chunks' xs id h write c = elim (Bool-cases (c == length xs / 64)) [
  | inl s ↦
      let last : c ≡ length xs / 64 = (==_iff c _).0 s in
      ap slice_or_nil (write c)
      ∙ rw (s, sym last)
          (ap (λ t. t ++ id ∷ []) (h c)
            ∙ sym (piece-append_last c xs (id ∷ []) (omega arith) (omega arith)))
  | inr d ↦
      ap slice_or_nil (write c) ∙ rw (d) (h c ∙ sym (piece-append_other c xs id (==→ne c _ d)))
]

-- The fields that do not depend on the layout.
appended :
    (l : EdgeList) (xs : List ℕ) (id : ℕ) (small : List ℕ) (chunks : PagedMap (List ℕ)) (total : ℕ)
    → IsEdgeList l xs
    → has l.removed id ≡ false
    → mem id xs ≡ false
    → total ≡ length xs
    → (no_chunks chunks ≡ true
        → (small ≡ xs ++ id ∷ []) × (length xs + 1 ≤ 63) × (no_chunks l.chunks ≡ true))
    → (no_chunks chunks ≡ false → Laid chunks (xs ++ id ∷ []))
    → IsEdgeList
        (record l { small = small; chunks = chunks; count = l.count + 1; total = total + 1 })
        (xs ++ id ∷ [])
appended l xs id small chunks total h unmarked fresh same inline chunked = record {
  total = omega (arith, same, length-append xs (id ∷ []));
  inline = λ n. ((inline n).0, omega (arith, length-append xs (id ∷ []), (inline n).1));
  unmarked = λ n. h.unmarked ((inline n).2);
  chunked = chunked;
  marks = h.marks;
  distinct = Distinct-append id xs h.distinct fresh;
  count =
      let live : ℕ → Bool = λ x. not (has l.removed x) in
      rw (keep-append live xs (id ∷ []), unmarked)
        (omega (arith, length-append (keep live xs) (id ∷ []), h.count));
}

grow_chunk-IsEdgeList :
    (owned : Bool) (l : EdgeList) (xs : List ℕ) (id : ℕ) (small : List ℕ)
    (chunks : PagedMap (List ℕ)) (total : ℕ)
    → IsEdgeList l xs
    → has l.removed id ≡ false
    → mem id xs ≡ false
    → total ≡ length xs
    → Laid chunks xs
    → IsEdgeList
        (grow_chunk owned (record l { small = small; chunks = chunks; total = total }) id)
        (xs ++ id ∷ [])
grow_chunk-IsEdgeList true l xs id small chunks total h unmarked fresh same laid =
    let updated = chunk_at chunks (total / 64) ++ id ∷ [] in
    let rooted = set-rooted chunks (total / 64) updated in
    appended l xs id small (set chunks (total / 64) updated) total h unmarked fresh same
      (λ n. let never : true ≡ false = sym n ∙ rooted in absurd cc)
      (λ _.
        grown chunks (set chunks (total / 64) updated) xs id laid
          (λ c. rw (sym same) (get-set chunks (total / 64) c updated)))
grow_chunk-IsEdgeList false l xs id small chunks total h unmarked fresh same laid =
    let updated = chunk_at chunks (total / 64) ++ id ∷ [] in
    let rooted = fork_set-rooted chunks (total / 64) updated in
    appended l xs id small (fork_set chunks (total / 64) updated) total h unmarked fresh same
      (λ n. let never : true ≡ false = sym n ∙ rooted in absurd cc)
      (λ _.
        grown chunks (fork_set chunks (total / 64) updated) xs id laid
          (λ c. rw (sym same) (get-fork_set chunks (total / 64) c updated)))

split_small-more :
    (rounds start : ℕ) (small : List ℕ) (chunks : PagedMap (List ℕ))
    → ltb start (length small) ≡ true
    → split_small (suc rounds) start small chunks
      ≡ split_small rounds (start + 64) small (set chunks (start / 64) (take 64 (drop start small)))
split_small-more rounds start small chunks h = rw (h)

split_small-done :
    (rounds start : ℕ) (small : List ℕ) (chunks : PagedMap (List ℕ))
    → ltb start (length small) ≡ false
    → split_small rounds start small chunks ≡ chunks
split_small-done zero start small chunks h = refl
split_small-done (suc rounds) start small chunks h = rw (h)

first_set :
    (small : List ℕ)
    → length small ≡ 63
    → split_small (length small) 0 small new_paged_map ≡ set new_paged_map 0 (take 64 small)
first_set small h =
    let one : ltb 0 (length small) ≡ true = lt→ltb 0 (length small) (omega arith) in
    let two : ltb 64 (length small) ≡ false = le→ltb 64 (length small) (omega arith) in
    ap (λ n. split_small n 0 small new_paged_map) h
    ∙ split_small-more 62 0 small new_paged_map one
    ∙ split_small-done 62 64 small (set new_paged_map 0 (take 64 small)) two

-- 63 inline ids make one chunk.
first_chunk :
    (small : List ℕ)
    → length small ≡ 63
    → Laid (split_small (length small) 0 small new_paged_map) small
first_chunk small h c = rw (first_set small h) (
    ap slice_or_nil (get-set new_paged_map 0 c (take 64 small)) ∙ elim (Bool-cases (c == 0)) [
      | inl z ↦ let first : c ≡ 0 = (==_iff c 0).0 z in rw (first)
      | inr z ↦
          let later : c ≢ 0 = ==→ne c 0 z in
          rw (z, get-new (List ℕ) c, piece_short c small (omega (arith, later)))
    ])

pub append_to-IsEdgeList :
    (l : EdgeList) (xs : List ℕ) (id : ℕ)
    → IsEdgeList l xs
    → has l.removed id ≡ false
    → mem id xs ≡ false
    → IsEdgeList (append_to l id) (xs ++ id ∷ [])
unfolding append_to
append_to-IsEdgeList l xs id h unmarked fresh = elim (Bool-cases (no_chunks l.chunks)) [
  | inr n ↦ rw (n) (
      grow_chunk-IsEdgeList false l xs id l.small l.chunks l.total h unmarked fresh h.total
        (h.chunked n))
  | inl n ↦
      let (same, most) = h.inline n in
      elim (Bool-cases (ltb (length l.small) 63)) [
        | inl fits ↦
            let less : length l.small < 63 = ltb→lt _ _ fits in
            rw (n, fits)
              (appended l xs id (l.small ++ id ∷ []) l.chunks l.total h unmarked fresh h.total
                (λ _. (rw (same), omega (arith, less, ap length same), n))
                (λ c. let never : true ≡ false = sym n ∙ c in absurd cc))
        | inr full ↦
            let more : 63 ≤ length l.small = ltb→le _ _ full in
            let exact : length l.small ≡ 63 = omega (arith, more, most, ap length same) in
            rw (n, full)
              (grow_chunk-IsEdgeList true l xs id []
                (split_small (length l.small) 0 l.small new_paged_map) (length l.small) h unmarked
                fresh (ap length same) (λ c. first_chunk l.small exact c ∙ ap (piece c) same))
      ]
]
