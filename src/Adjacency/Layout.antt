-- ===== src/Adjacency/Layout.antt =====
-- How a list lays its ids out, and what it yields.
use latticedb_go.Base.{
  ℕ, zero, suc, ◌+◌, ◌*◌, ◌≤◌, ◌≡◌, sym, ap, ◌∙◌, Bool, true, false, not, ◌||◌, List, some, arith,
  length, drop, ◌==◌, ltb, Bool-cases, inl, inr,
}
use latticedb_go.PagedMap.{has}
use latticedb_go.Adjacency.{
  EdgeList, no_chunks, chunk_at, chunks_from, list_chunks, ids, keep, keep_all, mem, mem_chunks,
}
use latticedb_go.Adjacency.Pieces.{
  piece, drop-drop, drop_short, take-drop_append, keep-append, mem-append, keep_same, keep_every,
  Distinct,
}

-- `xs` are the ids appended since the list was started or compacted, removed ones included.
pub record IsEdgeList (l : EdgeList) (xs : List ℕ) : Type 0 where
  pub total : l.total ≡ length xs
  pub inline : no_chunks l.chunks ≡ true → (l.small ≡ xs) × (length xs ≤ 63)
  pub unmarked : no_chunks l.chunks ≡ true → (id : ℕ) → has l.removed id ≡ false
  pub chunked : no_chunks l.chunks ≡ false → (c : ℕ) → chunk_at l.chunks c ≡ piece c xs
  pub marks : (id : ℕ) → has l.removed id ≡ true → 1 ≤ l.removed.length
  pub distinct : Distinct xs
  pub count : l.count ≡ length (keep (λ id. not (has l.removed id)) xs)

abbrev pub live_ids : EdgeList → List ℕ → List ℕ
live_ids l xs = keep (λ id. not (has l.removed id)) xs

drop_round : (index : ℕ) (xs : List ℕ) → drop ((index + 1) * 64) xs ≡ drop 64 (drop (index * 64) xs)
drop_round index xs =
    let e : (index + 1) * 64 ≡ index * 64 + 64 = omega arith in
    rw (e) (sym (drop-drop 64 (index * 64) xs))

keep_all-chunks_from :
    (live : ℕ → Bool) (rounds index : ℕ) (l : EdgeList) (xs : List ℕ)
    → l.total ≡ length xs
    → ((c : ℕ) → chunk_at l.chunks c ≡ piece c xs)
    → length xs ≤ (index + rounds) * 64
    → keep_all live (chunks_from rounds l index) ≡ keep live (drop (index * 64) xs)
keep_all-chunks_from live zero index l xs t h e = rw (drop_short (index * 64) xs (omega arith))
keep_all-chunks_from live (suc rounds) index l xs t h e =
    elim (Bool-cases (ltb (index * 64) l.total)) [
      | inl more ↦
          rw
            (
              more,
              h index,
              keep_all-chunks_from live rounds (index + 1) l xs t h (omega arith),
              drop_round index xs,
            )
            (sym (keep-append live _ _)
              ∙ ap (keep live) (take-drop_append 64 (drop (index * 64) xs)))
      | inr done ↦ rw (done, drop_short (index * 64) xs (ground arith))
    ]

mem_chunks-chunks_from :
    (id rounds index : ℕ) (l : EdgeList) (xs : List ℕ)
    → l.total ≡ length xs
    → ((c : ℕ) → chunk_at l.chunks c ≡ piece c xs)
    → length xs ≤ (index + rounds) * 64
    → mem_chunks id (chunks_from rounds l index) ≡ mem id (drop (index * 64) xs)
mem_chunks-chunks_from id zero index l xs t h e = rw (drop_short (index * 64) xs (omega arith))
mem_chunks-chunks_from id (suc rounds) index l xs t h e =
    elim (Bool-cases (ltb (index * 64) l.total)) [
      | inl more ↦
          rw
            (
              more,
              h index,
              mem_chunks-chunks_from id rounds (index + 1) l xs t h (omega arith),
              drop_round index xs,
            )
            (sym (mem-append id _ _) ∙ ap (mem id) (take-drop_append 64 (drop (index * 64) xs)))
      | inr done ↦ rw (done, drop_short (index * 64) xs (ground arith))
    ]

pub mem_chunks-list_chunks :
    (id : ℕ) (l : EdgeList) (xs : List ℕ)
    → IsEdgeList l xs
    → no_chunks l.chunks ≡ false
    → mem_chunks id (list_chunks l) ≡ mem id xs
unfolding list_chunks
mem_chunks-list_chunks id l xs h n =
    rw (n) (mem_chunks-chunks_from id l.total 0 l xs h.total (h.chunked n) (omega (arith, h.total)))

-- The test of All, with the shortcut for a list without removals.
shown :
    (l : EdgeList) (xs : List ℕ)
    → IsEdgeList l xs
    → (id : ℕ) → (l.removed.length == 0 || not (has l.removed id)) ≡ not (has l.removed id)
shown l xs h id = elim (Bool-cases (has l.removed id)) [
  | inl marked ↦
      let some_removed : (l.removed.length == 0) ≡ false = ground (arith, h.marks id marked) in
      rw (marked, some_removed)
  | inr unmarked ↦ rw (unmarked) (ground arith)
]

pub ids_lem : (l : EdgeList) (xs : List ℕ) → IsEdgeList l xs → ids (some l) ≡ live_ids l xs
unfolding ids list_chunks
ids_lem l xs h = elim (Bool-cases (no_chunks l.chunks)) [
  | inl n ↦
      rw (n, (h.inline n).0)
        (sym (keep_every xs)
          ∙ keep_same (λ x. true) (λ id. not (has l.removed id)) xs (λ x _. rw (h.unmarked n x)))
  | inr n ↦ rw (n) (
      keep_all-chunks_from (λ id. l.removed.length == 0 || not (has l.removed id)) l.total 0 l xs
        h.total (h.chunked n) (omega (arith, h.total))
      ∙ keep_same _ (λ id. not (has l.removed id)) xs (λ x _. shown l xs h x))
]
