-- ===== src/Compaction/Copying.antt =====
-- Copying a compactor's chunks: which fields change, and what is built.
use latticedb_go.Base.{
  ℕ, zero, suc, ◌+◌, ◌*◌, ◌/◌, ◌≤◌, ◌<◌, ◌≡◌, ◌⊎◌, refl, sym, ap, subst, ◌∙◌, Bool, false, not,
  List, [], ◌∷◌, ◌++◌, none, arith, length, drop, take, ◌==◌, Bool-cases, ltb, ltb→lt, ltb→le, inl,
  inr,
}
use latticedb_go.PagedMap.{PagedMap, has}
use latticedb_go.Adjacency.{EdgeList, no_chunks, chunk_at, keep}
use latticedb_go.Adjacency.Pieces.{piece, keep-append}
use latticedb_go.Adjacency.Layout.{IsEdgeList}
use latticedb_go.Compaction.{AdjacencyCompactor, append_live, append_ids, chunk_count, copy_chunks}
use latticedb_go.Compaction.Builder.{Builds, append_ids-Builds}

-- The fields that copying leaves alone.
pub record Same (c c' : AdjacencyCompactor) : Type 0 where
  pub lists : c'.lists ≡ c.lists
  pub result : c'.result ≡ c.result
  pub node_id : c'.node_id ≡ c.node_id
  pub list : c'.list ≡ c.list
  pub chunk : c'.chunk ≡ c.chunk

Same-append_live : (c : AdjacencyCompactor) (id : ℕ) → Same c (append_live c id)
unfolding append_live
Same-append_live c id = elim (Bool-cases (length c.builder_tail == 64)) [
  | inl full ↦ record {
    lists = rw (full);
    result = rw (full);
    node_id = rw (full);
    list = rw (full);
    chunk = rw (full);
  }
  | inr room ↦ record {
    lists = rw (room);
    result = rw (room);
    node_id = rw (room);
    list = rw (room);
    chunk = rw (room);
  }
]

Same-append_ids : (c : AdjacencyCompactor) (ids : List ℕ) → Same c (append_ids c ids)
Same-append_ids c [] = record {
  lists = refl;
  result = refl;
  node_id = refl;
  list = refl;
  chunk = refl;
}
Same-append_ids c (id ∷ ids) = elim (Bool-cases (has c.list.removed id)) [
  | inl m ↦ rw (m) (Same-append_ids c ids)
  | inr m ↦
      let first = Same-append_live c id in
      let rest = Same-append_ids (append_live c id) ids in
      rw (m) (record {
        lists = rest.lists ∙ first.lists;
        result = rest.result ∙ first.result;
        node_id = rest.node_id ∙ first.node_id;
        list = rest.list ∙ first.list;
        chunk = rest.chunk ∙ first.chunk;
      })
]

abbrev pub chunk_total : EdgeList → ℕ
chunk_total l = (l.total + 63) / 64

take-add : (n : ℕ) (xs : List ℕ) → take (n + 64) xs ≡ take n xs ++ take 64 (drop n xs)
take-add zero xs = rw (let e : 0 + 64 ≡ 64 = omega arith in e)
take-add (suc n) [] = rw (let e : suc n + 64 ≡ suc (n + 64) = omega arith in e)
take-add (suc n) (x ∷ xs) =
    let e : suc n + 64 ≡ suc (n + 64) = omega arith in rw (e) (ap (λ t. x ∷ t) (take-add n xs))

Builds-chunk :
    (c : AdjacencyCompactor) (n : ℕ) {zs : List ℕ}
    → Builds c zs
    → Builds (record c { chunk = n }) zs
Builds-chunk c n h = record {
  count = h.count;
  stored = h.stored;
  missing = h.missing;
  tail = h.tail;
  reached = h.reached;
  short = h.short;
  filled = h.filled;
}

-- The live ids of the chunks before `c.chunk` are built; the source is a list in chunks.
pub record Copying (lists : PagedMap EdgeList) (node : ℕ) (l : EdgeList) (xs : List ℕ)
    (c : AdjacencyCompactor) : Type 0 where
  pub lists_same : c.lists ≡ lists
  pub result_none : c.result ≡ none
  pub node_same : c.node_id ≡ node
  pub list_same : c.list ≡ l
  pub source : IsEdgeList l xs
  pub in_chunks : no_chunks l.chunks ≡ false
  pub within : c.chunk ≤ chunk_total l
  pub builds : Builds c (keep (λ x. not (has l.removed x)) (take (c.chunk * 64) xs))

Copying-more :
    (lists : PagedMap EdgeList) (node : ℕ) (l : EdgeList) (xs : List ℕ) (c : AdjacencyCompactor)
    → Copying lists node l xs c
    → c.chunk < chunk_total l
    → Copying lists node l xs
        (record (append_ids c (chunk_at c.list.chunks c.chunk)) { chunk = c.chunk + 1 })
Copying-more lists node l xs c h less =
    let ids = chunk_at c.list.chunks c.chunk in
    let same = Same-append_ids c ids in
    let cut : ids ≡ piece c.chunk xs =
      ap (λ l. chunk_at l.chunks c.chunk) h.list_same ∙ h.source.chunked h.in_chunks c.chunk in
    let live : ℕ → Bool = λ x. not (has l.removed x) in
    let added : keep live (take (c.chunk * 64) xs) ++ keep (λ x. not (has c.list.removed x)) ids
        ≡ keep live (take ((c.chunk + 1) * 64) xs) =
      ap (λ l. keep live (take (c.chunk * 64) xs) ++ keep (λ x. not (has l.removed x)) ids)
        h.list_same
      ∙ ap (λ t. keep live (take (c.chunk * 64) xs) ++ keep live t) cut
      ∙ sym (keep-append live (take (c.chunk * 64) xs) (piece c.chunk xs))
      ∙ ap (keep live) (sym (take-add (c.chunk * 64) xs) ∙ ap (λ n. take n xs) (omega arith)) in
    record {
      lists_same = same.lists ∙ h.lists_same;
      result_none = same.result ∙ h.result_none;
      node_same = same.node_id ∙ h.node_same;
      list_same = same.list ∙ h.list_same;
      source = h.source;
      in_chunks = h.in_chunks;
      within = omega (arith, less);
      builds = Builds-chunk (append_ids c ids) (c.chunk + 1) (
          subst (Builds (append_ids c ids)) added
            (append_ids-Builds c (keep live (take (c.chunk * 64) xs)) ids h.builds));
    }

-- A budget ends the copying, or is used up.
pub Copying-copy_chunks :
    (lists : PagedMap EdgeList) (node : ℕ) (l : EdgeList) (xs : List ℕ) (budget : ℕ)
    (c : AdjacencyCompactor)
    → Copying lists node l xs c
    → Copying lists node l xs (copy_chunks budget c)
      × (((copy_chunks budget c).chunk ≡ chunk_total l)
          ⊎ ((copy_chunks budget c).chunk ≡ c.chunk + budget))
Copying-copy_chunks lists node l xs zero c h = (h, inr (omega arith))
Copying-copy_chunks lists node l xs (suc budget) c h =
    let counted : chunk_count c ≡ chunk_total l = ap chunk_total h.list_same in
    elim (Bool-cases (ltb c.chunk (chunk_count c))) [
      | inl more ↦
          let less : c.chunk < chunk_total l = omega (arith, ltb→lt _ _ more, counted) in
          let next = Copying-more lists node l xs c h less in
          let (copying, reached) =
            Copying-copy_chunks lists node l xs budget
              (record (append_ids c (chunk_at c.list.chunks c.chunk)) { chunk = c.chunk + 1 })
              next in
          rw (more)
            (copying, elim reached [ inl done ↦ inl done | inr used ↦ inr (used ∙ omega arith) ])
      | inr over ↦
          let at_end : c.chunk ≡ chunk_total l =
            omega (arith, ltb→le _ _ over, counted, h.within) in
          rw (over) (h, inl at_end)
    ]
