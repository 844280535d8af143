-- ===== src/Compaction/Steps.antt =====
-- Steps of a compaction: when it is done, and what it leaves.
use latticedb_go.Base.{
  ℕ, ◌+◌, ◌*◌, ◌≤◌, ◌<◌, ◌≡◌, ◌≢◌, refl, sym, ap, subst, ◌∙◌, Bool, true, false, not, ◌||◌, leb,
  leb→lt, List, [], ◌∷◌, Option, none, some, arith, take, All, ◌==◌, Bool-cases, inl, inr, ==_iff,
  ==_self,
}
use latticedb_go.PagedMap.{PagedMap, get, has, fork_set, new_paged_map}
use latticedb_go.PagedMap.Lookup.{get-fork_set, get-new, has-new, ==→ne}
use latticedb_go.PagedMap.Removal.{get-delete}
use latticedb_go.PagedMap.Delete.{delete}
use latticedb_go.Adjacency.{EdgeList, is_removed, no_chunks, slice_or_nil, keep}
use latticedb_go.Adjacency.Pieces.{take_long, Distinct-keep}
use latticedb_go.Adjacency.Layout.{IsEdgeList, live_ids}
use latticedb_go.Adjacency.Remove.{Represents}
use latticedb_go.Compaction.{
  AdjacencyCompactor, start_on, select_list, new_adjacency_compactor, chunk_count, copy_chunks,
  finish_builder, replace_adjacency, finish, step, step_until_done,
}
use latticedb_go.Compaction.Builder.{Builds, finish_builder-Represents}
use latticedb_go.Compaction.Copying.{chunk_total, Copying, Copying-copy_chunks}

-- The node has a list of the same ids without removed ones, or none; the other nodes have what they had.
pub record IsRebuilt (lists : PagedMap EdgeList) (node : ℕ) (ys : List ℕ)
    (table : PagedMap EdgeList) : Type 0 where
  pub rebuilt : Represents (get table node) ys
  pub clean : (id : ℕ) → is_removed id (get table node) ≡ false
  pub others : (j : ℕ) → (j == node) ≡ false → get table j ≡ get lists j

finish_builder-clean : (c : AdjacencyCompactor) (id : ℕ) → is_removed id (finish_builder c) ≡ false
unfolding finish_builder
finish_builder-clean c id = elim (Bool-cases (c.builder_count == 0)) [
  | inl z ↦ rw (z)
  | inr z ↦ rw (z) (has-new (Unit {0}) id)
]

replace_adjacency-IsRebuilt :
    (lists : PagedMap EdgeList) (node : ℕ) (ys : List ℕ) (list : Option EdgeList)
    → Represents list ys
    → ((id : ℕ) → is_removed id list ≡ false)
    → IsRebuilt lists node ys (replace_adjacency lists node list)
replace_adjacency-IsRebuilt lists node ys none h clean =
    let gone : get (delete lists node) node ≡ none =
      get-delete lists node node ∙ rw (==_self node) in
    record {
      rebuilt = rw (gone) h;
      clean = λ id. rw (gone);
      others = λ j d. get-delete lists node j ∙ rw (d);
    }
replace_adjacency-IsRebuilt lists node ys (some l) h clean =
    let there : get (fork_set lists node l) node ≡ some l =
      get-fork_set lists node node l ∙ rw (==_self node) in
    record {
      rebuilt = rw (there) h;
      clean = λ id. rw (there) (clean id);
      others = λ j d. get-fork_set lists node j l ∙ rw (d);
    }

-- All chunks are copied.
finished :
    (lists : PagedMap EdgeList) (node : ℕ) (l : EdgeList) (xs : List ℕ) (c : AdjacencyCompactor)
    → Copying lists node l xs c
    → c.chunk ≡ chunk_total l
    → (table : PagedMap EdgeList) × ((finish c).result ≡ some table)
      × IsRebuilt lists node (live_ids l xs) table
unfolding finish
finished lists node l xs c h end =
    let whole : take (c.chunk * 64) xs ≡ xs =
      take_long (c.chunk * 64) xs (omega (arith, end, h.source.total)) in
    let built : Builds c (live_ids l xs) =
      subst (λ t. Builds c (keep (λ x. not (has l.removed x)) t)) whole h.builds in
    let list = finish_builder c in
    let ids =
      finish_builder-Represents c (live_ids l xs) built
        (Distinct-keep (λ x. not (has l.removed x)) xs h.source.distinct) in
    (
      replace_adjacency lists node list,
      rw (h.result_none, h.lists_same, h.node_same),
      replace_adjacency-IsRebuilt lists node (live_ids l xs) list ids (finish_builder-clean c),
    )

-- A step reports that it is done, and the copy's table is the source's with the node's list rebuilt.
abbrev pub Completes : PagedMap EdgeList → ℕ → List ℕ → List ℕ → AdjacencyCompactor → Type 0
Completes lists node ys budgets c =
    ((step_until_done budgets c).0 ≡ true)
    × (table : PagedMap EdgeList) × ((step_until_done budgets c).1.result ≡ some table)
    × IsRebuilt lists node ys table

abbrev pub budget_of : List ℕ → ℕ
budget_of [] = 0
budget_of (b ∷ bs) = b + budget_of bs

steps_done :
    (lists : PagedMap EdgeList) (node : ℕ) (l : EdgeList) (xs budgets : List ℕ)
    (c : AdjacencyCompactor)
    → Copying lists node l xs c
    → c.chunk < chunk_total l
    → All (λ b. 1 ≤ b) budgets
    → chunk_total l ≤ c.chunk + budget_of budgets
    → Completes lists node (live_ids l xs) budgets c
unfolding step
steps_done lists node l xs [] c h less pos enough = absurd (omega arith)
steps_done lists node l xs (b ∷ bs) c h less (pb, pos) enough =
    let (copying, reached) = Copying-copy_chunks lists node l xs b c h in
    let counted : chunk_count c ≡ chunk_total l = ap chunk_total h.list_same in
    let some_budget : (b == 0) ≡ false = ground (arith, pb) in
    elim (Bool-cases ((copy_chunks b c).chunk == chunk_count c)) [
      | inl over ↦
          let at_end : (copy_chunks b c).chunk ≡ chunk_total l = (==_iff _ _).0 over ∙ counted in
          let (table, result, rebuilt) =
            finished lists node l xs (copy_chunks b c) copying at_end in
          rw (some_budget, over) (refl, table, result, rebuilt)
      | inr early ↦
          let before : (copy_chunks b c).chunk ≢ chunk_total l =
            λ e. ==→ne _ _ early (e ∙ sym counted) in
          let used : (copy_chunks b c).chunk ≡ c.chunk + b = elim reached [
            | inl e ↦ absurd (before e)
            | inr e ↦ e
          ] in
          rw (some_budget, early)
            (steps_done lists node l xs bs (copy_chunks b c) copying
              (omega (arith, before, copying.within)) pos (omega (arith, used, enough)))
    ]

abbrev initial : PagedMap EdgeList → ℕ → EdgeList → AdjacencyCompactor
initial lists node l = record {
  lists = lists;
  result = none;
  node_id = node;
  chunk = 0;
  list = l;
  builder_chunks = new_paged_map;
  builder_tail = [];
  builder_chunk = 0;
  builder_count = 0;
}

initial-Copying :
    (lists : PagedMap EdgeList) (node : ℕ) (l : EdgeList) (xs : List ℕ)
    → IsEdgeList l xs
    → no_chunks l.chunks ≡ false
    → Copying lists node l xs (initial lists node l)
initial-Copying lists node l xs h n = record {
  lists_same = refl;
  result_none = refl;
  node_same = refl;
  list_same = refl;
  source = h;
  in_chunks = n;
  within = omega arith;
  builds = record {
    count = refl;
    stored = λ i less. absurd (omega (arith, less));
    missing = λ i _. ap slice_or_nil (get-new (List ℕ) i);
    tail = refl;
    reached = omega arith;
    short = omega arith;
    filled = λ more. absurd (omega (arith, more));
  };
}

started :
    (lists : PagedMap EdgeList) (node : ℕ) (ys budgets : List ℕ) (found : Option EdgeList)
    (c : AdjacencyCompactor)
    → Represents found ys
    → start_on lists node (select_list found) ≡ some c
    → All (λ b. 1 ≤ b) budgets
    → chunk_count c ≤ budget_of budgets
    → Completes lists node ys budgets c
started lists node ys budgets none c h start pos enough = absurd cc
started lists node ys budgets (some l) c (xs, h, e) start pos enough =
    let cond = no_chunks l.chunks || leb l.removed.length 64 || leb l.total 256 in
    elim (Bool-cases cond) [
      | inl refused ↦ let never : none ≡ some c = rw (refused) at start in absurd cc
      | inr taken ↦
          let begun : some (initial lists node l) ≡ some c = rw (taken) at start in
          let same : initial lists node l ≡ c =
            ap (λ o. elim o [ none ↦ initial lists node l | some x ↦ x ]) begun in
          let (in_chunks, large) =
            both_false (no_chunks l.chunks) (leb l.removed.length 64) (leb l.total 256) taken in
          let long : 256 < l.total = leb→lt _ _ large in
          subst (λ c. Completes lists node ys budgets c) same
            (subst (λ ys. Completes lists node ys budgets (initial lists node l)) e
              (steps_done lists node l xs budgets (initial lists node l)
                (initial-Copying lists node l xs h in_chunks) (omega (arith, long)) pos
                (omega (arith, enough, ap chunk_count same))))
    ]
  where
    both_false : (a b d : Bool) → (a || b || d) ≡ false → (a ≡ false) × (d ≡ false)
    both_false false false false h = (refl, refl)
    both_false true b d h = absurd cc
    both_false false true d h = absurd cc
    both_false false false true h = absurd cc

-- A compactor that was started on a node's list of ids in chunks is done after any steps of positive
-- budgets that together reach the number of its chunks. The graph that it then holds has for the node a
-- list of the same ids in the same order with no removed ones, or no list when none is left, and
-- for every other node what it had.
pub compaction-done :
    (lists : PagedMap EdgeList) (node : ℕ) (ys budgets : List ℕ) (c : AdjacencyCompactor)
    → Represents (get lists node) ys
    → new_adjacency_compactor lists node ≡ some c
    → All (λ b. 1 ≤ b) budgets
    → chunk_count c ≤ budget_of budgets
    → Completes lists node ys budgets c
unfolding new_adjacency_compactor
compaction-done lists node ys budgets c h start pos enough =
    started lists node ys budgets (get lists node) c h start pos enough
