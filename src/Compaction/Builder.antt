-- ===== src/Compaction/Builder.antt =====
-- The dense list under construction: the ids that were appended, in full chunks and a tail.
use latticedb_go.Base.{
  ℕ, ◌+◌, ◌-◌, ◌*◌, ◌≤◌, ◌<◌, ◌≡◌, ◌≢◌, refl, sym, ap, subst, ◌∙◌, true, false, not, List, [], ◌∷◌,
  ◌++◌, some, append_assoc, append-nil, arith, length, length-append, length-drop, drop, ◌==◌,
  Bool-cases, ltb, ltb→lt, ltb→le, inl, inr, ==_iff, ==_self,
}
use latticedb_go.PagedMap.{has, set, new_paged_map}
use latticedb_go.PagedMap.Lookup.{get-set, has-new, set-rooted, ne→==, ==→ne}
use latticedb_go.Adjacency.{slice_or_nil, chunk_at, keep}
use latticedb_go.Adjacency.Pieces.{
  piece, piece_short, piece-append_other, drop-append, drop_short, take_long, keep_same, keep_every,
  Distinct,
}
use latticedb_go.Adjacency.Remove.{Represents}
use latticedb_go.Compaction.{AdjacencyCompactor, append_live, append_ids, finish_builder}

pub record Builds (c : AdjacencyCompactor) (zs : List ℕ) : Type 0 where
  pub count : c.builder_count ≡ length zs
  pub stored : (i : ℕ) → i < c.builder_chunk → chunk_at c.builder_chunks i ≡ piece i zs
  pub missing : (i : ℕ) → c.builder_chunk ≤ i → chunk_at c.builder_chunks i ≡ []
  pub tail : c.builder_tail ≡ drop (c.builder_chunk * 64) zs
  pub reached : c.builder_chunk * 64 ≤ length zs
  pub short : length zs ≤ c.builder_chunk * 64 + 64
  pub filled : 1 ≤ length zs → c.builder_chunk * 64 < length zs

-- One id behind a tail that is not full.
grown_tail :
    (c : AdjacencyCompactor) (zs : List ℕ) (id : ℕ)
    → c.builder_count ≡ length zs
    → ((i : ℕ) → i < c.builder_chunk → chunk_at c.builder_chunks i ≡ piece i zs)
    → ((i : ℕ) → c.builder_chunk ≤ i → chunk_at c.builder_chunks i ≡ [])
    → c.builder_tail ≡ drop (c.builder_chunk * 64) zs
    → c.builder_chunk * 64 ≤ length zs
    → length zs < c.builder_chunk * 64 + 64
    → Builds
        (record c { builder_tail = c.builder_tail ++ id ∷ []; builder_count = c.builder_count + 1 })
        (zs ++ id ∷ [])
grown_tail c zs id count stored missing tail reached short =
    let more = length-append zs (id ∷ []) in
    record {
      count = omega (arith, count, more);
      stored = λ i less.
          stored i less ∙ sym (piece-append_other i zs id (λ e. omega (arith, e, less, reached)));
      missing = missing;
      tail =
          let front : c.builder_chunk * 64 - length zs ≡ 0 = omega arith in
          ap (λ t. t ++ id ∷ []) tail
          ∙ sym (drop-append (c.builder_chunk * 64) zs (id ∷ []) ∙ rw (front));
      reached = omega (arith, more);
      short = omega (arith, more);
      filled = λ _. omega (arith, more, reached);
    }

flushed_other :
    (c : AdjacencyCompactor) (i : ℕ)
    → (i == c.builder_chunk) ≡ false
    → chunk_at (set c.builder_chunks c.builder_chunk c.builder_tail) i ≡ chunk_at c.builder_chunks i
flushed_other c i d =
    ap slice_or_nil (get-set c.builder_chunks c.builder_chunk i c.builder_tail) ∙ rw (d)

flushed_tail :
    (c : AdjacencyCompactor) (zs : List ℕ) (i : ℕ)
    → Builds c zs
    → i ≡ c.builder_chunk
    → chunk_at (set c.builder_chunks c.builder_chunk c.builder_tail) i ≡ piece i zs
flushed_tail c zs i h e =
    ap slice_or_nil (get-set c.builder_chunks c.builder_chunk i c.builder_tail)
    ∙ rw (e, ==_self c.builder_chunk)
        (h.tail
          ∙ sym (
              take_long 64 (drop (c.builder_chunk * 64) zs)
                (omega (arith, length-drop (c.builder_chunk * 64) zs, h.short))))

pub append_live-Builds :
    (c : AdjacencyCompactor) (zs : List ℕ) (id : ℕ)
    → Builds c zs
    → Builds (append_live c id) (zs ++ id ∷ [])
unfolding append_live
append_live-Builds c zs id h = elim (Bool-cases (length c.builder_tail == 64)) [
  | inr room ↦
      let other : length c.builder_tail ≢ 64 = ==→ne _ _ room in
      rw (room) (
        grown_tail c zs id h.count h.stored h.missing h.tail h.reached (
          omega (
            arith,
            other,
            h.short,
            h.reached,
            ap length h.tail,
            length-drop (c.builder_chunk * 64) zs,
          )))
  | inl full ↦
      let exact : length c.builder_tail ≡ 64 = (==_iff _ _).0 full in
      let all : length zs ≡ c.builder_chunk * 64 + 64 = omega (
        arith,
        exact,
        h.short,
        h.reached,
        ap length h.tail,
        length-drop (c.builder_chunk * 64) zs,
      ) in
      rw (full) (
        grown_tail
          (record c {
            builder_chunks = set c.builder_chunks c.builder_chunk c.builder_tail;
            builder_chunk = c.builder_chunk + 1;
            builder_tail = [];
          })
          zs id h.count
          (λ i less. elim (Bool-cases (i == c.builder_chunk)) [
            | inl s ↦ flushed_tail c zs i h ((==_iff _ _).0 s)
            | inr d ↦
                let apart : i ≢ c.builder_chunk = ==→ne _ _ d in
                flushed_other c i d ∙ h.stored i (omega (arith, less, apart))
          ])
          (λ i more.
            flushed_other c i (ne→== i c.builder_chunk (λ e. omega (arith, e, more)))
            ∙ h.missing i (omega (arith, more)))
          (sym (drop_short ((c.builder_chunk + 1) * 64) zs (omega (arith, all))))
          (omega (arith, all)) (omega (arith, all)))
]

pub list-append_live : (c : AdjacencyCompactor) (id : ℕ) → (append_live c id).list ≡ c.list
unfolding append_live
list-append_live c id = elim (Bool-cases (length c.builder_tail == 64)) [
  | inl full ↦ rw (full)
  | inr room ↦ rw (room)
]

pub append_ids-Builds :
    (c : AdjacencyCompactor) (zs ids : List ℕ)
    → Builds c zs
    → Builds (append_ids c ids) (zs ++ keep (λ id. not (has c.list.removed id)) ids)
append_ids-Builds c zs [] h = rw (append-nil zs) h
append_ids-Builds c zs (id ∷ ids) h = elim (Bool-cases (has c.list.removed id)) [
  | inl m ↦ rw (m) (append_ids-Builds c zs ids h)
  | inr m ↦ rw (m) (
      subst (λ t. Builds (append_ids (append_live c id) ids) t)
        (append_assoc zs (id ∷ []) (keep (λ x. not (has c.list.removed x)) ids))
        (subst
          (λ l.
            Builds (append_ids (append_live c id) ids)
              ((zs ++ id ∷ []) ++ keep (λ x. not (has l.removed x)) ids))
          (list-append_live c id)
          (append_ids-Builds (append_live c id) (zs ++ id ∷ []) ids
            (append_live-Builds c zs id h))))
]

-- The list of the chunks and the tail.
dense :
    (c : AdjacencyCompactor) (zs : List ℕ)
    → Builds c zs
    → Distinct zs
    → 1 ≤ length c.builder_tail
    → Represents
        (some (record {
          small = [];
          chunks = set c.builder_chunks c.builder_chunk c.builder_tail;
          removed = new_paged_map;
          count = c.builder_count;
          total = c.builder_count;
        }))
        zs
dense c zs h distinct more =
    let rooted = set-rooted c.builder_chunks c.builder_chunk c.builder_tail in
    let clean = has-new (Unit {0}) in
    let live : keep (λ x. not (has (new_paged_map {V = Unit {0}}) x)) zs ≡ zs =
      keep_same (λ x. not (has (new_paged_map {V = Unit {0}}) x)) (λ x. true) zs
        (λ x _. rw (clean x))
      ∙ keep_every zs in
    (
      zs,
      record {
        total = h.count;
        inline = λ i. let never : true ≡ false = sym i ∙ rooted in absurd cc;
        unmarked = λ _. clean;
        chunked = λ _ i. elim (Bool-cases (i == c.builder_chunk)) [
          | inl s ↦ flushed_tail c zs i h ((==_iff _ _).0 s)
          | inr d ↦ flushed_other c i d ∙ elim (Bool-cases (ltb i c.builder_chunk)) [
            | inl before ↦ h.stored i (ltb→lt _ _ before)
            | inr after ↦
                let apart : i ≢ c.builder_chunk = ==→ne _ _ d in
                h.missing i (ltb→le _ _ after)
                ∙ sym (piece_short i zs (omega (arith, apart, ltb→le _ _ after, h.short)))
          ]
        ];
        marks = λ x m. let never : true ≡ false = sym m ∙ clean x in absurd cc;
        distinct = distinct;
        count = h.count ∙ ap length (sym live);
      },
      live,
    )

-- The rebuilt list yields what was appended.
pub finish_builder-Represents :
    (c : AdjacencyCompactor) (zs : List ℕ)
    → Builds c zs
    → Distinct zs
    → Represents (finish_builder c) zs
unfolding finish_builder
finish_builder-Represents c zs h distinct = elim (Bool-cases (c.builder_count == 0)) [
  | inl nothing ↦
      let zero_count : c.builder_count ≡ 0 = (==_iff _ _).0 nothing in
      rw (nothing) (no_ids zs (omega (arith, h.count, zero_count)))
  | inr some_ids ↦
      let counted : c.builder_count ≢ 0 = ==→ne _ _ some_ids in
      let more : 1 ≤ length c.builder_tail = omega (
        arith,
        counted,
        h.count,
        h.reached,
        h.filled (omega (arith, counted, h.count)),
        ap length h.tail,
        length-drop (c.builder_chunk * 64) zs,
      ) in
      let kept : (length c.builder_tail == 0) ≡ false = ground (arith, more) in
      rw (some_ids, kept) (dense c zs h distinct more)
]
  where
    no_ids : (zs : List ℕ) → length zs ≡ 0 → zs ≡ []
    no_ids [] h = refl
    no_ids (z ∷ zs) h = absurd (omega (arith, h))
