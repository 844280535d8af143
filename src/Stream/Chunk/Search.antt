-- ===== src/Stream/Chunk/Search.antt =====
-- The skip pointers lead to the same chunk as the walk along `previous`.
use latticedb_go.Base.{
  ℕ, zero, suc, ◌+◌, ◌≤◌, ◌<◌, ◌≡◌, refl, sym, ap, ◌∙◌, ◌||◌, ◌==◌, Bool, Bool-cases, inl, inr,
  none, some, List, [], ◌∷◌, arith, length, get_elem?, drop, leb, ltb, leb→lt, if◌then◌else◌, true,
  false,
}
use latticedb_go.Stream.Chunk.{
  StreamChunk, Chain, last_sequence, chain_last, descend, chain_levels, chain_first, chunk,
}
use latticedb_go.Stream.Chunk.Links.{
  doubled, doubled-add, add-le-doubled, HasSkips, Linked, Linked-drop,
}

abbrev pub reaches : ℕ → Chain → Bool
reaches sequence [] = false
reaches sequence (c ∷ previous) = leb sequence (last_sequence c.records)

-- The oldest chunk that the walk along `previous` reaches while chunks end at `sequence` or later.
unfoldable pub walk_back : ℕ → Chain → Chain
walk_back sequence [] = []
walk_back sequence (c ∷ previous) =
    let further = walk_back sequence previous in
    if reaches sequence previous then further else c ∷ previous

-- Older chunks end earlier.
abbrev pub Descends : Chain → Type 0
Descends [] = Unit {0}
Descends (c ∷ previous) = (chain_last previous ≤ last_sequence c.records) × Descends previous

Descends-drop : (k : ℕ) (chain : Chain) → Descends chain → Descends (drop k chain)
Descends-drop zero chain h = h
Descends-drop (suc k) [] h = tt
Descends-drop (suc k) (c ∷ previous) (h, hs) = Descends-drop k previous hs

chain_last-drop :
    (k : ℕ) (chain : Chain) → Descends chain → chain_last (drop k chain) ≤ chain_last chain
chain_last-drop zero chain h = omega arith
chain_last-drop (suc k) [] h = omega arith
chain_last-drop (suc k) (c ∷ previous) (h, hs) =
    let m = chain_last-drop k previous hs in omega arith

-- How many steps that walk takes into `older`.
abbrev steps : ℕ → Chain → ℕ
steps sequence [] = 0
steps sequence (c ∷ older) =
    let more = steps sequence older in
    if leb sequence (last_sequence c.records) then suc more else 0

abbrev older : Chain → Chain
older [] = []
older (c ∷ previous) = previous

steps-le : (sequence : ℕ) (chain : Chain) → steps sequence chain ≤ length chain
steps-le sequence [] = omega arith
steps-le sequence (c ∷ previous) = let m = steps-le sequence previous in ground arith

step-count :
    (sequence last x j s : ℕ)
    → x ≤ last
    → leb sequence x ≡ ltb j s
    → leb sequence x ≡ ltb (suc j) (if leb sequence last then suc s else 0)
step-count sequence last x j s h e = ground arith

leb-steps :
    (sequence j : ℕ) (chain : Chain)
    → 1 ≤ sequence
    → Descends chain
    → leb sequence (chain_last (drop j chain)) ≡ ltb j (steps sequence chain)
leb-steps sequence zero [] positive h = ground arith
leb-steps sequence (suc j) [] positive h = ground arith
leb-steps sequence zero (c ∷ previous) positive h = ground arith
leb-steps sequence (suc j) (c ∷ previous) positive (h, hs) =
    let d = chain_last-drop j previous hs in
    step-count sequence (last_sequence c.records) (chain_last (drop j previous)) j
      (steps sequence previous) (omega arith) (leb-steps sequence j previous positive hs)

steps-drop :
    (sequence q : ℕ) (chain : Chain)
    → q < steps sequence chain
    → steps sequence chain ≡ suc q + steps sequence (older (drop q chain))
steps-drop sequence q [] h = absurd (omega arith)
steps-drop sequence zero (c ∷ previous) h = ground arith
steps-drop sequence (suc q) (c ∷ previous) h =
    let m = steps-drop sequence q previous in ground arith

drop-drop : (a b n : ℕ) (chain : Chain) → n ≡ b + a → drop a (drop b chain) ≡ drop n chain
drop-drop a zero n chain e = ap (λ (k : ℕ). drop k chain) (let same : a ≡ n = omega arith in same)
drop-drop a (suc b) zero chain e = absurd (omega arith)
drop-drop zero (suc b) (suc n) [] e = refl
drop-drop (suc a) (suc b) (suc n) [] e = refl
drop-drop a (suc b) (suc n) (c ∷ previous) e = drop-drop a b n previous (omega arith)

if-drop :
    (b : Bool) (n : ℕ) (c : StreamChunk) (previous walked : Chain)
    → walked ≡ drop n previous
    → (if b then walked else c ∷ previous) ≡ drop (if b then suc n else 0) (c ∷ previous)
if-drop true n c previous walked e = e
if-drop false n c previous walked e = refl

walk_back-eq :
    (sequence : ℕ) (c : StreamChunk) (previous : Chain)
    → walk_back sequence (c ∷ previous) ≡ drop (steps sequence previous) (c ∷ previous)
unfolding walk_back
walk_back-eq sequence c [] = refl
walk_back-eq sequence c (d ∷ rest) =
    if-drop (leb sequence (last_sequence d.records)) (steps sequence rest) c (d ∷ rest)
      (walk_back sequence (d ∷ rest)) (walk_back-eq sequence d rest)

drop-less : (n : ℕ) (chain : Chain) → n < 1 → chain ≡ drop n chain
drop-less zero chain h = refl
drop-less (suc n) chain h = absurd (omega arith)

descend-none :
    (l sequence : ℕ) (c : StreamChunk) (previous : Chain)
    → get_elem? c.skips l ≡ none
    → descend (suc l) sequence (c ∷ previous) ≡ descend l sequence (c ∷ previous)
unfolding descend
descend-none l sequence c previous e = rw (descend, e)

descend-some :
    (l sequence : ℕ) (c : StreamChunk) (previous : Chain) (p : ℕ)
    → get_elem? c.skips l ≡ some p
    → descend (suc l) sequence (c ∷ previous)
      ≡ descend l sequence (
          if leb sequence (chain_last (drop p (c ∷ previous)))
          then drop p (c ∷ previous)
          else c ∷ previous)
unfolding descend
descend-some l sequence c previous p e = rw (descend, e)

-- The levels below `l` find the chunk when it is less than 2^l steps away.
abbrev Finds : ℕ → ℕ → Type 0
Finds l sequence =
    (chain : Chain)
    → Linked chain
    → Descends chain
    → steps sequence (older chain) < doubled l 1
    → descend l sequence chain ≡ drop (steps sequence (older chain)) chain

take_skip :
    (l sequence p : ℕ) (c : StreamChunk) (previous : Chain)
    → Finds l sequence
    → 1 ≤ sequence
    → Linked (c ∷ previous)
    → Descends (c ∷ previous)
    → p ≡ doubled l 1
    → 1 ≤ p
    → steps sequence previous < p + p
    → descend l sequence (
        if leb sequence (chain_last (drop p (c ∷ previous)))
        then drop p (c ∷ previous)
        else c ∷ previous)
      ≡ drop (steps sequence previous) (c ∷ previous)
take_skip l sequence zero c previous finds positive linked sorted e some_steps h =
    absurd (omega arith)
take_skip l sequence (suc q) c previous finds positive linked sorted e some_steps h =
    let far = leb-steps sequence q previous positive sorted.1 in
    elim (Bool-cases (leb sequence (chain_last (drop q previous)))) [
      | inl near ↦
          let inside : q < steps sequence previous = ground arith in
          let split = steps-drop sequence q previous inside in
          let found =
            finds (drop q previous) (Linked-drop q previous linked.1)
              (Descends-drop q previous sorted.1) (omega arith) in
          rw near (
            found
            ∙ drop-drop (steps sequence (older (drop q previous))) (suc q) (steps sequence previous)
                (c ∷ previous) split)
      | inr past ↦
          let outside : steps sequence previous ≤ q = ground arith in
          rw past (finds (c ∷ previous) linked sorted (omega arith))
    ]

descend-eq : (l sequence : ℕ) → 1 ≤ sequence → Finds l sequence
unfolding descend
descend-eq zero sequence positive [] linked sorted h = refl
descend-eq zero sequence positive (c ∷ previous) linked sorted h =
    drop-less (steps sequence previous) (c ∷ previous) h
descend-eq (suc l) sequence positive [] linked sorted h = refl
descend-eq (suc l) sequence positive (c ∷ previous) linked sorted h =
    let all = descend-eq l sequence positive in
    let few = steps-le sequence previous in
    let twice = doubled-add l 1 in
    let grown = add-le-doubled l 1 (omega arith) in
    elim (Bool-cases (leb (doubled l 1) (length previous))) [
      | inl fits ↦
          descend-some l sequence c previous (doubled l 1)
            (linked.0 l ∙ ap (λ (b : Bool). if b then some (doubled l 1) else none) fits)
          ∙ take_skip l sequence (doubled l 1) c previous all positive linked sorted refl
              (omega arith) (omega arith)
      | inr past ↦
          descend-none l sequence c previous
            (linked.0 l ∙ ap (λ (b : Bool). if b then some (doubled l 1) else none) past)
          ∙ all (c ∷ previous) linked sorted
              (let m = leb→lt (doubled l 1) (length previous) past in omega arith)
    ]

get_elem?-length : (xs : List ℕ) → get_elem? xs (length xs) ≡ none
get_elem?-length [] = refl
get_elem?-length (x ∷ xs) = get_elem?-length xs

some-none : (n : ℕ) → ¬ (none ≡ some n)
some-none n e = cc

-- The skips stop at the first power of two that leads past the oldest chunk.
levels_suffice :
    (skips : List ℕ) (behind : ℕ) → HasSkips behind skips → behind < doubled (length skips) 1
levels_suffice skips behind h =
    let last = sym (get_elem?-length skips) ∙ h (length skips) in
    elim (Bool-cases (leb (doubled (length skips) 1) behind)) [
      | inl fits ↦ absurd (
          some-none (doubled (length skips) 1)
            (last ∙ ap (λ (b : Bool). if b then some (doubled (length skips) 1) else none) fits))
      | inr past ↦ leb→lt (doubled (length skips) 1) behind past
    ]

-- The descent over all levels ends where the walk along `previous` does.
pub descend-walk_back :
    (sequence : ℕ) (chain : Chain)
    → 1 ≤ sequence
    → Linked chain
    → Descends chain
    → descend (chain_levels chain) sequence chain ≡ walk_back sequence chain
unfolding walk_back descend
descend-walk_back sequence [] positive linked sorted = refl
descend-walk_back sequence (c ∷ previous) positive linked sorted =
    let few = steps-le sequence previous in
    let enough = levels_suffice c.skips (length previous) linked.0 in
    descend-eq (length c.skips) sequence positive (c ∷ previous) linked sorted (omega arith)
    ∙ sym (walk_back-eq sequence c previous)

-- `streamLog.chunk` with the walk in place of the descent.
unfoldable pub find_chunk : Chain → ℕ → ℕ → ℕ → Chain
find_chunk tail count first sequence =
    if length tail == 0 || count == 0 || ltb sequence first || ltb (chain_last tail) sequence
    then []
    else if ltb sequence (chain_first (walk_back sequence tail))
    then []
    else walk_back sequence tail

-- On a chain whose skip pointers are complete and whose older chunks end earlier, `streamLog.chunk`
-- returns what the walk along `previous` finds, for every sequence number from 1 on.
pub chunk-find_chunk :
    (tail : Chain) (count first sequence : ℕ)
    → 1 ≤ sequence
    → Linked tail
    → Descends tail
    → chunk tail count first sequence ≡ find_chunk tail count first sequence
unfolding chunk find_chunk
chunk-find_chunk tail count first sequence positive linked sorted =
    ap
      (λ (found : Chain).
        if length tail == 0 || count == 0 || ltb sequence first || ltb (chain_last tail) sequence
        then []
        else if ltb sequence (chain_first found)
        then []
        else found)
      (descend-walk_back sequence tail positive linked sorted)
