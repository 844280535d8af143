-- ===== src/Stream/Chunk/Links.antt =====
-- The skip pointers of a chain: pointer `k` leads 2^k chunks back, as far as the chain goes.
use latticedb_go.Base.{
  ℕ, zero, suc, ◌+◌, ◌-◌, ◌≤◌, ◌<◌, ◌≡◌, refl, sym, ap, ◌∙◌, Bool-cases, inl, inr, none, some, Bool,
  List, [], ◌∷◌, arith, length, get_elem?, drop, leb, if◌then◌else◌, true, false,
}
use latticedb_go.Stream.Chunk.{
  StreamRecord, Chain, ancestor_skip, link_skips, new_skips, new_stream_chunk,
}

-- `x` doubled `k` times.
abbrev pub doubled : ℕ → ℕ → ℕ
doubled zero x = x
doubled (suc k) x = doubled k (x + x)

pub doubled-add : (k x : ℕ) → doubled k (x + x) ≡ doubled k x + doubled k x
doubled-add zero x = refl
doubled-add (suc k) x = doubled-add k (x + x)

pub add-le-doubled : (k x : ℕ) → 1 ≤ x → k + x ≤ doubled k x
add-le-doubled zero x h = omega arith
add-le-doubled (suc k) x h = omega (arith, add-le-doubled k (x + x) (omega arith))

abbrev pub HasSkips : ℕ → List ℕ → Type 0
HasSkips behind skips =
    (k : ℕ) → get_elem? skips k ≡ (if leb (doubled k 1) behind then some (doubled k 1) else none)

abbrev pub Linked : Chain → Type 0
Linked [] = Unit {0}
Linked (c ∷ previous) = HasSkips (length previous) c.skips × Linked previous

pub Linked-drop : (k : ℕ) (chain : Chain) → Linked chain → Linked (drop k chain)
Linked-drop zero chain h = h
Linked-drop (suc k) [] h = tt
Linked-drop (suc k) (c ∷ previous) (h, hs) = Linked-drop k previous hs

-- A skip of the chunk `suc j` steps behind a new one.
ancestor_skip-eq :
    (previous : Chain) (j level : ℕ)
    → Linked previous
    → j < length previous
    → ancestor_skip previous (suc j) level
      ≡ (if leb (doubled level 1) (length previous - suc j) then some (doubled level 1) else none)
unfolding ancestor_skip
ancestor_skip-eq [] j level l h = absurd (omega arith)
ancestor_skip-eq (c ∷ older) zero level (s, l) h =
    s level
    ∙ ap (λ (n : ℕ). if leb (doubled level 1) n then some (doubled level 1) else none)
        (let e : length older ≡ suc (length older) - 1 = omega arith in e)
ancestor_skip-eq (c ∷ older) (suc j) level (s, l) h =
    ancestor_skip-eq older j level l (omega arith)
    ∙ ap (λ (n : ℕ). if leb (doubled level 1) n then some (doubled level 1) else none)
        (let e : length older - suc j ≡ suc (length older) - suc (suc j) = omega arith in e)

ancestor_skip-leb :
    (previous : Chain) (last level : ℕ) (b : Bool)
    → Linked previous
    → 1 ≤ last
    → last ≤ length previous
    → leb (doubled level 1) (length previous - last) ≡ b
    → ancestor_skip previous last level ≡ (if b then some (doubled level 1) else none)
ancestor_skip-leb previous zero level b l positive h e = absurd (omega arith)
ancestor_skip-leb previous (suc j) level b l positive h e =
    ancestor_skip-eq previous j level l (omega arith)
    ∙ ap (λ (t : Bool). if t then some (doubled level 1) else none) e

link_skips-none :
    (fuel : ℕ) (previous : Chain) (l last : ℕ)
    → ancestor_skip previous last l ≡ none
    → link_skips (suc fuel) previous l last ≡ []
unfolding link_skips
link_skips-none fuel previous l last e = rw (link_skips, e)

link_skips-some :
    (fuel : ℕ) (previous : Chain) (l last s : ℕ)
    → ancestor_skip previous last l ≡ some s
    → link_skips (suc fuel) previous l last
      ≡ (last + s) ∷ link_skips fuel previous (suc l) (last + s)
unfolding link_skips
link_skips-some fuel previous l last s e = rw (link_skips, e)

leb-past : (k x n : ℕ) → 1 ≤ x → n < x → leb (doubled k x) n ≡ false
leb-past k x n positive h = let m = add-le-doubled k x positive in ground arith

-- A list that is known behind its head.
get_elem?-doubled :
    (xs ys : List ℕ) (x n k : ℕ)
    → xs ≡ x ∷ ys
    → leb x n ≡ true
    → ((j : ℕ)
        → get_elem? ys j ≡ (if leb (doubled (suc j) x) n then some (doubled (suc j) x) else none))
    → get_elem? xs k ≡ (if leb (doubled k x) n then some (doubled k x) else none)
get_elem?-doubled xs ys x n zero e fits behind =
    ap (λ (t : List ℕ). get_elem? t 0) e ∙ sym (ap (λ (b : Bool). if b then some x else none) fits)
get_elem?-doubled xs ys x n (suc k) e fits behind =
    ap (λ (t : List ℕ). get_elem? t (suc k)) e ∙ behind k

-- The skips behind the first, from a level `l` on.
link_skips-eq :
    (fuel : ℕ) (previous : Chain) (l last k : ℕ)
    → Linked previous
    → doubled l 1 ≡ last
    → 1 ≤ last
    → last ≤ length previous
    → length previous < fuel + last
    → get_elem? (link_skips fuel previous l last) k
      ≡ (if leb (doubled (suc k) last) (length previous) then some (doubled (suc k) last) else none)
link_skips-eq zero previous l last k linked e positive inside enough = absurd (omega arith)
link_skips-eq (suc fuel) previous l last k linked e positive inside enough =
    elim (Bool-cases (leb (doubled l 1) (length previous - last))) [
      | inl fits ↦
          let found = ancestor_skip-leb previous last l true linked positive inside fits in
          let split = link_skips-some fuel previous l last (doubled l 1) found in
          let twice : last + doubled l 1 ≡ last + last = omega arith in
          let next : doubled (suc l) 1 ≡ last + last = omega (arith, doubled-add l 1) in
          let fit : last + last ≤ length previous = ground arith in
          let deep = λ (j : ℕ).
            link_skips-eq fuel previous (suc l) (last + last) j linked next (omega arith) fit
              (omega arith) in
          get_elem?-doubled (link_skips (suc fuel) previous l last)
            (link_skips fuel previous (suc l) (last + last)) (last + last) (length previous) k
            (split ∙ ap (λ (t : ℕ). t ∷ link_skips fuel previous (suc l) t) twice) (ground arith)
            deep
      | inr past ↦
          let found = ancestor_skip-leb previous last l false linked positive inside past in
          let gone = link_skips-none fuel previous l last found in
          let over : length previous < last + last = ground arith in
          rw (gone, leb-past k (last + last) (length previous) (omega arith) over)
    ]

pub new_skips-HasSkips :
    (previous : Chain) → Linked previous → HasSkips (length previous) (new_skips previous)
unfolding new_skips
new_skips-HasSkips [] linked k = sym (
    ap (λ (b : Bool). if b then some (doubled k 1) else none)
      (leb-past k 1 0 (omega arith) (omega arith)))
new_skips-HasSkips (c ∷ older) linked k =
    get_elem?-doubled (new_skips (c ∷ older)) (link_skips (length (c ∷ older)) (c ∷ older) 0 1) 1
      (length (c ∷ older)) k refl (ground arith)
      (λ (j : ℕ).
        link_skips-eq (length (c ∷ older)) (c ∷ older) 0 1 j linked refl (omega arith) (omega arith)
          (omega arith))

-- `newStreamChunk` keeps the skip pointers of a chain complete: pointer `k` of every chunk leads 2^k
-- chunks back exactly when there are that many.
pub new_stream_chunk-Linked :
    (previous : Chain) (records : List StreamRecord)
    → Linked previous
    → Linked (new_stream_chunk previous records)
unfolding new_stream_chunk
new_stream_chunk-Linked previous records linked = (new_skips-HasSkips previous linked, linked)
