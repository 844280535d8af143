-- ===== src/Stream/Log/Valid.antt =====
-- What a stream's log keeps: records numbered without gaps, in chunks of 1 to 64 records, the
-- retained window at the end of them.
use latticedb_go.Base.{
  ℕ, suc, zero, ◌+◌, ◌-◌, ◌≤◌, ◌<◌, ◌≡◌, refl, ◌⊎◌, List, [], ◌∷◌, ◌++◌, arith, length, get_elem?,
  some,
}
use latticedb_go.Stream.Chunk.{
  StreamRecord, Chain, stream_chunk_size, first_sequence, last_sequence, chain_last,
}
use latticedb_go.Stream.Chunk.Links.{Linked}
use latticedb_go.Stream.Chunk.Search.{Descends}
use latticedb_go.Stream.Log.{StreamLog}

abbrev pub Numbered : ℕ → List StreamRecord → Type 0
Numbered n [] = Unit {0}
Numbered n (r ∷ rs) = (r.sequence ≡ n) × Numbered (suc n) rs

-- The chunks end right before `next`.
abbrev pub Runs : ℕ → Chain → Type 0
Runs next [] = Unit {0}
Runs next (c ∷ previous) =
    (1 ≤ length c.records)
    × (length c.records ≤ stream_chunk_size)
    × (length c.records < next)
    × Numbered (next - length c.records) c.records
    × Runs (next - length c.records) previous

-- The first sequence number in a chain that ends before `next`.
abbrev pub chain_start : ℕ → Chain → ℕ
chain_start next [] = next
chain_start next (c ∷ previous) = chain_start (next - length c.records) previous

-- The records from `first` on are retained; an empty log keeps no chunk.
abbrev pub HasWindow : ℕ → StreamLog → Type 0
HasWindow next log =
    (log.count ≡ 0) × (log.tail ≡ [])
    ⊎ (1 ≤ log.count) × (log.first + log.count ≡ next) × (chain_start next log.tail ≤ log.first)

abbrev pub IsValidLog : ℕ → StreamLog → Type 0
IsValidLog next log = Linked log.tail × Runs next log.tail × HasWindow next log

pub Numbered-append :
    (n : ℕ) (rs : List StreamRecord) (r : StreamRecord)
    → Numbered n rs
    → r.sequence ≡ n + length rs
    → Numbered n (rs ++ r ∷ [])
Numbered-append n [] r h e = (omega arith, tt)
Numbered-append n (x ∷ rs) r (h, hs) e = (h, Numbered-append (suc n) rs r hs (omega arith))

pub Numbered-get :
    (n : ℕ) (rs : List StreamRecord) (i : ℕ)
    → Numbered n rs
    → i < length rs
    → (r : StreamRecord) × (get_elem? rs i ≡ some r) × (r.sequence ≡ n + i)
Numbered-get n [] i h inside = absurd (omega arith)
Numbered-get n (x ∷ rs) zero (h, hs) inside = (x, refl, omega arith)
Numbered-get n (x ∷ rs) (suc i) (h, hs) inside =
    let (r, at, e) = Numbered-get (suc n) rs i hs (omega arith) in (r, at, omega arith)

pub Numbered-last :
    (n : ℕ) (rs : List StreamRecord)
    → Numbered n rs
    → 1 ≤ length rs
    → last_sequence rs + 1 ≡ n + length rs
Numbered-last n [] h some_records = absurd (omega arith)
Numbered-last n (x ∷ []) (h, hs) some_records = omega arith
Numbered-last n (x ∷ (y ∷ rs)) (h, hs) some_records =
    let m = Numbered-last (suc n) (y ∷ rs) hs (omega arith) in omega arith

pub Numbered-first :
    (n : ℕ) (rs : List StreamRecord) → Numbered n rs → 1 ≤ length rs → first_sequence rs ≡ n
Numbered-first n [] h some_records = absurd (omega arith)
Numbered-first n (x ∷ rs) (h, hs) some_records = h

pub chain_last-Runs : (next : ℕ) (chain : Chain) → Runs next chain → chain_last chain ≤ next - 1
chain_last-Runs next [] h = omega arith
chain_last-Runs next (c ∷ previous) (some_records, fits, short, numbered, runs) =
    let m = Numbered-last (next - length c.records) c.records numbered some_records in omega arith

pub Runs-Descends : (next : ℕ) (chain : Chain) → Runs next chain → Descends chain
Runs-Descends next [] h = tt
Runs-Descends next (c ∷ previous) (some_records, fits, short, numbered, runs) =
    let m = Numbered-last (next - length c.records) c.records numbered some_records in
    let p = chain_last-Runs (next - length c.records) previous runs in
    (omega arith, Runs-Descends (next - length c.records) previous runs)

pub chain_start-positive :
    (next : ℕ) (chain : Chain) → 1 ≤ next → Runs next chain → 1 ≤ chain_start next chain
chain_start-positive next [] positive h = positive
chain_start-positive next (c ∷ previous) positive (some_records, fits, short, numbered, runs) =
    chain_start-positive (next - length c.records) previous (omega arith) runs
