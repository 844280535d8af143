-- ===== src/Stream/Value.antt =====
-- The values that a stream record carries (a Go `any` after normalisation), the saturating sums of
-- internal/store/recovery.go, and the size estimate that stream budgets use.
use latticedb_go.Base.{
  ℕ, ◌+◌, ◌-◌, ◌*◌, ◌/◌, ◌%◌, ◌^◌, Bool, not, ◌&&◌, List, ltb, ◌==◌, if◌then◌else◌, length,
}
use latticedb_go.Base.Int.{ℤ}
use latticedb_go.Payload.Values.{Bytes}

mutual
  pub data Value : Type 0 where
    nil : Value
    bool : Bool → Value
    int : ℤ → Value
    float : ℕ → Value
    string : Bytes → Value
    bytes : Bytes → Value
    vector : List ℕ → Value
    list : Elements → Value
    map : Entries → Value
    other : Value

  pub data Elements : Type 0 where
    no_elements : Elements
    element : Value → Elements → Elements

  pub data Entries : Type 0 where
    no_entries : Entries
    entry : Bytes → Value → Entries → Entries

abbrev pub max_u64 : ℕ
max_u64 = 2 ^ 64 - 1

unfoldable pub snapshot_add : ℕ → ℕ → ℕ
snapshot_add left right = if ltb (max_u64 - left) right then max_u64 else (left + right) % 2 ^ 64

unfoldable pub snapshot_mul : ℕ → ℕ → ℕ
snapshot_mul left right =
    if not (left == 0) && ltb (max_u64 / left) right then max_u64 else left * right % 2 ^ 64

-- `estimateValueBytes`; `other` is its default case. `size` is the running sum of a collection.
unfoldable mutual
  unfolding snapshot_add snapshot_mul

  pub estimate_value_bytes : Value → ℕ
  estimate_value_bytes nil = 64
  estimate_value_bytes (bool b) = 64
  estimate_value_bytes (int z) = 64
  estimate_value_bytes (float f) = 64
  estimate_value_bytes (string s) = snapshot_add (snapshot_mul (length s) 6) 64
  estimate_value_bytes (bytes b) = snapshot_add (snapshot_mul (length b) 2) 64
  estimate_value_bytes (vector v) = snapshot_add (snapshot_mul (length v) 32) 64
  estimate_value_bytes (list vs) = estimate_elements vs 64
  estimate_value_bytes (map es) = estimate_entries es 64
  estimate_value_bytes other = 256

  pub estimate_elements : Elements → ℕ → ℕ
  estimate_elements no_elements size = size
  estimate_elements (element v vs) size =
      estimate_elements vs (snapshot_add size (snapshot_add (estimate_value_bytes v) 8))

  pub estimate_entries : Entries → ℕ → ℕ
  estimate_entries no_entries size = size
  estimate_entries (entry k v es) size = estimate_entries es (
      snapshot_add size
        (snapshot_add (snapshot_add (snapshot_mul (length k) 6) 64) (estimate_value_bytes v)))
