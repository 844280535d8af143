-- ===== src/Stream/Log/Stores.antt =====
-- The operations of a stream store, seen through its lookups.
use latticedb_go.Base.{
  ℕ, suc, ◌+◌, ◌%◌, ◌^◌, ◌≤◌, ◌<◌, ◌≡◌, refl, sym, ap, subst, ◌∙◌, List, [], ◌∷◌, ◌++◌, arith, ◌==◌,
  ◌⊎◌, inl, inr, Bool-cases, false, if◌then◌else◌, some, Option, ==_iff,
}
use latticedb_go.Payload.Values.{Bytes, same_bytes}
use latticedb_go.Stream.Value.{Value}
use latticedb_go.Stream.NameMap.{lookup, assign, lookup-assign, lookup-assign_other, same_bytes_eq}
use latticedb_go.Stream.Chunk.{StreamRecord}
use latticedb_go.Stream.Log.{
  StreamLog, StreamStore, publish_log, log_of, next_of, or_zero, or_empty, or_empty_log,
  next_sequence, publish, set_offset, get_offset, ensure_stream,
}
use latticedb_go.Stream.Log.Valid.{IsValidLog}
use latticedb_go.Stream.Log.Find.{positive_test}
use latticedb_go.Stream.Log.Publish.{
  records_of, append_record-records, publish_log-IsValidLog, small_mod,
}

-- Every log of a store is valid up to the sequence number that comes next.
abbrev pub IsValidStore : StreamStore → Type 0
IsValidStore store = (name : Bytes) → IsValidLog (next_sequence store name) (log_of store name)

-- The record that `publish` adds.
abbrev pub new_record : StreamStore → Bytes → Bytes → Value → StreamRecord
new_record store name kind payload = record {
  sequence = next_sequence store name;
  kind = kind;
  payload = payload;
}

next_sequence-positive : (store : StreamStore) (name : Bytes) → 1 ≤ next_sequence store name
unfolding next_sequence
next_sequence-positive store name = ground arith

next_sequence-eq :
    (store : StreamStore) (name : Bytes) (n : ℕ)
    → lookup store.next name ≡ some n
    → 1 ≤ n
    → next_sequence store name ≡ n
unfolding next_sequence
next_sequence-eq store name n e positive = rw (e, positive_test n positive) refl

publish-log :
    (store : StreamStore) (name kind : Bytes) (payload : Value)
    → log_of (publish store name kind payload).1 name
      ≡ publish_log (log_of store name) (new_record store name kind payload)
unfolding publish
publish-log store name kind payload = ap or_empty_log (
    lookup-assign store.streams name
      (publish_log (log_of store name) (new_record store name kind payload)))

publish-next :
    (store : StreamStore) (name kind : Bytes) (payload : Value)
    → next_sequence store name + 1 < 2 ^ 64
    → next_sequence (publish store name kind payload).1 name ≡ suc (next_sequence store name)
unfolding publish
publish-next store name kind payload small =
    let counted = small_mod (next_sequence store name + 1) small in
    next_sequence-eq (publish store name kind payload).1 name (suc (next_sequence store name))
      (lookup-assign store.next name ((next_sequence store name + 1) % 2 ^ 64)
        ∙ ap (λ (n : ℕ). some n)
            (let e : (next_sequence store name + 1) % 2 ^ 64 ≡ suc (next_sequence store name) =
                omega arith in
              e))
      (omega arith)

publish-other_log :
    (store : StreamStore) (name kind : Bytes) (payload : Value) (other : Bytes)
    → same_bytes name other ≡ false
    → log_of (publish store name kind payload).1 other ≡ log_of store other
unfolding publish
publish-other_log store name kind payload other h = ap or_empty_log (
    lookup-assign_other store.streams name other
      (publish_log (log_of store name) (new_record store name kind payload)) h)

publish-other_next :
    (store : StreamStore) (name kind : Bytes) (payload : Value) (other : Bytes)
    → same_bytes name other ≡ false
    → next_sequence (publish store name kind payload).1 other ≡ next_sequence store other
unfolding publish next_sequence
publish-other_next store name kind payload other h =
    ap (λ (o : Option ℕ). if or_zero o == 0 then 1 else or_zero o)
      (lookup-assign_other store.next name other ((next_sequence store name + 1) % 2 ^ 64) h)

-- `Publish` keeps every log of a store valid while the sequence numbers of the stream stay below 2^64:
-- numbered without gaps, 1 to 64 records in a chunk, complete skip pointers, a covered window.
pub publish-IsValidStore :
    (store : StreamStore) (name kind : Bytes) (payload : Value)
    → IsValidStore store
    → next_sequence store name + 1 < 2 ^ 64
    → IsValidStore (publish store name kind payload).1
publish-IsValidStore store name kind payload valid small other =
    elim (Bool-cases (same_bytes name other)) [
      | inl same ↦
          let here : IsValidLog (next_sequence (publish store name kind payload).1 name)
              (log_of (publish store name kind payload).1 name) =
            rw (publish-next store name kind payload small, publish-log store name kind payload)
              (publish_log-IsValidLog (next_sequence store name) (log_of store name)
                (new_record store name kind payload) (valid name) refl
                (next_sequence-positive store name) small) in
          subst
            (λ (n : Bytes).
              IsValidLog (next_sequence (publish store name kind payload).1 n)
                (log_of (publish store name kind payload).1 n))
            (same_bytes_eq name other same) here
      | inr apart ↦
          rw
            (
              publish-other_log store name kind payload other apart,
              publish-other_next store name kind payload other apart,
            )
            (valid other)
    ]

-- `Publish` returns the next sequence number and appends one record, which carries it, to the chunks
-- of the stream; the number after it comes next, while the numbers stay below 2^64.
pub publish-appends :
    (store : StreamStore) (name kind : Bytes) (payload : Value)
    → next_sequence store name + 1 < 2 ^ 64
    → ((publish store name kind payload).0 ≡ next_sequence store name)
      × (records_of (log_of (publish store name kind payload).1 name).tail
          ≡ records_of (log_of store name).tail ++ new_record store name kind payload ∷ [])
      × (next_sequence (publish store name kind payload).1 name ≡ suc (next_sequence store name))
unfolding publish publish_log
publish-appends store name kind payload small = (
  refl,
  ap (λ (log : StreamLog). records_of log.tail) (publish-log store name kind payload)
      ∙ append_record-records (log_of store name).tail (new_record store name kind payload),
  publish-next store name kind payload small,
)

-- `Publish` leaves the log, the numbering and the offsets of every other stream alone.
pub publish-others :
    (store : StreamStore) (name kind : Bytes) (payload : Value) (other consumer : Bytes)
    → same_bytes name other ≡ false
    → (log_of (publish store name kind payload).1 other ≡ log_of store other)
      × (next_sequence (publish store name kind payload).1 other ≡ next_sequence store other)
      × (get_offset (publish store name kind payload).1 other consumer
          ≡ get_offset store other consumer)
unfolding publish get_offset
publish-others store name kind payload other consumer h = (
  publish-other_log store name kind payload other h,
  publish-other_next store name kind payload other h,
  refl,
)

ensure_stream-log :
    (store : StreamStore) (name other : Bytes)
    → log_of (ensure_stream store name) other ≡ log_of store other
unfolding ensure_stream
ensure_stream-log store name other = elim (Bool-cases (next_of store name == 0)) [
  | inl new ↦ rw new refl
  | inr known ↦ rw known refl
]

ensure_stream-offsets :
    (store : StreamStore) (name other : Bytes)
    → lookup (ensure_stream store name).offsets other ≡ lookup store.offsets other
unfolding ensure_stream
ensure_stream-offsets store name other = elim (Bool-cases (next_of store name == 0)) [
  | inl new ↦ rw new refl
  | inr known ↦ rw known refl
]

ensure_stream-next :
    (store : StreamStore) (name other : Bytes)
    → next_sequence (ensure_stream store name) other ≡ next_sequence store other
unfolding ensure_stream next_sequence
ensure_stream-next store name other = elim (Bool-cases (next_of store name == 0)) [
  | inl new ↦ elim (Bool-cases (same_bytes name other)) [
    | inl same ↦
        let here : or_zero (lookup store.next other) ≡ 0 =
          sym (ap (λ (n : Bytes). or_zero (lookup store.next n)) (same_bytes_eq name other same))
          ∙ (==_iff (next_of store name) 0).0 new in
        let there : lookup (assign store.next name 1) other ≡ some 1 =
          subst (λ (n : Bytes). lookup (assign store.next name 1) n ≡ some 1)
            (same_bytes_eq name other same) (lookup-assign store.next name 1) in
        rw (new, there, here) refl
    | inr apart ↦ rw (new, lookup-assign_other store.next name other 1 apart) refl
  ]
  | inr known ↦ rw known refl
]

-- `SetOffset` sets the offset that `GetOffset` reads back, whether or not the stream and the consumer
-- were known, and changes no record and no sequence number.
pub set_offset-get_offset :
    (store : StreamStore) (name consumer : Bytes) (sequence : ℕ) (other : Bytes)
    → (get_offset (set_offset store name consumer sequence) name consumer ≡ some sequence)
      × (log_of (set_offset store name consumer sequence) other ≡ log_of store other)
      × (next_sequence (set_offset store name consumer sequence) other ≡ next_sequence store other)
unfolding set_offset get_offset next_sequence
set_offset-get_offset store name consumer sequence other =
    let offsets = (ensure_stream store name).offsets in
    let consumers = or_empty (lookup offsets name) in
    (
      ap (λ (o : Option (List (Bytes × ℕ))). lookup (or_empty o) consumer)
            (lookup-assign offsets name (assign consumers consumer sequence))
          ∙ lookup-assign consumers consumer sequence,
      ensure_stream-log store name other,
      ensure_stream-next store name other,
    )

set_offset-other_stream :
    (store : StreamStore) (name consumer : Bytes) (sequence : ℕ) (stream reader : Bytes)
    → same_bytes name stream ≡ false
    → get_offset (set_offset store name consumer sequence) stream reader
      ≡ get_offset store stream reader
unfolding set_offset get_offset
set_offset-other_stream store name consumer sequence stream reader apart =
    let offsets = (ensure_stream store name).offsets in
    ap (λ (o : Option (List (Bytes × ℕ))). lookup (or_empty o) reader)
      (lookup-assign_other offsets name stream
          (assign (or_empty (lookup offsets name)) consumer sequence) apart
        ∙ ensure_stream-offsets store name stream)

-- Another consumer's offset is not changed by `SetOffset`.
pub set_offset-others :
    (store : StreamStore) (name consumer : Bytes) (sequence : ℕ) (stream reader : Bytes)
    → (same_bytes name stream ≡ false) ⊎ (same_bytes consumer reader ≡ false)
    → get_offset (set_offset store name consumer sequence) stream reader
      ≡ get_offset store stream reader
unfolding set_offset get_offset
set_offset-others store name consumer sequence stream reader (inl apart) =
    set_offset-other_stream store name consumer sequence stream reader apart
set_offset-others store name consumer sequence stream reader (inr apart) =
    let offsets = (ensure_stream store name).offsets in
    elim (Bool-cases (same_bytes name stream)) [
      | inl same ↦
          subst
            (λ (n : Bytes).
              lookup
                (or_empty (
                  lookup
                    (assign offsets name
                      (assign (or_empty (lookup offsets name)) consumer sequence))
                    n))
                reader
              ≡ lookup (or_empty (lookup store.offsets n)) reader)
            (same_bytes_eq name stream same)
            (ap (λ (o : Option (List (Bytes × ℕ))). lookup (or_empty o) reader)
                (lookup-assign offsets name
                  (assign (or_empty (lookup offsets name)) consumer sequence))
              ∙ lookup-assign_other (or_empty (lookup offsets name)) consumer reader sequence apart
              ∙ ap (λ (o : Option (List (Bytes × ℕ))). lookup (or_empty o) reader)
                  (ensure_stream-offsets store name name))
      | inr differs ↦ set_offset-other_stream store name consumer sequence stream reader differs
    ]
