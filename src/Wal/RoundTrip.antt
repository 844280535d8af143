-- ===== src/Wal/RoundTrip.antt =====
-- A log record's payload and a checkpoint's state are read back as they were written.
use latticedb_go.Base.{
  ℕ, ◌-◌, ◌*◌, ◌≤◌, ◌<◌, ◌^◌, ◌≡◌, refl, sym, ap, ◌∙◌, Option, none, some, [], ◌∷◌, ◌++◌,
  append-nil, arith, length, le→ltb, Result, ok, err, ◌>>=◌, ◌>>◌, >>=-eq-ok, ok-injective,
  trailing_data,
}
use latticedb_go.Base.Int.{IsU64}
use latticedb_go.Payload.Values.{Bytes}
use latticedb_go.Payload.Encoder
use latticedb_go.Payload.Encoder.{Encoder, multiply_saturated}
use latticedb_go.Payload.Decoder.{Decode, new_binary_decoder_bytes, finish}
use latticedb_go.Payload.Wire.{IsText}
use latticedb_go.Payload.Wire.Primitives.{at_bytes}
use latticedb_go.Payload.Wire.Writes.{multiply_saturated-eq_mul}
use latticedb_go.Payload.Mirrors.{
  Restores, Restores-bind, Restores-last, u-Restores, str-Restores, tag-Restores, slice-Restores,
  same-Restores, AllOption, map_slice,
}
use latticedb_go.Payload.Records.{
  encode_node, encode_edge, encode_fts, decode_node, decode_edge, decode_fts,
}
use latticedb_go.Payload.Records.RoundTrip.{IsNode, IsEdge, canonical_node, canonical_edge}
use latticedb_go.Payload.Records.Restores.{
  node-element, edge-element, fts-element, IsFts, IsIndex, indexes-Restores, IsMetadata,
  metadata-Restores,
}
use latticedb_go.Wal.StreamsRoundTrip.{AreStreams, canonical_streams, streams-Restores}
use latticedb_go.Wal.Delta.{PersistedDelta}
use latticedb_go.Wal.DeltaRoundTrip.{IsDelta, canonical_delta, delta-Restores}
use latticedb_go.Wal.State.{
  PersistedState, WalKind, checkpoint, snapshot, delta, property_delta, other, WalPayload,
  encode_state, decode_dimensions, decode_state, encode_wal_payload, unlimited,
  encode_binary_wal_payload, encode_binary_state, decode_wal_tagged, decode_wal_payload,
  decode_binary_wal_payload, decode_binary_state_payload, of_checkpoint, of_snapshot, of_delta,
}

pub record IsState (s : PersistedState) : Type 0 where
  pub database_id : IsText s.database_id
  pub vector_dimensions : s.vector_dimensions < 2 ^ 16
  pub commit_id : IsU64 s.commit_id
  pub next_node_id : IsU64 s.next_node_id
  pub next_edge_id : IsU64 s.next_edge_id
  pub app_metadata : AllOption IsMetadata s.app_metadata
  pub nodes : AllOption IsNode s.nodes
  pub edges : AllOption IsEdge s.edges
  pub fts : AllOption IsFts s.fts
  pub node_indexes : AllOption IsIndex s.node_indexes
  pub edge_indexes : AllOption IsIndex s.edge_indexes
  pub streams : AreStreams s.streams

abbrev pub canonical_state : PersistedState → PersistedState
canonical_state s = record s {
  nodes = map_slice canonical_node s.nodes;
  edges = map_slice canonical_edge s.edges;
  streams = canonical_streams s.streams;
}

dimensions-Restores : (n : ℕ) → n < 2 ^ 16 → Restores (Encoder.u n) decode_dimensions n
unfolding decode_dimensions
dimensions-Restores n h =
    Restores-last _ n (u-Restores n (omega arith)) (λ d. rw (le→ltb 65535 n (omega arith)))

pub state-Restores :
    (s : PersistedState) → IsState s → Restores (encode_state s) decode_state (canonical_state s)
unfolding encode_state decode_state
state-Restores s h = Restores-bind _ (str-Restores s.database_id h.database_id) (
    Restores-bind _ (dimensions-Restores s.vector_dimensions h.vector_dimensions) (
      Restores-bind _ (u-Restores s.commit_id h.commit_id) (
        Restores-bind _ (u-Restores s.next_node_id h.next_node_id) (
          Restores-bind _ (u-Restores s.next_edge_id h.next_edge_id) (
            Restores-bind _ (metadata-Restores s.app_metadata h.app_metadata) (
              Restores-bind _
                (slice-Restores encode_node decode_node canonical_node IsNode node-element 40
                  s.nodes (omega arith) (omega arith) h.nodes)
                (Restores-bind _
                  (slice-Restores encode_edge decode_edge canonical_edge IsEdge edge-element 48
                    s.edges (omega arith) (omega arith) h.edges)
                  (Restores-bind _
                    (same-Restores encode_fts decode_fts IsFts fts-element 24 s.fts (omega arith)
                      (omega arith) h.fts)
                    (Restores-bind _ (indexes-Restores s.node_indexes h.node_indexes) (
                      Restores-bind _ (indexes-Restores s.edge_indexes h.edge_indexes) (
                        Restores-last _ (canonical_state s) (streams-Restores s.streams h.streams)
                          (λ d. refl))))))))))))

abbrev IsSnapshot : Option PersistedState → Type 0
IsSnapshot none = Unit {0}
IsSnapshot (some s) = IsState s

abbrev IsChange : Option PersistedDelta → Type 0
IsChange none = Unit {0}
IsChange (some d) = IsDelta d

abbrev pub IsWalPayload : WalPayload → Type 0
IsWalPayload value = IsSnapshot value.snapshot_of × IsChange value.delta_of

abbrev pub canonical_snapshot : Option PersistedState → Option PersistedState
canonical_snapshot none = none
canonical_snapshot (some s) = some (canonical_state s)

abbrev pub canonical_changes : Option PersistedDelta → Option PersistedDelta
canonical_changes none = none
canonical_changes (some d) = some (canonical_delta d)

-- The field that the kind selects.
abbrev pub canonical_payload : WalPayload → WalPayload
canonical_payload value = elim (value.kind) [
  | checkpoint ↦ of_checkpoint
  | snapshot ↦ record {
    kind = snapshot;
    snapshot_of = canonical_snapshot value.snapshot_of;
    delta_of = none;
  }
  | delta ↦ record { kind = delta; snapshot_of = none; delta_of = canonical_changes value.delta_of }
  | property_delta ↦ record {
    kind = property_delta;
    snapshot_of = none;
    delta_of = canonical_changes value.delta_of;
  }
  | other name ↦ value
]

-- No payload has another kind or lacks the field that its kind selects.
refused :
    {f : Encoder → Result Encoder} {A : Type 0} {dec : Decode A} {x : A}
    → ((e e' : Encoder) → ¬ (f e ≡ ok e'))
    → Restores f dec x
refused never = record {
  part = record {
    wire = [];
    charge = 0;
    cost = 0;
    Passed = ⊥;
    writes = record { run = λ e e' h. absurd (never e e' h) };
    reads = λ p. absurd p;
  };
  paid = λ p. absurd p;
}

payload-Restores_lem :
    (kind : WalKind) (s : Option PersistedState) (d : Option PersistedDelta)
    → IsSnapshot s
    → IsChange d
    → (let value : WalPayload = record { kind = kind; snapshot_of = s; delta_of = d } in
        Restores (encode_wal_payload value) decode_wal_payload (canonical_payload value))
unfolding encode_wal_payload decode_wal_payload decode_wal_tagged
payload-Restores_lem checkpoint s d hs hd =
    Restores-last _ of_checkpoint (tag-Restores 0) (λ d. refl)
payload-Restores_lem snapshot none d hs hd = refused (λ e e' h. cc)
payload-Restores_lem snapshot (some s) d hs hd =
    Restores-bind _ (tag-Restores 1)
      (Restores-last _ (of_snapshot (canonical_state s)) (state-Restores s hs) (λ d. refl))
payload-Restores_lem delta s none hs hd = refused (λ e e' h. cc)
payload-Restores_lem delta s (some d) hs hd =
    Restores-bind _ (tag-Restores 2)
      (Restores-last _ (of_delta delta (canonical_delta d)) (delta-Restores d hd) (λ d. refl))
payload-Restores_lem property_delta s none hs hd = refused (λ e e' h. cc)
payload-Restores_lem property_delta s (some d) hs hd = Restores-bind _ (tag-Restores 3) (
    Restores-last _ (of_delta property_delta (canonical_delta d)) (delta-Restores d hd) (λ d. refl))
payload-Restores_lem (other name) s d hs hd = refused (λ e e' h. cc)

payload-Restores :
    (value : WalPayload)
    → IsWalPayload value
    → Restores (encode_wal_payload value) decode_wal_payload (canonical_payload value)
payload-Restores value (hs, hd) =
    payload-Restores_lem value.kind value.snapshot_of value.delta_of hs hd

-- What is written without a limit is the part's bytes.
written :
    {f : Encoder → Result Encoder} {A : Type 0} {dec : Decode A} {x : A} (m : Restores f dec x)
    (bs : Bytes)
    → (f unlimited >>= λ e. ok e.out) ≡ ok bs
    → (bs ≡ m.part.wire) × m.part.Passed
written {f} m bs h =
    let (e, he, hr) = >>=-eq-ok (f unlimited) _ h in
    let (wrote, passed) = m.part.writes.run unlimited e he in
    (sym (ok-injective hr) ∙ wrote.appended, passed)

-- A decoder of a large enough limit reads the part, whatever follows.
read_back :
    {f : Encoder → Result Encoder} {A : Type 0} {dec : Decode A} {x : A} (m : Restores f dec x)
    (bs rest : Bytes) (max_bytes : ℕ)
    → (f unlimited >>= λ e. ok e.out) ≡ ok bs
    → length bs * 104 ≤ max_bytes
    → max_bytes < 2 ^ 63
    → (left : ℕ) × (dec (new_binary_decoder_bytes (bs ++ rest) max_bytes)
        ≡ ok (x, at_bytes rest left))
unfolding new_binary_decoder_bytes
read_back m bs rest max_bytes h enough small =
    let (same, passed) = written m bs h in
    let exact = multiply_saturated-eq_mul max_bytes 2 (omega arith) in
    let left = multiply_saturated max_bytes 2 - m.part.cost in
    (
      left,
      rw (same) (
          m.part.reads passed rest (multiply_saturated max_bytes 2) left
            (omega (arith, exact, m.paid passed, ap length same))),
    )

-- The payload of a log record, once encoded, is decoded to the payload that was written: a checkpoint
-- mark, a snapshot or a delta with every field, its property maps in key order and its streams'
-- values likewise. The payload's integers are in the range of their types, its texts are valid UTF-8
-- and shorter than 2^48 bytes, and so are its slices; no map holds a key twice. The decoder's limit is
-- below 2^63 and at least 104 times the bytes, which covers every allocation that it is charged for.
pub decode_binary_wal_payload-encode :
    (value : WalPayload) (bs : Bytes) (max_bytes : ℕ)
    → IsWalPayload value
    → encode_binary_wal_payload value ≡ ok bs
    → length bs * 104 ≤ max_bytes
    → max_bytes < 2 ^ 63
    → decode_binary_wal_payload bs max_bytes ≡ ok (canonical_payload value)
unfolding encode_binary_wal_payload decode_binary_wal_payload finish
decode_binary_wal_payload-encode value bs max_bytes stored h enough small =
    let (left, read) = read_back (payload-Restores value stored) bs [] max_bytes h enough small in
    rw (rw (append-nil bs) at read)

-- A log record's payload with bytes behind its end is refused as trailing data, whatever the bytes
-- are, when the decoder's limit is below 2^63 and at least 104 times the payload's bytes. The payload
-- is as in the round trip: ranges, valid UTF-8, lengths below 2^48, no key twice.
pub decode_binary_wal_payload-trailing :
    (value : WalPayload) (bs : Bytes) (b : ℕ) (rest : Bytes) (max_bytes : ℕ)
    → IsWalPayload value
    → encode_binary_wal_payload value ≡ ok bs
    → length bs * 104 ≤ max_bytes
    → max_bytes < 2 ^ 63
    → decode_binary_wal_payload (bs ++ b ∷ rest) max_bytes ≡ err trailing_data
unfolding encode_binary_wal_payload decode_binary_wal_payload finish
decode_binary_wal_payload-trailing value bs b rest max_bytes stored h enough small =
    let (left, read) =
      read_back (payload-Restores value stored) bs (b ∷ rest) max_bytes h enough small in
    ap (λ r. r >>= λ (value, d). finish d >> ok value) read ∙ ground arith

-- A persisted state, encoded by the log's state method, is decoded by the reader of checkpoint payloads
-- to the state that was written, its property maps in key order. The state's integers are in the range of their types and its dimensions below 2^16,
-- its texts are valid UTF-8, lengths are below 2^48, no map holds a key twice, and the decoder's limit
-- is below 2^63 and at least 104 times the bytes.
pub decode_binary_state_payload-encode :
    (s : PersistedState) (bs : Bytes) (max_bytes : ℕ)
    → IsState s
    → encode_binary_state s ≡ ok bs
    → length bs * 104 ≤ max_bytes
    → max_bytes < 2 ^ 63
    → decode_binary_state_payload bs max_bytes ≡ ok (canonical_state s)
unfolding encode_binary_state decode_binary_state_payload finish
decode_binary_state_payload-encode s bs max_bytes stored h enough small =
    let (left, read) = read_back (state-Restores s stored) bs [] max_bytes h enough small in
    rw (rw (append-nil bs) at read)
