-- ===== src/PageRecords/RoundTrip.antt =====
-- What the page writers store, the page readers return.
use latticedb_go.Base.{
  ℕ, suc, ◌+◌, ◌-◌, ◌^◌, ◌≤◌, ◌<◌, ◌≡◌, ◌≢◌, refl, sym, ap, ◌∙◌, Bool, true, false, [], ◌∷◌, ◌++◌,
  append-nil, arith, length, length-append, take, drop, take-append_length, drop-append_length, ltb,
  ltb→le, le→ltb, ==_self, Error, Result, ok, ◌>>=◌, >>=-eq-ok, ok-injective, refuse,
}
use latticedb_go.Payload.Values.{Bytes}
use latticedb_go.Payload.Varint.{put_big_endian, big_endian}
use latticedb_go.Payload.Varint.RoundTrip.{length-put_big_endian, big_endian-put_big_endian}
use latticedb_go.Payload.Encoder.{Encoder, multiply_saturated}
use latticedb_go.Payload.Decoder.{Decode, new_binary_decoder_bytes, finish}
use latticedb_go.Payload.Wire.Primitives.{at_bytes}
use latticedb_go.Payload.Records.{PersistedNode, PersistedEdge}
use latticedb_go.Payload.Mirrors.{Mirrors}
use latticedb_go.Payload.Records.RoundTrip.{
  IsNode, IsEdge, canonical_node, canonical_edge, node-Mirrors, edge-Mirrors,
}
use latticedb_go.PageRecords.{
  Checksum, seal, encode_page_record, decode_page_record_payload, decode_page_record,
  encode_page_node_bounded, encode_page_edge_bounded, decode_page_node, decode_page_edge,
  validate_entity_id, validate_create_labels, validate_edge_type,
}
use native.Mathlib.Nat.{le-div_iff_mul-le}

pub refuse-eq-ok : (b : Bool) (x : Error) {t : Unit {0}} → refuse b x ≡ ok t → b ≡ false
refuse-eq-ok true x h = cc
refuse-eq-ok false x h = refl

one_byte : (k : ℕ) → big_endian (k ∷ []) ≡ k
unfolding big_endian
one_byte k = omega arith

take_word : (c : ℕ) (rest : Bytes) → take 4 (put_big_endian 4 c ++ rest) ≡ put_big_endian 4 c
take_word c rest = rw (length-put_big_endian 4 c) at (take-append_length (put_big_endian 4 c) rest)

drop_word : (c : ℕ) (rest : Bytes) → drop 4 (put_big_endian 4 c ++ rest) ≡ rest
drop_word c rest = rw (length-put_big_endian 4 c) at (drop-append_length (put_big_endian 4 c) rest)

length_word : (c : ℕ) (rest : Bytes) → length (put_big_endian 4 c ++ rest) ≡ length rest + 4
length_word c rest =
    omega (arith, length-append (put_big_endian 4 c) rest, length-put_big_endian 4 c)

multiply_saturated-pos : (m : ℕ) → 0 < m → multiply_saturated m 2 ≢ 0
unfolding multiply_saturated
multiply_saturated-pos m h =
    ground (arith, (le-div_iff_mul-le {k = m} {x = 2} {y = 2 ^ 64 - 1} h).0)

module _ (crc : Checksum) where
  abbrev sealed : ℕ → Bytes → Bytes
  sealed kind payload = 1 ∷ kind ∷ (put_big_endian 4 (crc.checksum payload) ++ payload)

  payload-sealed :
      (kind max_bytes : ℕ) (payload : Bytes)
      → length payload + 6 ≤ max_bytes
      → decode_page_record_payload crc (sealed kind payload) kind max_bytes ≡ ok payload
  unfolding decode_page_record_payload
  payload-sealed kind max_bytes payload h =
      let c = crc.checksum payload in
      let n = length_word c payload in
      rw (
        le→ltb max_bytes (suc (suc (length (put_big_endian 4 c ++ payload)))) (omega (arith, n)),
        le→ltb (suc (suc (length (put_big_endian 4 c ++ payload)))) 6 (omega (arith, n)),
        one_byte 1,
        one_byte kind,
        ==_self kind,
        take_word c payload,
        drop_word c payload,
        big_endian-put_big_endian 4 c (crc.checksum_range payload),
        ==_self c,
      )

  seal-eq-sealed :
      (kind max_bytes : ℕ) (out w bs : Bytes) (x : Error) {t : Unit {0}}
      → out ≡ (1 ∷ kind ∷ 0 ∷ 0 ∷ 0 ∷ 0 ∷ []) ++ w
      → refuse (ltb max_bytes (length out)) x ≡ ok t
      → ok (seal crc out) ≡ ok bs
      → (bs ≡ sealed kind w) × (length w + 6 ≤ max_bytes)
  unfolding seal
  seal-eq-sealed kind max_bytes out w bs x e fits h = (
    sym (ok-injective h) ∙ ap (seal crc) e,
    omega (arith, ltb→le max_bytes (length out) (refuse-eq-ok _ x fits), ap length e),
  )

  -- A page record holds what the encoder wrote, sealed, within both limits.
  encode_page_record-eq-sealed :
      (kind max_bytes : ℕ) {enc : Encoder → Result Encoder} {A : Type 0} {dec : Decode A} {x : A}
      (bs : Bytes) (m : Mirrors enc dec x)
      → encode_page_record crc kind max_bytes enc ≡ ok bs
      → (bs ≡ sealed kind m.wire)
        × (length m.wire + 6 ≤ max_bytes)
        × (m.cost ≤ multiply_saturated max_bytes 2)
        × m.Passed
  unfolding encode_page_record
  encode_page_record-eq-sealed kind max_bytes {enc} bs m h =
      let start : Encoder = record {
        out = 1 ∷ kind ∷ 0 ∷ 0 ∷ 0 ∷ 0 ∷ [];
        allocation_limit = multiply_saturated max_bytes 2;
        allocation_bytes = 0;
      } in
      let (e, he, hr) = >>=-eq-ok (enc start) _ h in
      let (wrote, passed) = m.writes.run start e he in
      let (t, fits, sealing) = >>=-eq-ok (refuse (ltb max_bytes (length e.out)) _) _ hr in
      let (same, small) =
        seal-eq-sealed kind max_bytes e.out m.wire bs _ wrote.appended fits sealing in
      let limited = multiply_saturated-pos max_bytes (omega (arith, small)) in
      let (spent, within) = wrote.charged limited (omega arith) in
      (same, small, omega (arith, spent, within), passed)

  -- The decoder of such a page reads the record back, to the end of the payload.
  decode-encode_page_record :
      (kind max_bytes : ℕ) {enc : Encoder → Result Encoder} {A : Type 0} {dec : Decode A} {x : A}
      (bs : Bytes) (m : Mirrors enc dec x)
      → encode_page_record crc kind max_bytes enc ≡ ok bs
      → (left : ℕ) × ((decode_page_record crc bs kind max_bytes >>= dec) ≡ ok (x, at_bytes [] left))
  unfolding decode_page_record new_binary_decoder_bytes
  decode-encode_page_record kind max_bytes bs m h =
      let (same, small, enough, passed) = encode_page_record-eq-sealed kind max_bytes bs m h in
      let left = multiply_saturated max_bytes 2 - m.cost in
      (
        left,
        rw (same, payload-sealed kind max_bytes m.wire small)
            (rw (append-nil m.wire) at
              (m.reads passed [] (multiply_saturated max_bytes 2) left (omega (arith, enough)))),
      )

  -- A node that the page writer accepts under a byte limit is read back under the same limit and its
  -- own id: the reader's checksum, allocation, depth, text and label tests all pass, the payload is
  -- used up, and the record is the written one with its property maps in key order. The node's id is
  -- a uint64, its texts are valid UTF-8, its integers and floats are in range, no map holds a key
  -- twice, and no length reaches 2^48.
  pub decode_page_node-encode :
      (n : PersistedNode) (max_bytes : ℕ) (bs : Bytes)
      → IsNode n
      → encode_page_node_bounded crc n max_bytes ≡ ok bs
      → decode_page_node crc bs n.id max_bytes ≡ ok (canonical_node n)
  unfolding encode_page_node_bounded decode_page_node finish
  decode_page_node-encode n max_bytes bs stored h =
      let (t, valid_id, h') = >>=-eq-ok (validate_entity_id n.id) _ h in
      let (t', valid_labels, h'') = >>=-eq-ok (validate_create_labels n.labels) _ h' in
      let (left, read) = decode-encode_page_record 1 max_bytes bs (node-Mirrors n stored) h'' in
      let (d, opened, decoded) = >>=-eq-ok (decode_page_record crc bs 1 max_bytes) _ read in
      rw (opened, decoded, ==_self n.id, valid_id, valid_labels)

  -- An edge that the page writer accepts under a byte limit is read back under the same limit and its
  -- own id, with its property map in key order; the hypotheses on the edge are those on a node.
  pub decode_page_edge-encode :
      (ed : PersistedEdge) (max_bytes : ℕ) (bs : Bytes)
      → IsEdge ed
      → encode_page_edge_bounded crc ed max_bytes ≡ ok bs
      → decode_page_edge crc bs ed.id max_bytes ≡ ok (canonical_edge ed)
  unfolding encode_page_edge_bounded decode_page_edge finish
  decode_page_edge-encode ed max_bytes bs stored h =
      let (t, id_ok, h1) = >>=-eq-ok (validate_entity_id ed.id) _ h in
      let (t1, source_ok, h2) = >>=-eq-ok (validate_entity_id ed.source_id) _ h1 in
      let (t2, target_ok, h3) = >>=-eq-ok (validate_entity_id ed.target_id) _ h2 in
      let (t3, type_ok, h4) = >>=-eq-ok (validate_edge_type ed.edge_type) _ h3 in
      let (left, read) = decode-encode_page_record 2 max_bytes bs (edge-Mirrors ed stored) h4 in
      let (d, opened, decoded) = >>=-eq-ok (decode_page_record crc bs 2 max_bytes) _ read in
      rw (opened, decoded, ==_self ed.id, id_ok, source_ok, target_ok, type_ok)
