-- ===== src/Payload.antt =====
-- internal/store/binary_payload.go and binary_records.go: the binary format of state and log
-- records. The children follow the code: the values, the integers on the wire, the encoder, the
-- decoder, and the record types; the proofs stand in the modules that name a property.
pub mod Values
pub mod Varint
pub mod Encoder
pub mod Decoder
pub mod Wire
pub mod Mirrors
pub mod Streamed
pub mod Records
