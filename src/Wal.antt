-- ===== src/Wal.antt =====
-- internal/store/binary_streams.go, binary_delta.go and binary_state.go: the payloads of the
-- write-ahead log and of checkpoints.
pub mod Streams
pub mod Delta
pub mod State
pub mod StreamsRoundTrip
pub mod DeltaRoundTrip
pub mod RoundTrip
mod Tests
