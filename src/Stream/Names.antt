-- ===== src/Stream/Names.antt =====
-- internal/store/stream.go, `ValidateStreamName` and `ValidateStreamKind`.
use latticedb_go.Base.{[], ◌∷◌, Bool, not, ltb, ◌==◌, length, take, ◌||◌, ◌&&◌}
use latticedb_go.Payload.Values.{Bytes, same_bytes, utf8_valid}

-- __lattice_
abbrev pub reserved_prefix : Bytes
reserved_prefix = 95 ∷ 95 ∷ 108 ∷ 97 ∷ 116 ∷ 116 ∷ 105 ∷ 99 ∷ 101 ∷ 95 ∷ []

-- `true` for an error.
unfoldable pub rejects_stream_kind : Bytes → Bool
rejects_stream_kind value = length value == 0 || ltb 255 (length value) || not (utf8_valid value)

unfoldable pub rejects_stream_name : Bytes → Bool → Bool
unfolding rejects_stream_kind
rejects_stream_name value allow_reserved =
    rejects_stream_kind value
    || not allow_reserved && same_bytes (take (length reserved_prefix) value) reserved_prefix
