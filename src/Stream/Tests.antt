-- ===== src/Stream/Tests.antt =====
-- Runs of the stream store, and the theorems at concrete stores.
use latticedb_go.Base.{ℕ, suc, ◌+◌, ◌<◌, ◌^◌, ◌≡◌, refl, [], ◌∷◌, ◌++◌, some, arith, inl, false}
use latticedb_go.Payload.Values.{Bytes, same_bytes}
use latticedb_go.Stream.Value.{Value}
use latticedb_go.Stream.NameMap.{lookup, assign}
use latticedb_go.Stream.Chunk.{StreamRecord, StreamChunk, Chain, chunk, new_stream_chunk}
use latticedb_go.Stream.Chunk.Links.{Linked, new_stream_chunk-Linked}
use latticedb_go.Stream.Chunk.Search.{find_chunk, chunk-find_chunk, Descends}
use latticedb_go.Stream.Log.{
  publish_log, StreamLog, StreamStore, new_stream_store, publish, next_sequence, set_offset,
  get_offset, log_of,
}
use latticedb_go.Stream.Log.Find.{chunk-Holds, Holds}
use latticedb_go.Stream.Log.Publish.{records_of}
use latticedb_go.Stream.Log.Read.{read_bounded}
use latticedb_go.Stream.Log.ReadBounds.{IsWithin, read_bounded-IsWithin}
use latticedb_go.Stream.Log.Trim.{rebuild, keep_from}
use latticedb_go.Stream.Log.Rebuild.{rebuild-keeps}
use latticedb_go.Stream.Log.Stores.{
  IsValidStore, publish-IsValidStore, publish-appends, publish-others, set_offset-get_offset,
  set_offset-others, new_record,
}

abbrev event_name : Bytes
event_name = 101 ∷ 118 ∷ []

abbrev audit_name : Bytes
audit_name = 97 ∷ []

abbrev kind : Bytes
kind = 107 ∷ []

abbrev event : ℕ → StreamRecord
event n = record { sequence = n; kind = kind; payload = Value.nil }

-- Chunks of one record each.
abbrev chain_of_four : Chain
chain_of_four =
    new_stream_chunk
      (new_stream_chunk (new_stream_chunk (new_stream_chunk [] (event 1 ∷ [])) (event 2 ∷ []))
        (event 3 ∷ []))
      (event 4 ∷ [])

chain_of_four-Linked : Linked chain_of_four
chain_of_four-Linked = new_stream_chunk-Linked _ (event 4 ∷ []) (
    new_stream_chunk-Linked _ (event 3 ∷ [])
      (new_stream_chunk-Linked _ (event 2 ∷ []) (new_stream_chunk-Linked [] (event 1 ∷ []) tt)))

new_stream_chunk-Linked_example : Linked (new_stream_chunk chain_of_four (event 5 ∷ []))
new_stream_chunk-Linked_example =
    new_stream_chunk-Linked chain_of_four (event 5 ∷ []) chain_of_four-Linked

chain_of_four-Descends : Descends chain_of_four
unfolding new_stream_chunk
chain_of_four-Descends = (omega arith, (omega arith, (omega arith, (omega arith, tt))))

chunk-find_chunk_example : chunk chain_of_four 4 1 2 ≡ find_chunk chain_of_four 4 1 2
chunk-find_chunk_example =
    chunk-find_chunk chain_of_four 4 1 2 (omega arith) chain_of_four-Linked chain_of_four-Descends

valid_store : IsValidStore new_stream_store
unfolding lookup
valid_store name = (tt, tt, inl (refl, refl))

first_small : next_sequence new_stream_store event_name + 1 < 2 ^ 64
unfolding lookup next_sequence
first_small = omega arith

abbrev one_event : StreamStore
one_event = (publish new_stream_store event_name kind Value.nil).1

one_event-IsValidStore : IsValidStore one_event
one_event-IsValidStore =
    publish-IsValidStore new_stream_store event_name kind Value.nil valid_store first_small

second_small : next_sequence one_event event_name + 1 < 2 ^ 64
unfolding lookup assign next_sequence publish same_bytes
second_small = omega arith

publish-IsValidStore_example : IsValidStore (publish one_event event_name kind Value.nil).1
publish-IsValidStore_example =
    publish-IsValidStore one_event event_name kind Value.nil one_event-IsValidStore second_small

publish-appends_example :
    ((publish one_event event_name kind Value.nil).0 ≡ next_sequence one_event event_name)
    × (records_of (log_of (publish one_event event_name kind Value.nil).1 event_name).tail
        ≡ records_of (log_of one_event event_name).tail
          ++ new_record one_event event_name kind Value.nil ∷ [])
    × (next_sequence (publish one_event event_name kind Value.nil).1 event_name
        ≡ suc (next_sequence one_event event_name))
publish-appends_example = publish-appends one_event event_name kind Value.nil second_small

names_apart : same_bytes event_name audit_name ≡ false
unfolding same_bytes
names_apart = refl

audit_apart : same_bytes audit_name event_name ≡ false
unfolding same_bytes
audit_apart = refl

publish-others_example :
    (log_of (publish one_event event_name kind Value.nil).1 audit_name
      ≡ log_of one_event audit_name)
    × (next_sequence (publish one_event event_name kind Value.nil).1 audit_name
        ≡ next_sequence one_event audit_name)
    × (get_offset (publish one_event event_name kind Value.nil).1 audit_name kind
        ≡ get_offset one_event audit_name kind)
publish-others_example =
    publish-others one_event event_name kind Value.nil audit_name kind names_apart

set_offset-get_offset_example :
    (get_offset (set_offset one_event audit_name kind 7) audit_name kind ≡ some 7)
    × (log_of (set_offset one_event audit_name kind 7) event_name ≡ log_of one_event event_name)
    × (next_sequence (set_offset one_event audit_name kind 7) event_name
        ≡ next_sequence one_event event_name)
set_offset-get_offset_example = set_offset-get_offset one_event audit_name kind 7 event_name

set_offset-others_example :
    get_offset (set_offset one_event audit_name kind 7) event_name kind
    ≡ get_offset one_event event_name kind
set_offset-others_example =
    set_offset-others one_event audit_name kind 7 event_name kind (inl audit_apart)

abbrev event_log : StreamLog
event_log = log_of one_event event_name

event_window : (event_log.first ≡ 1) × (event_log.count ≡ 1)
unfolding lookup assign next_sequence publish same_bytes publish_log
event_window = (refl, refl)

chunk-Holds_example :
    (c : StreamChunk) × (older : Chain) × (chunk event_log.tail event_log.count event_log.first 1
      ≡ c ∷ older)
    × Holds 1 c
chunk-Holds_example =
    chunk-Holds event_log (next_sequence one_event event_name) 1 (one_event-IsValidStore event_name)
      (omega arith) (omega (arith, event_window.0)) (omega (arith, event_window.0, event_window.1))

read_bounded-IsWithin_example : IsWithin 100 (read_bounded one_event event_name 0 5 100)
read_bounded-IsWithin_example = read_bounded-IsWithin one_event event_name 0 5 100

rebuild-keeps_example :
    (records_of (rebuild 1 event_log.tail) ≡ keep_from 1 (records_of event_log.tail))
    × Linked (rebuild 1 event_log.tail)
rebuild-keeps_example =
    rebuild-keeps 1 (next_sequence one_event event_name) event_log.tail
      (one_event-IsValidStore event_name).1
