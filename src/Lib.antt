-- ===== src/Lib.antt =====
-- LatticeDB is an embedded property-graph database: nodes and edges with property maps, full-text and
-- vector search, a query language and event streams over a page store or a write-ahead log. This
-- library models parts of its storage and search packages and proves what they promise.
--
-- Base           Boolean tests, lists over the native numbers, the result type for Go's errors,
--                signed integers. An `int64` is a `ℤ` with `IsI64`, a `uint64` a number below 2^64,
--                a Go `string` or `[]byte` a list of byte values.
-- Payload        internal/store/binary_payload.go and binary_records.go. `Encoder` and `Decoder` are
--                the structs `binaryEncoder` and `binaryDecoder`; their sticky `err` field is the
--                `err` side of `Result`, and each method is a function of the same name that passes
--                the struct on. `Values` is `persistedValue`, `Varint` Go's variable-length integers,
--                `Records` the record types of binary_records.go. `Wire` holds the lemmas on what is
--                written and read back.
-- PageRecords    internal/store/page_records.go, with `ValidateEntityID`, `ValidateCreateLabels` and
--                `ValidateEdgeType`: header, checksum, limits, and the node and edge pages. The
--                checksum function is a parameter (`hash/crc32` in the code); the theorems hold for
--                every function into 32 bits.
-- Stream         internal/store/stream.go on a store in memory. `Chunk` is `streamChunk` with the skip
--                pointers as distances along `previous`, `Log` is `streamLog` and `StreamStore` with
--                Publish, SetOffset, GetOffset and NextSequence, `Log.Read` is ReadBounded,
--                `Log.Trim` is Trim and TrimToBytes, `Names` the name tests, `Value` the size
--                estimates of internal/store/recovery.go.
-- Wal            internal/store/binary_state.go, binary_delta.go and binary_streams.go: whole states,
--                deltas, streams, and the payloads of log records (`writeBinaryWALPayload`,
--                `decodeBinaryWALPayload`, `decodeBinaryStatePayload`).
-- PagedMap       internal/store/paged_map.go: `Get`, `Has`, `Set`, `Delete` and `ForkSet` of the radix
--                table. An array of pointers is a function of its index, a Go map the list of its
--                entries.
-- Adjacency      internal/store/adjacency.go: `EdgeList` with every operation, over `PagedMap`.
-- Compaction     internal/store/adjacency_compaction.go: `AdjacencyCompactor`, which rebuilds a list some
--                chunks at a time, on the graph's table of one direction.
-- Porter         internal/search/porter.go, the English stemmer.
-- Levenshtein    internal/search/search.go, the edit distance of fuzzy matching.
-- Query          internal/engine: `Budget` is `queryBudget` with `check` and `chargeBytes` (query.go),
--                `Arithmetic` the integer arithmetic of query_arithmetic.go and the evaluation of its
--                expressions, `Strings` the scans of query_string_budget.go, `Order` the order of
--                values with a budget (query_order_budget.go) and without one (query.go). A budget
--                is passed on from call to call; an operand that is no arithmetic is a call of its
--                own, as is the literal of an `int64`; `float64`, the order of numbers, `sort.Slice` and
--                the order in which `range` yields keys are parameters. A Go map of query values is
--                listed by ascending keys; the panic of a method on a nil budget is an outcome.
-- RecordCache    internal/pagestore/cache.go: `get`, `put` and `clear` of the cache of records, with
--                `Get` (pagestore.go) and `GetBoundedWithCharge` (get_bounded.go), which read
--                through it. What bbolt stores is a parameter.
--
-- Page records are payloads behind a checksum: `PageRecords` composes the encoder and decoder of
-- `Payload` the way encodePageRecordCapacity and decodePageRecord do. A stream store maps names to
-- logs; a log is a chain of chunks, and readers and Trim find a chunk through `chunk`. `Wal` sequences
-- the record codecs of `Payload` into states and deltas; its decoder is the one over a reader, which
-- stands for the bytes that the reader yields. `Adjacency` keeps its chunks and its removed ids in
-- tables of `PagedMap`, and an edge list is judged by the ids that it yields; `Compaction` replaces
-- one list of such a table.
--
-- Bounds and fuel. A nested value is decoded with as many levels as maxBinaryValueDepth leaves, so a
-- deeper value is the code's own error. A variable-length integer takes at most ten bytes. The loop
-- that copies skip pointers runs on the length of the chain, since each round steps further back.
-- The loops over an edge list's ids and chunks run on the number of ids, and a round covers 64 of
-- them. A power takes 64 rounds for the 63 bits of an exponent, and the scans of a text take a byte at
-- least in each round. Eviction runs on the length of the list of records, of which a round removes
-- one. All other loops are structural recursion. Sums and products of byte counts saturate at
-- 2^64 - 1 as in the code, and unsigned arithmetic is written with its wrap-around.
--
-- Not modelled. Of the codec: writers that fail, failing readers, the admitAllocation callback and the
-- conversion between property maps in memory and their persisted form. Of the log and checkpoint
-- codecs: the writers that walk the live graph or stream store, and the JSON form. Of the streams: the
-- page source, context cancellation, read budgets and the operations of the write-ahead log. Copying
-- a map before the first write and cloning a payload have no counterpart, because stores, maps and
-- payloads are values here: `Fork` and `CloneShardOnce` of the paged map leave a value alone. Of the
-- paged map also: its iterators. Of the compactor: the fields of the graph that it only copies. Of the
-- query language: floating-point arithmetic, the substring search, the sort itself, the lexer and
-- parsers, planning and execution, the pool of budgets and the ledger of source records. Of the
-- repository: the page store but for its record cache, indexes, recovery and checkpoints, the engine with its transactions and
-- locks, vector search, the exporter and the public package.
pub mod Base
pub mod Payload
pub mod PageRecords
pub mod Stream
pub mod Porter
pub mod Levenshtein
pub mod Wal
pub mod PagedMap
pub mod Adjacency
pub mod Compaction
pub mod Query
pub mod RecordCache
