-- ===== src/Lib.antt =====
-- eavt-sql, the Go implementation (go/internal): an immutable entity-attribute-value database. A
-- write becomes keys of up to four indexes (eavt/keys.go), which enter the memtable
-- (memtable/memtable.go); a flush freezes the memtable's runs and writes them as pages of
-- copy-on-write B-trees (pagestore), whose roots are published; reads merge both.
--
-- Files. Prelude: shared names, tests, lists, and Prelude/Search for the binary search that the
-- program writes out in several places. Bytes/Order: CmpKeys and CmpSeq. Bytes/Int: int64 and
-- uint64 and big-endian bytes. Memtable: go/internal/memtable/memtable.go, with Memtable/Record for
-- the record layout, Memtable/Run for one sorted run and the sorting that makes it, Memtable/Ladder
-- for the state of the table and every operation on it, Memtable/Ladder/Read for its lookups,
-- Memtable/Drain for the drains of a flush, and Memtable/Cursor for run_cursor.go. Pagestore:
-- go/internal/pagestore, with Varint, Page (pages.go and the index pages of types.go), Flat
-- (flat.go), Cache (cache.go), Root (roots and prefix ranges of types.go) and Store (store.go and
-- gc.go): Store/Write has the pages, the levels and the merge of a subtree, Store/Commit the merge
-- of all column families, Store/Pairs the merge of pairs, Store/Gc the collection; Store/Chain says
-- what a tree holds, and Store/Levels, Store/Subtree and Store/Commit follow the levels, one node
-- and one root. Msgpack: go/internal/msgpack, with Value, Encode and Decode for msgpack.go and
-- Inject for scan.go. Kvstore: the journal of go/internal/kvstore/kvstore.go, with Journal for the
-- records and their parser and Replay for replayJournals. Wal: go/internal/wal/wal.go, with the
-- writer's state, the sink, the boundaries and the drain in Wal itself and deleteDurable and Attach
-- in Wal/Segments; Wal/Log says what the files and the buffer hold, Wal/Reachable which states
-- there are, and Wal/Recovery joins the log to the parser of the store. Hydrated: the arena of keys
-- of go/internal/hydrated/hydrated.go. Eavt: Keys and Values for go/internal/eavt/keys.go and the
-- value types. Tests: runs and instances at concrete inputs.
--
-- A byte is a number; a byte string is a list of numbers, and a theorem that needs bytes below 256
-- says so. Results -1, 0 and 1 of a comparison are the three orderings. An int64 is an integer with
-- its two's complement pattern, a uint64 a number below 2 ^ 64, a float its 64-bit pattern. Where
-- the code ors shifted values of disjoint bits the model adds them. Panics are a result of their
-- own where the code can reach them: none in Memtable and Hydrated, panic in Pagestore and Msgpack.
--
-- The file system of the log maps segment numbers to bytes. Each write, opening and removal takes
-- the next of a list of outcomes: a write may fail after any number of bytes, an opening before or
-- after the file is made. Attach takes what the listing of the directory returned, complete or cut
-- short by an error that the code ignores. The writer's mutex makes each of its operations one
-- step.
--
-- Go's sort.Slice is an insertion sort by the same comparison. The memtable's mutex makes each of
-- its operations one step, so an operation is a function from state to state; the arrays by column
-- family are one function of the family.
--
-- The page store stands over a backend that is a record of its methods over an unknown state, since
-- its blobs are files or objects in a network; zstd is its encoder and decoder. The theorems name
-- what they use: that a put is accepted under a fresh identifier and keeps the other blobs, that a
-- frame is decoded, and that a deletion leaves the other blobs. A height is a byte, and where it
-- could pass 255 a theorem speaks of the height itself. The index into the new keys that
-- mergeSubtree moves is the list of the keys that are left; the workers of blobPutPages write
-- independent blobs, here in order.
--
-- Fuel: the binary search takes the length of the list, the page splitter and the string codec the
-- length of their input; a varint takes ten rounds, the number after which the code's shift test
-- fails; an eviction takes the number of entries, a drain of the memtable and a cursor the number
-- of records; the decoder of msgpack takes one level more than there are bytes, the journal's
-- parser and its resynchronization one round more, a drain of the log two rounds, and the loop of
-- buildIndexTree as many rounds as there are entries. The theorems on these functions hold at that
-- fuel.
--
-- Not modelled: the yield callback of the drains, the reads and cursors over the page store's
-- trees, the backends of the blob store and zstd compression, the fsync and the ticker of the
-- write-ahead log and its replication snapshot, the flush of the key-value store, the query
-- compiler and virtual machine, whether the machine has the memory that a decoder asks for before
-- it reads, and all network and file I/O but the log's.
pub mod Prelude
pub mod Bytes
pub mod Memtable
pub mod Pagestore
pub mod Msgpack
pub mod Kvstore
pub mod Wal
pub mod Hydrated
pub mod Eavt
pub mod Tests
