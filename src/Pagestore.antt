-- ===== src/Pagestore.antt =====
-- go/internal/pagestore: the byte formats of the copy-on-write page store, the page cache, the write
-- path over the blob store and the collection.
pub mod Outcome
pub mod Varint
pub mod Page
pub mod Flat
pub mod Root
pub mod Cache
pub mod Range
pub mod Store
