-- ===== src/Kvstore.antt =====
-- go/internal/kvstore: the store that joins the memtable, the journal and the page store.
pub mod Journal
pub mod Replay
