-- ===== src/Memtable.antt =====
-- go/internal/memtable: the run ladder, the drains of a flush and the cursor over one run.
pub mod Record
pub mod Order
pub mod Pairs
pub mod Run
pub mod Drain
pub mod Ladder
pub mod Cursor
