-- ===== src/Pagestore/Store/Levels.antt =====
-- The levels that the write path builds (`blobPutPages`, `putPageList`, `putIndexPages`,
-- `writeIndexLevel` of go/internal/pagestore/store.go).
pub mod Pages
pub mod Leaf
pub mod Sizes
pub mod Index
pub mod Root
