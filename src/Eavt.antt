-- ===== src/Eavt.antt =====
-- go/internal/eavt: the keys of the four indexes, and the stored values.
pub mod Keys
pub mod Values
