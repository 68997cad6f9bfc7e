-- ===== src/Bytes.antt =====
-- Byte strings.
pub mod Order
pub mod Int
