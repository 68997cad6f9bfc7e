-- ===== src/Tests.antt =====
-- Runs of the definitions and instances of the theorems at concrete inputs, one module for each
-- part.
mod Table
mod Pages
mod Keys
mod Wire
mod Log
mod Arena
mod Memory
mod Store
mod Gc
