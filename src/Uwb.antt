-- ===== src/Uwb.antt =====
-- The ultra-wideband link of the Master: src/Master/src/uwb.
pub mod Hex
pub mod Frame
pub mod Slots
pub mod Http
pub mod Link
pub mod Interface
