-- ===== src/Util.antt =====
-- src/util.rs: hexadecimal text, and the target level of the proof of work.
pub mod Hex
pub mod Difficulty
