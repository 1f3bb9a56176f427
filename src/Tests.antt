-- ===== src/Tests.antt =====
-- The theorems at concrete inputs: each applies to a state of the program.
pub mod Code
pub mod Parts
pub mod Host
pub mod Work
pub mod Store
pub mod Mail
pub mod Rows
pub mod Whole
pub mod Files
pub mod Pool
pub mod Threads
