-- ===== src/Values.antt =====
-- value.go: the values that tokens stand for.
pub mod Strings
pub mod Keys
pub mod Numbers
pub mod Classify
pub mod Readers
mod Examples
