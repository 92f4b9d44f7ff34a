-- ===== src/Marshal.antt =====
-- marshal.go: text that is printed.
pub mod Quote
mod Examples
