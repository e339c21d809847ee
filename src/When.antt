-- ===== src/When.antt =====
-- services/types/when.go: which branches, tags and refs a `when` includes.
pub mod Match
pub mod Verdict
