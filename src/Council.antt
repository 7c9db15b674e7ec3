-- ===== src/Council.antt =====
-- src/plugins/builtin/council/index.ts: the code review council.
pub mod Chunker
pub mod Diff
pub mod Reviewer
