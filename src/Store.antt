-- ===== src/Store.antt =====
-- The replicated document store (src/switchboard-core/src/replicated-doc-store.ts): documents with
-- optimistic revisions, a change feed, leases, and the variant that keeps its snapshot in a file.
pub mod Dict
pub mod Types
pub mod Revision
pub mod Documents
pub mod Writes
pub mod Leases
pub mod Trace
pub mod Feed
pub mod Stale
pub mod Exclusion
pub mod Files
pub mod Tests
