-- ===== src/SourceChange.antt =====
-- core/sourcechange: source snapshots, patches, proposals and the workflow over them.
pub mod Paths
pub mod Errors
pub mod Snapshot
pub mod Patch
pub mod Proposal
pub mod Sandbox
pub mod Workflow
