-- ===== src/RelatedFiles.antt =====
-- The files that a change may affect: pr_agent/algo/related_files.py.
pub mod Paths
pub mod Select
pub mod Search
pub mod Collect
pub mod Rendered
