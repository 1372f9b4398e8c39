-- ===== src/Diff.antt =====
-- pr_agent/algo/pr_processing.py: from the files of a pull request to diffs that fit a model.
pub mod Pack
pub mod Clip
pub mod Compress
pub mod Extended
pub mod Multi
pub mod Single
