-- ===== src/Patch.antt =====
-- pr_agent/algo/git_patch_processing.py: unified-diff patches as the prompt shows them.
pub mod Header
pub mod Deletions
pub mod Numbered
pub mod Extend
pub mod Selection
