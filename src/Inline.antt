-- ===== src/Inline.antt =====
-- pr_agent/algo/inline_comment_dedup.py: which inline comments a pull request already has.
pub mod Markers
pub mod Store
