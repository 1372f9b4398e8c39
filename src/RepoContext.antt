-- ===== src/RepoContext.antt =====
-- pr_agent/algo/repo_context.py: instruction files of the repository in the prompt.
pub mod Render
pub mod Cache
