-- ===== src/Tests.antt =====
-- Runs of the models on small inputs, and the theorems applied to them.
mod Patches
mod Diffs
mod Groups
mod Runs
mod Timed
mod Context
mod Related
mod Reviews
mod Parsing
mod Logins
mod Verdicts
