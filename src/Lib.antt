-- ===== src/Lib.antt =====
-- Verification library for the review agent: the code that turns a pull request into diffs for a
-- model, and the bookkeeping around the calls to it.
--
-- The program reads the changed files of a pull request from a git provider (pr_agent/git_providers),
-- cuts and annotates their patches, packs them into as many tokens as the model takes (pr_agent/algo),
-- asks the models one after the other until one answers, and publishes the review.  This library models
-- the parts that decide what the model sees, what is published and what is kept of it:
--
--   Types.antt: pr_agent/algo/types.py, and the token counter that the diff code calls.
--   Patch.antt and Patch/: pr_agent/algo/git_patch_processing.py.  Header has the hunk header; Deletions
--   has `omit_deletion_hunks` and `handle_patch_deletions`; Numbered has
--   `decouple_and_convert_to_hunks_with_lines_numbers`; Extend and Extend/Layout have `extend_patch`;
--   Selection has `extract_hunk_lines_from_patch`.
--   A loop of the source is a step on a record of its variables, folded over the lines.
--   Diff.antt and Diff/: pr_agent/algo/pr_processing.py.  Pack has `generate_full_patch`, Compress has
--   `pr_generate_compressed_diff`, Extended has `pr_generate_extended_diff`, Single has `get_pr_diff`,
--   Multi has `get_pr_multi_diffs`; Clip has `clip_tokens` and `get_max_tokens` of
--   pr_agent/algo/utils.py.
--   Fallback.antt and Fallback/: `retry_with_fallback_models` of pr_agent/algo/pr_processing.py, and the
--   messages that it raises.
--   RunDetails.antt: pr_agent/algo/run_details.py.
--   Languages.antt: pr_agent/algo/language_handler.py.
--   Inline.antt and Inline/: pr_agent/algo/inline_comment_dedup.py, its markers and its store.
--   RepoContext.antt and RepoContext/: pr_agent/algo/repo_context.py.  Render has the two renderings of
--   the instruction files, Cache has `_RepoContextCache` and `build_repo_context` on its caches.
--   RelatedFiles.antt and RelatedFiles/: pr_agent/algo/related_files.py.  Paths has `_rank_candidates` and
--   the globs of paths that are never offered, Search has `_candidates_that_fit` and the binary search,
--   Select has `_parse_selection`, Collect has `collect_related_files`, Rendered has
--   `render_related_files`.
--   Review.antt and Review/: pr_agent/algo/review_parser.py.
--   Dashboard.antt and Dashboard/: pr_agent/dashboard/storage.py.  Payload has the bounds on what is stored,
--   Reviews the statements on the tables of reviews, Retention `_maintain_review_rows`, Life the calls as
--   steps, Transaction `_transaction` with its attempts and what its callers report,
--   Login `verify_login_attempt`.
--   DiffParsing.antt and DiffParsing/: pr_agent/git_providers/diff_parsing.py, the original of a file from
--   the changed one and its patch.
--   Verdict.antt and Verdict/: the verdict of pr_agent/tools/pr_reviewer.py, from the parsed review to the
--   one review that is published; the git provider is a record of operations.
--   TimedDict.antt: `DefaultDictWithTimeout` of pr_agent/servers/utils.py.
--   PublishLock.antt: pr_agent/algo/publish_lock.py, as steps of processes that share a lock file.
--   Prelude and Text: shared names, and the operations of Python's `str` on lists of code points, with
--   `fnmatch` and `html.escape`.  Yaml: what a model's answer is read into.
--   Tests: runs on small inputs, and the theorems applied to them.
--
-- Loops are structural recursion, but for three that run on fuel.  The decimal notation of a number
-- has the number itself and one more, while each round divides by ten.  The lengthening of a code
-- fence has the length of the content and one more, since a fence longer than the content does not
-- occur in it.  The binary search has its upper end, while each round lessens the interval.
--
-- Parameters: `PatchSet` of the package unidiff is a function to the files of a patch; the
-- tokenizer (a package) is a function from a text to a number of tokens; the product of floating-
-- point numbers in `clip_tokens` is a function of its three inputs; a prediction is a function of
-- the model and the caller's state; the settings are records; what a git provider and a model
-- answer to the collection of related files are functions, and so is the search for credentials. A
-- row of a table is a record, a statement of SQL a function on the rows; an attempt of a
-- transaction has what other processes do before it and how it ends.
--
-- Simplifications: the digits of a hunk header are the ASCII ones, and `lower` and `upper` change
-- ASCII letters only, and `int` reads ASCII digits and texts below its limit of digits; the
-- settings for extra lines are natural numbers; `repr` in the message about all models takes code
-- points beyond ASCII as printable; costs are multiples of a unit, and the rounding of decimals
-- does not occur.
--
-- Not modelled: the clients of the git hosts, the servers, the other tables and the views of the
-- dashboard, the tools that build prompts and render answers, the configuration and the logging,
-- which are input and output or glue around packages; the fingerprints of the body and the code of
-- a comment; the clock of the run details.
pub mod Prelude
pub mod Text
pub mod Types
pub mod Yaml
pub mod Verdict
pub mod DiffParsing
pub mod Dashboard
pub mod Review
pub mod Patch
pub mod Diff
pub mod RelatedFiles
pub mod RepoContext
pub mod RunDetails
pub mod Fallback
pub mod Inline
pub mod PublishLock
mod Tests
pub mod Languages
pub mod TimedDict
