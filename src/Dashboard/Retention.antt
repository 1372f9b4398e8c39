-- ===== src/Dashboard/Retention.antt =====
-- The end of stale and old reviews: `_maintain_review_rows` of pr_agent/dashboard/storage.py.
use achord_review.Prelude.{ℕ, ◌+◌, ◌-◌, ◌*◌, Bool, ◌&&◌, not, length, keep, any, ltb, ◌==◌}
use achord_review.Text.{Text, codes}
use achord_review.Dashboard.Reviews.{Review, Store, Limits, is_running, failed, close, update}

-- Deleting reviews deletes their findings.
unfoldable pub delete_reviews : (Review → Bool) → Store → Store
delete_reviews here store =
    let kept = keep (λ row. not (here row)) store.reviews in
    record store {
      reviews = kept;
      issues = keep (λ issue. any (λ row. row.id == issue.0) kept) store.issues;
    }

abbrev pub stale_message : Text
stale_message = codes "审查进程未正常结束（服务重启或 worker 中断）"

-- Runs without a heartbeat are closed.
unfoldable pub close_stale : Limits → ℕ → Store → Store
unfolding update
close_stale limits now store =
    (update
      (λ row. is_running row.status && ltb (row.heartbeat_at + limits.stale_review_seconds) now)
      (λ row. record (close failed now row) { error_message = stale_message }) store).0

-- Of the closed reviews, those past the retention go.
unfoldable pub delete_old : Limits → ℕ → Store → Store
unfolding delete_reviews
delete_old limits now = delete_reviews (λ row.
    not (is_running row.status)
    && ltb (row.created_at + limits.review_retention_days * 24 * 3600) now)

-- Of the closed reviews, as many of the newest stay as the running ones leave room for.
unfoldable pub delete_excess : Limits → Store → Store
unfolding delete_reviews
delete_excess limits store =
    let terminal_limit =
      limits.max_review_records - length (keep (λ row. is_running row.status) store.reviews) in
    let newer = λ (row : Review).
      length (keep (λ other. not (is_running other.status) && ltb row.id other.id) store.reviews) in
    delete_reviews (λ row. not (is_running row.status) && not (ltb (newer row) terminal_limit))
      store

-- `_maintain_review_rows`, as far as it is about reviews
unfoldable pub maintain_review_rows : Limits → ℕ → Store → Store
unfolding close_stale delete_old delete_excess
maintain_review_rows limits now store =
    delete_excess limits (delete_old limits now (close_stale limits now store))
