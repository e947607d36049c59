-- ===== src/Worker/Metrics.antt =====
-- cmd/worker/worker_metrics.go: the page of a worker.
pub mod Laws
use relentless_bookworm.Base.{
  zero, suc, ℤ, ℕ, Bool, Option, none, some, List, [], ◌∷◌, ◌++◌, if◌then◌else◌, Bytes, codes,
}
use relentless_bookworm.Text.{bytes_eq, replace_all}
use relentless_bookworm.Exposition.{Page, only_get, sample_lines}
use relentless_bookworm.Commit.{Coordinator}
use relentless_bookworm.Worker.State.{World}
use relentless_bookworm.Worker.Histogram.{
  Histogram, fetch_latency_buckets, commit_latency_buckets, append_histogram, join, observe_latency,
  new_histogram,
}

unfoldable pub escape_metric_label : Bytes → Bytes
escape_metric_label s =
    replace_all (replace_all s b'\\' (b'\\' ∷ b'\\' ∷ [])) b'"' (b'\\' ∷ b'"' ∷ [])

-- The counters of the jobs.
abbrev pub job_counters : World → List (Bytes × ℕ)
job_counters w =
    (codes "relentless_worker_up", 1)
    ∷ (codes "relentless_worker_jobs_received_total", w.jobs_received)
    ∷ (codes "relentless_worker_jobs_skipped_total", w.jobs_skipped)
    ∷ (codes "relentless_worker_jobs_success_total", w.jobs_success)
    ∷ (codes "relentless_worker_jobs_failed_total", w.jobs_failed)
    ∷ []

-- The counters and gauges below.
abbrev pub commit_counters : World → Coordinator → List (Bytes × ℕ)
commit_counters w c =
    (codes "relentless_worker_rate_limit_hits_total", w.rate_limit_hits)
    ∷ (codes "relentless_worker_commit_errors_total", c.commit_errors)
    ∷ (codes "relentless_worker_commit_pending_total", c.pending_total)
    ∷ (codes "relentless_worker_in_flight", w.in_flight)
    ∷ []

-- The latencies of commits: each call of CommitMessages is observed, and `elapsed n` is what time.Since
-- gives at the n-th.
unfoldable pub commit_latency : (ℕ → ℤ) → ℕ → Histogram
unfolding observe_latency new_histogram
commit_latency elapsed zero = new_histogram commit_latency_buckets
commit_latency elapsed (suc n) =
    observe_latency commit_latency_buckets (elapsed n) (commit_latency elapsed n)

-- `quote` is `%q` of fmt, and `seconds_text` what `%.6f` makes of a sum.
module _ (quote : Bytes → Bytes) (seconds_text : ℕ → Bytes) where
  abbrev pub proxy_lines : Bytes → Bytes
  proxy_lines url =
      if bytes_eq url []
      then []
      else codes "# HELP relentless_worker_proxy_info Proxy URL this worker uses (1 when set).\n"
        ++ (codes "# TYPE relentless_worker_proxy_info gauge\n"
            ++ (codes "relentless_worker_proxy_info{proxy="
                ++ (quote (escape_metric_label url) ++ codes "} 1\n")))

  abbrev pub rate_limit_help : Bytes
  rate_limit_help =
      codes
        "# HELP relentless_worker_rate_limit_hits_total Open Library HTTP 429 (rate limit) responses.\n"
      ++ codes "# TYPE relentless_worker_rate_limit_hits_total counter\n"

  abbrev pub fetch_help : Bytes
  fetch_help =
      codes "# HELP relentless_worker_fetch_latency_seconds Open Library fetch latency.\n"
      ++ codes "# TYPE relentless_worker_fetch_latency_seconds histogram\n"

  abbrev pub fetch_lines : Histogram → Option Bytes
  fetch_lines h = join (some fetch_help) (
      append_histogram seconds_text 2 (codes "relentless_worker_fetch_latency_seconds")
        fetch_latency_buckets h)

  abbrev pub commit_help : Bytes
  commit_help =
      codes "# HELP relentless_worker_commit_latency_seconds Kafka commit latency.\n"
      ++ codes "# TYPE relentless_worker_commit_latency_seconds histogram\n"

  abbrev pub commit_lines : Histogram → Option Bytes
  commit_lines h = join (some commit_help) (
      append_histogram seconds_text 3 (codes "relentless_worker_commit_latency_seconds")
        commit_latency_buckets h)

  unfoldable pub metrics_body : Bytes → World → Coordinator → (ℕ → ℤ) → Option Bytes
  unfolding escape_metric_label append_histogram sample_lines commit_latency
  metrics_body proxy_url w c elapsed =
      join
        (some (
          sample_lines (job_counters w)
          ++ (proxy_lines proxy_url ++ (rate_limit_help ++ sample_lines (commit_counters w c)))))
        (join (fetch_lines w.fetch_latency) (commit_lines (commit_latency elapsed c.calls)))

  abbrev pub page_of : Bytes → Option Bytes → Option Page
  page_of method none = none
  page_of method (some body) = some (only_get method body)

  -- `none` is a panic.
  unfoldable pub handle_metrics : Bytes → Bytes → World → Coordinator → (ℕ → ℤ) → Option Page
  unfolding metrics_body only_get
  handle_metrics method proxy_url w c elapsed = page_of method (metrics_body proxy_url w c elapsed)
