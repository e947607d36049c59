-- ===== src/Worker/Metrics/Laws.antt =====
-- Labels, and what can be read off the page.
use relentless_bookworm.Base.{
  ◌%◌, ◌^◌, ◌∙◌, arith, ◌++◌, List, length, zero, suc, ℤ, append_assoc, codes, ℕ, ◌≡◌, refl, ap,
  sym, Bool, true, false, Option, none, some, [], ◌∷◌, ◌==◌, ==_iff, subst, Bool-cases, inl, inr,
  if◌then◌else◌, Bytes,
}
use relentless_bookworm.Text.{bytes_eq, replace_all}
use relentless_bookworm.Text.Query.{has_byte}
use relentless_bookworm.Commit.{Coordinator}
use relentless_bookworm.Exposition.{Page, sample_lines}
use relentless_bookworm.Exposition.Laws.{
  wrapped, read_samples, read_samples-sample_lines, plain_names, plain_names-All,
}
use relentless_bookworm.Worker.State.{World}
use relentless_bookworm.Worker.Histogram.{
  fetch_latency_buckets, commit_latency_buckets, observe_latency, append_histogram, join,
}
use relentless_bookworm.Worker.Histogram.Laws.{
  observe_all, append_histogram-observe_all, AscendingFrom,
}
use relentless_bookworm.Worker.Metrics.{
  job_counters, commit_latency, metrics_body, handle_metrics, fetch_lines, commit_lines, page_of,
  fetch_help, commit_help, proxy_lines, rate_limit_help, commit_counters, escape_metric_label,
}

abbrev add : ℕ → Option Bytes → Option Bytes
add c none = none
add c (some s) = some (c ∷ s)

-- How the inside of a quoted label is read: a backslash takes the next byte as it is, and a quote
-- would end the label. The first argument is whether a backslash is before the text.
unfoldable pub read_label : Bool → Bytes → Option Bytes
read_label true [] = none
read_label false [] = some []
read_label true (c ∷ s) = add c (read_label false s)
read_label false (c ∷ s) =
    let escaped = read_label true s in
    let plain = read_label false s in
    if c == b'\\' then escaped else if c == b'"' then none else add c plain

-- A label that is escaped is read back as it was, whatever quotes and backslashes it has.
pub read_label-escape_metric_label : (s : Bytes) → read_label false (escape_metric_label s) ≡ some s
unfolding read_label escape_metric_label replace_all
read_label-escape_metric_label [] = refl
read_label-escape_metric_label (c ∷ s) =
    let h = read_label-escape_metric_label s in
    let P = λ (d : ℕ). read_label false (escape_metric_label (d ∷ s)) ≡ some (d ∷ s) in
    elim (Bool-cases (c == b'\\')) [
      | inl backslash ↦ subst P (sym ((==_iff c b'\\').0 backslash)) (ap (add b'\\') h)
      | inr other ↦ elim (Bool-cases (c == b'"')) [
        | inl quote ↦ subst P (sym ((==_iff c b'"').0 quote)) (ap (add b'"') h)
        | inr plain ↦ rw (other, plain, other, plain, h) refl
      ]
    ]

-- The durations that were observed at the first n commits, the last one first.
abbrev durations : (ℕ → ℤ) → ℕ → List ℤ
durations elapsed zero = []
durations elapsed (suc n) = elapsed n ∷ durations elapsed n

commit_latency-observe_all :
    (elapsed : ℕ → ℤ) (n : ℕ)
    → commit_latency elapsed n ≡ observe_all commit_latency_buckets (durations elapsed n)
unfolding commit_latency observe_all
commit_latency-observe_all elapsed zero = refl
commit_latency-observe_all elapsed (suc n) =
    ap (observe_latency commit_latency_buckets (elapsed n)) (commit_latency-observe_all elapsed n)

job_names : (w : World) → plain_names (job_counters w) ≡ true
unfolding plain_names has_byte
job_names w = refl

fetch_buckets_ascend : AscendingFrom 0 fetch_latency_buckets
fetch_buckets_ascend = ground arith

commit_buckets_ascend : AscendingFrom 0 commit_latency_buckets
commit_buckets_ascend = ground arith

join-some :
    (a : Bytes) (x : Option Bytes) (t : Bytes)
    → x ≡ some t
    → (u : Bytes) × (join (some a) x ≡ some u)
join-some a x t e = (a ++ t, ap (join (some a)) e)

join_both :
    (a : Bytes) (x y : Option Bytes) (f g : Bytes)
    → x ≡ some f
    → y ≡ some g
    → join (some a) (join x y) ≡ some (a ++ (f ++ g))
join_both a x y f g e h = rw (e, h) refl

read_front :
    (samples : List (Bytes × ℕ)) (front back : Bytes)
    → plain_names samples ≡ true
    → read_samples (length samples) ((sample_lines samples ++ front) ++ back)
      ≡ some (wrapped samples, front ++ back)
read_front samples front back h =
    ap (read_samples (length samples)) (append_assoc (sample_lines samples) front back)
    ∙ read_samples-sample_lines samples (front ++ back) (plain_names-All samples h)

module _ (quote : Bytes → Bytes) (seconds_text : ℕ → Bytes) (proxy_url : Bytes) (w : World)
    (c : Coordinator) (elapsed : ℕ → ℤ) where
  -- What stands behind the counters of the jobs, before the histograms.
  middle : Bytes
  middle =
      proxy_lines quote seconds_text proxy_url
      ++ (rate_limit_help quote seconds_text ++ sample_lines (commit_counters w c))

  fetch_lines-some :
      (ds : List ℤ)
      → (t : Bytes) × (fetch_lines quote seconds_text (observe_all fetch_latency_buckets ds)
          ≡ some t)
  fetch_lines-some ds = join-some (fetch_help quote seconds_text) _ _ (
      append_histogram-observe_all seconds_text 2 (codes "relentless_worker_fetch_latency_seconds")
        fetch_latency_buckets ds fetch_buckets_ascend)

  commit_lines-some :
      (n : ℕ) → (t : Bytes) × (commit_lines quote seconds_text (commit_latency elapsed n) ≡ some t)
  commit_lines-some n = join-some (commit_help quote seconds_text) _ _ (
      ap
        (append_histogram seconds_text 3 (codes "relentless_worker_commit_latency_seconds")
          commit_latency_buckets)
        (commit_latency-observe_all elapsed n)
      ∙ append_histogram-observe_all seconds_text 3
          (codes "relentless_worker_commit_latency_seconds") commit_latency_buckets
          (durations elapsed n) commit_buckets_ascend)

  metrics_body-some :
      (ds : List ℤ)
      → w.fetch_latency ≡ observe_all fetch_latency_buckets ds
      → (rest : Bytes) × (metrics_body quote seconds_text proxy_url w c elapsed
          ≡ some ((sample_lines (job_counters w) ++ middle) ++ rest))
  unfolding metrics_body middle
  metrics_body-some ds e =
      let (f, first) = fetch_lines-some ds in
      let (l, second) = commit_lines-some c.calls in
      (
        f ++ l,
        join_both (sample_lines (job_counters w) ++ middle) _ _ f l
            (ap (fetch_lines quote seconds_text) e ∙ first) second,
      )

  -- The page of a worker is made in every state, whatever durations its fetches and commits took: no
  -- index of the histograms is out of range. A GET is answered with status 200, and the five samples
  -- at the front of the page are read back as 1 and the jobs that were received, skipped, done with
  -- success and failed, each under its name and modulo 2^64.
  pub handle_metrics_read :
      (ds : List ℤ)
      → w.fetch_latency ≡ observe_all fetch_latency_buckets ds
      → (page : Page) × (rest : Bytes) × (handle_metrics quote seconds_text
            (codes "GET")
            proxy_url
            w
            c
            elapsed
          ≡ some page)
        × (page.status_code ≡ 200)
        × (read_samples 5 page.body
            ≡ some (
              (codes "relentless_worker_up", 1)
                  ∷ (codes "relentless_worker_jobs_received_total", w.jobs_received % 2 ^ 64)
                  ∷ (codes "relentless_worker_jobs_skipped_total", w.jobs_skipped % 2 ^ 64)
                  ∷ (codes "relentless_worker_jobs_success_total", w.jobs_success % 2 ^ 64)
                  ∷ (codes "relentless_worker_jobs_failed_total", w.jobs_failed % 2 ^ 64)
                  ∷ [],
              rest,
            ))
  unfolding handle_metrics bytes_eq
  handle_metrics_read ds e =
      let (rest, body) = metrics_body-some ds e in
      (
        _,
        middle ++ rest,
        ap (page_of quote seconds_text (codes "GET")) body,
        refl,
        read_front (job_counters w) middle rest (job_names w),
      )
