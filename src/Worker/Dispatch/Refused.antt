-- ===== src/Worker/Dispatch/Refused.antt =====
-- A search that robots.txt refuses.
use relentless_bookworm.Base.{
  ℕ, zero, suc, ◌+◌, ◌*◌, ◌≡◌, refl, ap, ◌∙◌, true, false, Option, none, List, [], ◌∷◌, ◌++◌, ltb,
  if_elim, Bytes,
}
use relentless_bookworm.Result.{Error, Result, ok, err, robots_disallows}
use relentless_bookworm.Models.{CrawlJob, Node}
use relentless_bookworm.Commit.{Message}
use relentless_bookworm.Ol.Robots.{allowed}
use relentless_bookworm.Worker.State.{Env, Config, World}
use relentless_bookworm.Worker.Publish.{publish_result, publish_dlq}
use relentless_bookworm.Worker.Expand.{publish_edges_and_frontier, is_search_url}
use relentless_bookworm.Worker.Frame.{publish_dlq-Writes, expand_search-fetched}
use relentless_bookworm.Worker.Fetch.{
  capped, job_path, handle_job, retry_loop, handle_job_with_retry,
}
use relentless_bookworm.Worker.Dispatch.{release, publish_phase, after_job, process_job_async}

-- It failed, and nothing was fetched on the way.
abbrev Idle : World → Result (Option Node) × World → Type 0
Idle w r = ((e : Error) × (r.0 ≡ err e)) × (r.1.fetched ≡ w.fetched)

module _ (env : Env) (cfg : Config) (job : CrawlJob)
    (refused : allowed cfg.robots (job_path env cfg job) ≡ false) where
  pub handle_job-refused :
      (w : World) → handle_job env cfg job w ≡ (err (robots_disallows (job_path env cfg job)), w)
  unfolding handle_job
  handle_job-refused w = rw refused

  retry_loop-Idle : (n delay : ℕ) (w : World) → Idle w (retry_loop env cfg job n delay w)
  unfolding retry_loop
  retry_loop-Idle zero delay w = rw (handle_job-refused w) ((_, refl), refl)
  retry_loop-Idle (suc n) delay w = rw (handle_job-refused w) (
      if_elim (Idle w) (ltb 0 delay) _ _
        (λ _.
          if_elim (Idle w) (env.expired w.tick) _ _ (λ _. ((_, refl), refl))
            (λ _. retry_loop-Idle n (capped cfg delay * 2) _))
        (λ _. retry_loop-Idle n delay w))

  module _ (msg : Message) (is_search : is_search_url job.url ≡ true)
      (in_time : (n : ℕ) → env.expired n ≡ false) where
    publish_phase-fetched :
        (u : World) → (publish_phase env cfg msg job none u).fetched ≡ u.fetched ++ job.url ∷ []
    unfolding publish_phase publish_result publish_edges_and_frontier
    publish_phase-fetched u =
        rw (in_time u.tick) (rw is_search (expand_search-fetched env cfg job u))

    after_job-fetched :
        (r : Result (Option Node) × World) (w : World)
        → Idle w r
        → (after_job env cfg msg job r).fetched ≡ w.fetched ++ job.url ∷ []
    unfolding after_job
    after_job-fetched (ok n, v) w ((_, k), f) = cc
    after_job-fetched (err e, v) w (_, f) =
        let u = record v { jobs_failed = v.jobs_failed + 1 } in
        publish_phase-fetched (publish_dlq env cfg job e u).1
        ∙ ap (λ (l : List Bytes). l ++ job.url ∷ [])
            ((publish_dlq-Writes env cfg job e u).fetched ∙ f)

  -- When robots.txt refuses the path of a search job, and the job's contexts do not end, its URL is
  -- fetched all the same, exactly once, and no other URL is fetched.
  pub robots_passed_by :
      (msg : Message) (w : World)
      → is_search_url job.url ≡ true
      → ((n : ℕ) → env.expired n ≡ false)
      → (process_job_async env cfg msg job w).fetched ≡ w.fetched ++ job.url ∷ []
  unfolding process_job_async release handle_job_with_retry
  robots_passed_by msg w is_search in_time =
      after_job-fetched msg is_search in_time (handle_job_with_retry env cfg job w) w
        (retry_loop-Idle cfg.retry_max cfg.retry_base w)
