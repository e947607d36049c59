-- ===== src/Worker/Dispatch/Commits.antt =====
-- What each message leads to: a commit, a job, or neither.
use relentless_bookworm.Base.{
  ℕ, ◌+◌, ◌-◌, ◌≡◌, refl, ◌∙◌, ap, Option, none, List, [], ◌∷◌, ◌++◌, if_elim,
}
use relentless_bookworm.Result.{Result, ok, err}
use relentless_bookworm.Models.{CrawlJob, Node}
use relentless_bookworm.Commit.{Message}
use relentless_bookworm.Worker.State.{Env, Config, World}
use relentless_bookworm.Worker.Publish.{publish_result, publish_dlq}
use relentless_bookworm.Worker.Frame.{
  Same, Same-refl, Same-trans, publish_result-Writes, publish_dlq-Writes,
  publish_edges_and_frontier-Same,
}
use relentless_bookworm.Worker.Fetch.{handle_job_with_retry}
use relentless_bookworm.Worker.Fetch.Retry.{handle_job_with_retry-Attempted}
use relentless_bookworm.Worker.Dispatch.{release, publish_phase, after_job, process_job_async}

module _ (env : Env) (cfg : Config) (msg : Message) where
  publish_phase-Same :
      (job : CrawlJob) (node : Option Node) (w : World)
      → Same w (publish_phase env cfg msg job node w)
  unfolding publish_phase
  publish_phase-Same job node w =
      if_elim (Same w) (env.expired w.tick) _ _ (λ _. Same-refl w)
        (λ _.
          let v = (publish_result env cfg job node w).1 in
          let p = (publish_result-Writes env cfg job node w).same in
          if_elim (Same w) (env.expired v.tick) _ _ (λ _. p)
            (λ _. Same-trans p (publish_edges_and_frontier-Same env cfg job node v)))

  after_job-Same :
      (job : CrawlJob) (r : Result (Option Node)) (w : World)
      → Same w (after_job env cfg msg job (r, w))
  unfolding after_job
  after_job-Same job (ok node) w =
      Same-trans
        (record {
          commits = refl;
          in_flight = refl;
          slots = refl;
          sent_at = refl;
          waits = refl;
          visited = refl;
        })
        (publish_phase-Same job node (record w { jobs_success = w.jobs_success + 1 }))
  after_job-Same job (err e) w =
      let u = record w { jobs_failed = w.jobs_failed + 1 } in
      Same-trans
        (Same-trans
          (record {
            commits = refl;
            in_flight = refl;
            slots = refl;
            sent_at = refl;
            waits = refl;
            visited = refl;
          })
          (publish_dlq-Writes env cfg job e u).same)
        (publish_phase-Same job none (publish_dlq env cfg job e u).1)

  -- However a job goes (a refusal by robots.txt, failed attempts, failed writes, a timeout), its
  -- goroutine sends its message to the coordinator exactly once, behind the last of its calls, and
  -- gives back one slot of the semaphore and one job in flight; it marks nothing as visited.
  pub process_job_async_commits :
      (job : CrawlJob) (w : World)
      → let v = process_job_async env cfg msg job w in
        (v.commits ≡ w.commits ++ msg ∷ [])
        × (v.sent_at ≡ w.sent_at ++ v.tick ∷ [])
        × (v.slots ≡ w.slots - 1)
        × (v.in_flight ≡ w.in_flight - 1)
        × (v.visited ≡ w.visited)
  unfolding process_job_async release
  process_job_async_commits job w =
      let r = handle_job_with_retry env cfg job w in
      let a = handle_job_with_retry-Attempted env cfg job w in
      let s = after_job-Same job r.0 r.1 in
      let u = after_job env cfg msg job r in
      (
        ap (λ (l : List Message). l ++ msg ∷ []) (s.commits ∙ a.commits),
        ap (λ (l : List ℕ). l ++ u.tick ∷ []) (s.sent_at ∙ a.sent_at),
        ap (λ (n : ℕ). n - 1) (s.slots ∙ a.slots),
        ap (λ (n : ℕ). n - 1) (s.in_flight ∙ a.in_flight),
        s.visited ∙ a.visited,
      )
