-- ===== src/Worker/Dispatch/Effects.antt =====
-- A rule for what a job does to the world: a relation that each single effect keeps to is kept to by
-- the whole job.
use relentless_bookworm.Base.{
  ℕ, zero, suc, ◌+◌, Option, none, List, [], ◌∷◌, ◌++◌, ltb, Bytes, Bool-cases, inl, inr, if_elim,
}
use relentless_bookworm.Result.{Error, Result, ok, err}
use relentless_bookworm.Models.{CrawlJob, Node, SearchDoc}
use relentless_bookworm.Commit.{Message}
use relentless_bookworm.Ol.Client.{ensure_json_url}
use relentless_bookworm.Ol.Parser.{parse_search_response}
use relentless_bookworm.Worker.State.{Env, Config, World, Exec, then_do}
use relentless_bookworm.Worker.Publish.{
  publish_edge, enqueue_url_to_frontier, publish_result, publish_dlq,
}
use relentless_bookworm.Worker.Expand.{
  search_docs, expand_node, expand_search, publish_edges_and_frontier, fetch_json_with_metrics,
  is_search_url,
}
use relentless_bookworm.Worker.Expand.Plan.{
  Step, link, visit, perform, perform_step, expand_node-plan, search_docs-plan, node_plan,
  search_plan,
}
use relentless_bookworm.Worker.Fetch.{
  handle_job, handle_search, crawl_work, capped, back_off, on_error, retry_loop,
  handle_job_with_retry,
}
use relentless_bookworm.Worker.Fetch.Attempt.{handle_job_cases}
use relentless_bookworm.Worker.Dispatch.{release, publish_phase, after_job, process_job_async}

-- A preorder on worlds that each effect of a job keeps to.
pub record Respected (env : Env) (cfg : Config) (msg : Message) (job : CrawlJob)
    (R : World → World → Type 0) : Type 0 where
  pub same : (w : World) → R w w
  pub then_on : (u v w : World) → R u v → R v w → R u w
  pub edge : (f t r : Bytes) (w : World) → R w (publish_edge env cfg job f t r w).1
  pub enqueue : (url : Bytes) (w : World) → R w (enqueue_url_to_frontier env cfg job url w).1
  pub result : (node : Option Node) (w : World) → R w (publish_result env cfg job node w).1
  pub dead_letter : (e : Error) (w : World) → R w (publish_dlq env cfg job e w).1
  pub fetch : (url : Bytes) (w : World) → R w (fetch_json_with_metrics env url w).1
  pub wait : (d : ℕ) (w : World) → R w (record w { waits = w.waits ++ d ∷ []; tick = w.tick + 1 })
  pub succeed : (w : World) → R w (record w { jobs_success = w.jobs_success + 1 })
  pub failing : (w : World) → R w (record w { jobs_failed = w.jobs_failed + 1 })
  pub free : (w : World) → R w (release env cfg msg w)

module _ (env : Env) (cfg : Config) (msg : Message) (job : CrawlJob) (R : World → World → Type 0)
    (h : Respected env cfg msg job R) where
  then_do-R {ℓ} :
      {A B : Type ℓ} (r : Result A) (v w : World) (f : A → Exec B)
      → R v w
      → ((a : A) (u : World) → R u (f a u).1)
      → R v (then_do r w f).1
  then_do-R (ok a) v w f p k = h.then_on v w _ p (k a w)
  then_do-R (err e) v w f p k = p

  perform_step-R : (s : Step) (w : World) → R w (perform_step env cfg job s w).1
  unfolding perform_step
  perform_step-R (link f t r) w = h.edge f t r w
  perform_step-R (visit url) w = h.enqueue url w

  perform-R : (ss : List Step) (w : World) → R w (perform env cfg job ss w).1
  unfolding perform
  perform-R [] w = h.same w
  perform-R (s ∷ ss) w =
      then_do-R (perform_step env cfg job s w).0 w (perform_step env cfg job s w).1 _
        (perform_step-R s w) (λ _ u. perform-R ss u)

  expand_node-R : (node : Option Node) (w : World) → R w (expand_node env cfg job node w).1
  expand_node-R node w = rw (expand_node-plan env cfg job node w) (perform-R (node_plan node) w)

  search_docs-R : (docs : List SearchDoc) (w : World) → R w (search_docs env cfg job docs w).1
  search_docs-R docs w =
      rw (search_docs-plan env cfg job docs) (perform-R (search_plan job.url docs) w)

  expand_search-R : (w : World) → R w (expand_search env cfg job w).1
  unfolding expand_search
  expand_search-R w =
      let b = fetch_json_with_metrics env job.url w in
      then_do-R b.0 w b.1 _ (h.fetch job.url w) (λ body u.
        then_do-R (parse_search_response env.decode body) u u _ (h.same u)
          (λ resp v. search_docs-R resp.docs v))

  edges_and_frontier-R :
      (node : Option Node) (w : World) → R w (publish_edges_and_frontier env cfg job node w).1
  unfolding publish_edges_and_frontier
  edges_and_frontier-R node w = elim (Bool-cases (is_search_url job.url)) [
    | inl e ↦ rw e (expand_search-R w)
    | inr e ↦ rw e (expand_node-R node w)
  ]

  publish_phase-R : (node : Option Node) (w : World) → R w (publish_phase env cfg msg job node w)
  unfolding publish_phase
  publish_phase-R node w =
      if_elim (R w) (env.expired w.tick) _ _ (λ _. h.same w)
        (λ _.
          let v = (publish_result env cfg job node w).1 in
          let p = h.result node w in
          if_elim (R w) (env.expired v.tick) _ _ (λ _. p)
            (λ _. h.then_on w v _ p (edges_and_frontier-R node v)))

  after_job-R : (r : Result (Option Node)) (w : World) → R w (after_job env cfg msg job (r, w))
  unfolding after_job
  after_job-R (ok node) w = h.then_on w _ _ (h.succeed w) (publish_phase-R node _)
  after_job-R (err e) w =
      let u = record w { jobs_failed = w.jobs_failed + 1 } in
      h.then_on w u _ (h.failing w)
        (h.then_on u _ _ (h.dead_letter e u) (publish_phase-R none (publish_dlq env cfg job e u).1))

  crawl_work-R : (w : World) → R w (crawl_work env cfg job w).1
  unfolding crawl_work
  crawl_work-R w =
      let b = fetch_json_with_metrics env (ensure_json_url job.url) w in
      then_do-R b.0 w b.1 _ (h.fetch _ w) (λ body u. h.same u)

  handle_search-R : (w : World) → R w (handle_search env cfg job w).1
  unfolding handle_search
  handle_search-R w =
      let b = fetch_json_with_metrics env job.url w in
      then_do-R b.0 w b.1 _ (h.fetch _ w) (λ body u.
        then_do-R (parse_search_response env.decode body) u u _ (h.same u) (λ _ v. h.same v))

  handle_job-R : (w : World) → R w (handle_job env cfg job w).1
  handle_job-R w =
      handle_job_cases env cfg job (λ r. R w r.1) w (λ _. h.same w) (λ _ _. handle_search-R w)
        (λ _ _. crawl_work-R w)

  on_error-R :
      (v : World) (r : Result (Option Node)) (w : World) (f : World → Result (Option Node) × World)
      → R v w
      → R w (f w).1
      → R v (on_error env cfg job r w f).1
  on_error-R v (ok n) w f p q = p
  on_error-R v (err e) w f p q = h.then_on v w _ p q

  back_off-R :
      (again : ℕ → Exec (Option Node)) (delay : ℕ) (w : World)
      → ((d : ℕ) (u : World) → R u (again d u).1)
      → R w (back_off env cfg job again delay w).1
  back_off-R again delay w k =
      let u = record w { waits = w.waits ++ capped cfg delay ∷ []; tick = w.tick + 1 } in
      if_elim (λ (r : Result (Option Node) × World). R w r.1) (ltb 0 delay) _ _
        (λ _.
          if_elim (λ (r : Result (Option Node) × World). R w r.1) (env.expired w.tick) _ _
            (λ _. h.wait _ w) (λ _. h.then_on w u _ (h.wait _ w) (k _ u)))
        (λ _. k delay w)

  retry_loop-R : (n delay : ℕ) (w : World) → R w (retry_loop env cfg job n delay w).1
  unfolding retry_loop
  retry_loop-R zero delay w = handle_job-R w
  retry_loop-R (suc n) delay w =
      let r = handle_job env cfg job w in
      on_error-R w r.0 r.1 _ (handle_job-R w)
        (back_off-R (retry_loop env cfg job n) delay r.1 (λ d u. retry_loop-R n d u))

  -- A whole job keeps to the relation.
  pub process_job_async-R : (w : World) → R w (process_job_async env cfg msg job w)
  unfolding process_job_async handle_job_with_retry
  process_job_async-R w =
      let r = handle_job_with_retry env cfg job w in
      h.then_on w r.1 _ (retry_loop-R cfg.retry_max cfg.retry_base w)
        (h.then_on r.1 _ _ (after_job-R r.0 r.1) (h.free (after_job env cfg msg job r)))
