-- ===== src/Worker/Crawl/Grows.antt =====
-- What a message adds to the frontier.
use relentless_bookworm.Base.{
  ◌+◌, ◌≡◌, refl, sym, ◌∙◌, true, false, not, Bool, Option, none, some, List, [], ◌∷◌, ◌++◌,
  append_assoc, append-nil, arith, Bytes, All, All-append, if_elim,
}
use relentless_bookworm.Result.{Result, ok, err}
use relentless_bookworm.Models.{CrawlJob, Node}
use relentless_bookworm.Commit.{Message}
use relentless_bookworm.Worker.State.{Env, Config, World}
use relentless_bookworm.Worker.Publish.{
  publish_edge, enqueue_url_to_frontier, publish_result, publish_dlq, write_message, next_job,
}
use relentless_bookworm.Worker.Expand.{fetch_json_with_metrics}
use relentless_bookworm.Worker.Expand.Published.{IsChild, at_limit, next_job-IsChild}
use relentless_bookworm.Worker.Dispatch.{
  dedupe_key_for_job, set_nx, take_slot, after_set_nx, after_unmarshal, dispatch_message, release,
}
use relentless_bookworm.Worker.Dispatch.Effects.{Respected, process_job_async-R}
use relentless_bookworm.Worker.Crawl.{finish, work}

-- From v to w the frontier has grown by jobs that were made from `job`.
pub record Grows (cfg : Config) (job : CrawlJob) (v w : World) : Type 0 where
  pub jobs : List CrawlJob
  pub frontier : w.frontier ≡ v.frontier ++ jobs
  pub children : All (IsChild cfg job) jobs

module _ (env : Env) (cfg : Config) (msg : Message) (job : CrawlJob) where
  Grows-same : (v w : World) → w.frontier ≡ v.frontier → Grows cfg job v w
  Grows-same v w e = record { jobs = []; frontier = e ∙ sym (append-nil v.frontier); children = tt }

  Grows-trans : (u v w : World) → Grows cfg job u v → Grows cfg job v w → Grows cfg job u w
  Grows-trans u v w p q = record {
    jobs = p.jobs ++ q.jobs;
    frontier = rw (q.frontier, p.frontier, append_assoc);
    children = All-append (IsChild cfg job) p.jobs q.jobs p.children q.children;
  }

  enqueue-Grows :
      (url : Bytes) (w : World) → Grows cfg job w (enqueue_url_to_frontier env cfg job url w).1
  unfolding enqueue_url_to_frontier write_message
  enqueue-Grows url w =
      let P = λ (r : Result (Unit {0}) × World). Grows cfg job w r.1 in
      if_elim P (not cfg.frontier_writer) _ _ (λ _. Grows-same w w refl)
        (λ _.
          if_elim P (at_limit cfg job) _ _ (λ _. Grows-same w w refl)
            (λ open_.
              if_elim P (env.writes w.tick) _ _
                (λ _. record {
                  jobs = next_job job url (env.now w.tick) ∷ [];
                  frontier = refl;
                  children = (next_job-IsChild cfg job url (env.now w.tick) open_, tt);
                })
                (λ _. Grows-same w _ refl)))

  result-frontier :
      (node : Option Node) (w : World) → (publish_result env cfg job node w).1.frontier ≡ w.frontier
  unfolding publish_result
  result-frontier none w = refl
  result-frontier (some n) w = ground arith

  job-Respected : Respected env cfg msg job (Grows cfg job)
  unfolding publish_edge publish_result publish_dlq fetch_json_with_metrics release
  job-Respected = record {
    same = λ w. Grows-same w w refl;
    then_on = Grows-trans;
    edge = λ f t r w. Grows-same w _ (ground arith);
    enqueue = enqueue-Grows;
    result = λ node w. Grows-same w _ (result-frontier node w);
    dead_letter = λ e w. Grows-same w _ (ground arith);
    fetch = λ url w. Grows-same w _ refl;
    wait = λ d w. Grows-same w _ refl;
    succeed = λ w. Grows-same w _ refl;
    failing = λ w. Grows-same w _ refl;
    free = λ w. Grows-same w _ refl;
  }

  set_nx-frontier : (key : Bytes) (w : World) → (set_nx env key w).1.frontier ≡ w.frontier
  unfolding set_nx
  set_nx-frontier key w = ground arith

  slot-Grows : (w : World) → Grows cfg job w (finish env cfg msg (take_slot env cfg msg job w))
  unfolding take_slot
  slot-Grows w =
      let u = record w { tick = w.tick + 1; slots = w.slots + 1; in_flight = w.in_flight + 1 } in
      if_elim (λ d. Grows cfg job w (finish env cfg msg d)) (env.expired w.tick) _ _
        (λ _. Grows-same w _ refl)
        (λ _.
          Grows-trans w u _ (Grows-same w u refl)
            (process_job_async-R env cfg msg job (Grows cfg job) job-Respected u))

  answer-Grows :
      (v : World) (r : Result Bool × World)
      → r.1.frontier ≡ v.frontier
      → Grows cfg job v (finish env cfg msg (after_set_nx env cfg msg job r))
  unfolding after_set_nx
  answer-Grows v (err e, w) h = Grows-same v w h
  answer-Grows v (ok false, w) h = Grows-same v _ h
  answer-Grows v (ok true, w) h = Grows-trans v w _ (Grows-same v w h) (slot-Grows w)

  -- A message with a job adds just jobs to the frontier that were made from this one: one level
  -- deeper, within the limit, however its work goes.
  pub work-Grows :
      (w : World) → env.unmarshal_job msg.value ≡ some job → Grows cfg job w (work env cfg msg w)
  unfolding work dispatch_message after_unmarshal
  work-Grows w e =
      let u = record w { jobs_received = w.jobs_received + 1 } in
      rw e (
        answer-Grows w (set_nx env (dedupe_key_for_job job) u)
          (set_nx-frontier (dedupe_key_for_job job) u))
