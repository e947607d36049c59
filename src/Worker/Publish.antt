-- ===== src/Worker/Publish.antt =====
-- publishEdge, enqueueURLToFronter, publishResult and publishDLQ: each writes one message at most.
use relentless_bookworm.Base.{
  ℕ, ◌+◌, not, ◌&&◌, Option, none, some, [], ◌∷◌, ◌++◌, ltb, leb, if◌then◌else◌, Bytes,
}
use relentless_bookworm.Result.{Error, ok, err, write_failed}
use relentless_bookworm.Models.{CrawlJob, CrawlFailure, Edge, Node, new_crawl_result}
use relentless_bookworm.Worker.State.{Env, Config, World, Exec, pure}

-- One call of WriteMessages: `put` adds the message to its topic.
unfoldable pub write_message : Env → (World → World) → Exec (Unit {0})
write_message env put w =
    if env.writes w.tick
    then (ok tt, put (record w { tick = w.tick + 1 }))
    else (err write_failed, record w { tick = w.tick + 1 })

unfoldable pub publish_edge : Env → Config → CrawlJob → Bytes → Bytes → Bytes → Exec (Unit {0})
unfolding write_message
publish_edge env cfg job from to relation =
    if not cfg.edges_writer
    then pure tt
    else write_message env (λ w. record w { edges = w.edges ++ edge ∷ [] })
  where
    edge : Edge
    edge = record { session_id = job.session_id; from = from; to = to; relation = relation }

-- The job for a URL found on the way, one level further from the seed.
abbrev pub next_job : CrawlJob → Bytes → ℕ → CrawlJob
next_job job url now = record {
  session_id = job.session_id;
  seed_url = job.seed_url;
  url = url;
  depth = job.depth + 1;
  created_at = now;
}

unfoldable pub enqueue_url_to_frontier : Env → Config → CrawlJob → Bytes → Exec (Unit {0})
unfolding write_message
enqueue_url_to_frontier env cfg job url w =
    if not cfg.frontier_writer
    then (ok tt, w)
    else if ltb 0 cfg.max_depth && leb cfg.max_depth job.depth
    then (ok tt, w)
    else write_message env
        (λ v. record v { frontier = v.frontier ++ next_job job url (env.now w.tick) ∷ [] }) w

unfoldable pub publish_result : Env → Config → CrawlJob → Option Node → Exec (Unit {0})
unfolding write_message
publish_result env cfg job none = pure tt
publish_result env cfg job (some n) =
    if not cfg.results_writer
    then pure tt
    else write_message env (λ w. record w { results = w.results ++ new_crawl_result job n ∷ [] })

unfoldable pub publish_dlq : Env → Config → CrawlJob → Error → Exec (Unit {0})
unfolding write_message
publish_dlq env cfg job e w =
    if not cfg.dlq_writer
    then (ok tt, w)
    else write_message env (λ v. record v { dlq = v.dlq ++ failure ∷ [] }) w
  where
    failure : CrawlFailure
    failure = record {
      session_id = job.session_id;
      seed_url = job.seed_url;
      url = job.url;
      depth = job.depth;
      failed_at = env.now w.tick;
    }
