-- ===== src/Worker/Expand/Outcome.antt =====
-- What a list of steps leaves on the topics, whichever writes fail.
use relentless_bookworm.Base.{
  ◌+◌, ◌≡◌, refl, sym, subst, ap, ◌⊎◌, inl, inr, Bool, true, false, not, ◌&&◌, Option, List, [],
  ◌∷◌, ◌++◌, append-nil, arith, if◌then◌else◌, Bytes, Bool-cases,
}
use relentless_bookworm.Result.{Result, ok, err, write_failed}
use relentless_bookworm.Models.{CrawlJob, Node}
use relentless_bookworm.Worker.State.{Env, Config, World, then_do}
use relentless_bookworm.Worker.Publish.{
  publish_edge, enqueue_url_to_frontier, write_message, next_job,
}
use relentless_bookworm.Worker.Expand.Plan.{
  Step, link, visit, perform, perform_step, node_plan, expand_node-plan,
}
use relentless_bookworm.Worker.Expand.Published.{
  at_limit, edges_of, urls_of, Published, Published-none, Published-trans, skip_edge, skip_job,
  next_job-IsChild,
}
use relentless_bookworm.Worker.Expand.{expand_node}

-- How some steps may end: all are published, or a write failed and those before it are.
abbrev pub Outcome : Config → CrawlJob → List Step → World → Result (Unit {0}) × World → Type 0
Outcome cfg job steps v (r, w) =
    ((r ≡ ok tt) × Published cfg job steps v w)
    ⊎ ((done : List Step) × (s : Step) × (rest : List Step) × (steps ≡ done ++ s ∷ rest)
        × (r ≡ err write_failed)
        × Published cfg job done v w)

-- How one step may end.
abbrev StepOutcome : Config → CrawlJob → Step → World → Result (Unit {0}) × World → Type 0
StepOutcome cfg job s v (r, w) =
    ((r ≡ ok tt) × Published cfg job (s ∷ []) v w)
    ⊎ ((r ≡ err write_failed) × Published cfg job [] v w)

module _ (env : Env) (cfg : Config) (job : CrawlJob) where
  publish_edge_none :
      (f t r : Bytes) (v : World)
      → cfg.edges_writer ≡ false
      → publish_edge env cfg job f t r v ≡ (ok tt, v)
  unfolding publish_edge
  publish_edge_none f t r v e = rw e

  publish_edge_one :
      (f t r : Bytes) (v : World)
      → cfg.edges_writer ≡ true
      → publish_edge env cfg job f t r v
        ≡ write_message env
            (λ w. record w {
              edges =
                  w.edges
                  ++ record { session_id = job.session_id; from = f; to = t; relation = r } ∷ [];
            })
            v
  unfolding publish_edge
  publish_edge_one f t r v e = rw e

  enqueue_none :
      (url : Bytes) (v : World)
      → (cfg.frontier_writer && not (at_limit cfg job)) ≡ false
      → enqueue_url_to_frontier env cfg job url v ≡ (ok tt, v)
  unfolding enqueue_url_to_frontier
  enqueue_none url v e = neither cfg.frontier_writer (at_limit cfg job) _ _ e
    where
      neither :
          (a b : Bool) (x y : Result (Unit {0}) × World)
          → (a && not b) ≡ false
          → (if not a then x else if b then x else y) ≡ x
      neither true true x y h = refl
      neither true false x y h = cc
      neither false b x y h = refl

  enqueue_one :
      (url : Bytes) (v : World)
      → (cfg.frontier_writer && not (at_limit cfg job)) ≡ true
      → enqueue_url_to_frontier env cfg job url v
        ≡ write_message env
            (λ w. record w { frontier = w.frontier ++ next_job job url (env.now v.tick) ∷ [] })
            v
  unfolding enqueue_url_to_frontier
  enqueue_one url v e = both cfg.frontier_writer (at_limit cfg job) _ _ e
    where
      both :
          (a b : Bool) (x y : Result (Unit {0}) × World)
          → (a && not b) ≡ true
          → (if not a then x else if b then x else y) ≡ y
      both true true x y h = cc
      both true false x y h = refl
      both false b x y h = cc

module _ (env : Env) (cfg : Config) (job : CrawlJob) where
  -- A write either adds its message or only takes time.
  write_message-Outcome :
      (s : Step) (put : World → World) (v : World)
      → Published cfg job (s ∷ []) v (put (record v { tick = v.tick + 1 }))
      → StepOutcome cfg job s v (write_message env put v)
  unfolding write_message
  write_message-Outcome s put v h = elim (Bool-cases (env.writes v.tick)) [
    | inl fine ↦ rw fine (inl (refl, h))
    | inr failed ↦ rw failed (inr (refl, Published-none cfg job v (v.tick + 1)))
  ]

  publish_edge-Outcome :
      (f t r : Bytes) (v : World)
      → StepOutcome cfg job (link f t r) v (publish_edge env cfg job f t r v)
  unfolding edges_of urls_of
  publish_edge-Outcome f t r v = elim (Bool-cases cfg.edges_writer) [
    | inr without ↦
        subst (StepOutcome cfg job (link f t r) v)
          (sym (publish_edge_none env cfg job f t r v without))
          (inl (refl, skip_edge cfg job f t r v without))
    | inl one ↦
        subst (StepOutcome cfg job (link f t r) v) (sym (publish_edge_one env cfg job f t r v one))
          (write_message-Outcome (link f t r) _ v (record {
            edges = rw one;
            jobs = [];
            frontier = sym (append-nil v.frontier);
            targets = refl;
            children = tt;
            results = refl;
            commits = refl;
          }))
  ]

  enqueue-Outcome :
      (url : Bytes) (v : World)
      → StepOutcome cfg job (visit url) v (enqueue_url_to_frontier env cfg job url v)
  unfolding edges_of urls_of
  enqueue-Outcome url v = elim (Bool-cases (cfg.frontier_writer && not (at_limit cfg job))) [
    | inr without ↦
        subst (StepOutcome cfg job (visit url) v) (sym (enqueue_none env cfg job url v without))
          (inl (refl, skip_job cfg job url v without))
    | inl one ↦
        subst (StepOutcome cfg job (visit url) v) (sym (enqueue_one env cfg job url v one)) (
          write_message-Outcome (visit url) _ v (record {
            edges = sym (append-nil v.edges);
            jobs = next_job job url (env.now v.tick) ∷ [];
            frontier = refl;
            targets = rw one;
            children = (
              next_job-IsChild cfg job url (env.now v.tick) (below cfg.frontier_writer _ one),
              tt,
            );
            results = refl;
            commits = refl;
          }))
  ]
    where
      below : (a b : Bool) → (a && not b) ≡ true → b ≡ false
      below a b h = ground arith

  perform_step-Outcome :
      (s : Step) (v : World) → StepOutcome cfg job s v (perform_step env cfg job s v)
  unfolding perform_step
  perform_step-Outcome (link from to relation) v = publish_edge-Outcome from to relation v
  perform_step-Outcome (visit url) v = enqueue-Outcome url v

  followed :
      (s : Step) (ss : List Step) (v : World) (r : Result (Unit {0}) × World)
      → ((w : World) → Outcome cfg job ss w (perform env cfg job ss w))
      → StepOutcome cfg job s v r
      → Outcome cfg job (s ∷ ss) v (then_do r.0 r.1 (λ _. perform env cfg job ss))
  followed s ss v (r, w) rest (inr (e, p)) = rw (e, then_do) (inr ([], s, ss, refl, refl, p))
  followed s ss v (ok u, w) rest (inl (e, p)) = elim (rest w) [
    | inl (e', q) ↦ inl (e', Published-trans cfg job (s ∷ []) ss v w _ p q)
    | inr (done, s', more, split, e', q) ↦ inr (
      s ∷ done,
      s',
      more,
      ap (λ l. s ∷ l) split,
      e',
      Published-trans cfg job (s ∷ []) done v w _ p q,
    )
  ]
  followed s ss v (err x, w) rest (inl (e, p)) = cc

  -- Any list of steps is published from the front up to the first write that fails, whose error is
  -- returned; the steps behind it are not tried. A step that there is no writer for, or a job at
  -- the depth limit, leaves nothing, and each job written is one level deeper and within the limit.
  pub perform-Outcome :
      (steps : List Step) (v : World) → Outcome cfg job steps v (perform env cfg job steps v)
  unfolding perform
  perform-Outcome [] v = inl (refl, Published-none cfg job v v.tick)
  perform-Outcome (s ∷ ss) v =
      followed s ss v (perform_step env cfg job s v) (perform-Outcome ss) (perform_step-Outcome s v)

  -- However the writes go, expanding a node publishes a front part of its plan, in order: all of it,
  -- or what is before the first write that fails, whose error is returned. Without a writer for
  -- them edges or jobs are left out; at the depth limit jobs are. Each job written is in the same
  -- session, one level deeper and within the limit.
  pub expand_node-Outcome :
      (node : Option Node) (v : World)
      → Outcome cfg job (node_plan node) v (expand_node env cfg job node v)
  expand_node-Outcome node v =
      rw (expand_node-plan env cfg job node v) (perform-Outcome (node_plan node) v)
