-- ===== src/Worker/Frame.antt =====
-- What the worker's actions leave alone.
use relentless_bookworm.Base.{
  ◌≡◌, refl, ◌∙◌, Option, none, some, List, [], ◌∷◌, ◌++◌, arith, Bytes, Bool-cases, inl, inr,
}
use relentless_bookworm.Result.{Error, Result, ok, err}
use relentless_bookworm.Models.{CrawlJob, Node, SearchDoc, SearchResponse}
use relentless_bookworm.Ol.Parser.{parse_search_response}
use relentless_bookworm.Worker.State.{Env, Config, World, Exec, then_do, ◌>>=◌}
use relentless_bookworm.Worker.Publish.{
  publish_edge, enqueue_url_to_frontier, publish_result, publish_dlq,
}
use relentless_bookworm.Worker.Expand.{
  search_docs, expand_node, expand_search, publish_edges_and_frontier, fetch_json_with_metrics,
  is_search_url,
}
use relentless_bookworm.Worker.Expand.Plan.{
  Step, link, visit, perform, perform_step, expand_node-plan, search_docs-plan, node_plan,
  search_plan,
}

-- Nothing but topics, counters and time has changed.
pub record Same (v w : World) : Type 0 where
  pub commits : w.commits ≡ v.commits
  pub in_flight : w.in_flight ≡ v.in_flight
  pub slots : w.slots ≡ v.slots
  pub sent_at : w.sent_at ≡ v.sent_at
  pub waits : w.waits ≡ v.waits
  pub visited : w.visited ≡ v.visited

-- Nor was anything fetched.
pub record Writes (v w : World) : Type 0 where
  pub same : Same v w
  pub fetched : w.fetched ≡ v.fetched

pub Same-refl : (w : World) → Same w w
Same-refl w = record {
  commits = refl;
  in_flight = refl;
  slots = refl;
  sent_at = refl;
  waits = refl;
  visited = refl;
}

pub Same-trans : {u v w : World} → Same u v → Same v w → Same u w
Same-trans p q = record {
  commits = q.commits ∙ p.commits;
  in_flight = q.in_flight ∙ p.in_flight;
  slots = q.slots ∙ p.slots;
  sent_at = q.sent_at ∙ p.sent_at;
  waits = q.waits ∙ p.waits;
  visited = q.visited ∙ p.visited;
}

pub Writes-refl : (w : World) → Writes w w
Writes-refl w = record { same = Same-refl w; fetched = refl }

pub Writes-trans : {u v w : World} → Writes u v → Writes v w → Writes u w
Writes-trans p q = record { same = Same-trans p.same q.same; fetched = q.fetched ∙ p.fetched }

-- Going on with an action, or stopping at an error.
pub then_do-Writes {ℓ} :
    {A B : Type ℓ} (r : Result A) (v w : World) (f : A → Exec B)
    → Writes v w
    → ((a : A) (u : World) → Writes u (f a u).1)
    → Writes v (then_do r w f).1
then_do-Writes (ok a) v w f h k = Writes-trans h (k a w)
then_do-Writes (err e) v w f h k = h

pub then_do-Same {ℓ} :
    {A B : Type ℓ} (r : Result A) (v w : World) (f : A → Exec B)
    → Same v w
    → ((a : A) (u : World) → Same u (f a u).1)
    → Same v (then_do r w f).1
then_do-Same (ok a) v w f h k = Same-trans h (k a w)
then_do-Same (err e) v w f h k = h

module _ (env : Env) where
  pub fetch-Same : (url : Bytes) (w : World) → Same w (fetch_json_with_metrics env url w).1
  unfolding fetch_json_with_metrics
  fetch-Same url w = record {
    commits = refl;
    in_flight = refl;
    slots = refl;
    sent_at = refl;
    waits = refl;
    visited = refl;
  }

  pub fetch-fetched :
      (url : Bytes) (w : World)
      → (fetch_json_with_metrics env url w).1.fetched ≡ w.fetched ++ url ∷ []
  unfolding fetch_json_with_metrics
  fetch-fetched url w = refl

  module _ (cfg : Config) (job : CrawlJob) where
    publish_edge-Writes :
        (f t r : Bytes) (w : World) → Writes w (publish_edge env cfg job f t r w).1
    unfolding publish_edge
    publish_edge-Writes f t r w = ground arith

    enqueue-Writes :
        (url : Bytes) (w : World) → Writes w (enqueue_url_to_frontier env cfg job url w).1
    unfolding enqueue_url_to_frontier
    enqueue-Writes url w = ground arith

    pub publish_result-Writes :
        (node : Option Node) (w : World) → Writes w (publish_result env cfg job node w).1
    unfolding publish_result
    publish_result-Writes none w = Writes-refl w
    publish_result-Writes (some n) w = ground arith

    pub publish_dlq-Writes : (e : Error) (w : World) → Writes w (publish_dlq env cfg job e w).1
    unfolding publish_dlq
    publish_dlq-Writes e w = ground arith

    perform_step-Writes : (s : Step) (w : World) → Writes w (perform_step env cfg job s w).1
    unfolding perform_step
    perform_step-Writes (link f t r) w = publish_edge-Writes f t r w
    perform_step-Writes (visit url) w = enqueue-Writes url w

    perform-Writes : (ss : List Step) (w : World) → Writes w (perform env cfg job ss w).1
    unfolding perform
    perform-Writes [] w = Writes-refl w
    perform-Writes (s ∷ ss) w =
        then_do-Writes (perform_step env cfg job s w).0 w (perform_step env cfg job s w).1 _
          (perform_step-Writes s w) (λ _ u. perform-Writes ss u)

    expand_node-Writes :
        (node : Option Node) (w : World) → Writes w (expand_node env cfg job node w).1
    expand_node-Writes node w =
        rw (expand_node-plan env cfg job node w) (perform-Writes (node_plan node) w)

    search_docs-Writes :
        (docs : List SearchDoc) (w : World) → Writes w (search_docs env cfg job docs w).1
    search_docs-Writes docs w =
        rw (search_docs-plan env cfg job docs) (perform-Writes (search_plan job.url docs) w)

    -- Once the fetch is made, the expansion of a search only writes.
    pub expand_search-fetched :
        (w : World) → (expand_search env cfg job w).1.fetched ≡ w.fetched ++ job.url ∷ []
    unfolding expand_search
    expand_search-fetched w =
        let b = fetch_json_with_metrics env job.url w in read b.0 b.1 ∙ fetch-fetched job.url w
      where
        found :
            (r : Result SearchResponse) (v : World)
            → (then_do r v (λ resp. search_docs env cfg job resp.docs)).1.fetched ≡ v.fetched
        found (ok resp) v = (search_docs-Writes resp.docs v).fetched
        found (err e) v = refl

        read :
            (r : Result Bytes) (v : World)
            → (then_do r v (λ body.
                (λ u. (parse_search_response env.decode body, u))
                >>= (λ resp. search_docs env cfg job resp.docs))).1.fetched
              ≡ v.fetched
        read (ok body) v = found (parse_search_response env.decode body) v
        read (err e) v = refl

    expand_search-Same : (w : World) → Same w (expand_search env cfg job w).1
    unfolding expand_search
    expand_search-Same w =
        let b = fetch_json_with_metrics env job.url w in
        then_do-Same b.0 w b.1 _ (fetch-Same job.url w) (λ body u.
          then_do-Same (parse_search_response env.decode body) u u _ (Same-refl u)
            (λ resp v. (search_docs-Writes resp.docs v).same))

    pub publish_edges_and_frontier-Same :
        (node : Option Node) (w : World) → Same w (publish_edges_and_frontier env cfg job node w).1
    unfolding publish_edges_and_frontier
    publish_edges_and_frontier-Same node w = elim (Bool-cases (is_search_url job.url)) [
      | inl e ↦ rw e (expand_search-Same w)
      | inr e ↦ rw e (expand_node-Writes node w).same
    ]
