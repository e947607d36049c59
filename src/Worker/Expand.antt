-- ===== src/Worker/Expand.antt =====
-- The edges and the new jobs of a node: expandSearch, expandBook, expandAuthor, expandWork and
-- publishEdgesAndFrontier, with fetchJSONWithMetrics.
pub mod Plan
pub mod Published
pub mod Outcome
pub mod Parsed
use relentless_bookworm.Base.{
  ℕ, ◌+◌, Bool, true, false, Option, none, some, List, [], ◌∷◌, ◌++◌, ◌==◌, if◌then◌else◌, Bytes,
  codes,
}
use relentless_bookworm.Text.{bytes_eq, contains}
use relentless_bookworm.Result.{Error, Result, ok, err, unexpected_status}
use relentless_bookworm.Models.{
  CrawlJob, Node, book, work, author, BookNode, WorkNode, AuthorNode, SearchDoc, SearchResponse,
}
use relentless_bookworm.Ol.Client.{
  ensure_json_url, search_subject_url, search_author_url, fetch_json_with_client,
}
use relentless_bookworm.Ol.Parser.{parse_search_response}
use relentless_bookworm.Worker.Histogram.{fetch_latency_buckets, observe_latency}
use relentless_bookworm.Worker.State.{Env, Config, World, Exec, pure, ◌>>=◌, ◌>>◌}
use relentless_bookworm.Worker.Publish.{publish_edge, enqueue_url_to_frontier}

unfoldable pub is_search_url : Bytes → Bool
is_search_url url = contains url (codes "/search.json")

abbrev is_429 : Result Bytes → Bool
is_429 (err (unexpected_status s)) = s == 429
is_429 _ = false

-- worker_metrics.go
unfoldable pub fetch_json_with_metrics : Env → Bytes → Exec Bytes
unfolding observe_latency
fetch_json_with_metrics env url w =
    let r = fetch_json_with_client (env.send w.tick) url in
    (
      r,
      record w {
        tick = w.tick + 1;
        fetched = w.fetched ++ url ∷ [];
        rate_limit_hits = if is_429 r then w.rate_limit_hits + 1 else w.rate_limit_hits;
        fetch_latency = observe_latency fetch_latency_buckets (env.elapsed w.tick) w.fetch_latency;
      },
    )

abbrev pub ol_url : Bytes → Bytes
ol_url key = ensure_json_url (codes "https://openlibrary.org" ++ key)

module _ (env : Env) (cfg : Config) (job : CrawlJob) where
  -- `for _, doc := range resp.Docs`
  unfoldable pub search_docs : List SearchDoc → Exec (Unit {0})
  search_docs [] = pure tt
  search_docs (doc ∷ docs) =
      let rest = search_docs docs in
      if bytes_eq doc.key [] then rest else do
        enqueue_url_to_frontier env cfg job (ol_url doc.key)
        publish_edge env cfg job job.url doc.key (codes "search_work")
        rest

  unfoldable pub expand_search : Exec (Unit {0})
  unfolding search_docs fetch_json_with_metrics
  expand_search = do
    body ← fetch_json_with_metrics env job.url
    resp ← λ w. (parse_search_response env.decode body, w)
    search_docs resp.docs

  -- The loops of expandBook and expandWork over authors and works: first the edge, then the job.
  unfoldable pub key_loop : Bytes → Bytes → List Bytes → Exec (Unit {0})
  key_loop from relation [] = pure tt
  key_loop from relation (key ∷ keys) =
      let rest = key_loop from relation keys in
      do
        publish_edge env cfg job from key relation
        enqueue_url_to_frontier env cfg job (ol_url key)
        rest

  -- The loops over subjects: first the job, then the edge.
  unfoldable pub subject_loop : Bytes → Bytes → List Bytes → Exec (Unit {0})
  subject_loop from relation [] = pure tt
  subject_loop from relation (subject ∷ subjects) =
      let rest = subject_loop from relation subjects in
      do
        enqueue_url_to_frontier env cfg job (search_subject_url subject)
        publish_edge env cfg job from (codes "subject:" ++ subject) relation
        rest

  unfoldable pub expand_book : BookNode → Exec (Unit {0})
  unfolding key_loop subject_loop
  expand_book node = do
    key_loop node.key (codes "book_author") node.authors
    key_loop node.key (codes "book_work") node.works
    subject_loop node.key (codes "book_subject") node.subjects

  unfoldable pub expand_author : AuthorNode → Exec (Unit {0})
  expand_author node =
      if bytes_eq node.name []
      then pure tt
      else enqueue_url_to_frontier env cfg job (search_author_url node.name)

  unfoldable pub expand_work : WorkNode → Exec (Unit {0})
  unfolding key_loop subject_loop
  expand_work node = do
    key_loop node.key (codes "work_author") node.authors
    subject_loop node.key (codes "work_subject") node.subjects

  -- `none` is the nil Node.
  unfoldable pub expand_node : Option Node → Exec (Unit {0})
  unfolding expand_book expand_work expand_author
  expand_node none = pure tt
  expand_node (some (book n)) = expand_book n
  expand_node (some (work n)) = expand_work n
  expand_node (some (author n)) = expand_author n

  unfoldable pub publish_edges_and_frontier : Option Node → Exec (Unit {0})
  unfolding expand_search expand_node is_search_url
  publish_edges_and_frontier node =
      if is_search_url job.url then expand_search else expand_node node
