-- ===== src/Worker/Fetch.antt =====
-- handleJob with crawlWork, crawlAuthor and handleSearch, and handleJobWithRetry.
pub mod Attempt
pub mod Retry
use relentless_bookworm.Base.{
  ℕ, zero, suc, ◌+◌, ◌*◌, Bool, true, false, not, ◌&&◌, Option, none, some, List, [], ◌∷◌, ◌++◌,
  ltb, if◌then◌else◌, Bytes, codes,
}
use relentless_bookworm.Text.{contains}
use relentless_bookworm.Result.{Error, Result, ok, err, robots_disallows, context_done}
use relentless_bookworm.Models.{CrawlJob, Node}
use relentless_bookworm.Ol.Client.{ensure_json_url}
use relentless_bookworm.Ol.Robots.{allowed, path_from_url}
use relentless_bookworm.Ol.Parser.{parse_node, parse_search_response}
use relentless_bookworm.Worker.State.{Env, Config, World, Exec, pure, fail, then_do, ◌>>=◌}
use relentless_bookworm.Worker.Expand.{is_search_url, fetch_json_with_metrics}

-- The delay that is waited for: never above the maximum, if there is one.
abbrev pub capped : Config → ℕ → ℕ
capped cfg delay =
    if ltb 0 cfg.retry_max_delay && ltb cfg.retry_max_delay delay
    then cfg.retry_max_delay
    else delay

module _ (env : Env) (cfg : Config) (job : CrawlJob) where
  unfoldable pub crawl_work : Exec (Option Node)
  crawl_work = do
    body ← fetch_json_with_metrics env (ensure_json_url job.url)
    λ w. (parse_node env.decode body, w)

  unfoldable pub crawl_author : Exec (Option Node)
  crawl_author = do
    body ← fetch_json_with_metrics env (ensure_json_url job.url)
    λ w. (parse_node env.decode body, w)

  unfoldable pub handle_search : Exec (Option Node)
  handle_search = do
    body ← fetch_json_with_metrics env job.url
    resp ← λ w. (parse_search_response env.decode body, w)
    pure none

  -- The path that robots.txt is asked about.
  unfoldable pub job_path : Bytes
  unfolding is_search_url
  job_path =
      path_from_url env.url_path
        (if is_search_url job.url then job.url else ensure_json_url job.url)

  unfoldable pub handle_job : Exec (Option Node)
  unfolding crawl_work crawl_author handle_search
  handle_job =
      if not (allowed cfg.robots job_path)
      then fail (robots_disallows job_path)
      else if is_search_url job.url
      then handle_search
      else if contains job.url (codes "/authors/")
      then crawl_author
      else crawl_work

  -- What follows a failed attempt: `again` is the next round, with its delay.
  abbrev pub back_off : (ℕ → Exec (Option Node)) → ℕ → Exec (Option Node)
  back_off again delay w =
      if ltb 0 delay
      then (let v = record w { waits = w.waits ++ capped cfg delay ∷ []; tick = w.tick + 1 } in
          if env.expired w.tick then (err context_done, v) else again (capped cfg delay * 2) v)
      else again delay w

  abbrev pub on_error :
      Result (Option Node)
      → World
      → (World → Result (Option Node) × World)
      → Result (Option Node) × World
  on_error (ok n) w f = (ok n, w)
  on_error (err e) w f = f w

  -- `for { … }`: the first argument is retryMax - attempts.
  unfoldable pub retry_loop : ℕ → ℕ → Exec (Option Node)
  retry_loop zero delay w = handle_job w
  retry_loop (suc left) delay w =
      let again = retry_loop left in
      let (r, v) = handle_job w in on_error r v (back_off again delay)

  unfoldable pub handle_job_with_retry : Exec (Option Node)
  unfolding retry_loop
  handle_job_with_retry = retry_loop cfg.retry_max cfg.retry_base
