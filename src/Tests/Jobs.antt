-- ===== src/Tests/Jobs.antt =====
-- Jobs of a worker.
use relentless_bookworm.Base.{
  ◌⊎◌, ◌-◌, ◌≤◌, ◌≡◌, refl, true, false, some, [], ◌∷◌, ◌++◌, length, All, codes,
}
use relentless_bookworm.Result.{ok, err, context_done}
use relentless_bookworm.Models.{CrawlJob, author}
use relentless_bookworm.Worker.State.{Config, Env}
use relentless_bookworm.Worker.Expand.{expand_node}
use relentless_bookworm.Worker.Expand.Plan.{node_plan}
use relentless_bookworm.Worker.Expand.Outcome.{Outcome, expand_node-Outcome}
use relentless_bookworm.Worker.Fetch.{handle_job_with_retry}
use relentless_bookworm.Worker.Fetch.Retry.{Attempted, schedule, retry_bounded}
use relentless_bookworm.Worker.Dispatch.{
  dedupe_key_for_job, holds, process_job_async, dispatch_message, returned,
}
use relentless_bookworm.Worker.Dispatch.Commits.{process_job_async_commits}
use relentless_bookworm.Worker.Dispatch.Once.{
  Run, begin, dispatched, UrlsDistinct, add_started, started-UrlsDistinct,
}
use relentless_bookworm.Worker.Dispatch.Lost.{redelivered_lost}
use relentless_bookworm.Tests.Fixtures.{at, a_job, an_author, an_env, a_config, a_world}
use relentless_bookworm.Text.{
  has_prefix, contains, trim_space, trim_front, trim_right, cut_front, prefix_length,
}
use relentless_bookworm.Ol.Robots.{allowed, path_from_url, normalize_path}
use relentless_bookworm.Worker.Expand.{is_search_url}
use relentless_bookworm.Worker.Fetch.{job_path}
use relentless_bookworm.Worker.Dispatch.Refused.{robots_passed_by}

-- A worker that gets one message twice.
twice :
    Run an_env a_config a_world
      (add_started
        (dispatch_message an_env a_config
          (at 1)
          (dispatch_message an_env a_config (at 0) a_world).1).0
        (add_started (dispatch_message an_env a_config (at 0) a_world).0 []))
      (dispatch_message an_env a_config
        (at 1)
        (dispatch_message an_env a_config (at 0) a_world).1).1
twice = dispatched (at 1) (dispatched (at 0) begin refl refl) refl refl

started-UrlsDistinct_example : UrlsDistinct (
    add_started
      (dispatch_message an_env a_config
        (at 1)
        (dispatch_message an_env a_config (at 0) a_world).1).0
      (add_started (dispatch_message an_env a_config (at 0) a_world).0 []))
started-UrlsDistinct_example =
    started-UrlsDistinct an_env a_config a_world
      (dispatch_message an_env a_config (at 1)
        (dispatch_message an_env a_config (at 0) a_world).1).1
      (add_started
        (dispatch_message an_env a_config (at 1)
          (dispatch_message an_env a_config (at 0) a_world).1).0
        (add_started (dispatch_message an_env a_config (at 0) a_world).0 []))
      twice

expand_node-Outcome_example :
    Outcome a_config a_job
      (node_plan (some (author an_author)))
      a_world
      (expand_node an_env a_config a_job (some (author an_author)) a_world)
expand_node-Outcome_example =
    expand_node-Outcome an_env a_config a_job (some (author an_author)) a_world

process_job_async_commits_example :
    let v = process_job_async an_env a_config (at 0) a_job a_world in
    (v.commits ≡ a_world.commits ++ at 0 ∷ [])
    × (v.sent_at ≡ a_world.sent_at ++ v.tick ∷ [])
    × (v.slots ≡ a_world.slots - 1)
    × (v.in_flight ≡ a_world.in_flight - 1)
    × (v.visited ≡ a_world.visited)
process_job_async_commits_example = process_job_async_commits an_env a_config (at 0) a_job a_world

retry_bounded_example :
    Attempted a_config 2 3 a_world (handle_job_with_retry an_env a_config a_job a_world)
    × (length (schedule 4 2 3) ≤ 2)
    × All (λ d. (a_config.retry_max_delay ≡ 0) ⊎ (d ≤ a_config.retry_max_delay)) (schedule 4 2 3)
retry_bounded_example = retry_bounded an_env a_config a_job a_world

-- The worker is told to stop while it waits for a slot.
abbrev stopping : Env
stopping = record an_env { expired = λ n. true }

not_visited : holds a_world.visited (dedupe_key_for_job a_job) ≡ false
unfolding holds
not_visited = refl

redelivered_lost_example :
    let first = dispatch_message stopping a_config (at 0) a_world in
    let again = dispatch_message stopping a_config (at 0) first.1 in
    (first.0 ≡ returned (err context_done))
    × (first.1.commits ≡ a_world.commits)
    × (again.0 ≡ returned (ok tt))
    × (again.1.commits ≡ a_world.commits ++ at 0 ∷ [])
redelivered_lost_example =
    redelivered_lost stopping a_config (at 0) a_job a_world refl refl not_visited refl refl

abbrev search_job : CrawlJob
search_job = record a_job { url = codes "/search.json?q=a" }

abbrev no_search : Config
no_search = record a_config { robots = some (codes "/search.json" ∷ []) }

search_refused : allowed no_search.robots (job_path an_env no_search search_job) ≡ false
unfolding allowed job_path path_from_url normalize_path is_search_url has_prefix contains trim_space
    trim_front trim_right cut_front prefix_length
search_refused = refl

is_a_search : is_search_url search_job.url ≡ true
unfolding is_search_url contains has_prefix
is_a_search = refl

robots_passed_by_example :
    (process_job_async an_env no_search (at 0) search_job a_world).fetched
    ≡ a_world.fetched ++ search_job.url ∷ []
robots_passed_by_example =
    robots_passed_by an_env no_search search_job search_refused (at 0) a_world is_a_search λ n. refl
