-- ===== src/Tests/Setup.antt =====
-- The set-up of a worker, its pages, and the load generator.
use relentless_bookworm.Base.{
  ◌%◌, ◌^◌, ◌≤◌, ◌<◌, ◌≡◌, ◌⊎◌, ◌↔◌, if◌then◌else◌, refl, ℤ, pos, negsuc, true, false, some, none,
  List, [], ◌∷◌, ◌++◌, map, length, arith, Bytes, codes, All,
}
use relentless_bookworm.Text.{
  replace_all, bytes_eq, trim_space, trim_front, cut_front, prefix_length, has_prefix, split,
}
use relentless_bookworm.Text.Decimal.{atoi, unsigned, digits_value}
use relentless_bookworm.Settings.{get_env, parse_int}
use relentless_bookworm.Worker.Setup.{seconds, milliseconds, read_settings, new_limits}
use relentless_bookworm.Worker.Setup.Laws.{new_limits_bounds}
use relentless_bookworm.Worker.Setup.Proxy.{fnv32a, fnv32a_from, valid_entries, non_empty}
use relentless_bookworm.Worker.Setup.Proxy.{ClientProxy, build_http_client}
use relentless_bookworm.Worker.Setup.Client.{IsUsable, IsChosen, build_http_client-IsChosen}
use relentless_bookworm.Worker.Histogram.{
  u64, fetch_latency_buckets, append_histogram, sum_and_count,
}
use relentless_bookworm.Worker.Histogram.Laws.{
  positive, sum, observe_all, AscendingFrom, expected_lines, append_histogram-observe_all,
}
use relentless_bookworm.Worker.Metrics.{escape_metric_label}
use relentless_bookworm.Exposition.{Page}
use relentless_bookworm.Exposition.Laws.{read_samples}
use relentless_bookworm.Commit.{new_commit_coordinator}
use relentless_bookworm.Worker.State.{World}
use relentless_bookworm.Worker.Metrics.{handle_metrics}
use relentless_bookworm.Worker.Metrics.Laws.{handle_metrics_read}
use relentless_bookworm.Tests.Fixtures.{a_world}
use relentless_bookworm.Loadgen.{Request, sent, run_loadgen}
use relentless_bookworm.Loadgen.Laws.{IsSeed, serve_all, urls, seed_url_of, seeds_reach_frontier}
use relentless_bookworm.Wiring.{api_wiring, worker_wiring, graph_wiring}
use relentless_bookworm.Wiring.Laws.{Meets, topics_meet}
use relentless_bookworm.Api.{Outside, Server}

-- The published values of the 32-bit FNV-1a hash.
fnv32a_published :
    (fnv32a [] ≡ 0x811C9DC5)
    × (fnv32a (codes "a") ≡ 0xE40C292C)
    × (fnv32a (codes "foobar") ≡ 0xBF9CF968)
unfolding fnv32a fnv32a_from
fnv32a_published = (refl, refl, refl)

-- A pool with an empty entry; the second proxy is picked for this host name.
abbrev a_pool : Bytes
a_pool = codes " http://a:1, ,http://b:2"

a_pool_entries : valid_entries a_pool ≡ codes "http://a:1" ∷ codes "http://b:2" ∷ []
unfolding valid_entries non_empty split trim_space trim_front cut_front prefix_length has_prefix
    bytes_eq
a_pool_entries = refl

-- No PROXY_URL, and the pool; url.Parse takes anything.
abbrev pooled : Bytes → Bytes
pooled key = if bytes_eq key (codes "PROXY_POOL") then a_pool else []

build_http_client-IsChosen_example :
    (c : ClientProxy) × (build_http_client false (λ b. true) pooled ≡ some c)
    × IsUsable (λ b. true) c
    × IsChosen pooled c
build_http_client-IsChosen_example = build_http_client-IsChosen false (λ b. true) pooled

-- With nothing set the defaults hold.
default_settings :
    let s = read_settings (λ b. none) (λ key. []) in
    (s.concurrent_jobs ≡ pos 5)
    × (s.max_depth ≡ pos 3)
    × (s.job_timeout ≡ pos (seconds 300))
    × (s.retry_base ≡ pos (milliseconds 200))
    × (s.frontier_topic ≡ codes "relentless.crawl.frontier")
unfolding read_settings get_env parse_int bytes_eq atoi unsigned digits_value
default_settings = (refl, refl, refl, refl, refl)

-- The defaults need no correction.
default_limits :
    new_limits (pos 5) (pos (seconds 300)) (pos (seconds 90))
    ≡ record { concurrent_jobs = 5; job_timeout = seconds 300; publish_timeout = seconds 90 }
unfolding new_limits
default_limits = refl

new_limits_bounds_example :
    let l = new_limits (negsuc 0) (pos (seconds 20)) (pos (seconds 90)) in
    (1 ≤ l.concurrent_jobs)
    × (0 < l.job_timeout)
    × (0 < l.publish_timeout)
    × ((l.publish_timeout < l.job_timeout)
        ⊎ ((l.job_timeout ≤ seconds 30) × (l.publish_timeout ≡ seconds 30)))
new_limits_bounds_example = new_limits_bounds (negsuc 0) (pos (seconds 20)) (pos (seconds 90))

-- 50 ms, a clock that was set back, 200 ms, and a minute.
abbrev some_durations : List ℤ
some_durations = pos 50000000 ∷ negsuc 3 ∷ pos 200000000 ∷ pos 60000000000 ∷ []

append_histogram-observe_all_example :
    append_histogram
      (λ n. [])
      2
      (codes "latency")
      fetch_latency_buckets
      (observe_all fetch_latency_buckets some_durations)
    ≡ some (
        expected_lines 2 (codes "latency") fetch_latency_buckets (positive some_durations)
        ++ sum_and_count
            (λ n. [])
            (codes "latency")
            (u64 (sum (positive some_durations)))
            (u64 (length (positive some_durations))))
append_histogram-observe_all_example =
    append_histogram-observe_all (λ n. []) 2 (codes "latency") fetch_latency_buckets some_durations
      ascending
  where
    ascending : AscendingFrom 0 fetch_latency_buckets
    ascending = ground arith

-- A label with a quote and a backslash.
a_label : escape_metric_label (codes "a\"b\\c") ≡ codes "a\\\"b\\\\c"
unfolding escape_metric_label replace_all
a_label = refl

abbrev an_api : Outside
an_api = record {
  writes = λ n. true;
  answers = λ n. true;
  now = λ n. n;
  session_id = λ n. codes "s";
  marshal = λ s. [];
  unmarshal = λ b. none;
}

abbrev empty_server : Server
empty_server = record { frontier = []; keys = []; tick = 0 }

-- A file with a URL and a search.
abbrev two_seeds : List Bytes
two_seeds = codes "https://x/works/1" ∷ codes "a & b" ∷ []

two_seeds-All : All IsSeed two_seeds
unfolding trim_space trim_front cut_front prefix_length has_prefix bytes_eq
two_seeds-All = ground arith

seeds_reach_frontier_example :
    (rs : List Request) × (run_loadgen
        (λ p. some [])
        (λ t. some two_seeds)
        (λ b. true)
        (codes "seeds.json")
        (codes "http://api")
      ≡ sent rs)
    × ((serve_all an_api (codes "status:") rs empty_server).0 ≡ 202 ∷ 202 ∷ [])
    × (urls (serve_all an_api (codes "status:") rs empty_server).1.frontier
        ≡ map seed_url_of two_seeds)
seeds_reach_frontier_example =
    seeds_reach_frontier (λ p. some []) (λ t. some two_seeds) (λ b. true) (codes "seeds.json")
      (codes "http://api") [] (codes "https://x/works/1") (codes "a & b" ∷ []) an_api
      (codes "status:") empty_server refl refl two_seeds-All refl (λ n. refl) (λ n. refl)

-- The jobs of the API are lost on a worker with a topic of its own.
abbrev own_topic : Bytes → Bytes
own_topic key = if bytes_eq key (codes "KAFKA_FRONTIER_TOPIC") then codes "own" else []

topics_meet_example :
    let api = api_wiring own_topic in
    let worker = worker_wiring (read_settings (λ b. none) own_topic) in
    let graph = graph_wiring own_topic in
    Meets worker.frontier_writer worker.reader
    × Meets worker.results_writer graph.results_reader
    × Meets worker.edges_writer graph.edges_reader
    × (Meets api.producer worker.reader
        ↔ (own_topic (codes "KAFKA_FRONTIER_TOPIC") ≡ [])
          ⊎ (own_topic (codes "KAFKA_FRONTIER_TOPIC") ≡ api.producer.topic))
topics_meet_example = topics_meet (λ b. none) own_topic

abbrev quoted : Bytes → Bytes
quoted s = b'"' ∷ (s ++ b'"' ∷ [])

abbrev busy_world : World
busy_world = record a_world {
  jobs_success = 3;
  jobs_failed = 1;
  fetch_latency = observe_all fetch_latency_buckets some_durations;
}

handle_metrics_read_example :
    (page : Page) × (rest : Bytes) × (handle_metrics quoted
        (λ n. codes "0.0")
        (codes "GET")
        (codes "http://a:1")
        busy_world
        new_commit_coordinator
        (λ n. pos 2000000)
      ≡ some page)
    × (page.status_code ≡ 200)
    × (read_samples 5 page.body
        ≡ some (
          (codes "relentless_worker_up", 1)
              ∷ (codes "relentless_worker_jobs_received_total", busy_world.jobs_received % 2 ^ 64)
              ∷ (codes "relentless_worker_jobs_skipped_total", busy_world.jobs_skipped % 2 ^ 64)
              ∷ (codes "relentless_worker_jobs_success_total", busy_world.jobs_success % 2 ^ 64)
              ∷ (codes "relentless_worker_jobs_failed_total", busy_world.jobs_failed % 2 ^ 64)
              ∷ [],
          rest,
        ))
handle_metrics_read_example =
    handle_metrics_read quoted (λ n. codes "0.0") (codes "http://a:1") busy_world
      new_commit_coordinator (λ n. pos 2000000) some_durations refl
