-- ===== src/Worker/Setup.antt =====
-- How a worker process is set up: the settings of `main`, the limits of newWorker, robots.txt, and
-- the HTTP client with its proxy.
pub mod Proxy
pub mod Client
pub mod Laws
use relentless_bookworm.Base.{
  ℕ, suc, ◌+◌, ◌-◌, ◌*◌, ◌^◌, ◌%◌, ℤ, pos, negsuc, Bool, true, false, ◌||◌, Option, none, some, [],
  ◌∷◌, ◌==◌, ltb, leb, if◌then◌else◌, Bytes, codes,
}
use relentless_bookworm.Text.{bytes_eq}
use relentless_bookworm.Result.{Error, Result, ok, err, bad_url, unexpected_status, ◌>>=◌}
use relentless_bookworm.Settings.{get_env, parse_int, parse_duration}
use relentless_bookworm.Ol.Client.{Response}
use relentless_bookworm.Worker.State.{Config}
use relentless_bookworm.Ol.Robots.{Rules, parse_robots, default_user_agent}

-- time.Duration, in nanoseconds
abbrev pub seconds : ℕ → ℕ
seconds n = n * 1000000000

abbrev pub milliseconds : ℕ → ℕ
milliseconds n = n * 1000000

-- The settings that `main` reads.
pub record Settings : Type 0 where
  pub broker : Bytes
  pub group_id : Bytes
  pub redis_addr : Bytes
  pub dedupe_ttl : ℤ
  pub results_topic : Bytes
  pub edges_topic : Bytes
  pub frontier_topic : Bytes
  pub dlq_topic : Bytes
  pub max_depth : ℤ
  pub retry_max : ℤ
  pub retry_base : ℤ
  pub retry_max_delay : ℤ
  pub concurrent_jobs : ℤ
  pub job_timeout : ℤ
  pub publish_timeout : ℤ
  pub metrics_addr : Bytes

module _ (parse : Bytes → Option ℤ) (getenv : Bytes → Bytes) where
  abbrev int_setting : Bytes → Bytes → ℕ → ℤ
  int_setting key text fallback = parse_int (get_env getenv key text) (pos fallback)

  abbrev duration_setting : Bytes → Bytes → ℕ → ℤ
  duration_setting key text fallback = parse_duration parse (get_env getenv key text) (pos fallback)

  unfoldable pub read_settings : Settings
  unfolding get_env parse_int parse_duration
  read_settings = record {
    broker = get_env getenv (codes "KAFKA_BROKER") (codes "localhost:9092");
    group_id = get_env getenv (codes "KAFKA_GROUP_ID") (codes "relentless-worker");
    redis_addr = get_env getenv (codes "REDIS_ADDR") (codes "localhost:6379");
    dedupe_ttl = duration_setting (codes "DEDUPE_TTL") (codes "24h") (seconds 86400);
    results_topic = get_env getenv (codes "KAFKA_RESULTS_TOPIC") (codes "relentless.crawl.results");
    edges_topic = get_env getenv (codes "KAFKA_EDGES_TOPIC") (codes "relentless.graph.edges");
    frontier_topic =
        get_env getenv (codes "KAFKA_FRONTIER_TOPIC")
          (get_env getenv (codes "KAFKA_TOPIC") (codes "relentless.crawl.frontier"));
    dlq_topic = get_env getenv (codes "KAFKA_DLQ_TOPIC") (codes "relentless.crawl.dlq");
    max_depth = int_setting (codes "MAX_DEPTH") (codes "3") 3;
    retry_max = int_setting (codes "RETRY_MAX") (codes "3") 3;
    retry_base = duration_setting (codes "RETRY_BASE_DELAY") (codes "200ms") (milliseconds 200);
    retry_max_delay = duration_setting (codes "RETRY_MAX_DELAY") (codes "2s") (seconds 2);
    concurrent_jobs = int_setting (codes "CONCURRENT_JOBS") (codes "5") 5;
    job_timeout = duration_setting (codes "JOB_TIMEOUT") (codes "5m") (seconds 300);
    publish_timeout = duration_setting (codes "PUBLISH_TIMEOUT") (codes "90s") (seconds 90);
    metrics_addr = get_env getenv (codes "METRICS_ADDR") (codes ":9090");
  }

-- What newWorker makes of the number of jobs and the timeouts. Each is positive, so a number.
pub record Limits : Type 0 where
  pub concurrent_jobs : ℕ
  pub job_timeout : ℕ
  pub publish_timeout : ℕ

abbrev positive_or : ℤ → ℕ → ℕ
positive_or (pos (suc n)) fallback = suc n
positive_or _ fallback = fallback

-- The cap of the publish timeout; `job - minute` may be negative, and is then below 30 s as well.
abbrev cap_publish : ℕ → ℕ → ℕ
cap_publish job publish =
    if leb job publish
    then (if ltb (job - seconds 60) (seconds 30) then seconds 30 else job - seconds 60)
    else publish

unfoldable pub new_limits : ℤ → ℤ → ℤ → Limits
new_limits concurrent_jobs job_timeout publish_timeout =
    let job = positive_or job_timeout (seconds 300) in
    record {
      concurrent_jobs = positive_or concurrent_jobs 1;
      job_timeout = job;
      publish_timeout = cap_publish job (positive_or publish_timeout (seconds 90));
    }

-- A negative number switches off what it limits, as 0 does.
abbrev natural : ℤ → ℕ
natural (pos n) = n
natural (negsuc n) = 0

-- The fields of the worker that `main` makes, with its four writers.
unfoldable pub new_worker : Settings → Option Rules → Config
new_worker s robots = record {
  results_writer = true;
  edges_writer = true;
  frontier_writer = true;
  dlq_writer = true;
  max_depth = natural s.max_depth;
  retry_max = natural s.retry_max;
  retry_base = natural s.retry_base;
  retry_max_delay = natural s.retry_max_delay;
  robots = robots;
}

-- `make(chan kafka.Message, concurrentJobs*2)` in `main`, where an int has 64 bits, so the product
-- wraps; `none` is the panic on a size that is negative. A size that is too large for the memory is
-- left out.
abbrev chan_size : ℕ → Option ℕ
chan_size n = if ltb n (2 ^ 63) then some n else none

unfoldable pub commit_capacity : ℤ → Option ℕ
commit_capacity (pos n) = chan_size ((n * 2) % 2 ^ 64)
commit_capacity (negsuc n) = chan_size ((2 ^ 64 - ((suc n * 2) % 2 ^ 64)) % 2 ^ 64)

-- What `main` sets up before `run`, as far as limits go: the channel's capacity, then newWorker.
unfoldable pub start_worker : ℤ → ℤ → ℤ → Option (ℕ × Limits)
unfolding commit_capacity new_limits
start_worker concurrent_jobs job_timeout publish_timeout = elim (commit_capacity concurrent_jobs) [
  | none ↦ none
  | some capacity ↦ some (capacity, new_limits concurrent_jobs job_timeout publish_timeout)
]

-- What FetchRobots sets of a URL; `origin` is the rest of it.
pub record Url : Type 0 where
  pub origin : Bytes
  pub path : Bytes
  pub raw_query : Bytes

abbrev ask : (Url → Result Response) → Option Url → Result Response
ask send none = err bad_url
ask send (some u) = send (record u { path = codes "/robots.txt"; raw_query = [] })

-- FetchRobots: `parse_url` is url.Parse, and `send` the client's request, with its User-Agent.
unfoldable pub fetch_robots : (Bytes → Option Url) → (Url → Result Response) → Bytes → Result Bytes
fetch_robots parse_url send base_url = do
  resp ← ask send (parse_url base_url)
  if resp.status_code == 200 then resp.body else err (unexpected_status resp.status_code)

abbrev rules_of : Result Bytes → Option Rules
rules_of (ok body) = some (parse_robots body default_user_agent)
rules_of (err e) = none

-- The rules that `main` hands to newWorker.
unfoldable pub load_robots :
    (Bytes → Option Url) → (Url → Result Response) → (Bytes → Bytes) → Option Rules
unfolding get_env fetch_robots
load_robots parse_url send getenv =
    let value = get_env getenv (codes "RESPECT_ROBOTS_TXT") [] in
    if bytes_eq value (codes "true") || bytes_eq value (codes "1")
    then rules_of (fetch_robots parse_url send (codes "https://openlibrary.org"))
    else none
