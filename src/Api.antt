-- ===== src/Api.antt =====
-- cmd/api/main.go, with internal/kafka/producer.go and internal/store/redis_status_store.go below it:
-- a crawl is put on the frontier and its status stored; and the page for Prometheus.
pub mod Laws
use relentless_bookworm.Base.{
  ℕ, ◌+◌, Bool, true, false, ◌||◌, Option, none, some, List, [], ◌∷◌, ◌++◌, if◌then◌else◌, Bytes,
  codes,
}
use relentless_bookworm.Text.{bytes_eq, has_prefix, trim_prefix, trim, trim_space}
use relentless_bookworm.Text.Query.{query_get}
use relentless_bookworm.Exposition.{Page, only_get}
use relentless_bookworm.Result.{Error, Result, ok, err, write_failed, store_failed, bad_json}
use relentless_bookworm.Models.{CrawlJob, CrawlStatus}
use relentless_bookworm.Ol.Client.{ensure_json_url, search_url}

unfoldable pub normalize_seed_url : Bytes → Bytes
normalize_seed_url seed =
    if has_prefix seed (codes "http://") || has_prefix seed (codes "https://")
    then ensure_json_url seed
    else search_url seed

-- The outside: whether kafka and redis answer their n-th call, the clock, the session id that is
-- formatted from it, and json for a status.
pub record Outside : Type 0 where
  pub writes : ℕ → Bool
  pub answers : ℕ → Bool
  pub now : ℕ → ℕ
  pub session_id : ℕ → Bytes
  pub marshal : CrawlStatus → Bytes
  pub unmarshal : Bytes → Option CrawlStatus

-- The frontier topic, the keys of redis with their values, the last one set first, and the number
-- of calls. Keys expire after the TTL, which is left out.
pub record Server : Type 0 where
  pub frontier : List CrawlJob
  pub keys : List (Bytes × Bytes)
  pub tick : ℕ

unfoldable pub find : Bytes → List (Bytes × Bytes) → Option Bytes
unfolding bytes_eq
find key [] = none
find key ((k, v) ∷ kvs) = let rest = find key kvs in if bytes_eq k key then some v else rest

-- What a client gets: the status code, and the body where it is not an error text.
pub record Reply : Type 0 where
  pub code : ℕ
  pub body : Option CrawlStatus

abbrev http_error : ℕ → Reply
http_error code = record { code = code; body = none }

unfoldable pub handle_api_metrics : Bytes → Page
unfolding only_get
handle_api_metrics method = only_get method (codes "relentless_api_up 1\n")

module _ (out : Outside) (prefix : Bytes) where
  unfoldable pub write_job : CrawlJob → Server → Bool × Server
  write_job job s =
      if out.writes s.tick
      then (true, record s { tick = s.tick + 1; frontier = s.frontier ++ job ∷ [] })
      else (false, record s { tick = s.tick + 1 })

  unfoldable pub set_status : CrawlStatus → Server → Bool × Server
  set_status status s =
      if out.answers s.tick
      then (
        true,
        record s {
          tick = s.tick + 1;
          keys = (prefix ++ status.session_id, out.marshal status) ∷ s.keys;
        },
      )
      else (false, record s { tick = s.tick + 1 })

  abbrev decoded : Option CrawlStatus → Result (Option CrawlStatus)
  decoded none = err bad_json
  decoded (some status) = ok (some status)

  abbrev stored : Option Bytes → Result (Option CrawlStatus)
  stored none = ok none
  stored (some value) = decoded (out.unmarshal value)

  unfoldable pub get_status : Bytes → Server → Result (Option CrawlStatus) × Server
  unfolding find
  get_status session_id s =
      if out.answers s.tick
      then (stored (find (prefix ++ session_id) s.keys), record s { tick = s.tick + 1 })
      else (err store_failed, record s { tick = s.tick + 1 })

  abbrev pub new_status : Bytes → ℕ → CrawlStatus
  new_status seed now = record {
    session_id = out.session_id now;
    seed_url = seed;
    status = codes "queued";
    created_at = now;
  }

  abbrev pub seed_job : Bytes → ℕ → CrawlJob
  seed_job seed now = record {
    session_id = out.session_id now;
    seed_url = seed;
    url = seed;
    depth = 0;
    created_at = now;
  }

  abbrev after_set : CrawlStatus → Bool × Server → Reply × Server
  after_set status (true, s) = (record { code = 202; body = some status }, s)
  after_set status (false, s) = (http_error 502, s)

  abbrev after_job : CrawlStatus → Bool × Server → Reply × Server
  after_job status (true, s) = after_set status (set_status status s)
  after_job status (false, s) = (http_error 502, s)

  -- The method and the parameter `url`. Both readings of the clock are one here.
  unfoldable pub handle_crawl : Bytes → Bytes → Server → Reply × Server
  unfolding set_status write_job
  handle_crawl method url s =
      let seed = trim_space url in
      if bytes_eq method (codes "POST")
      then (if bytes_eq seed []
          then (http_error 400, s)
          else after_job (new_status (normalize_seed_url seed) (out.now s.tick))
              (write_job (seed_job (normalize_seed_url seed) (out.now s.tick)) s))
      else (http_error 405, s)

  -- The same, from the query of the URL.
  unfoldable pub serve_crawl : Bytes → Bytes → Server → Reply × Server
  unfolding handle_crawl query_get
  serve_crawl method raw_query s = handle_crawl method (query_get raw_query (codes "url")) s

  abbrev reply_of : Result (Option CrawlStatus) × Server → Reply × Server
  reply_of (err e, s) = (http_error 502, s)
  reply_of (ok none, s) = (http_error 404, s)
  reply_of (ok (some status), s) = (record { code = 200; body = some status }, s)

  -- The method and the path.
  unfoldable pub handle_crawl_status : Bytes → Bytes → Server → Reply × Server
  unfolding get_status
  handle_crawl_status method path s =
      let session_id = trim (trim_prefix path (codes "/crawl/")) b'/' in
      if bytes_eq method (codes "GET")
      then (if bytes_eq session_id []
          then (http_error 400, s)
          else reply_of (get_status session_id s))
      else (http_error 405, s)

-- What a route answers, with its status.
pub data Answer : Type 0 where
  page : Page → Answer
  reply : Reply → Answer
  not_found : Answer

abbrev pub answer_code : Answer → ℕ
answer_code (page p) = p.status_code
answer_code (reply r) = r.code
answer_code not_found = 404

abbrev replied : Reply × Server → Answer × Server
replied (r, s) = (reply r, s)

-- The three routes of `main`, for the method, the path and the query of a URL. A path is as net/http
-- leaves it: it redirects those that are not clean.
unfoldable pub serve : Outside → Bytes → Bytes → Bytes → Bytes → Server → Answer × Server
unfolding serve_crawl handle_crawl_status handle_api_metrics
serve out prefix method path raw_query s =
    if bytes_eq path (codes "/crawl")
    then replied (serve_crawl out prefix method raw_query s)
    else if has_prefix path (codes "/crawl/")
    then replied (handle_crawl_status out prefix method path s)
    else if bytes_eq path (codes "/metrics")
    then (page (handle_api_metrics method), s)
    else (not_found, s)
