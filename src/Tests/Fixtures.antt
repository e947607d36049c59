-- ===== src/Tests/Fixtures.antt =====
-- Test data: messages, a job, and a worker with its outside.
use relentless_bookworm.Base.{pos, ℕ, Bool, true, none, some, false, List, [], ◌∷◌, codes}
use relentless_bookworm.Result.{ok}
use relentless_bookworm.Models.{CrawlJob, AuthorNode, SearchDoc, SearchResponse}
use relentless_bookworm.Ol.Parser.{AuthorPayload, text}
use relentless_bookworm.Commit.{Message}
use relentless_bookworm.Worker.Histogram.{fetch_latency_buckets, new_histogram}
use relentless_bookworm.Worker.State.{Env, Config, World}

-- A message of partition 0.
abbrev pub at : ℕ → Message
at o = record { partition = 0; offset = o; value = [] }

abbrev pub always : ℕ → Message → Bool
always n m = true

abbrev pub a_job : CrawlJob
a_job = record {
  session_id = codes "s";
  seed_url = codes "u";
  url = codes "u";
  depth = 0;
  created_at = 0;
}

abbrev pub an_author : AuthorNode
an_author = record {
  key = codes "/authors/A";
  name = codes "B";
  personal_name = [];
  bio = [];
  alternate_names = [];
  photos = [];
  remote_ids = [];
  links = [];
  raw_json = [];
}

abbrev pub an_author_payload : AuthorPayload
an_author_payload = record {
  key = codes "/authors/A";
  name = codes "B";
  personal_name = [];
  bio = text (codes "a text");
  alternate_names = [];
  photos = [];
  remote_ids = [];
  links = [];
}

-- A search that found these.
abbrev found : List SearchDoc → SearchResponse
found docs = record {
  num_found = pos 0;
  num_found_exact = false;
  num_found_alt = pos 0;
  start = pos 0;
  q = [];
  offset = none;
  documentation_url = [];
  docs = docs;
}

-- Everything answers; every message holds the job, every page the author.
abbrev pub an_env : Env
an_env = record {
  writes = λ n. true;
  store_answers = λ n. true;
  send = λ n url. ok (record { status_code = 200; body = ok [] });
  expired = λ n. false;
  now = λ n. n;
  elapsed = λ n. pos 200000000;
  unmarshal_job = λ v. some a_job;
  decode = record {
    edition = λ b. none;
    work_payload = λ b. none;
    author_payload = λ b. some an_author_payload;
    envelope = λ b. some (codes "/type/author");
    search = λ b. some (found []);
  };
  url_path = λ u. some u;
}

abbrev pub a_config : Config
a_config = record {
  results_writer = true;
  edges_writer = true;
  frontier_writer = true;
  dlq_writer = true;
  max_depth = 2;
  retry_max = 2;
  retry_base = 3;
  retry_max_delay = 4;
  robots = some (codes "/private" ∷ []);
}

abbrev pub a_world : World
a_world = record {
  tick = 0;
  results = [];
  edges = [];
  frontier = [];
  dlq = [];
  visited = [];
  fetched = [];
  waits = [];
  commits = [];
  sent_at = [];
  slots = 0;
  in_flight = 0;
  jobs_received = 0;
  jobs_skipped = 0;
  jobs_success = 0;
  jobs_failed = 0;
  rate_limit_hits = 0;
  fetch_latency = new_histogram fetch_latency_buckets;
}
