-- ===== src/Wiring/Seeds.antt =====
-- From the API to a worker, over the frontier topic and its json.
use relentless_bookworm.Base.{
  subst, pos, ◌+◌, ◌≡◌, refl, ap, sym, ◌∙◌, true, false, some, [], ◌∷◌, ◌++◌, Bytes, codes,
}
use relentless_bookworm.Text.{bytes_eq, trim_space}
use relentless_bookworm.Json.{IsInt}
use relentless_bookworm.Json.Valid.{Codec, IsValid}
use relentless_bookworm.Models.{CrawlJob}
use relentless_bookworm.Models.Encode.{encode_job}
use relentless_bookworm.Models.Decode.{unmarshal, decode_job}
use relentless_bookworm.Models.RoundTrip.{job_back}
use relentless_bookworm.Commit.{Message}
use relentless_bookworm.Api
use relentless_bookworm.Api.{Server, normalize_seed_url, seed_job, handle_crawl}
use relentless_bookworm.Api.Laws.{crawl_stored}
use relentless_bookworm.Worker.State.{Env, Config, World}
use relentless_bookworm.Worker.Dispatch.{
  started, dedupe_key_for_job, holds, set_nx, dispatch_message,
}

module _ (env : Env) (cfg : Config) (msg : Message) (job : CrawlJob) (w : World) where
  -- A job that redis has not seen is started, when there is a slot.
  abbrev pub begun : World
  begun = record w {
    tick = w.tick + 1 + 1;
    visited = dedupe_key_for_job job ∷ w.visited;
    jobs_received = w.jobs_received + 1;
    slots = w.slots + 1;
    in_flight = w.in_flight + 1;
  }

  new_job_started :
      env.unmarshal_job msg.value ≡ some job
      → env.store_answers w.tick ≡ true
      → holds w.visited (dedupe_key_for_job job) ≡ false
      → env.expired (w.tick + 1) ≡ false
      → dispatch_message env cfg msg w ≡ (started job, begun)
  unfolding dispatch_message set_nx
  new_job_started u a h e = rw u (rw a (rw h (rw e refl)))

-- A seed that is posted reaches a worker: while kafka and redis answer the API, it puts one job on the
-- frontier, and a worker that gets the json of this job as a message, and redis has not seen its
-- URL, starts just this job in a slot, if it gets one before the context ends. The texts of the job
-- are UTF-8.
pub seed_started :
    (c : Codec) (out : Api.Outside) (prefix url : Bytes) (s : Server) (env : Env) (cfg : Config)
    (msg : Message) (w : World) (job : CrawlJob)
    → job ≡ seed_job out prefix (normalize_seed_url (trim_space url)) (out.now s.tick)
    → bytes_eq (trim_space url) [] ≡ false
    → out.writes s.tick ≡ true
    → out.answers (s.tick + 1) ≡ true
    → ((b : Bytes) → env.unmarshal_job b ≡ unmarshal c (decode_job c) b)
    → msg.value ≡ c.print (encode_job c job)
    → IsValid (encode_job c job)
    → env.store_answers w.tick ≡ true
    → holds w.visited (dedupe_key_for_job job) ≡ false
    → env.expired (w.tick + 1) ≡ false
    → ((handle_crawl out prefix (codes "POST") url s).1.frontier ≡ s.frontier ++ job ∷ [])
      × (dispatch_message env cfg msg w ≡ (started job, begun env cfg msg job w))
seed_started c out prefix url s env cfg msg w job seed given written stores same carried valid
      answers new slot =
    (
      ap (λ r. r.1.frontier) (crawl_stored out prefix url s given written stores)
          ∙ ap (λ (j : CrawlJob). s.frontier ++ j ∷ []) (sym seed),
      new_job_started env cfg msg job w
          (same msg.value
            ∙ ap (unmarshal c (decode_job c)) carried
            ∙ job_back c job valid (subst (λ (j : CrawlJob). IsInt (pos j.depth)) (sym seed) refl))
          answers new slot,
    )
