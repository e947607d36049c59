-- ===== src/Worker/Crawl.antt =====
-- The crawl as a whole: the frontier topic feeds the workers, and what they enqueue goes back to it.
-- A step is one message, worked on to its end by some worker: dispatchMessage, and processJobAsync if
-- it starts the job. Messages come in any order, each one once; every step has its own outside, so
-- any number of workers, pages, failures and endings of contexts are covered. What is read back from
-- a message keeps the depth of its job, or cannot be read; its texts may differ, as json writes a
-- replacement for bytes that are not UTF-8.
pub mod Grows
pub mod Levels
pub mod Ends
pub mod Drains
use relentless_bookworm.Base.{ℕ, zero, suc, ◌≡◌, Option, none, some, List, [], ◌∷◌, ◌++◌}
use relentless_bookworm.Models.{CrawlJob}
use relentless_bookworm.Commit.{Message}
use relentless_bookworm.Worker.State.{Env, Config, World}
use relentless_bookworm.Worker.Dispatch.{
  Dispatched, returned, started, dispatch_message, process_job_async,
}

module _ (env : Env) (cfg : Config) (msg : Message) where
  abbrev pub finish : Dispatched × World → World
  finish (returned r, w) = w
  finish (started job, w) = process_job_async env cfg msg job w

  -- One message, from dispatchMessage to the end of its job.
  unfoldable pub work : World → World
  unfolding dispatch_message process_job_async
  work w = finish (dispatch_message env cfg msg w)

-- The jobs of the topic that no worker has taken yet, and the world.
pub record Crawl : Type 0 where
  pub pending : List CrawlJob
  pub world : World

-- What encoding/json keeps of a job: its depth, where the message can be read at all.
abbrev pub KeepsDepth : CrawlJob → Option CrawlJob → Type 0
KeepsDepth job none = Unit
KeepsDepth job (some read) = read.depth ≡ job.depth

pub data CrawlStep (cfg : Config) (s t : Crawl) : Type 0 where
  take :
      (env : Env) (msg : Message) (xs : List CrawlJob) (job : CrawlJob) (ys new : List CrawlJob)
      → s.pending ≡ xs ++ job ∷ ys
      → KeepsDepth job (env.unmarshal_job msg.value)
      → t.world ≡ work env cfg msg s.world
      → t.world.frontier ≡ s.world.frontier ++ new
      → t.pending ≡ xs ++ (ys ++ new)
      → CrawlStep cfg s t

-- What a list has grown by.
abbrev pub added : List CrawlJob → List CrawlJob → List CrawlJob
added [] ys = ys
added (x ∷ xs) [] = []
added (x ∷ xs) (y ∷ ys) = added xs ys

-- The loop of `run` when the frontier is read in its order: the n-th message is made from the first
-- job that is pending, and meets the n-th outside; what it enqueues goes to the end.
module _ (cfg : Config) (envs : ℕ → Env) (marshal : ℕ → CrawlJob → Message) where
  abbrev pub take_first : ℕ → List CrawlJob → World → Crawl
  take_first n [] w = record { pending = []; world = w }
  take_first n (job ∷ jobs) w =
      let v = work (envs n) cfg (marshal n job) w in
      record { pending = jobs ++ added w.frontier v.frontier; world = v }

  -- So many rounds, from the n-th on.
  unfoldable pub rounds : ℕ → ℕ → Crawl → Crawl
  unfolding work
  rounds n zero s = s
  rounds n (suc k) s = rounds (suc n) k (take_first n s.pending s.world)
