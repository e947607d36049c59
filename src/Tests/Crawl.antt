-- ===== src/Tests/Crawl.antt =====
-- A crawl of one job.
use mathlib.Core.WellFounded.{Acc}
use relentless_bookworm.Base.{ℕ, ◌%◌, ◌==◌, ◌≡◌, refl, arith, Bytes, Option, none, some, [], ◌∷◌}
use relentless_bookworm.Models.{CrawlJob}
use relentless_bookworm.Commit.{Message}
use relentless_bookworm.Worker.State.{Env}
use relentless_bookworm.Worker.Crawl.{Crawl, rounds}
use relentless_bookworm.Worker.Crawl.Drains.{crawl_drains}
use relentless_bookworm.Worker.Crawl.Ends.{Next, crawl_ends}
use relentless_bookworm.Tests.Fixtures.{a_job, an_env, a_config, a_world}

abbrev a_crawl : Crawl
a_crawl = record { pending = a_job ∷ []; world = a_world }

crawl_ends_example : Acc (Next a_config) a_crawl
crawl_ends_example = crawl_ends a_config a_crawl (omega arith)

-- A message that holds the depth of its job and nothing else.
abbrev depth_message : CrawlJob → Message
depth_message job = record { partition = 0; offset = 0; value = job.depth ∷ [] }

abbrev read_depth : Bytes → Option CrawlJob
read_depth [] = none
read_depth (d ∷ rest) = some (record a_job { depth = d })

abbrev depth_env : Env
depth_env = record an_env { unmarshal_job = read_depth }

-- At every other message redis does not answer.
abbrev depth_envs : ℕ → Env
depth_envs n = record depth_env { store_answers = λ t. n % 2 == 0 }

crawl_drains_example :
    (k : ℕ) × ((rounds a_config depth_envs (λ n. depth_message) 0 k a_crawl).pending ≡ [])
crawl_drains_example =
    crawl_drains a_config depth_envs (λ n. depth_message) (omega arith) (λ n job. refl) a_crawl
