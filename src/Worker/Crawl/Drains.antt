-- ===== src/Worker/Crawl/Drains.antt =====
-- A crawl whose frontier is read in its order is worked off.
use mathlib.Core.WellFounded.{Acc}
use relentless_bookworm.Base.{ℕ, suc, ◌<◌, ◌≡◌, refl, ap, ◌∙◌, List, [], ◌∷◌, ◌++◌}
use relentless_bookworm.Models.{CrawlJob}
use relentless_bookworm.Commit.{Message}
use relentless_bookworm.Worker.State.{Env, Config, World}
use relentless_bookworm.Worker.Crawl.{Crawl, CrawlStep, take, KeepsDepth, added, take_first, rounds}
use relentless_bookworm.Worker.Crawl.Ends.{work-Adds, Next, crawl_ends}

added-append : (xs ys : List CrawlJob) → added xs (xs ++ ys) ≡ ys
added-append [] ys = refl
added-append (x ∷ xs) ys = added-append xs ys

module _ (cfg : Config) (envs : ℕ → Env) (marshal : ℕ → CrawlJob → Message)
    (limited : 0 < cfg.max_depth)
    (keeps_depth : (n : ℕ) (job : CrawlJob)
      → KeepsDepth job ((envs n).unmarshal_job (marshal n job).value)) where
  -- A round with a job that is pending is a step of the crawl.
  take_first-CrawlStep :
      (n : ℕ) (job : CrawlJob) (jobs : List CrawlJob) (w : World)
      → CrawlStep cfg
          (record { pending = job ∷ jobs; world = w })
          (take_first cfg envs marshal n (job ∷ jobs) w)
  take_first-CrawlStep n job jobs w =
      let msg = marshal n job in
      let k = keeps_depth n job in
      let a = work-Adds (envs n) cfg msg job w limited ((envs n).unmarshal_job msg.value) refl k in
      let e = ap (added w.frontier) a.frontier ∙ added-append w.frontier a.jobs in
      take (envs n) msg [] job jobs a.jobs refl k refl a.frontier
        (ap (λ (l : List CrawlJob). jobs ++ l) e)

  drain_pending :
      (n : ℕ) (js : List CrawlJob) (w : World)
      → Acc (Next cfg) (record { pending = js; world = w })
      → (k : ℕ) × ((rounds cfg envs marshal n k (record { pending = js; world = w })).pending ≡ [])
  unfolding rounds
  drain_pending n [] w a = (0, refl)
  drain_pending n (job ∷ jobs) w (Acc.intro _ smaller) =
      let t = take_first cfg envs marshal n (job ∷ jobs) w in
      let (k, e) =
        drain_pending (suc n) t.pending t.world (smaller t (take_first-CrawlStep n job jobs w)) in
      (suc k, e)

  -- With a depth limit the frontier is worked off: from any jobs that are pending, when they are
  -- taken in their order and what they enqueue is taken behind them, there is a round after which
  -- no job is pending. This holds however each message goes: whatever the pages hold, and whichever
  -- fetches, writes and answers of redis fail, if a message that can be read keeps the depth of its
  -- job.
  pub crawl_drains : (s : Crawl) → (k : ℕ) × ((rounds cfg envs marshal 0 k s).pending ≡ [])
  crawl_drains s = drain_pending 0 s.pending s.world (crawl_ends cfg s limited)
