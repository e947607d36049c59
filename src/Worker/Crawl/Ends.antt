-- ===== src/Worker/Crawl/Ends.antt =====
-- The crawl comes to an end.
use mathlib.Core.WellFounded.{Acc}
use relentless_bookworm.Base.{
  ℕ, ◌-◌, ◌<◌, ◌≡◌, refl, sym, subst, ap, ◌∙◌, List, [], ◌∷◌, ◌++◌, arith, All, length, Option,
  none, some, append-nil,
}
use relentless_bookworm.Models.{CrawlJob}
use relentless_bookworm.Commit.{Message}
use relentless_bookworm.Worker.State.{Env, World, Config}
use relentless_bookworm.Worker.Expand.Published.{IsChild}
use relentless_bookworm.Worker.Crawl.{Crawl, CrawlStep, take, work, KeepsDepth}
use relentless_bookworm.Worker.Dispatch.{dispatch_message, after_unmarshal}
use relentless_bookworm.Worker.Crawl.Grows.{work-Grows}
use relentless_bookworm.Worker.Crawl.Levels.{Falls, Acc-length, left, counts, counts-Falls}

append_cancel {ℓ} : {A : Type ℓ} (xs ys zs : List A) → xs ++ ys ≡ xs ++ zs → ys ≡ zs
append_cancel [] ys zs e = e
append_cancel (x ∷ xs) ys zs e = append_cancel xs ys zs (cc)

children_lower :
    (cfg : Config) (job : CrawlJob) (js : List CrawlJob)
    → 0 < cfg.max_depth
    → All (IsChild cfg job) js
    → All (λ j. left cfg.max_depth j < left cfg.max_depth job) js
children_lower cfg job [] h a = tt
children_lower cfg job (j ∷ js) h a =
    (ground (arith, a.0.level, a.0.limit), children_lower cfg job js h a.1)

-- Numbers for a state: how many jobs are pending, by the levels that they have left.
abbrev numbers : Config → Crawl → List ℕ
numbers cfg s = counts cfg.max_depth cfg.max_depth s.pending

-- What a message adds, for the job that it was made from, when the job that is read keeps its depth.
pub record Adds (cfg : Config) (job : CrawlJob) (v w : World) : Type 0 where
  pub jobs : List CrawlJob
  pub frontier : w.frontier ≡ v.frontier ++ jobs
  pub lower : All (λ j. left cfg.max_depth j < left cfg.max_depth job) jobs

pub work-Adds :
    (env : Env) (cfg : Config) (msg : Message) (job : CrawlJob) (w : World)
    → 0 < cfg.max_depth
    → (o : Option CrawlJob) → env.unmarshal_job msg.value ≡ o
    → KeepsDepth job o
    → Adds cfg job w (work env cfg msg w)
unfolding work dispatch_message after_unmarshal
work-Adds env cfg msg job w h none e k = record {
  jobs = [];
  frontier = rw (e, append-nil w.frontier);
  lower = tt;
}
work-Adds env cfg msg job w h (some read) e k =
    let g = work-Grows env cfg msg read w e in
    record {
      jobs = g.jobs;
      frontier = g.frontier;
      lower =
          subst (λ (d : ℕ). All (λ j. left cfg.max_depth j < cfg.max_depth - d) g.jobs) k
            (children_lower cfg read g.jobs h g.children);
    }

CrawlStep-Falls :
    (cfg : Config) (s t : Crawl)
    → 0 < cfg.max_depth
    → CrawlStep cfg s t
    → Falls (numbers cfg t) (numbers cfg s)
CrawlStep-Falls cfg s t h (take env msg xs job ys new p k w f q) =
    let a = work-Adds env cfg msg job s.world h (env.unmarshal_job msg.value) refl k in
    let same : a.jobs ≡ new =
      append_cancel s.world.frontier a.jobs new
        (sym a.frontier ∙ ap (λ (v : World). v.frontier) (sym w) ∙ f) in
    let lower =
      subst (λ (l : List CrawlJob). All (λ j. left cfg.max_depth j < left cfg.max_depth job) l) same
        a.lower in
    rw (p, q) (counts-Falls cfg.max_depth xs job ys new lower cfg.max_depth (omega arith))

-- The states that may come next stand below a state.
abbrev pub Next : Config → Crawl → Crawl → Type 0
Next cfg t s = CrawlStep cfg s t

Acc-numbers :
    (cfg : Config) (ns : List ℕ)
    → 0 < cfg.max_depth
    → Acc Falls ns
    → (s : Crawl) → numbers cfg s ≡ ns
    → Acc (Next cfg) s
Acc-numbers cfg ns h (Acc.intro _ smaller) s e = Acc.intro s λ t st.
    Acc-numbers cfg (numbers cfg t) h
      (smaller (numbers cfg t)
        (subst (λ (l : List ℕ). Falls (numbers cfg t) l) e (CrawlStep-Falls cfg s t h st)))
      t refl

-- With a depth limit every crawl ends: from any jobs that are pending, at whatever depths, there is
-- no endless run of messages, in whatever order the workers take them, whatever the pages hold, and
-- whichever fetches, writes and answers of redis fail. It is accessible, so there is no infinite
-- sequence of steps from it.
pub crawl_ends : (cfg : Config) (s : Crawl) → 0 < cfg.max_depth → Acc (Next cfg) s
crawl_ends cfg s h =
    Acc-numbers cfg (numbers cfg s) h (Acc-length (length (numbers cfg s)) (numbers cfg s) refl) s
      refl
