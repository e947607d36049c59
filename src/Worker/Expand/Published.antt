-- ===== src/Worker/Expand/Published.antt =====
-- What some steps leave on the topics when they are published.
use mathlib.Core.List.{map-append}
use relentless_bookworm.Base.{
  ℕ, ◌+◌, ◌≤◌, ◌≡◌, refl, sym, ◌∙◌, ◌⊎◌, Bool, false, not, ◌&&◌, List, [], ◌∷◌, ◌++◌, append_assoc,
  append-nil, map, ltb, leb, arith, if◌then◌else◌, Bytes, All, All-append,
}
use relentless_bookworm.Models.{CrawlJob, Edge}
use relentless_bookworm.Worker.State.{Config, World}
use relentless_bookworm.Worker.Publish.{next_job}
use relentless_bookworm.Worker.Expand.Plan.{Step, link, visit}

-- No deeper job may be written: the depth limit is set, and reached.
abbrev pub at_limit : Config → CrawlJob → Bool
at_limit cfg job = ltb 0 cfg.max_depth && leb cfg.max_depth job.depth

-- The edges of some steps; none without a writer.
unfoldable pub edges_of : Config → CrawlJob → List Step → List Edge
edges_of cfg job [] = []
edges_of cfg job (visit url ∷ ss) = edges_of cfg job ss
edges_of cfg job (link from to relation ∷ ss) =
    (if cfg.edges_writer
      then record { session_id = job.session_id; from = from; to = to; relation = relation } ∷ []
      else [])
    ++ edges_of cfg job ss

-- The URLs of the jobs of some steps; none without a writer or at the depth limit.
unfoldable pub urls_of : Config → CrawlJob → List Step → List Bytes
urls_of cfg job [] = []
urls_of cfg job (link from to relation ∷ ss) = urls_of cfg job ss
urls_of cfg job (visit url ∷ ss) =
    (if cfg.frontier_writer && not (at_limit cfg job) then url ∷ [] else []) ++ urls_of cfg job ss

abbrev pub urls : List CrawlJob → List Bytes
urls = map (λ j. j.url)

-- A job that was made from `job`: one level deeper within the limit, in the same session.
pub record IsChild (cfg : Config) (job next : CrawlJob) : Type 0 where
  pub session : next.session_id ≡ job.session_id
  pub seed : next.seed_url ≡ job.seed_url
  pub level : next.depth ≡ job.depth + 1
  pub limit : (cfg.max_depth ≡ 0) ⊎ (next.depth ≤ cfg.max_depth)

-- From the world v to w the steps `done` were published, and nothing else on these topics.
pub record Published (cfg : Config) (job : CrawlJob) (done : List Step) (v w : World) : Type 0 where
  pub edges : w.edges ≡ v.edges ++ edges_of cfg job done
  pub jobs : List CrawlJob
  pub frontier : w.frontier ≡ v.frontier ++ jobs
  pub targets : urls jobs ≡ urls_of cfg job done
  pub children : All (IsChild cfg job) jobs
  pub results : w.results ≡ v.results
  pub commits : w.commits ≡ v.commits

module _ (cfg : Config) (job : CrawlJob) where
  edges_of-append :
      (xs ys : List Step) → edges_of cfg job (xs ++ ys) ≡ edges_of cfg job xs ++ edges_of cfg job ys
  unfolding edges_of
  edges_of-append [] ys = refl
  edges_of-append (visit url ∷ xs) ys = edges_of-append xs ys
  edges_of-append (link f t r ∷ xs) ys = rw (edges_of-append xs ys, append_assoc)

  urls_of-append :
      (xs ys : List Step) → urls_of cfg job (xs ++ ys) ≡ urls_of cfg job xs ++ urls_of cfg job ys
  unfolding urls_of
  urls_of-append [] ys = refl
  urls_of-append (link f t r ∷ xs) ys = urls_of-append xs ys
  urls_of-append (visit url ∷ xs) ys = rw (urls_of-append xs ys, append_assoc)

  -- A call that only takes time.
  pub Published-none : (w : World) (n : ℕ) → Published cfg job [] w (record w { tick = n })
  unfolding edges_of urls_of
  Published-none w n = record {
    edges = sym (append-nil w.edges);
    jobs = [];
    frontier = sym (append-nil w.frontier);
    targets = refl;
    children = tt;
    results = refl;
    commits = refl;
  }

  pub Published-trans :
      (xs ys : List Step) (u v w : World)
      → Published cfg job xs u v
      → Published cfg job ys v w
      → Published cfg job (xs ++ ys) u w
  Published-trans xs ys u v w p q = record {
    edges = rw (q.edges, p.edges, edges_of-append xs ys, append_assoc);
    jobs = p.jobs ++ q.jobs;
    frontier = rw (q.frontier, p.frontier, append_assoc);
    targets = rw (map-append, p.targets, q.targets, urls_of-append xs ys);
    children = All-append (IsChild cfg job) p.jobs q.jobs p.children q.children;
    results = q.results ∙ p.results;
    commits = q.commits ∙ p.commits;
  }

-- One step that writes nothing because there is no writer, or because of the depth limit.
pub skip_edge :
    (cfg : Config) (job : CrawlJob) (f t r : Bytes) (w : World)
    → cfg.edges_writer ≡ false
    → Published cfg job (link f t r ∷ []) w w
unfolding edges_of urls_of
skip_edge cfg job f t r w e = record {
  edges = rw e (sym (append-nil w.edges));
  jobs = [];
  frontier = sym (append-nil w.frontier);
  targets = refl;
  children = tt;
  results = refl;
  commits = refl;
}

pub skip_job :
    (cfg : Config) (job : CrawlJob) (url : Bytes) (w : World)
    → (cfg.frontier_writer && not (at_limit cfg job)) ≡ false
    → Published cfg job (visit url ∷ []) w w
unfolding edges_of urls_of
skip_job cfg job url w e = record {
  edges = sym (append-nil w.edges);
  jobs = [];
  frontier = sym (append-nil w.frontier);
  targets = rw e;
  children = tt;
  results = refl;
  commits = refl;
}

pub next_job-IsChild :
    (cfg : Config) (job : CrawlJob) (url : Bytes) (now : ℕ)
    → at_limit cfg job ≡ false
    → IsChild cfg job (next_job job url now)
next_job-IsChild cfg job url now e = record {
  session = refl;
  seed = refl;
  level = refl;
  limit = ground arith;
}
