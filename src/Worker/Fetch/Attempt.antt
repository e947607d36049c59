-- ===== src/Worker/Fetch/Attempt.antt =====
-- One attempt at a job.
use relentless_bookworm.Base.{
  ◌+◌, ◌≤◌, ◌≡◌, refl, ap, ◌∙◌, ◌++◌, if◌then◌else◌, true, false, not, Option, none, List, [], ◌∷◌,
  arith, Bytes, codes, if_elim, length, length-append,
}
use relentless_bookworm.Text.{contains}
use relentless_bookworm.Result.{Result, ok, err, robots_disallows}
use relentless_bookworm.Models.{CrawlJob, Node, SearchResponse}
use relentless_bookworm.Ol.Client.{ensure_json_url}
use relentless_bookworm.Ol.Robots.{allowed}
use relentless_bookworm.Ol.Parser.{parse_node, parse_search_response}
use relentless_bookworm.Worker.State.{Env, Config, World, Exec, pure, then_do, ◌>>=◌}
use relentless_bookworm.Worker.Expand.{is_search_url, fetch_json_with_metrics}
use relentless_bookworm.Worker.Frame.{Same, Same-refl, then_do-Same, fetch-Same, fetch-fetched}
use relentless_bookworm.Worker.Fetch.{crawl_work, crawl_author, handle_search, job_path, handle_job}

module _ (env : Env) (cfg : Config) (job : CrawlJob) where
  crawl_work-Same : (w : World) → Same w (crawl_work env cfg job w).1
  unfolding crawl_work
  crawl_work-Same w =
      let b = fetch_json_with_metrics env (ensure_json_url job.url) w in
      then_do-Same b.0 w b.1 _ (fetch-Same env _ w) (λ body u. Same-refl u)

  handle_search-Same : (w : World) → Same w (handle_search env cfg job w).1
  unfolding handle_search
  handle_search-Same w =
      let b = fetch_json_with_metrics env job.url w in
      then_do-Same b.0 w b.1 _ (fetch-Same env _ w) (λ body u.
        then_do-Same (parse_search_response env.decode body) u u _ (Same-refl u)
          (λ _ v. Same-refl v))

  -- A case rule: the four ways that a job goes.
  pub handle_job_cases :
      (P : Result (Option Node) × World → Type 0) (w : World)
      → (allowed cfg.robots (job_path env cfg job) ≡ false
          → P (err (robots_disallows (job_path env cfg job)), w))
      → (allowed cfg.robots (job_path env cfg job) ≡ true
          → is_search_url job.url ≡ true
          → P (handle_search env cfg job w))
      → (allowed cfg.robots (job_path env cfg job) ≡ true
          → is_search_url job.url ≡ false
          → P (crawl_work env cfg job w))
      → P (handle_job env cfg job w)
  unfolding handle_job crawl_author crawl_work
  handle_job_cases P w refused search crawl =
      if_elim (λ (m : Exec (Option Node)). P (m w))
        (not (allowed cfg.robots (job_path env cfg job))) _ _ (λ e. refused (ground arith))
        (λ e.
          if_elim (λ (m : Exec (Option Node)). P (m w)) (is_search_url job.url) _ _
            (λ s. search (ground arith) s)
            (λ n.
              if_elim (λ (m : Exec (Option Node)). P (m w)) (contains job.url (codes "/authors/")) _
                _ (λ _. crawl (ground arith) n) (λ _. crawl (ground arith) n)))

  pub handle_job-Same : (w : World) → Same w (handle_job env cfg job w).1
  handle_job-Same w =
      handle_job_cases (λ r. Same w r.1) w (λ _. Same-refl w) (λ _ _. handle_search-Same w)
        (λ _ _. crawl_work-Same w)

  pure_bind-world {ℓ} :
      {A : Type ℓ} (r : Result Bytes) (v : World) (f : Bytes → Result A)
      → (then_do r v (λ body u. (f body, u))).1 ≡ v
  pure_bind-world (ok b) v f = refl
  pure_bind-world (err e) v f = refl

  search_bind-world :
      (r : Result Bytes) (v : World)
      → (then_do r v (λ body.
          (λ u. (parse_search_response env.decode body, u))
          >>= (λ resp. pure {A = Option Node} none))).1
        ≡ v
  search_bind-world (ok b) v = only (parse_search_response env.decode b)
    where
      only : (r : Result SearchResponse) → (then_do r v (λ resp. pure {A = Option Node} none)).1 ≡ v
      only (ok b) = refl
      only (err e) = refl
  search_bind-world (err e) v = refl

  -- One attempt asks for one URL at most.
  pub handle_job-fetches :
      (w : World) → length (handle_job env cfg job w).1.fetched ≤ length w.fetched + 1
  unfolding crawl_work handle_search
  handle_job-fetches w =
      handle_job_cases (λ r. length r.1.fetched ≤ length w.fetched + 1) w (λ _. omega arith)
        (λ _ _.
          let b = fetch_json_with_metrics env job.url w in
          one job.url _ (ap (λ (v : World). v.fetched) (search_bind-world b.0 b.1)))
        (λ _ _.
          let b = fetch_json_with_metrics env (ensure_json_url job.url) w in
          one (ensure_json_url job.url) _
            (ap (λ (v : World). v.fetched) (pure_bind-world b.0 b.1 (parse_node env.decode))))
    where
      one :
          (url : Bytes) (l : List Bytes)
          → l ≡ (fetch_json_with_metrics env url w).1.fetched
          → length l ≤ length w.fetched + 1
      one url l e = rw (e, fetch-fetched) (omega (arith, length-append w.fetched (url ∷ [])))

  -- An attempt that robots.txt allows asks for just the URL of the job.
  pub handle_job-asks :
      (w : World)
      → allowed cfg.robots (job_path env cfg job) ≡ true
      → (handle_job env cfg job w).1.fetched
        ≡ w.fetched ++ (if is_search_url job.url then job.url else ensure_json_url job.url) ∷ []
  unfolding crawl_work handle_search
  handle_job-asks w fine =
      let asked = if is_search_url job.url then job.url else ensure_json_url job.url in
      handle_job_cases (λ r. r.1.fetched ≡ w.fetched ++ asked ∷ []) w (λ e. cc)
        (λ _ s.
          let b = fetch_json_with_metrics env job.url w in
          ap (λ (v : World). v.fetched) (search_bind-world b.0 b.1)
          ∙ rw s (fetch-fetched env job.url w))
        (λ _ n.
          let b = fetch_json_with_metrics env (ensure_json_url job.url) w in
          ap (λ (v : World). v.fetched) (pure_bind-world b.0 b.1 (parse_node env.decode))
          ∙ rw n (fetch-fetched env (ensure_json_url job.url) w))
