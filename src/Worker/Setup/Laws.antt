-- ===== src/Worker/Setup/Laws.antt =====
-- What the settings come to.
use relentless_bookworm.Base.{
  ◌≤◌, ◌<◌, ◌≡◌, refl, sym, ap, ◌∙◌, ◌⊎◌, inl, inr, ℤ, true, Option, some, [], ◌∷◌, ◌++◌, arith,
  Bytes, codes, All, Bool-cases, if◌then◌else◌,
}
use relentless_bookworm.Text.{bytes_eq, has_prefix}
use relentless_bookworm.Models.{CrawlJob}
use relentless_bookworm.Ol.Client.{Response, ensure_json_url}
use relentless_bookworm.Result.{Result, ok, err, robots_disallows}
use relentless_bookworm.Ol.Robots.{Rules, allowed, normalize_path, default_user_agent}
use relentless_bookworm.Ol.Robots.Laws.{Any, allowed_iff}
use relentless_bookworm.Ol.Robots.RoundTrip.{IsRule, render, parse_robots-render}
use relentless_bookworm.Worker.State.{Env, Config, World}
use relentless_bookworm.Worker.Expand.{is_search_url}
use relentless_bookworm.Worker.Fetch.{job_path, handle_job}
use relentless_bookworm.Worker.Fetch.Attempt.{handle_job-asks}
use relentless_bookworm.Worker.Dispatch.Refused.{handle_job-refused}
use relentless_bookworm.Worker.Setup.{Url, fetch_robots, seconds, new_limits, load_robots}

-- Whatever is configured, negative numbers included, newWorker lets at least one job run at a time,
-- and both timeouts are positive. The publish timeout is below the job timeout, except where the job
-- timeout is 30 s or less and the publish timeout is at least as long.
pub new_limits_bounds :
    (c j p : ℤ)
    → let l = new_limits c j p in
      (1 ≤ l.concurrent_jobs)
      × (0 < l.job_timeout)
      × (0 < l.publish_timeout)
      × ((l.publish_timeout < l.job_timeout)
          ⊎ ((l.job_timeout ≤ seconds 30) × (l.publish_timeout ≡ seconds 30)))
unfolding new_limits
new_limits_bounds c j p = ground arith

load_robots-served :
    (parse_url : Bytes → Option Url) (send : Url → Result Response) (getenv : Bytes → Bytes)
    (site : Url) (ps : Rules)
    → (getenv (codes "RESPECT_ROBOTS_TXT") ≡ codes "true")
      ⊎ (getenv (codes "RESPECT_ROBOTS_TXT") ≡ codes "1")
    → parse_url (codes "https://openlibrary.org") ≡ some site
    → send (record site { path = codes "/robots.txt"; raw_query = [] })
      ≡ ok (record { status_code = 200; body = ok (render ps) })
    → All IsRule ps
    → load_robots parse_url send getenv ≡ some ps
unfolding load_robots bytes_eq fetch_robots
load_robots-served parse_url send getenv site ps (inl e) u served h =
    rw (e, u, served, parse_robots-render default_user_agent ps h) refl
load_robots-served parse_url send getenv site ps (inr e) u served h =
    rw (e, u, served, parse_robots-render default_user_agent ps h) refl

-- RESPECT_ROBOTS_TXT is "true" or "1", the site serves rules for every agent, and the worker has the
-- rules that are loaded. One attempt at a job then goes by the path of its URL, where the empty path
-- counts as "/": if some rule is a prefix of the path, the attempt fails with nothing fetched and
-- nothing else changed; and if none is, the URL of the job is fetched, and no other.
pub robots_respected :
    (parse_url : Bytes → Option Url) (send : Url → Result Response) (getenv : Bytes → Bytes)
    (site : Url) (ps : Rules) (env : Env) (cfg : Config) (job : CrawlJob) (w : World)
    → (getenv (codes "RESPECT_ROBOTS_TXT") ≡ codes "true")
      ⊎ (getenv (codes "RESPECT_ROBOTS_TXT") ≡ codes "1")
    → parse_url (codes "https://openlibrary.org") ≡ some site
    → send (record site { path = codes "/robots.txt"; raw_query = [] })
      ≡ ok (record { status_code = 200; body = ok (render ps) })
    → All IsRule ps
    → cfg.robots ≡ load_robots parse_url send getenv
    → let path = job_path env cfg job in
      (Any (λ r. has_prefix (normalize_path path) r ≡ true) ps
        × (handle_job env cfg job w ≡ (err (robots_disallows path), w)))
      ⊎ (¬ Any (λ r. has_prefix (normalize_path path) r ≡ true) ps
          × ((handle_job env cfg job w).1.fetched
              ≡ w.fetched
                ++ (if is_search_url job.url then job.url else ensure_json_url job.url) ∷ []))
robots_respected parse_url send getenv site ps env cfg job w value u served h robots =
    let path = job_path env cfg job in
    let rules = robots ∙ load_robots-served parse_url send getenv site ps value u served h in
    let by_rules = ap (λ (r : Option Rules). allowed r path) rules in
    elim (Bool-cases (allowed cfg.robots path)) [
      | inl fine ↦ inr (
        (λ a. cc (fine, by_rules, (allowed_iff ps path).1 a)),
        handle_job-asks env cfg job w fine,
      )
      | inr refused ↦ inl (
        (allowed_iff ps path).0 (sym by_rules ∙ refused),
        handle_job-refused env cfg job refused w,
      )
    ]
