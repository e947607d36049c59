-- ===== src/Tests/Robots.antt =====
-- robots.txt and URLs of Open Library.
use relentless_bookworm.Base.{
  ◌≡◌, refl, true, [], ◌∷◌, Bytes, codes, some, ◌⊎◌, inl, ◌++◌, arith, if◌then◌else◌,
}
use relentless_bookworm.Text.{has_prefix, prefix_length, bytes_eq}
use relentless_bookworm.Ol.Client.{Response, ensure_json_url}
use relentless_bookworm.Worker.State.{Env, Config}
use relentless_bookworm.Worker.Expand.{is_search_url}
use relentless_bookworm.Worker.Fetch.{job_path, handle_job}
use relentless_bookworm.Tests.Fixtures.{a_job, an_env, a_config, a_world}
use relentless_bookworm.Ol.Robots.{Rules, parse_robots, normalize_path}
use relentless_bookworm.Ol.Robots.Laws.{Any}
use relentless_bookworm.Result.{Result, ok, err, robots_disallows}
use relentless_bookworm.Worker.Setup.{Url, load_robots}
use relentless_bookworm.Worker.Setup.Laws.{robots_respected}
use relentless_bookworm.Ol.Robots.RoundTrip.{IsRule, render, parse_robots-render}

abbrev some_rules : Rules
some_rules = codes "/a" ∷ codes "/b" ∷ []

first-IsRule : IsRule (codes "/a")
unfolding prefix_length has_prefix
first-IsRule = record {
  trimmed = record { front = refl; back = refl };
  absolute = refl;
  one_line = ((λ e. cc), ((λ e. cc), tt));
  no_cr = ((λ e. cc), ((λ e. cc), tt));
  short = omega arith;
}

second-IsRule : IsRule (codes "/b")
unfolding prefix_length has_prefix
second-IsRule = record {
  trimmed = record { front = refl; back = refl };
  absolute = refl;
  one_line = ((λ e. cc), ((λ e. cc), tt));
  no_cr = ((λ e. cc), ((λ e. cc), tt));
  short = omega arith;
}

parse_robots-render_example : parse_robots (render some_rules) (codes "x") ≡ some_rules
parse_robots-render_example =
    parse_robots-render (codes "x") some_rules (first-IsRule, (second-IsRule, tt))

abbrev site : Url
site = record { origin = codes "https://openlibrary.org"; path = []; raw_query = [] }

-- The site serves the rules at /robots.txt, and nothing else.
abbrev serves : Url → Result Response
serves u =
    if bytes_eq u.path (codes "/robots.txt")
    then ok (record { status_code = 200; body = ok (render some_rules) })
    else ok (record { status_code = 404; body = ok [] })

abbrev respectful : Bytes → Bytes
respectful key = if bytes_eq key (codes "RESPECT_ROBOTS_TXT") then codes "true" else []

robots_served :
    serves (record site { path = codes "/robots.txt"; raw_query = [] })
    ≡ ok (record { status_code = 200; body = ok (render some_rules) })
unfolding bytes_eq
robots_served = refl

asks_for_respect : respectful (codes "RESPECT_ROBOTS_TXT") ≡ codes "true"
unfolding bytes_eq
asks_for_respect = refl

-- A job with a path that the first rule is a prefix of.
abbrev in_a : Env
in_a = record an_env { url_path = λ u. some (codes "/a/1") }

abbrev obedient : Config
obedient = record a_config { robots = load_robots (λ b. some site) serves respectful }

robots_respected_example :
    (Any (λ r. has_prefix (normalize_path (job_path in_a obedient a_job)) r ≡ true) some_rules
      × (handle_job in_a obedient a_job a_world
          ≡ (err (robots_disallows (job_path in_a obedient a_job)), a_world)))
    ⊎ (¬ Any (λ r. has_prefix (normalize_path (job_path in_a obedient a_job)) r ≡ true) some_rules
        × ((handle_job in_a obedient a_job a_world).1.fetched
            ≡ a_world.fetched
              ++ (if is_search_url a_job.url then a_job.url else ensure_json_url a_job.url) ∷ []))
robots_respected_example =
    robots_respected (λ b. some site) serves respectful site some_rules in_a obedient a_job a_world
      (inl asks_for_respect) refl robots_served (first-IsRule, (second-IsRule, tt)) refl
