-- ===== src/Loadgen/Laws.antt =====
-- The load generator against the API.
use relentless_bookworm.Base.{
  ℕ, ◌+◌, ◌<◌, ◌≡◌, refl, ap, ◌∙◌, sym, Bool, true, false, Option, some, List, [], ◌∷◌, ◌++◌,
  append_assoc, append-nil, map, Bytes, codes, All,
}
use relentless_bookworm.Text.{bytes_eq, trim_space}
use relentless_bookworm.Text.Query.{query_get-query_escape}
use relentless_bookworm.Models.{CrawlJob}
use relentless_bookworm.Api.{Outside, Server, normalize_seed_url, serve_crawl, serve, answer_code}
use relentless_bookworm.Api.Laws.{crawl_stored}
use relentless_bookworm.Loadgen.{Request, sent, submit_seed, load_config, run_loadgen}

-- A seed that the API takes: bytes, and not blank.
abbrev pub IsSeed : Bytes → Type 0
IsSeed seed = All (λ c. c < 256) seed × (bytes_eq (trim_space seed) [] ≡ false)

-- The server behind the requests, one after the other, and the codes of its replies.
abbrev pub serve_all : Outside → Bytes → List Request → Server → List ℕ × Server
serve_all out prefix [] s = ([], s)
serve_all out prefix (r ∷ rs) s =
    let (answer, t) = serve out prefix (codes "POST") r.path r.raw_query s in
    let (codes_of, u) = serve_all out prefix rs t in (answer_code answer ∷ codes_of, u)

abbrev pub urls : List CrawlJob → List Bytes
urls [] = []
urls (j ∷ js) = j.url ∷ urls js

urls-append : (xs ys : List CrawlJob) → urls (xs ++ ys) ≡ urls xs ++ urls ys
urls-append [] ys = refl
urls-append (x ∷ xs) ys = ap (λ (l : List Bytes). x.url ∷ l) (urls-append xs ys)

abbrev pub accepted : List Bytes → List ℕ
accepted [] = []
accepted (x ∷ xs) = 202 ∷ accepted xs

-- Where a seed is to be crawled first.
abbrev pub seed_url_of : Bytes → Bytes
seed_url_of seed = normalize_seed_url (trim_space seed)

module _ (out : Outside) (prefix base : Bytes) (writes : (n : ℕ) → out.writes n ≡ true)
    (answers : (n : ℕ) → out.answers n ≡ true) where
  serve_one :
      (x : Bytes) (s : Server)
      → IsSeed x
      → let q = submit_seed base x in
        let r = serve out prefix (codes "POST") q.path q.raw_query s in
        (answer_code r.0 ≡ 202) × (urls r.1.frontier ≡ urls s.frontier ++ seed_url_of x ∷ [])
  unfolding serve serve_crawl submit_seed bytes_eq
  serve_one x s h = rw (query_get-query_escape x h.0) (
      rw (crawl_stored out prefix x s h.1 (writes s.tick) (answers (s.tick + 1)))
        (refl, urls-append s.frontier _))

  serve_all-accepted :
      (xs : List Bytes) (s : Server)
      → All IsSeed xs
      → let (replies, t) = serve_all out prefix (map (submit_seed base) xs) s in
        (replies ≡ accepted xs) × (urls t.frontier ≡ urls s.frontier ++ map seed_url_of xs)
  unfolding submit_seed
  serve_all-accepted [] s h = (refl, sym (append-nil (urls s.frontier)))
  serve_all-accepted (x ∷ xs) s h =
      let one = serve_one x s h.0 in
      let q = submit_seed base x in
      let t = (serve out prefix (codes "POST") q.path q.raw_query s).1 in
      let rest = serve_all-accepted xs t h.1 in
      (
        ap (λ (n : ℕ). n ∷ (serve_all out prefix (map (submit_seed base) xs) t).0) one.0
            ∙ ap (λ (l : List ℕ). 202 ∷ l) rest.0,
        rest.1
            ∙ ap (λ (l : List Bytes). l ++ map seed_url_of xs) one.1
            ∙ append_assoc (urls s.frontier) (seed_url_of x ∷ []) (map seed_url_of xs),
      )

-- From the load generator's file to the frontier: when the file has seeds, each of bytes and not
-- blank, and the base URL is well-formed, `run` sends a request for each seed. When the routes of
-- the API handle them in that order, while kafka and redis answer, every one is accepted, and the
-- frontier has grown by a job for each seed's URL, that is the seed itself, made a JSON URL, or else
-- a search for it.
pub seeds_reach_frontier :
    (read_file : Bytes → Option Bytes) (unmarshal : Bytes → Option (List Bytes))
    (url_parses : Bytes → Bool) (path base text x : Bytes) (xs : List Bytes) (out : Outside)
    (prefix : Bytes) (s : Server)
    → read_file path ≡ some text
    → unmarshal text ≡ some (x ∷ xs)
    → All IsSeed (x ∷ xs)
    → url_parses base ≡ true
    → ((n : ℕ) → out.writes n ≡ true)
    → ((n : ℕ) → out.answers n ≡ true)
    → (rs : List Request) × (run_loadgen read_file unmarshal url_parses path base ≡ sent rs)
      × ((serve_all out prefix rs s).0 ≡ accepted (x ∷ xs))
      × (urls (serve_all out prefix rs s).1.frontier ≡ urls s.frontier ++ map seed_url_of (x ∷ xs))
unfolding run_loadgen load_config
seeds_reach_frontier read_file unmarshal url_parses path base text x xs out prefix s r u h b w a =
    let served = serve_all-accepted out prefix base w a (x ∷ xs) s h in
    (map (submit_seed base) (x ∷ xs), rw (r, u, b) refl, served.0, served.1)
