-- ===== src/Api/Laws.antt =====
-- What a client of the API sees.
use relentless_bookworm.Base.{
  ℕ, ◌+◌, ◌≡◌, ◌≢◌, refl, true, false, some, [], ◌∷◌, ◌++◌, arith, Bytes, codes, All, All-append,
}
use mathlib.Core.List.{reverse, reverse-cons, reverse-reverse}
use relentless_bookworm.Text.{
  bytes_eq, has_prefix, trim_prefix, trim, trim_left, trim_right, trim_space,
}
use relentless_bookworm.Text.Laws.{bytes_eq_refl}
use relentless_bookworm.Api.{
  Outside, Server, normalize_seed_url, new_status, seed_job, handle_crawl, handle_crawl_status,
}

trim_left-no : (s : Bytes) (c : ℕ) → All (λ d. d ≢ c) s → trim_left s c ≡ s
unfolding trim_left
trim_left-no [] c h = refl
trim_left-no (d ∷ s) c h = ground (arith, h.0)

All-reverse : (s : Bytes) (c : ℕ) → All (λ d. d ≢ c) s → All (λ d. d ≢ c) (reverse s)
All-reverse [] c h = tt
All-reverse (d ∷ s) c h =
    rw reverse-cons (All-append (λ x. x ≢ c) (reverse s) (d ∷ []) (All-reverse s c h.1) (h.0, tt))

trim-no : (s : Bytes) (c : ℕ) → All (λ d. d ≢ c) s → trim s c ≡ s
unfolding trim trim_right
trim-no s c h =
    rw (trim_left-no s c h)
      (rw (trim_left-no (reverse s) c (All-reverse s c h)) (reverse-reverse s))

module _ (out : Outside) (prefix url : Bytes) (s : Server)
    (given : bytes_eq (trim_space url) [] ≡ false) (written : out.writes s.tick ≡ true) where
  abbrev seed : Bytes
  seed = normalize_seed_url (trim_space url)

  pub crawl_stored :
      out.answers (s.tick + 1) ≡ true
      → handle_crawl out prefix (codes "POST") url s ≡ (
        record { code = 202; body = some (new_status out prefix seed (out.now s.tick)) },
        record {
          frontier = s.frontier ++ seed_job out prefix seed (out.now s.tick) ∷ [];
          keys =
              (
                prefix ++ out.session_id (out.now s.tick),
                out.marshal (new_status out prefix seed (out.now s.tick)),
              )
              ∷ s.keys;
          tick = s.tick + 1 + 1;
        },
      )
  unfolding handle_crawl bytes_eq normalize_seed_url
  crawl_stored a = rw given (rw written (rw a))

-- The path that asks for a session.
abbrev status_path : Bytes → Bytes
status_path session_id = codes "/crawl/" ++ session_id

session_of_path :
    (session_id : Bytes)
    → All (λ d. d ≢ b'/') session_id
    → trim (trim_prefix (status_path session_id) (codes "/crawl/")) b'/' ≡ session_id
unfolding trim_prefix has_prefix
session_of_path session_id h = trim-no session_id b'/' h

-- A crawl that is posted while kafka and redis answer is accepted, and when its session is asked for
-- next, and redis answers, the reply has the very status that the first reply had; just the job for
-- the seed was put on the frontier. It is needed that the status can be read back from its JSON text,
-- and that the session's id is not empty and has no slash.
pub crawl_then_status :
    (out : Outside) (prefix url : Bytes) (s : Server)
    → bytes_eq (trim_space url) [] ≡ false
    → out.writes s.tick ≡ true
    → out.answers (s.tick + 1) ≡ true
    → out.answers (s.tick + 1 + 1) ≡ true
    → out.unmarshal
        (out.marshal (new_status out prefix (normalize_seed_url (trim_space url)) (out.now s.tick)))
      ≡ some (new_status out prefix (normalize_seed_url (trim_space url)) (out.now s.tick))
    → All (λ d. d ≢ b'/') (out.session_id (out.now s.tick))
    → bytes_eq (out.session_id (out.now s.tick)) [] ≡ false
    → let seed = normalize_seed_url (trim_space url) in
      let st = new_status out prefix seed (out.now s.tick) in
      let posted = handle_crawl out prefix (codes "POST") url s in
      let got =
        handle_crawl_status out prefix (codes "GET") (codes "/crawl/" ++ st.session_id) posted.1 in
      (posted.0 ≡ record { code = 202; body = some st })
      × (got.0 ≡ record { code = 200; body = some st })
      × (got.1.frontier ≡ s.frontier ++ seed_job out prefix seed (out.now s.tick) ∷ [])
unfolding handle_crawl_status
crawl_then_status out prefix url s given w a b json slash filled =
    rw (crawl_stored out prefix url s given w a) (
      rw (session_of_path (out.session_id (out.now s.tick)) slash) (
        rw (filled, b, bytes_eq_refl (prefix ++ out.session_id (out.now s.tick)))
          (rw json (refl, refl, refl))))
