-- ===== src/Worker/Setup/Client.antt =====
-- buildHTTPClient, for any environment.
use relentless_bookworm.Base.{
  ◌≡◌, ◌≢◌, refl, sym, ◌∙◌, ap, subst, ◌⊎◌, inl, inr, Bool, true, false, not, ◌&&◌, Option, none,
  some, List, [], ◌∷◌, Bool-cases, if◌then◌else◌, Bytes, codes,
}
use relentless_bookworm.Text.{bytes_eq, trim_space, trim_front, trim_right, split}
use relentless_bookworm.Text.Laws.{bytes_eq_iff}
use relentless_bookworm.Settings.{get_env}
use relentless_bookworm.Worker.Setup.Proxy.{
  ClientProxy, with_proxy, map_client, build_http_client, valid_entries, select_proxy_from_pool,
  Picked, select_proxy_from_pool-Picked,
}

-- The proxy that is used is the one that is shown, where there is one that url.Parse accepts; where
-- there is none, or url.Parse does not accept it, none is used.
abbrev pub IsUsable : (Bytes → Bool) → ClientProxy → Type 0
IsUsable url_parses c =
    ((c.proxy ≡ some c.metrics_proxy_url)
      × (url_parses c.metrics_proxy_url ≡ true)
      × (c.metrics_proxy_url ≢ []))
    ⊎ ((c.proxy ≡ none) × ((url_parses c.metrics_proxy_url ≡ false) ⊎ (c.metrics_proxy_url ≡ [])))

-- What is shown: PROXY_URL where it is given, and else what is picked from PROXY_POOL.
abbrev pub IsChosen : (Bytes → Bytes) → ClientProxy → Type 0
IsChosen getenv c =
    ((getenv (codes "PROXY_URL") ≢ []) × (c.metrics_proxy_url ≡ getenv (codes "PROXY_URL")))
    ⊎ ((getenv (codes "PROXY_URL") ≡ [])
        × Picked (valid_entries (getenv (codes "PROXY_POOL"))) (some c.metrics_proxy_url))

with_proxy-IsUsable :
    (url_parses : Bytes → Bool) (p : Bytes) → IsUsable url_parses (with_proxy url_parses p)
with_proxy-IsUsable url_parses p = elim (Bool-cases (bytes_eq p [])) [
  | inl empty ↦ inr (rw empty refl, inr ((bytes_eq_iff p []).0 empty))
  | inr given ↦ elim (Bool-cases (url_parses p)) [
    | inl fine ↦ inl (rw (given, fine) refl, fine, λ e. cc (given, (bytes_eq_iff p []).1 e))
    | inr bad ↦ inr (rw (given, bad) refl, inl bad)
  ]
]

get_env-empty : (getenv : Bytes → Bytes) (key : Bytes) → get_env getenv key [] ≡ getenv key
unfolding get_env
get_env-empty getenv key = elim (Bool-cases (bytes_eq (getenv key) [])) [
  | inl empty ↦ rw empty (sym ((bytes_eq_iff (getenv key) []).0 empty))
  | inr given ↦ rw given refl
]

Picked-some : (ps : List Bytes) (r : Option Bytes) → Picked ps r → (p : Bytes) × (r ≡ some p)
Picked-some [] r h = ([], h)
Picked-some (x ∷ xs) r h = (h.0, h.1)

build_http_client-by :
    (is_64_bit : Bool) (url_parses : Bytes → Bool) (getenv : Bytes → Bytes) (pick_one : Bool)
    → (bytes_eq (getenv (codes "PROXY_URL")) [] && not (bytes_eq (getenv (codes "PROXY_POOL")) []))
      ≡ pick_one
    → build_http_client is_64_bit url_parses getenv
      ≡ map_client (with_proxy url_parses) (
          if pick_one
          then select_proxy_from_pool is_64_bit
              (getenv (codes "PROXY_POOL"))
              (getenv (codes "HOSTNAME"))
          else some (getenv (codes "PROXY_URL")))
unfolding build_http_client
build_http_client-by is_64_bit url_parses getenv pick_one e =
    rw (get_env-empty getenv (codes "PROXY_URL"), get_env-empty getenv (codes "PROXY_POOL"), e) refl

first_not : (a b : Bool) → a ≡ false → (a && not b) ≡ false
first_not a b e = rw e refl

both : (a b : Bool) → a ≡ true → b ≡ false → (a && not b) ≡ true
both a b e f = rw (e, f) refl

not_both : (a b : Bool) → a ≡ true → b ≡ true → (a && not b) ≡ false
not_both a b e f = rw (e, f) refl

no_entries : Picked (valid_entries []) (some [])
unfolding valid_entries trim_space trim_front trim_right split bytes_eq
no_entries = refl

-- The proxy of a client, in any environment and with an int of 64 or of 32 bits: the client is always
-- made. What is shown in the metrics is PROXY_URL where that is not empty; and else what is picked
-- from PROXY_POOL, an entry that is not empty, or the empty text just if there is no such entry.
-- What is shown is used as the proxy if it is not empty and url.Parse accepts it, and else none is.
pub build_http_client-IsChosen :
    (is_64_bit : Bool) (url_parses : Bytes → Bool) (getenv : Bytes → Bytes)
    → (c : ClientProxy) × (build_http_client is_64_bit url_parses getenv ≡ some c)
      × IsUsable url_parses c
      × IsChosen getenv c
build_http_client-IsChosen is_64_bit url_parses getenv =
    let url = getenv (codes "PROXY_URL") in
    let pool = getenv (codes "PROXY_POOL") in
    let picked = select_proxy_from_pool-Picked is_64_bit pool (getenv (codes "HOSTNAME")) in
    let (p, e) = Picked-some (valid_entries pool) _ picked in
    let by = build_http_client-by is_64_bit url_parses getenv in
    elim (Bool-cases (bytes_eq url [])) [
      | inr given ↦ (
        with_proxy url_parses url,
        by false (first_not (bytes_eq url []) (bytes_eq pool []) given),
        with_proxy-IsUsable url_parses url,
        inl (λ z. cc (given, (bytes_eq_iff url []).1 z), refl),
      )
      | inl empty ↦ elim (Bool-cases (bytes_eq pool [])) [
        | inr filled ↦ (
          with_proxy url_parses p,
          by true (both (bytes_eq url []) (bytes_eq pool []) empty filled)
              ∙ ap (map_client (with_proxy url_parses)) e,
          with_proxy-IsUsable url_parses p,
          inr ((bytes_eq_iff url []).0 empty, subst (Picked (valid_entries pool)) e picked),
        )
        | inl none_given ↦
            let url_empty = (bytes_eq_iff url []).0 empty in
            (
              with_proxy url_parses url,
              by false (not_both (bytes_eq url []) (bytes_eq pool []) empty none_given),
              with_proxy-IsUsable url_parses url,
              inr (
                url_empty,
                subst (λ (x : Bytes). Picked (valid_entries x) (some url))
                    (sym ((bytes_eq_iff pool []).0 none_given))
                    (subst (λ (x : Bytes). Picked (valid_entries []) (some x)) (sym url_empty)
                      no_entries),
              ),
            )
      ]
    ]
