-- ===== src/Worker/Setup/Proxy.antt =====
-- selectProxyFromPool and buildHTTPClient.
use Prim.Native.Nat.{bit_xor}
use relentless_bookworm.Base.{
  ℕ, zero, suc, ◌+◌, ◌-◌, ◌*◌, ◌%◌, ◌^◌, ◌<◌, ◌≡◌, ◌≢◌, refl, ◌⊎◌, inl, inr, subst, ℤ, pos, negsuc,
  Bool, not, ◌&&◌, Option, none, some, List, [], ◌∷◌, map, arith, ltb, if◌then◌else◌, Bool-cases,
  length, Bytes, codes, All,
}
use relentless_bookworm.Text.{bytes_eq, split, trim_space}
use relentless_bookworm.Text.Laws.{bytes_eq_iff}
use relentless_bookworm.Settings.{get_env}

-- hash/fnv: the 32-bit FNV-1a hash
unfoldable pub fnv32a_from : ℕ → Bytes → ℕ
fnv32a_from h [] = h
fnv32a_from h (c ∷ s) = fnv32a_from (bit_xor h c * 16777619 % 2 ^ 32) s

unfoldable pub fnv32a : Bytes → ℕ
unfolding fnv32a_from
fnv32a s = fnv32a_from 2166136261 s

-- `int(u)` of a uint32, where an int has 64 bits, or 32.
abbrev pub int_of_uint32 : Bool → ℕ → ℤ
int_of_uint32 is_64_bit u =
    if is_64_bit then pos u else if ltb u (2 ^ 31) then pos u else negsuc (2 ^ 32 - u - 1)

-- `idx % n; if idx < 0 { idx = -idx }`: the remainder has the sign of idx.
abbrev index_of : ℤ → ℕ → ℕ
index_of (pos u) n = u % n
index_of (negsuc u) n = (u + 1) % n

-- The entries that are not empty, trimmed.
unfoldable pub non_empty : List Bytes → List Bytes
non_empty [] = []
non_empty (p ∷ ps) = let rest = non_empty ps in if bytes_eq p [] then rest else p ∷ rest

unfoldable pub valid_entries : Bytes → List Bytes
unfolding non_empty
valid_entries pool = non_empty (map trim_space (split (trim_space pool) b','))

-- A slice's element; `none` is a panic.
abbrev pub get_elem? : List Bytes → ℕ → Option Bytes
get_elem? [] i = none
get_elem? (x ∷ xs) zero = some x
get_elem? (x ∷ xs) (suc i) = get_elem? xs i

abbrev pick : Bool → List Bytes → Bytes → Option Bytes
pick is_64_bit [] hostname = some []
pick is_64_bit (p ∷ ps) hostname =
    get_elem? (p ∷ ps) (index_of (int_of_uint32 is_64_bit (fnv32a hostname)) (length (p ∷ ps)))

unfoldable pub select_proxy_from_pool : Bool → Bytes → Bytes → Option Bytes
unfolding valid_entries fnv32a
select_proxy_from_pool is_64_bit pool hostname =
    pick is_64_bit (valid_entries pool) (if bytes_eq hostname [] then codes "0" else hostname)

-- What buildHTTPClient sets: the proxy of the transport, if any, and the label of the metrics.
pub record ClientProxy : Type 0 where
  pub proxy : Option Bytes
  pub metrics_proxy_url : Bytes

-- `url_parses` is whether url.Parse accepts a text.
abbrev pub with_proxy : (Bytes → Bool) → Bytes → ClientProxy
with_proxy url_parses proxy_url = record {
  proxy =
      if bytes_eq proxy_url [] then none else if url_parses proxy_url then some proxy_url else none;
  metrics_proxy_url = proxy_url;
}

abbrev pub map_client : (Bytes → ClientProxy) → Option Bytes → Option ClientProxy
map_client f none = none
map_client f (some p) = some (f p)

unfoldable pub build_http_client : Bool → (Bytes → Bool) → (Bytes → Bytes) → Option ClientProxy
unfolding select_proxy_from_pool get_env
build_http_client is_64_bit url_parses getenv =
    let proxy_url = get_env getenv (codes "PROXY_URL") [] in
    let pool = get_env getenv (codes "PROXY_POOL") [] in
    map_client (with_proxy url_parses) (
      if bytes_eq proxy_url [] && not (bytes_eq pool [])
      then select_proxy_from_pool is_64_bit pool (getenv (codes "HOSTNAME"))
      else some proxy_url)

index_of-lt : (z : ℤ) (n : ℕ) → index_of z (suc n) < suc n
index_of-lt (pos u) n = grind arith
index_of-lt (negsuc u) n = grind arith

-- The text is one of the list.
abbrev pub IsAmong : Bytes → List Bytes → Type 0
IsAmong p [] = ⊥
IsAmong p (x ∷ xs) = (x ≡ p) ⊎ IsAmong p xs

get_elem?-IsAmong :
    (xs : List Bytes) (i : ℕ)
    → i < length xs
    → (p : Bytes) × (get_elem? xs i ≡ some p) × IsAmong p xs
get_elem?-IsAmong [] i h = absurd (omega arith)
get_elem?-IsAmong (x ∷ xs) zero h = (x, refl, inl refl)
get_elem?-IsAmong (x ∷ xs) (suc i) h =
    let (p, e, a) = get_elem?-IsAmong xs i (omega arith) in (p, e, inr a)

IsAmong-All : (P : Bytes → Type 0) (xs : List Bytes) (p : Bytes) → All P xs → IsAmong p xs → P p
IsAmong-All P [] p h a = absurd a
IsAmong-All P (x ∷ xs) p h (inl e) = subst P e h.0
IsAmong-All P (x ∷ xs) p h (inr a) = IsAmong-All P xs p h.1 a

non_empty-All : (ps : List Bytes) → All (λ p. p ≢ []) (non_empty ps)
unfolding non_empty
non_empty-All [] = tt
non_empty-All (x ∷ xs) = elim (Bool-cases (bytes_eq x [])) [
  | inl e ↦ rw e (non_empty-All xs)
  | inr e ↦ rw e ((λ z. cc ((bytes_eq_iff x []).1 z, e)), non_empty-All xs)
]

-- How a proxy may come out of some entries.
abbrev pub Picked : List Bytes → Option Bytes → Type 0
Picked [] r = r ≡ some []
Picked (x ∷ xs) r = (p : Bytes) × (r ≡ some p) × IsAmong p (x ∷ xs) × (p ≢ [])

pick-Picked :
    (is_64_bit : Bool) (ps : List Bytes) (hostname : Bytes)
    → All (λ p. p ≢ []) ps
    → Picked ps (pick is_64_bit ps hostname)
pick-Picked is_64_bit [] hostname h = refl
pick-Picked is_64_bit (x ∷ xs) hostname h =
    let i = index_of (int_of_uint32 is_64_bit (fnv32a hostname)) (length (x ∷ xs)) in
    let (p, e, a) =
      get_elem?-IsAmong (x ∷ xs) i
        (index_of-lt (int_of_uint32 is_64_bit (fnv32a hostname)) (length xs)) in
    (p, e, a, IsAmong-All (λ q. q ≢ []) (x ∷ xs) p h a)

-- With an int of 64 bits, and with one of 32 bits, where the hash may be negative, the index never
-- lies outside the pool: selectProxyFromPool does not panic. It gives an entry of the pool that is
-- not empty, and the empty text just if there is none.
pub select_proxy_from_pool-Picked :
    (is_64_bit : Bool) (pool hostname : Bytes)
    → Picked (valid_entries pool) (select_proxy_from_pool is_64_bit pool hostname)
unfolding select_proxy_from_pool
select_proxy_from_pool-Picked is_64_bit pool hostname =
    pick-Picked is_64_bit (valid_entries pool) _
      (unfold valid_entries in non_empty-All (map trim_space (split (trim_space pool) b',')))
