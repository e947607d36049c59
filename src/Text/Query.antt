-- ===== src/Text/Query.antt =====
-- The query of a URL: `Query().Get(key)` of net/url.
use relentless_bookworm.Base.{
  ℕ, ◌/◌, ◌%◌, ◌<◌, ◌≡◌, ◌≢◌, refl, ap, sym, Bool, true, false, ◌||◌, Option, none, some, List, [],
  ◌∷◌, ◌++◌, arith, ◌==◌, if◌then◌else◌, Bool-cases, inl, inr, Bytes, codes, All, All-append,
}
use relentless_bookworm.Text.{
  bytes_eq, split, is_unreserved, upper_hex, query_escape, query_unescape,
}
use relentless_bookworm.Text.Laws.{query_unescape-query_escape}

unfoldable pub has_byte : ℕ → Bytes → Bool
has_byte b [] = false
has_byte b (c ∷ s) = c == b || has_byte b s

-- strings.Cut at a byte
unfoldable pub cut : Bytes → ℕ → Bytes × Bytes
cut [] b = ([], [])
cut (c ∷ s) b = let (front, back) = cut s b in if c == b then ([], s) else (c ∷ front, back)

abbrev unescaped : Option Bytes → Option Bytes → Option (Bytes × Bytes)
unescaped (some k) (some v) = some (k, v)
unescaped _ _ = none

-- One part of a query; those that are empty, have a semicolon or are not escaped well are left out.
unfoldable pub pair_of : Bytes → Option (Bytes × Bytes)
unfolding has_byte cut
pair_of piece =
    if has_byte b';' piece || bytes_eq piece []
    then none
    else unescaped (query_unescape (cut piece b'=').0) (query_unescape (cut piece b'=').1)

abbrev pub first_value : Bytes → Option (Bytes × Bytes) → Bytes → Bytes
first_value key none rest = rest
first_value key (some (k, v)) rest = if bytes_eq k key then v else rest

unfoldable pub get_of : List Bytes → Bytes → Bytes
unfolding pair_of
get_of [] key = []
get_of (p ∷ ps) key = first_value key (pair_of p) (get_of ps key)

-- The first value of the key, and the empty text if it has none.
unfoldable pub query_get : Bytes → Bytes → Bytes
unfolding get_of
query_get query key = get_of (split query b'&') key

split-no : (s : Bytes) (b : ℕ) → All (λ c. c ≢ b) s → split s b ≡ s ∷ []
unfolding split
split-no [] b h = refl
split-no (c ∷ s) b h = ground (arith, split-no s b h.1, h.0)

has_byte-no : (s : Bytes) (b : ℕ) → All (λ c. c ≢ b) s → has_byte b s ≡ false
unfolding has_byte
has_byte-no [] b h = refl
has_byte-no (c ∷ s) b h = ground (arith, has_byte-no s b h.1, h.0)

module _ (b : ℕ) (reserved : is_unreserved b ≡ false) (other : (b ≢ b'+') × (b ≢ b'%')) where
  unreserved_not : (c : ℕ) → is_unreserved c ≡ true → c ≢ b
  unreserved_not c h = λ e. cc (ap is_unreserved e, h, reserved)

  digit_unreserved : (d : ℕ) → d < 16 → is_unreserved (upper_hex d) ≡ true
  unfolding is_unreserved
  digit_unreserved d h = ground arith

  query_escape-All : (s : Bytes) → All (λ c. c < 256) s → All (λ c. c ≢ b) (query_escape s)
  unfolding query_escape
  query_escape-All [] h = tt
  query_escape-All (c ∷ s) h =
      let rest = query_escape-All s h.1 in
      elim (Bool-cases (is_unreserved c)) [
        | inl plain ↦ rw plain (unreserved_not c plain, rest)
        | inr escaped ↦ elim (Bool-cases (c == 32)) [
          | inl space ↦ rw (escaped, space) ((λ e. other.0 (sym e)), rest)
          | inr byte ↦
              rw (escaped, byte)
                (
                  (λ e. other.1 (sym e)),
                  (
                    unreserved_not _ (digit_unreserved (c / 16) (omega (arith, h.0))),
                    (unreserved_not _ (digit_unreserved (c % 16) (omega arith)), rest),
                  ),
                )
        ]
      ]

pub has_byte-All : (s : Bytes) (b : ℕ) → has_byte b s ≡ false → All (λ c. c ≢ b) s
unfolding has_byte
has_byte-All [] b h = tt
has_byte-All (c ∷ s) b h = (ground arith, has_byte-All s b (ground arith))

-- The query of one key.
abbrev query_of : Bytes → Bytes
query_of s = codes "url=" ++ query_escape s

query_of-All :
    (b : ℕ) (s : Bytes)
    → is_unreserved b ≡ false
    → (b ≢ b'+') × (b ≢ b'%')
    → has_byte b (codes "url=") ≡ false
    → All (λ c. c < 256) s
    → All (λ c. c ≢ b) (query_of s)
query_of-All b s r o k h =
    All-append (λ c. c ≢ b) (codes "url=") (query_escape s) (has_byte-All (codes "url=") b k)
      (query_escape-All b r o s h)

pair_of-query_of : (s : Bytes) → All (λ c. c < 256) s → pair_of (query_of s) ≡ some (codes "url", s)
unfolding pair_of has_byte cut is_unreserved bytes_eq query_unescape
pair_of-query_of s h =
    rw
      (
        has_byte-no (query_of s) b';' (query_of-All b';' s refl (omega arith, omega arith) refl h),
        query_unescape-query_escape s h,
      )
      refl

-- What a client writes as the value of the only key, a server gets.
pub query_get-query_escape :
    (s : Bytes)
    → All (λ c. c < 256) s
    → query_get (codes "url=" ++ query_escape s) (codes "url") ≡ s
unfolding query_get get_of has_byte is_unreserved bytes_eq
query_get-query_escape s h =
    rw
      (
        split-no (query_of s) b'&' (query_of-All b'&' s refl (omega arith, omega arith) refl h),
        pair_of-query_of s h,
      )
      refl
