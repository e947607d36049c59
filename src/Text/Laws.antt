-- ===== src/Text/Laws.antt =====
-- Laws of equality, prefixes and suffixes of texts, and of query escaping.
use mathlib.Core.List.{reverse, reverse-append}
use relentless_bookworm.Base.{
  ℕ, ◌/◌, ◌%◌, ◌<◌, ◌≡◌, sym, refl, ◌↔◌, ap, true, false, some, [], ◌∷◌, ◌++◌, arith, ◌==◌, ==_iff,
  ==_refl, Bytes, length, Bool-cases, inl, inr, All,
}
use relentless_bookworm.Text.{
  bytes_eq, has_prefix, has_suffix, drop, query_escape, query_unescape, is_unreserved, upper_hex,
  hex_value, pair_value, cons?,
}

pub bytes_eq_refl : (s : Bytes) → bytes_eq s s ≡ true
unfolding bytes_eq
bytes_eq_refl [] = refl
bytes_eq_refl (c ∷ s) = ground (arith, bytes_eq_refl s, ==_refl c)

pub bytes_eq_sound : (s t : Bytes) → bytes_eq s t ≡ true → s ≡ t
unfolding bytes_eq
bytes_eq_sound [] [] h = refl
bytes_eq_sound [] (d ∷ t) h = cc
bytes_eq_sound (c ∷ s) [] h = cc
bytes_eq_sound (c ∷ s) (d ∷ t) h = ground (arith, bytes_eq_sound s t, ==_iff c d)

pub bytes_eq_iff : (s t : Bytes) → (bytes_eq s t ≡ true) ↔ (s ≡ t)
bytes_eq_iff s t = (bytes_eq_sound s t, λ e. rw (← e) (bytes_eq_refl s))

pub has_prefix-append : (p s : Bytes) → has_prefix (p ++ s) p ≡ true
unfolding has_prefix
has_prefix-append [] s = refl
has_prefix-append (c ∷ p) s = ground (arith, has_prefix-append p s, ==_refl c)

pub has_prefix_split : (s p : Bytes) → has_prefix s p ≡ true → p ++ drop (length p) s ≡ s
unfolding has_prefix
has_prefix_split s [] h = refl
has_prefix_split [] (d ∷ p) h = cc
has_prefix_split (c ∷ s) (d ∷ p) h = ground (arith, has_prefix_split s p, ==_iff c d)

pub has_suffix-append : (s p : Bytes) → has_suffix (s ++ p) p ≡ true
unfolding has_suffix
has_suffix-append s p = rw reverse-append (has_prefix-append (reverse p) (reverse s))

unescape_plain :
    (a : ℕ) (s : Bytes)
    → (a == b'%') ≡ false
    → (a == b'+') ≡ false
    → query_unescape (a ∷ s) ≡ cons? (some a) (query_unescape s)
unfolding query_unescape
unescape_plain a [] h k = ground arith
unescape_plain a (b ∷ []) h k = ground arith
unescape_plain a (b ∷ c ∷ s) h k = ground arith

unescape_plus : (s : Bytes) → query_unescape (b'+' ∷ s) ≡ cons? (some 32) (query_unescape s)
unfolding query_unescape
unescape_plus [] = refl
unescape_plus (b ∷ []) = refl
unescape_plus (b ∷ c ∷ s) = refl

unescape_percent :
    (c : ℕ) (s : Bytes)
    → c < 256
    → query_unescape (b'%' ∷ upper_hex (c / 16) ∷ upper_hex (c % 16) ∷ s)
      ≡ cons? (some c) (query_unescape s)
unfolding query_unescape
unescape_percent c s h = ap (λ v. cons? v (query_unescape s)) (pair_of_digits c h)
  where
    hex_value-upper_hex : (d : ℕ) → d < 16 → hex_value (upper_hex d) ≡ some d
    hex_value-upper_hex d k = ground arith

    pair_of_digits :
        (d : ℕ)
        → d < 256
        → pair_value (hex_value (upper_hex (d / 16))) (hex_value (upper_hex (d % 16))) ≡ some d
    pair_of_digits d k = ground (arith, hex_value-upper_hex (d / 16), hex_value-upper_hex (d % 16))

unreserved_plain : (c : ℕ) → is_unreserved c ≡ true → ((c == b'%') ≡ false) × ((c == b'+') ≡ false)
unfolding is_unreserved
unreserved_plain c h = ground arith

-- What QueryEscape writes for a text of bytes, QueryUnescape reads back.
pub query_unescape-query_escape :
    (s : Bytes) → All (λ c. c < 256) s → query_unescape (query_escape s) ≡ some s
unfolding query_escape
query_unescape-query_escape [] h = unfold query_unescape in refl
query_unescape-query_escape (c ∷ s) h =
    let ih = query_unescape-query_escape s h.1 in
    elim (Bool-cases (is_unreserved c)) [
      | inl plain ↦
          rw plain
            (rw (unescape_plain c _ (unreserved_plain c plain).0 (unreserved_plain c plain).1, ih))
      | inr escaped ↦ elim (Bool-cases (c == 32)) [
        | inl space ↦
            rw (escaped, space, unescape_plus, ih)
              (ap (λ d. some (d ∷ s)) (sym ((==_iff c 32).0 space)))
        | inr other ↦ rw (escaped, other) (rw (unescape_percent c _ h.0, ih))
      ]
    ]
