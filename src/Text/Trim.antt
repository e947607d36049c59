-- ===== src/Text/Trim.antt =====
-- Trimming: the fuel of `trim_front` is enough, and a text with no white space at its ends stays.
use mathlib.Core.List.{reverse, reverse-reverse}
use relentless_bookworm.Base.{
  ℕ, zero, suc, ◌-◌, ◌≤◌, ◌≡◌, refl, true, List, [], ◌∷◌, arith, Bytes, length,
}
use relentless_bookworm.Text.{
  has_prefix, drop, prefix_length, cut_front, trim_front, trim_space, white_space, reverse_each,
}

length-drop : (n : ℕ) (s : Bytes) → length (drop n s) ≡ length s - n
length-drop zero s = omega arith
length-drop (suc n) [] = omega arith
length-drop (suc n) (c ∷ s) = omega (arith, length-drop n s)

has_prefix-length : (s p : Bytes) → has_prefix s p ≡ true → length p ≤ length s
unfolding has_prefix
has_prefix-length s [] h = omega arith
has_prefix-length [] (d ∷ p) h = cc
has_prefix-length (c ∷ s) (d ∷ p) h = ground (arith, has_prefix-length s p)

prefix_length-le : (s : Bytes) (ws : List Bytes) → prefix_length s ws ≤ length s
unfolding prefix_length
prefix_length-le s [] = omega arith
prefix_length-le s (w ∷ ws) = ground (arith, has_prefix-length s w, prefix_length-le s ws)

cut_front_done :
    (fuel : ℕ) (s : Bytes) (ws : List Bytes)
    → length s ≤ fuel
    → prefix_length (cut_front fuel s ws) ws ≡ 0
unfolding cut_front
cut_front_done zero s ws h = omega (arith, prefix_length-le s ws)
cut_front_done (suc fuel) s ws h = ground (
  arith,
  prefix_length-le s ws,
  length-drop (prefix_length s ws) s,
  cut_front_done fuel (drop (prefix_length s ws) s) ws,
)

-- After trimming the front no text of the list stands there.
pub trim_front_done : (s : Bytes) (ws : List Bytes) → prefix_length (trim_front s ws) ws ≡ 0
unfolding trim_front
trim_front_done s ws = cut_front_done (length s) s ws (omega arith)

pub trim_front_clean : (s : Bytes) (ws : List Bytes) → prefix_length s ws ≡ 0 → trim_front s ws ≡ s
unfolding trim_front cut_front
trim_front_clean [] ws h = refl
trim_front_clean (c ∷ s) ws h = ground arith

-- No white space at either end.
pub record IsTrimmed (s : Bytes) : Type 0 where
  pub front : prefix_length s white_space ≡ 0
  pub back : prefix_length (reverse s) (reverse_each white_space) ≡ 0

pub trim_space_clean : (s : Bytes) → IsTrimmed s → trim_space s ≡ s
unfolding trim_space
trim_space_clean s h =
    rw (trim_front_clean s white_space h.front)
      (rw (trim_front_clean (reverse s) (reverse_each white_space) h.back) (reverse-reverse s))
