-- ===== src/Map.antt =====
-- Go's `map[int]V` and `map[int64]V`, as an association list with one entry for a key at most.
use relentless_bookworm.Base.{
  ℕ, ◌<◌, ◌≤◌, ◌≡◌, refl, Option, none, some, List, [], ◌∷◌, arith, ◌==◌, if◌then◌else◌, length,
}

abbrev pub Map {ℓ} : Type ℓ → Type ℓ
Map V = List (ℕ × V)

module _ {ℓ} {V : Type ℓ} where
  unfoldable pub lookup : ℕ → Map V → Option V
  lookup key [] = none
  lookup key ((first, value) ∷ rest) = if first == key then some value else lookup key rest

  -- delete(m, key)
  unfoldable pub delete : ℕ → Map V → Map V
  delete key [] = []
  delete key ((first, value) ∷ rest) =
      let left = delete key rest in if first == key then left else (first, value) ∷ left

  -- m[key] = new
  unfoldable pub insert : ℕ → V → Map V → Map V
  insert key new [] = (key, new) ∷ []
  insert key new ((first, old) ∷ rest) =
      let changed = insert key new rest in
      if first == key then (first, new) ∷ rest else (first, old) ∷ changed

  pub lookup-delete :
      (k j : ℕ) (m : Map V) → lookup j (delete k m) ≡ (if k == j then none else lookup j m)
  unfolding lookup delete
  lookup-delete k j [] = ground arith
  lookup-delete k j (e ∷ m) = ground (arith, lookup-delete k j m)

  pub lookup-insert :
      (key j : ℕ) (new : V) (m : Map V)
      → lookup j (insert key new m) ≡ (if key == j then some new else lookup j m)
  unfolding insert lookup
  lookup-insert key j new [] = refl
  lookup-insert key j new (e ∷ m) = ground (arith, lookup-insert key j new m)

  pub length-delete-le : (k : ℕ) (m : Map V) → length (delete k m) ≤ length m
  unfolding delete
  length-delete-le k [] = omega arith
  length-delete-le k ((i, w) ∷ m) = ground (arith, length-delete-le k m)

  -- Deleting a key that is there makes the map smaller.
  pub length-delete-lt :
      (k : ℕ) (v : V) (m : Map V) → lookup k m ≡ some v → length (delete k m) < length m
  unfolding lookup delete
  length-delete-lt k v [] h = ground arith
  length-delete-lt k v ((i, w) ∷ m) h = ground (arith, length-delete-lt k v m, length-delete-le k m)

pub ruleset map_laws = (lookup-insert, lookup-delete)
