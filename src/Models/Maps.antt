-- ===== src/Models/Maps.antt =====
-- Maps with keys of type string: Marshal prints them in the order of the keys, and what is in this
-- order is read, by a struct or into `any`, as it stands.
use relentless_bookworm.Base.{
  ◌≡◌, refl, ap, true, false, Option, some, List, [], ◌∷◌, ◌++◌, Bytes, All, All-append,
  append_assoc, arith, append-nil,
}
use relentless_bookworm.Text.{bytes_eq}
use relentless_bookworm.Json.{
  Json, Number, object, less, insert_key, read_entries, read_map, assign,
}
use relentless_bookworm.Json.Members.{put}
use relentless_bookworm.Json.Any.{insert_field, any_value, any_fields}
use relentless_bookworm.Json.Any.Members.{any_option}
use relentless_bookworm.Models.Encode.{entries_of, omit_map}

less_apart : (l k : Bytes) → less l k ≡ true → (bytes_eq k l ≡ false) × (less k l ≡ false)
unfolding less bytes_eq
less_apart l [] h = cc
less_apart [] (d ∷ t) h = (refl, refl)
less_apart (c ∷ s) (d ∷ t) h = ground (arith, less_apart s t)

module _ {ℓ} {A : Type ℓ} where
  -- Every key stands in front of k.
  abbrev pub After : List (Bytes × A) → Bytes → Type 0
  After xs k = All (λ e. less e.0 k ≡ true) xs

  abbrev pub IsSorted : List (Bytes × A) → Type 0
  IsSorted [] = Unit
  IsSorted (e ∷ xs) = All (λ later. less e.0 later.0 ≡ true) xs × IsSorted xs

  insert_key_last :
      (k : Bytes) (a : A) (xs : List (Bytes × A))
      → After xs k
      → insert_key k a xs ≡ xs ++ (k, a) ∷ []
  unfolding insert_key
  insert_key_last k a [] h = refl
  insert_key_last k a ((l, b) ∷ xs) (hl, h) =
      let (apart, behind) = less_apart l k hl in rw (apart, behind, insert_key_last k a xs h)

  -- Every key of xs stands behind those of old.
  abbrev Front : List (Bytes × A) → List (Bytes × A) → Type 0
  Front old xs = All (λ e. After old e.0) xs

  Front-append :
      (old : List (Bytes × A)) (k : Bytes) (a : A) (xs : List (Bytes × A))
      → Front old xs
      → All (λ e. less k e.0 ≡ true) xs
      → Front (old ++ (k, a) ∷ []) xs
  Front-append old k a [] f h = tt
  Front-append old k a (x ∷ xs) (fx, f) (hx, h) = (
    All-append (λ e. less e.0 x.0 ≡ true) old ((k, a) ∷ []) fx (hx, tt),
    Front-append old k a xs f h,
  )

  Front-first : (xs : List (Bytes × A)) → Front [] xs
  Front-first [] = tt
  Front-first (x ∷ xs) = (tt, Front-first xs)

  module _ (one : A → Json) where
    insert_field_last :
        (k : Bytes) (a : A) (xs : List (Bytes × A))
        → After xs k
        → insert_field k (one a) (entries_of one xs) ≡ entries_of one (xs ++ (k, a) ∷ [])
    unfolding insert_field entries_of
    insert_field_last k a [] h = refl
    insert_field_last k a ((l, b) ∷ xs) (hl, h) =
        let (apart, behind) = less_apart l k hl in rw (apart, behind, insert_field_last k a xs h)

    module _ (read : Json → Option A) (back : (a : A) → read (one a) ≡ some a) where
      read_entries_back :
          (old xs : List (Bytes × A))
          → Front old xs
          → IsSorted xs
          → read_entries read old (entries_of one xs) ≡ some (old ++ xs)
      unfolding read_entries entries_of
      read_entries_back old [] f h = rw (append-nil old)
      read_entries_back old ((k, a) ∷ xs) (fk, f) (hk, h) = rw (
        back a,
        insert_key_last k a old fk,
        read_entries_back (old ++ (k, a) ∷ []) xs (Front-append old k a xs f hk) h,
        append_assoc,
      )

      -- A map that was printed is read into a field.
      pub map_back :
          (xs : List (Bytes × A))
          → IsSorted xs
          → assign (read_map read) [] (put (omit_map one xs) []) ≡ some xs
      unfolding assign
      map_back [] h = refl
      map_back (x ∷ xs) h = rw (read_entries_back [] (x ∷ xs) (Front-first (x ∷ xs)) h)

    module _ (float : Number → Number) (same : (a : A) → any_value float (one a) ≡ one a) where
      any_fields_same :
          (old xs : List (Bytes × A))
          → Front old xs
          → IsSorted xs
          → any_fields float (entries_of one old) (entries_of one xs) ≡ entries_of one (old ++ xs)
      unfolding any_value entries_of
      any_fields_same old [] f h = rw (append-nil old)
      any_fields_same old ((k, a) ∷ xs) (fk, f) (hk, h) = rw (
        same a,
        insert_field_last k a old fk,
        any_fields_same (old ++ (k, a) ∷ []) xs (Front-append old k a xs f hk) h,
        append_assoc,
      )

      pub map_same :
          (xs : List (Bytes × A))
          → IsSorted xs
          → any_option float (omit_map one xs) ≡ omit_map one xs
      unfolding any_value entries_of
      map_same [] h = refl
      map_same (x ∷ xs) h =
          ap (λ fs. some (object fs)) (any_fields_same [] (x ∷ xs) (Front-first (x ∷ xs)) h)
