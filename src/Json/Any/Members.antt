-- ===== src/Json/Any/Members.antt =====
-- A struct finds the same members behind any_value, when no two names differ by case alone.
use mathlib.Core.Path.{ap₂}
use relentless_bookworm.Base.{
  ◌≡◌, refl, ap, ◌∙◌, sym, Bool, true, false, Option, none, some, List, [], ◌∷◌, ◌++◌, if_elim,
  Bytes, Bool-cases, inl, inr, append-nil, not, ◌&&◌,
}
use relentless_bookworm.Text.{bytes_eq}
use relentless_bookworm.Text.Laws.{bytes_eq_sound, bytes_eq_refl}
use relentless_bookworm.Json.{
  Json, Number, Fields, no_field, field, Slots, present, push, values, fold_name, same_name, less,
}
use relentless_bookworm.Json.Members.{put_if, put_if-none, put_if-some, wanted}
use relentless_bookworm.Json.Any.{insert_field, any_value, any_fields}

same_name_trans : (m n k : Bytes) → same_name n k ≡ true → same_name m k ≡ same_name m n
unfolding same_name
same_name_trans m n k h =
    ap (bytes_eq (fold_name m)) (sym (bytes_eq_sound (fold_name n) (fold_name k) h))

same_name_refl : (n m : Bytes) → bytes_eq n m ≡ true → same_name m n ≡ true
unfolding same_name
same_name_refl n m h = rw (bytes_eq_sound n m h, bytes_eq_refl (fold_name m))

swap_push :
    (a b : Bool) (u v : Json) (vs : List Json)
    → (a ≡ true → b ≡ false)
    → push a u (push b v vs) ≡ push b v (push a u vs)
swap_push true true u v vs h = cc (h refl)
swap_push true false u v vs h = refl
swap_push false b u v vs h = refl

push_empty : (b : Bool) (u : Json) (vs : List Json) → push b u vs ≡ [] → (b ≡ false) × (vs ≡ [])
push_empty true u vs h = cc
push_empty false u vs h = (refl, h)

twins : (m n k : Bytes) → same_name m n ≡ false → same_name m k ≡ true → same_name n k ≡ false
twins m n k apart h = elim (Bool-cases (same_name n k)) [
  | inl e ↦ cc (same_name_trans m n k e, apart, h)
  | inr e ↦ e
]

same_name_sym : (m n : Bytes) → same_name m n ≡ false → same_name n m ≡ false
unfolding same_name
same_name_sym m n h = elim (Bool-cases (bytes_eq (fold_name n) (fold_name m))) [
  | inl e ↦ cc (h, bytes_eq_refl (fold_name m), bytes_eq_sound (fold_name n) (fold_name m) e)
  | inr e ↦ e
]

values-insert_field :
    (n : Bytes) (v : Json) (acc : Fields) (k : Bytes)
    → values acc n ≡ []
    → values (insert_field n v acc) k ≡ push (same_name n k) v (values acc k)
unfolding insert_field values
values-insert_field n v no_field k h = refl
values-insert_field n v (field m u rest) k h =
    let (apart, h_rest) = push_empty (same_name m n) u (values rest n) h in
    let ih = values-insert_field n v rest k h_rest in
    let P = λ (fs : Fields).
      values fs k ≡ push (same_name n k) v (push (same_name m k) u (values rest k)) in
    if_elim P (bytes_eq n m) _ _ (λ same. cc (same_name_refl n m same, apart))
      (λ _.
        if_elim P (less n m) _ _ (λ _. refl)
          (λ _.
            ap (push (same_name m k) u) ih
            ∙ swap_push (same_name m k) (same_name n k) u v (values rest k) (twins m n k apart)))

-- No two slots have names that are taken for one another.
abbrev not_among : Bytes → Slots → Bool
not_among n [] = true
not_among n ((m, o) ∷ slots) = not (same_name n m) && not_among n slots

abbrev pub distinct : Slots → Bool
distinct [] = true
distinct ((n, o) ∷ slots) = not_among n slots && distinct slots

abbrev Apart : Fields → Slots → Type 0
Apart acc [] = Unit
Apart acc ((n, o) ∷ slots) = (values acc n ≡ []) × Apart acc slots

both : (a b : Bool) → (not a && b) ≡ true → (a ≡ false) × (b ≡ true)
both true b h = cc
both false b h = (refl, h)

and_both : (a b : Bool) → (a && b) ≡ true → (a ≡ true) × (b ≡ true)
and_both true b h = (refl, h)
and_both false b h = cc

Apart-insert_field :
    (n : Bytes) (v : Json) (acc : Fields) (slots : Slots)
    → values acc n ≡ []
    → not_among n slots ≡ true
    → Apart acc slots
    → Apart (insert_field n v acc) slots
Apart-insert_field n v acc [] h d a = tt
Apart-insert_field n v acc ((m, o) ∷ slots) h d (am, a) =
    let (dm, ds) = both (same_name n m) (not_among n slots) d in
    (
      values-insert_field n v acc m h ∙ ap₂ (λ b (vs : List Json). push b v vs) dm am,
      Apart-insert_field n v acc slots h ds a,
    )

wanted_none :
    (n k : Bytes) (slots : Slots)
    → not_among n slots ≡ true
    → same_name n k ≡ true
    → wanted slots k ≡ []
unfolding wanted
wanted_none n k [] d e = refl
wanted_none n k ((m, o) ∷ slots) d e =
    let (dm, ds) = both (same_name n m) (not_among n slots) d in
    ap₂ (λ b (vs : List Json). put_if b o vs) (same_name_trans m n k e ∙ same_name_sym n m dm)
      (wanted_none n k slots ds e)

module _ (float : Number → Number) where
  abbrev pub any_option : Option Json → Option Json
  any_option none = none
  any_option (some v) = some (any_value float v)

  abbrev pub any_slots : Slots → Slots
  any_slots [] = []
  any_slots ((n, o) ∷ slots) = (n, any_option o) ∷ any_slots slots

  not_among-any_slots :
      (n : Bytes) (slots : Slots) → not_among n (any_slots slots) ≡ not_among n slots
  not_among-any_slots n [] = refl
  not_among-any_slots n ((m, o) ∷ slots) =
      ap (λ b. not (same_name n m) && b) (not_among-any_slots n slots)

  push_append :
      (b : Bool) (v : Json) (ws vs : List Json)
      → (b ≡ true → ws ≡ [])
      → ws ++ push b v vs ≡ push b v ws ++ vs
  push_append true v ws vs h = rw (h refl)
  push_append false v ws vs h = refl

  -- The slots of a struct, printed, read into `any` and printed again.
  values-any_fields :
      (slots : Slots) (acc : Fields) (k : Bytes)
      → distinct slots ≡ true
      → Apart acc slots
      → values (any_fields float acc (present slots)) k ≡ wanted (any_slots slots) k ++ values acc k
  unfolding any_value present wanted
  values-any_fields [] acc k d a = refl
  values-any_fields ((n, none) ∷ slots) acc k d (an, a) =
      let (dn, ds) = and_both (not_among n slots) (distinct slots) d in
      values-any_fields slots acc k ds a
      ∙ ap (λ (vs : List Json). vs ++ values acc k)
          (sym (put_if-none (same_name n k) (wanted (any_slots slots) k)))
  values-any_fields ((n, some v) ∷ slots) acc k d (an, a) =
      let (dn, ds) = and_both (not_among n slots) (distinct slots) d in
      let u = any_value float v in
      let acc' = insert_field n u acc in
      values-any_fields slots acc' k ds (Apart-insert_field n u acc slots an dn a)
      ∙ ap (λ (vs : List Json). wanted (any_slots slots) k ++ vs) (values-insert_field n u acc k an)
      ∙ push_append (same_name n k) u (wanted (any_slots slots) k) (values acc k)
          (λ e. wanted_none n k (any_slots slots) (not_among-any_slots n slots ∙ dn) e)
      ∙ ap (λ (vs : List Json). vs ++ values acc k)
          (sym (put_if-some (same_name n k) u (wanted (any_slots slots) k)))

  Apart-no_field : (slots : Slots) → Apart no_field slots
  unfolding values
  Apart-no_field [] = tt
  Apart-no_field ((n, o) ∷ slots) = (refl, Apart-no_field slots)

  pub values-any_value :
      (slots : Slots) (k : Bytes)
      → distinct slots ≡ true
      → values (any_fields float no_field (present slots)) k ≡ wanted (any_slots slots) k
  unfolding values
  values-any_value slots k d =
      values-any_fields slots no_field k d (Apart-no_field slots)
      ∙ append-nil (wanted (any_slots slots) k)
