-- ===== src/Json/Any.antt =====
-- A value that is read into `any` and printed again: members in the order of their names, the last
-- one where a name stands twice, and numbers as a float64 holds them.
pub mod Members
use relentless_bookworm.Base.{
  ◌≡◌, refl, ap, ◌∙◌, sym, ◌⊎◌, inl, inr, Bool, true, false, Option, none, some, List, [], ◌∷◌,
  ◌++◌, if◌then◌else◌, Bytes, Bool-cases, if_elim, not, ◌&&◌, arith,
}
use relentless_bookworm.Text.{bytes_eq, to_upper}
use relentless_bookworm.Text.Laws
use relentless_bookworm.Json.{
  Json, Number, null, truth, number, string, array, object, Items, no_item, item, Fields, no_field,
  field, Slots, present, values, same_name, less,
}
use relentless_bookworm.Json.Valid.{IsText, IsValid, ItemsValid, FieldsValid}
use relentless_bookworm.Json.Members.{put, wanted}

unfoldable pub insert_field : Bytes → Json → Fields → Fields
unfolding bytes_eq less
insert_field k v no_field = field k v no_field
insert_field k v (field l u rest) =
    let behind = insert_field k v rest in
    if bytes_eq k l
    then field k v rest
    else if less k l
    then field k v (field l u rest)
    else field l u behind

module _ (float : Number → Number) where
  unfoldable mutual
    pub any_value : Json → Json
    any_value null = null
    any_value (truth b) = truth b
    any_value (number m) = number (float m)
    any_value (string s) = string s
    any_value (array vs) = array (any_items vs)
    any_value (object fs) = object (any_fields no_field fs)

    pub any_items : Items → Items
    any_items no_item = no_item
    any_items (item v vs) = item (any_value v) (any_items vs)

    pub any_fields : Fields → Fields → Fields
    any_fields acc no_field = acc
    any_fields acc (field k v fs) = any_fields (insert_field k (any_value v) acc) fs

insert_field-FieldsValid :
    (k : Bytes) (v : Json) (fs : Fields)
    → IsText k
    → IsValid v
    → FieldsValid fs
    → FieldsValid (insert_field k v fs)
unfolding insert_field
insert_field-FieldsValid k v no_field hk hv h = (hk, hv, tt)
insert_field-FieldsValid k v (field l u rest) hk hv (hl, hu, h) =
    let ih = insert_field-FieldsValid k v rest hk hv h in
    if_elim FieldsValid (bytes_eq k l) _ _ (λ _. (hk, hv, h))
      (λ _. if_elim FieldsValid (less k l) _ _ (λ _. (hk, hv, (hl, hu, h))) (λ _. (hl, hu, ih)))

module _ (float : Number → Number) where
  mutual
    unfolding any_value

    pub any_value-IsValid : (v : Json) → IsValid v → IsValid (any_value float v)
    any_value-IsValid null h = tt
    any_value-IsValid (truth b) h = tt
    any_value-IsValid (number m) h = tt
    any_value-IsValid (string s) h = h
    any_value-IsValid (array vs) h = any_items-ItemsValid vs h
    any_value-IsValid (object fs) h = any_fields-FieldsValid no_field fs tt h

    any_items-ItemsValid : (vs : Items) → ItemsValid vs → ItemsValid (any_items float vs)
    any_items-ItemsValid no_item h = tt
    any_items-ItemsValid (item v vs) (hv, h) = (any_value-IsValid v hv, any_items-ItemsValid vs h)

    any_fields-FieldsValid :
        (acc fs : Fields) → FieldsValid acc → FieldsValid fs → FieldsValid (any_fields float acc fs)
    any_fields-FieldsValid acc no_field ha h = ha
    any_fields-FieldsValid acc (field k v fs) ha (hk, hv, h) =
        any_fields-FieldsValid (insert_field k (any_value float v) acc) fs
          (insert_field-FieldsValid k (any_value float v) acc hk (any_value-IsValid v hv) ha) h
