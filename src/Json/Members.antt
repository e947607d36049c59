-- ===== src/Json/Members.antt =====
-- What a struct's fields find among the members that were printed for them.
use relentless_bookworm.Base.{
  ◌≡◌, refl, ap, sym, ◌∙◌, Bool, true, false, Option, none, some, List, [], ◌∷◌, Bytes,
}
use relentless_bookworm.Json.{Json, push, Slots, present, values, same_name}

abbrev pub put : Option Json → List Json → List Json
put none vs = vs
put (some v) vs = v ∷ vs

abbrev pub put_if : Bool → Option Json → List Json → List Json
put_if true o vs = put o vs
put_if false o vs = vs

-- The values of a name among the slots.
unfoldable pub wanted : Slots → Bytes → List Json
unfolding same_name
wanted [] k = []
wanted ((n, o) ∷ slots) k = put_if (same_name n k) o (wanted slots k)

pub put_if-none : (b : Bool) (vs : List Json) → put_if b none vs ≡ vs
put_if-none true vs = refl
put_if-none false vs = refl

pub put_if-some : (b : Bool) (v : Json) (vs : List Json) → put_if b (some v) vs ≡ push b v vs
put_if-some true v vs = refl
put_if-some false v vs = refl

pub values-present : (slots : Slots) (k : Bytes) → values (present slots) k ≡ wanted slots k
unfolding values present wanted
values-present [] k = refl
values-present ((n, none) ∷ slots) k =
    values-present slots k ∙ sym (put_if-none (same_name n k) (wanted slots k))
values-present ((n, some v) ∷ slots) k =
    ap (push (same_name n k) v) (values-present slots k)
    ∙ sym (put_if-some (same_name n k) v (wanted slots k))
