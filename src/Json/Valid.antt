-- ===== src/Json/Valid.antt =====
-- Texts that survive Marshal and Unmarshal, which put a replacement for bytes that are not UTF-8;
-- and the package as the program sees it.
use relentless_bookworm.Base.{
  ℕ, zero, suc, ◌≡◌, ◌≤◌, ◌<◌, ◌^◌, ℤ, pos, negsuc, Bool, true, false, ◌&&◌, Option, none, some, [],
  ◌∷◌, if◌then◌else◌, leb, ltb, ◌==◌, Bytes,
}
use relentless_bookworm.Json.{
  Json, Number, whole, null, truth, number, string, array, object, Items, no_item, item, Fields,
  no_field, field,
}

-- The bytes that a code point still needs, and the bounds of the next one; `none` behind an error.
abbrev Utf8 : Type 0
Utf8 = Option (ℕ × ℕ × ℕ)

abbrev lead : ℕ → Utf8
lead c =
    if ltb c 0x80
    then some (0, 0x80, 0xBF)
    else if ltb c 0xC2
    then none
    else if ltb c 0xE0
    then some (1, 0x80, 0xBF)
    else if c == 0xE0
    then some (2, 0xA0, 0xBF)
    else if c == 0xED
    then some (2, 0x80, 0x9F)
    else if ltb c 0xF0
    then some (2, 0x80, 0xBF)
    else if c == 0xF0
    then some (3, 0x90, 0xBF)
    else if ltb c 0xF4
    then some (3, 0x80, 0xBF)
    else if c == 0xF4
    then some (3, 0x80, 0x8F)
    else none

abbrev next_byte : Utf8 → ℕ → Utf8
next_byte none c = none
next_byte (some (zero, lo, hi)) c = lead c
next_byte (some (suc n, lo, hi)) c = if leb lo c && leb c hi then some (n, 0x80, 0xBF) else none

unfoldable valid_from : Utf8 → Bytes → Bool
valid_from none [] = false
valid_from (some (zero, lo, hi)) [] = true
valid_from (some (suc n, lo, hi)) [] = false
valid_from u (c ∷ s) = valid_from (next_byte u c) s

-- utf8.Valid
unfoldable pub is_utf8 : Bytes → Bool
unfolding valid_from
is_utf8 s = valid_from (some (0, 0x80, 0xBF)) s

abbrev pub IsText : Bytes → Type 0
IsText s = is_utf8 s ≡ true

-- Every text in a value, and every name, is UTF-8.
abbrev mutual
  pub IsValid : Json → Type 0
  IsValid null = Unit
  IsValid (truth b) = Unit
  IsValid (number z) = Unit
  IsValid (string s) = IsText s
  IsValid (array vs) = ItemsValid vs
  IsValid (object fs) = FieldsValid fs

  pub ItemsValid : Items → Type 0
  ItemsValid no_item = Unit
  ItemsValid (item v vs) = IsValid v × ItemsValid vs

  pub FieldsValid : Fields → Type 0
  FieldsValid no_field = Unit
  FieldsValid (field n v fs) = IsText n × IsValid v × FieldsValid fs

-- An int that a float64 holds.
abbrev pub IsExact : ℤ → Type 0
IsExact (pos n) = n ≤ 2 ^ 53
IsExact (negsuc n) = n < 2 ^ 53

-- encoding/json, with the texts of package time, which it uses for a time.Time, and with what a
-- number is printed as when it has been read as a float64. What is printed is read back.
pub record Codec : Type 0 where
  pub print : Json → Bytes
  pub parse : Bytes → Option Json
  pub time_text : ℕ → Bytes
  pub read_time : Bytes → Option ℕ
  pub float : Number → Number
  pub parse_back : (v : Json) → IsValid v → parse (print v) ≡ some v
  pub time_back : (t : ℕ) → read_time (time_text t) ≡ some t
  pub float_back : (z : ℤ) → IsExact z → float (whole z) ≡ whole z
