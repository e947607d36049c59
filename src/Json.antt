-- ===== src/Json.antt =====
-- What the program uses of Go's package encoding/json: a text stands for a value, and a struct is
-- read from the members of an object by their names. An int has 64 bits.
pub mod Valid
pub mod Members
pub mod Any
use relentless_bookworm.Base.{
  ◌≡◌, pos, negsuc, ◌^◌, ◌-◌, leb, ltb, ℤ, ◌≡◌, ℕ, Bool, true, false, ◌&&◌, Option, none, some,
  List, [], ◌∷◌, ◌++◌, if◌then◌else◌, ltb, ◌==◌, Bytes,
}
use relentless_bookworm.Text.{bytes_eq}

-- A number that is not an int is kept as its text.
pub data Number : Type 0 where
  whole : ℤ → Number
  literal : Bytes → Number

-- A value; an object's members stand in the order of the text, and a name may stand twice.
mutual
  pub data Json : Type 0 where
    null : Json
    truth : Bool → Json
    number : Number → Json
    string : Bytes → Json
    array : Items → Json
    object : Fields → Json

  pub data Items : Type 0 where
    no_item : Items
    item : Json → Items → Items

  pub data Fields : Type 0 where
    no_field : Fields
    field : Bytes → Json → Fields → Fields

abbrev upper : ℕ → ℕ
upper c = if leb b'a' c && leb c b'z' then c - 32 else c

-- The name of a member up to case, so far as the names of fields, which are ASCII, can tell: beside
-- the ASCII letters U+017F folds to S and U+212A to K.
unfoldable pub fold_name : Bytes → Bytes
fold_name [] = []
fold_name (a ∷ []) = upper a ∷ []
fold_name (a ∷ b ∷ []) = elim (a == 0xC5 && b == 0xBF) [
  | true ↦ b'S' ∷ []
  | false ↦ upper a ∷ fold_name (b ∷ [])
]
fold_name (a ∷ b ∷ c ∷ s) = elim (a == 0xC5 && b == 0xBF) [
  | true ↦ b'S' ∷ fold_name (c ∷ s)
  | false ↦ elim (a == 0xE2 && b == 0x84 && c == 0xAA) [
    | true ↦ b'K' ∷ fold_name s
    | false ↦ upper a ∷ fold_name (b ∷ c ∷ s)
  ]
]

-- A name of the text is taken for a field when they fold to the same.
unfoldable pub same_name : Bytes → Bytes → Bool
unfolding bytes_eq fold_name
same_name a b = bytes_eq (fold_name a) (fold_name b)

abbrev pub push : Bool → Json → List Json → List Json
push true v vs = v ∷ vs
push false v vs = vs

-- The values of a name, in the order of the text.
unfoldable pub values : Fields → Bytes → List Json
unfolding same_name
values no_field k = []
values (field n v fs) k = push (same_name n k) v (values fs k)

-- Marshal goes through the fields of a struct: a name, and no value where it is left out as empty.
abbrev pub Slots : Type 0
Slots = List (Bytes × Option Json)

unfoldable pub present : Slots → Fields
present [] = no_field
present ((n, none) ∷ slots) = present slots
present ((n, some v) ∷ slots) = field n v (present slots)

-- The members of a value that is read into a struct; null leaves the struct as it is.
abbrev pub members_of : Json → Option Fields
members_of null = some no_field
members_of (object fs) = some fs
members_of (truth b) = none
members_of (number z) = none
members_of (string s) = none
members_of (array xs) = none

infixl 5 ◌>>=◌
abbrev pub ◌>>=◌ {ℓ κ} : {A : Type ℓ} {B : Type κ} → Option A → (A → Option B) → Option B
none >>= f = none
some a >>= f = f a

-- A field gets the values of its name one after the other; a value of another type is an error.
unfoldable pub assign {ℓ} : {A : Type ℓ} → (A → Json → Option A) → A → List Json → Option A
assign read a [] = some a
assign read a (v ∷ vs) = read a v >>= λ b. assign read b vs

-- A field of type string or `any string`
abbrev pub read_text : Bytes → Json → Option Bytes
read_text old null = some old
read_text old (string s) = some s
read_text old (truth b) = none
read_text old (number z) = none
read_text old (array xs) = none
read_text old (object fs) = none

-- The numbers that an int has; Unmarshal refuses the others.
abbrev pub fits_int : ℤ → Bool
fits_int (pos n) = ltb n (2 ^ 63)
fits_int (negsuc n) = ltb n (2 ^ 63)

abbrev pub IsInt : ℤ → Type 0
IsInt z = fits_int z ≡ true

-- int
abbrev pub read_int : ℤ → Json → Option ℤ
read_int old null = some old
read_int old (number (whole z)) = if fits_int z then some z else none
read_int old (number (literal s)) = none
read_int old (string s) = none
read_int old (truth b) = none
read_int old (array xs) = none
read_int old (object fs) = none

-- The elements of a slice, each from the zero value of its type.
abbrev pub cons? {ℓ} : {A : Type ℓ} → Option A → Option (List A) → Option (List A)
cons? (some a) (some bs) = some (a ∷ bs)
cons? none o = none
cons? (some a) none = none

unfoldable pub read_items {ℓ} : {A : Type ℓ} → (Json → Option A) → Items → Option (List A)
read_items one no_item = some []
read_items one (item v vs) = cons? (one v) (read_items one vs)

abbrev pub read_slice {ℓ} : {A : Type ℓ} → (Json → Option A) → List A → Json → Option (List A)
read_slice one old null = some []
read_slice one old (array xs) = read_items one xs
read_slice one old (string s) = none
read_slice one old (truth b) = none
read_slice one old (number z) = none
read_slice one old (object fs) = none

-- The order of Go's strings, in which Marshal prints the keys of a map.
unfoldable pub less : Bytes → Bytes → Bool
less s [] = false
less [] (d ∷ t) = true
less (c ∷ s) (d ∷ t) = let rest = less s t in if c == d then rest else ltb c d

module _ {ℓ} {A : Type ℓ} where
  -- m[k] = a, for a map that is kept in the order of its keys
  unfoldable pub insert_key : Bytes → A → List (Bytes × A) → List (Bytes × A)
  unfolding bytes_eq less
  insert_key k a [] = (k, a) ∷ []
  insert_key k a ((l, b) ∷ rest) =
      let behind = insert_key k a rest in
      if bytes_eq k l
      then (k, a) ∷ rest
      else if less k l
      then (k, a) ∷ (l, b) ∷ rest
      else (l, b) ∷ behind

  unfoldable pub read_entries :
      (Json → Option A) → List (Bytes × A) → Fields → Option (List (Bytes × A))
  unfolding insert_key
  read_entries one old no_field = some old
  read_entries one old (field k v fs) = one v >>= λ a. read_entries one (insert_key k a old) fs

  -- A map with keys of type string; what is in it stays.
  abbrev pub read_map : (Json → Option A) → List (Bytes × A) → Json → Option (List (Bytes × A))
  read_map one old null = some []
  read_map one old (object fs) = read_entries one old fs
  read_map one old (string s) = none
  read_map one old (truth b) = none
  read_map one old (number z) = none
  read_map one old (array vs) = none
