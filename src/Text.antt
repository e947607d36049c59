-- ===== src/Text.antt =====
-- What the program uses of Go's packages strings and net/url, over bytes. Arguments stand in Go's
-- order. Unicode white space is read as in UTF-8; a letter that is not ASCII is never changed.
pub mod Laws
pub mod Query
pub mod Trim
pub mod Decimal
use mathlib.Core.List.{reverse}
use relentless_bookworm.Base.{
  ℕ, zero, suc, ◌+◌, ◌-◌, ◌*◌, ◌/◌, ◌%◌, Bool, true, false, ◌&&◌, ◌||◌, Option, none, some, List,
  [], ◌∷◌, ◌++◌, ◌==◌, leb, ltb, if◌then◌else◌, Bytes, codes, length,
}

-- s == t
unfoldable pub bytes_eq : Bytes → Bytes → Bool
bytes_eq [] [] = true
bytes_eq [] (d ∷ t) = false
bytes_eq (c ∷ s) [] = false
bytes_eq (c ∷ s) (d ∷ t) = c == d && bytes_eq s t

-- strings.HasPrefix
unfoldable pub has_prefix : Bytes → Bytes → Bool
has_prefix s [] = true
has_prefix [] (d ∷ p) = false
has_prefix (c ∷ s) (d ∷ p) = c == d && has_prefix s p

-- strings.HasSuffix
unfoldable pub has_suffix : Bytes → Bytes → Bool
unfolding has_prefix
has_suffix s p = has_prefix (reverse s) (reverse p)

-- strings.Contains
unfoldable pub contains : Bytes → Bytes → Bool
unfolding has_prefix
contains [] sub = has_prefix [] sub
contains (c ∷ s) sub = has_prefix (c ∷ s) sub || contains s sub

-- s[n:]; past the end, where Go panics, the empty text. No caller goes there.
abbrev pub drop : ℕ → Bytes → Bytes
drop zero s = s
drop (suc n) [] = []
drop (suc n) (c ∷ s) = drop n s

-- strings.TrimPrefix
unfoldable pub trim_prefix : Bytes → Bytes → Bytes
unfolding has_prefix
trim_prefix s p = if has_prefix s p then drop (length p) s else s

-- strings.TrimLeft, TrimRight and Trim with a cutset of one byte
unfoldable pub trim_left : Bytes → ℕ → Bytes
trim_left [] b = []
trim_left (c ∷ s) b = if c == b then trim_left s b else c ∷ s

unfoldable pub trim_right : Bytes → ℕ → Bytes
unfolding trim_left
trim_right s b = reverse (trim_left (reverse s) b)

unfoldable pub trim : Bytes → ℕ → Bytes
unfolding trim_right
trim s b = trim_right (trim_left s b) b

-- strings.ReplaceAll of one byte
unfoldable pub replace_all : Bytes → ℕ → Bytes → Bytes
replace_all [] old new = []
replace_all (c ∷ s) old new =
    let rest = replace_all s old new in if c == old then new ++ rest else c ∷ rest

-- strings.Split at one byte: always one part more than there are separators.
abbrev put_first : ℕ → List Bytes → List Bytes
put_first c [] = (c ∷ []) ∷ []
put_first c (p ∷ ps) = (c ∷ p) ∷ ps

unfoldable pub split : Bytes → ℕ → List Bytes
split [] sep = [] ∷ []
split (c ∷ s) sep = let rest = split s sep in if c == sep then [] ∷ rest else put_first c rest

abbrev is_ascii : Bytes → Bool
is_ascii [] = true
is_ascii (c ∷ s) = ltb c 128 && is_ascii s

abbrev upper_letters : Bytes → Bytes
upper_letters [] = []
upper_letters (c ∷ s) = (if leb b'a' c && leb c b'z' then c - 32 else c) ∷ upper_letters s

-- strings.ToUpper: `unicode` is what it makes, by the tables of Unicode, of a text that is not ASCII.
unfoldable pub to_upper : (Bytes → Bytes) → Bytes → Bytes
to_upper unicode s = if is_ascii s then upper_letters s else unicode s

-- The UTF-8 texts of the code points that unicode.IsSpace accepts.
abbrev pub white_space : List Bytes
white_space =
    (9 ∷ [])
    ∷ (10 ∷ [])
    ∷ (11 ∷ [])
    ∷ (12 ∷ [])
    ∷ (13 ∷ [])
    ∷ (32 ∷ [])
    ∷ (0xC2 ∷ 0x85 ∷ [])
    ∷ (0xC2 ∷ 0xA0 ∷ [])
    ∷ (0xE1 ∷ 0x9A ∷ 0x80 ∷ [])
    ∷ (0xE2 ∷ 0x80 ∷ 0x80 ∷ [])
    ∷ (0xE2 ∷ 0x80 ∷ 0x81 ∷ [])
    ∷ (0xE2 ∷ 0x80 ∷ 0x82 ∷ [])
    ∷ (0xE2 ∷ 0x80 ∷ 0x83 ∷ [])
    ∷ (0xE2 ∷ 0x80 ∷ 0x84 ∷ [])
    ∷ (0xE2 ∷ 0x80 ∷ 0x85 ∷ [])
    ∷ (0xE2 ∷ 0x80 ∷ 0x86 ∷ [])
    ∷ (0xE2 ∷ 0x80 ∷ 0x87 ∷ [])
    ∷ (0xE2 ∷ 0x80 ∷ 0x88 ∷ [])
    ∷ (0xE2 ∷ 0x80 ∷ 0x89 ∷ [])
    ∷ (0xE2 ∷ 0x80 ∷ 0x8A ∷ [])
    ∷ (0xE2 ∷ 0x80 ∷ 0xA8 ∷ [])
    ∷ (0xE2 ∷ 0x80 ∷ 0xA9 ∷ [])
    ∷ (0xE2 ∷ 0x80 ∷ 0xAF ∷ [])
    ∷ (0xE2 ∷ 0x81 ∷ 0x9F ∷ [])
    ∷ (0xE3 ∷ 0x80 ∷ 0x80 ∷ [])
    ∷ []

abbrev pub reverse_each : List Bytes → List Bytes
reverse_each [] = []
reverse_each (w ∷ ws) = reverse w ∷ reverse_each ws

-- The first of the texts that s begins with, as its length; 0 if there is none.
unfoldable pub prefix_length : Bytes → List Bytes → ℕ
unfolding has_prefix
prefix_length s [] = 0
prefix_length s (w ∷ ws) = if has_prefix s w then length w else prefix_length s ws

-- Cuts off texts of ws at the front while there are any, on fuel.
unfoldable pub cut_front : ℕ → Bytes → List Bytes → Bytes
unfolding prefix_length
cut_front zero s ws = s
cut_front (suc fuel) s ws =
    let rest = cut_front fuel (drop (prefix_length s ws) s) ws in
    if prefix_length s ws == 0 then s else rest

-- Each round takes one byte at least, so the length is fuel enough.
unfoldable pub trim_front : Bytes → List Bytes → Bytes
unfolding cut_front
trim_front s ws = cut_front (length s) s ws

-- strings.TrimSpace
unfoldable pub trim_space : Bytes → Bytes
unfolding trim_front
trim_space s = reverse (trim_front (reverse (trim_front s white_space)) (reverse_each white_space))

-- A byte that url.QueryEscape leaves as it is.
unfoldable pub is_unreserved : ℕ → Bool
is_unreserved c =
    (leb b'a' c && leb c b'z')
    || (leb b'A' c && leb c b'Z')
    || (leb b'0' c && leb c b'9')
    || c == b'-'
    || c == b'_'
    || c == b'.'
    || c == b'~'

abbrev pub upper_hex : ℕ → ℕ
upper_hex d = if ltb d 10 then b'0' + d else b'A' + d - 10

-- url.QueryEscape
unfoldable pub query_escape : Bytes → Bytes
unfolding is_unreserved
query_escape [] = []
query_escape (c ∷ s) =
    if is_unreserved c
    then c ∷ query_escape s
    else if c == 32
    then b'+' ∷ query_escape s
    else b'%' ∷ upper_hex (c / 16) ∷ upper_hex (c % 16) ∷ query_escape s

abbrev pub hex_value : ℕ → Option ℕ
hex_value c =
    if leb b'0' c && leb c b'9'
    then some (c - b'0')
    else if leb b'A' c && leb c b'F'
    then some (c - b'A' + 10)
    else if leb b'a' c && leb c b'f'
    then some (c - b'a' + 10)
    else none

abbrev pub pair_value : Option ℕ → Option ℕ → Option ℕ
pair_value (some a) (some b) = some (a * 16 + b)
pair_value _ _ = none

abbrev pub cons? : Option ℕ → Option Bytes → Option Bytes
cons? (some c) (some s) = some (c ∷ s)
cons? _ _ = none

-- url.QueryUnescape
unfoldable pub query_unescape : Bytes → Option Bytes
query_unescape [] = some []
query_unescape (a ∷ []) =
    if a == b'%' then none else cons? (some (if a == b'+' then 32 else a)) (some [])
query_unescape (a ∷ b ∷ []) =
    if a == b'%' then none else cons? (some (if a == b'+' then 32 else a)) (query_unescape (b ∷ []))
query_unescape (a ∷ b ∷ c ∷ s) = elim (a == b'%') [
  | true ↦ cons? (pair_value (hex_value b) (hex_value c)) (query_unescape s)
  | false ↦ cons? (some (if a == b'+' then 32 else a)) (query_unescape (b ∷ c ∷ s))
]
