-- ===== src/Tests/Codec.antt =====
-- A codec for test data, not Go's: a value is a list of instructions for a machine with a stack,
-- each a number with an argument.
use relentless_bookworm.Base.{
  ◌≡◌, refl, true, some, List, [], ◌∷◌, ℕ, pos, negsuc, ap, ◌∙◌, false, Option, none, ◌==◌,
  if◌then◌else◌, Bytes,
}
use relentless_bookworm.Json.{
  Json, whole, literal, null, truth, number, string, array, object, Items, no_item, item, Fields,
  no_field, field,
}
use relentless_bookworm.Json.Valid.{Codec}

pub data Part : Type 0 where
  value : Json → Part
  bytes : Bytes → Part
  items : Items → Part
  fields : Fields → Part

abbrev pub Stack : Type 0
Stack = List Part

abbrev add_byte : ℕ → Stack → Stack
add_byte c (bytes s ∷ st) = bytes (c ∷ s) ∷ st
add_byte c _ = []

abbrev to_string : Stack → Stack
to_string (bytes s ∷ st) = value (string s) ∷ st
to_string _ = []

abbrev to_literal : Stack → Stack
to_literal (bytes s ∷ st) = value (number (literal s)) ∷ st
to_literal _ = []

abbrev add_item : Stack → Stack
add_item (value v ∷ items vs ∷ st) = items (item v vs) ∷ st
add_item _ = []

abbrev to_array : Stack → Stack
to_array (items vs ∷ st) = value (array vs) ∷ st
to_array _ = []

abbrev add_field : Stack → Stack
add_field (bytes k ∷ value v ∷ fields fs ∷ st) = fields (field k v fs) ∷ st
add_field _ = []

abbrev to_object : Stack → Stack
to_object (fields fs ∷ st) = value (object fs) ∷ st
to_object _ = []

abbrev execute : ℕ → ℕ → Stack → Stack
execute op n st =
    if op == 0
    then value null ∷ st
    else if op == 1
    then value (truth (n == 1)) ∷ st
    else if op == 2
    then value (number (whole (pos n))) ∷ st
    else if op == 3
    then value (number (whole (negsuc n))) ∷ st
    else if op == 4
    then bytes [] ∷ st
    else if op == 5
    then add_byte n st
    else if op == 6
    then to_string st
    else if op == 7
    then to_literal st
    else if op == 8
    then items no_item ∷ st
    else if op == 9
    then add_item st
    else if op == 10
    then to_array st
    else if op == 11
    then fields no_field ∷ st
    else if op == 12
    then add_field st
    else to_object st

unfoldable pub run : Stack → Bytes → Stack
run st [] = st
run st (op ∷ []) = []
run st (op ∷ n ∷ s) = run (execute op n st) s

abbrev pub top : Stack → Option Json
top (value v ∷ []) = some v
top _ = none

abbrev code_bytes : Bytes → Bytes → Bytes
code_bytes [] s = 4 ∷ 0 ∷ s
code_bytes (c ∷ b) s = code_bytes b (5 ∷ c ∷ s)

abbrev mutual
  pub code : Json → Bytes → Bytes
  code null s = 0 ∷ 0 ∷ s
  code (truth true) s = 1 ∷ 1 ∷ s
  code (truth false) s = 1 ∷ 0 ∷ s
  code (number (whole (pos n))) s = 2 ∷ n ∷ s
  code (number (whole (negsuc n))) s = 3 ∷ n ∷ s
  code (number (literal b)) s = code_bytes b (7 ∷ 0 ∷ s)
  code (string b) s = code_bytes b (6 ∷ 0 ∷ s)
  code (array vs) s = code_items vs (10 ∷ 0 ∷ s)
  code (object fs) s = code_fields fs (13 ∷ 0 ∷ s)

  code_items : Items → Bytes → Bytes
  code_items no_item s = 8 ∷ 0 ∷ s
  code_items (item v vs) s = code_items vs (code v (9 ∷ 0 ∷ s))

  code_fields : Fields → Bytes → Bytes
  code_fields no_field s = 11 ∷ 0 ∷ s
  code_fields (field k v fs) s = code_fields fs (code v (code_bytes k (12 ∷ 0 ∷ s)))

run-code_bytes : (b s : Bytes) (st : Stack) → run st (code_bytes b s) ≡ run (bytes b ∷ st) s
unfolding run
run-code_bytes [] s st = refl
run-code_bytes (c ∷ b) s st = run-code_bytes b (5 ∷ c ∷ s) st

mutual
  unfolding run

  run-code : (v : Json) (s : Bytes) (st : Stack) → run st (code v s) ≡ run (value v ∷ st) s
  run-code null s st = refl
  run-code (truth true) s st = refl
  run-code (truth false) s st = refl
  run-code (number (whole (pos n))) s st = refl
  run-code (number (whole (negsuc n))) s st = refl
  run-code (number (literal b)) s st = run-code_bytes b (7 ∷ 0 ∷ s) st
  run-code (string b) s st = run-code_bytes b (6 ∷ 0 ∷ s) st
  run-code (array vs) s st = run-code_items vs (10 ∷ 0 ∷ s) st
  run-code (object fs) s st = run-code_fields fs (13 ∷ 0 ∷ s) st

  run-code_items :
      (vs : Items) (s : Bytes) (st : Stack) → run st (code_items vs s) ≡ run (items vs ∷ st) s
  run-code_items no_item s st = refl
  run-code_items (item v vs) s st =
      run-code_items vs (code v (9 ∷ 0 ∷ s)) st ∙ run-code v (9 ∷ 0 ∷ s) (items vs ∷ st)

  run-code_fields :
      (fs : Fields) (s : Bytes) (st : Stack) → run st (code_fields fs s) ≡ run (fields fs ∷ st) s
  run-code_fields no_field s st = refl
  run-code_fields (field k v fs) s st =
      run-code_fields fs (code v (code_bytes k (12 ∷ 0 ∷ s))) st
      ∙ run-code v (code_bytes k (12 ∷ 0 ∷ s)) (fields fs ∷ st)
      ∙ run-code_bytes k (12 ∷ 0 ∷ s) (value v ∷ fields fs ∷ st)

abbrev pub read_one : Bytes → Option ℕ
read_one (n ∷ []) = some n
read_one _ = none

pub run-code_first : (v : Json) → top (run [] (code v [])) ≡ some v
unfolding run
run-code_first v = ap top (run-code v [] [])

abbrev pub a_codec : Codec
a_codec = record {
  print = λ v. code v [];
  parse = λ s. top (run [] s);
  time_text = λ t. t ∷ [];
  read_time = read_one;
  float = λ m. m;
  parse_back = λ v h. run-code_first v;
  time_back = λ t. refl;
  float_back = λ z h. refl;
}
