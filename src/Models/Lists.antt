-- ===== src/Models/Lists.antt =====
-- The fields with `omitempty`, texts, lists of texts and lists of ints: what is printed is read back,
-- and stays the same when it is read into `any` and printed again.
use relentless_bookworm.Base.{
  arith, pos, negsuc, ℤ, ◌≡◌, refl, ap, Option, some, List, [], ◌∷◌, Bytes, All,
}
use relentless_bookworm.Json.{
  IsInt, Json, Number, values, string, number, array, assign, read_text, read_items, read_slice,
}
use relentless_bookworm.Json.Valid.{Codec, IsExact}
use relentless_bookworm.Json.Members.{put}
use relentless_bookworm.Json.Any.{any_value, any_items, insert_field}
use relentless_bookworm.Json.Any.Members.{any_option}
use relentless_bookworm.Models.{AuthorLink}
use relentless_bookworm.Models.Encode.{
  omit_text, omit_list, items_of, int_value, texts_value, encode_link,
}
use relentless_bookworm.Models.Decode.{
  read_element, read_number, read_texts, read_ints, decode_link,
}

pub text_back : (s : Bytes) → assign read_text [] (put (omit_text s) []) ≡ some s
unfolding assign
text_back [] = refl
text_back (c ∷ s) = refl

module _ {ℓ} {A : Type ℓ} (one : A → Json) (read : Json → Option A)
    (one_back : (a : A) → read (one a) ≡ some a) where
  pub items_back : (xs : List A) → read_items read (items_of one xs) ≡ some xs
  unfolding read_items items_of
  items_back [] = refl
  items_back (x ∷ xs) = rw (one_back x, items_back xs)

  pub list_back : (xs : List A) → assign (read_slice read) [] (put (omit_list one xs) []) ≡ some xs
  unfolding assign
  list_back [] = refl
  list_back (x ∷ xs) = rw (items_back (x ∷ xs))

pub texts_back : (ss : List Bytes) → assign read_texts [] (put (omit_list string ss) []) ≡ some ss
texts_back = list_back string read_element (λ s. refl)

number_back : (z : ℤ) → IsInt z → read_number (int_value z) ≡ some z
number_back z h = rw h

numbers_back :
    (zs : List ℤ) → All IsInt zs → read_items read_number (items_of int_value zs) ≡ some zs
unfolding read_items items_of
numbers_back [] h = refl
numbers_back (z ∷ zs) (hz, h) = rw (number_back z hz, numbers_back zs h)

pub ints_back :
    (zs : List ℤ) → All IsInt zs → assign read_ints [] (put (omit_list int_value zs) []) ≡ some zs
unfolding assign
ints_back [] h = refl
ints_back (z ∷ zs) h = rw (numbers_back (z ∷ zs) h)

IsExact-IsInt : (z : ℤ) → IsExact z → IsInt z
IsExact-IsInt (pos n) h = ground (arith, h)
IsExact-IsInt (negsuc n) h = ground (arith, h)

-- An int that a float64 holds is an int.
pub All-IsInt : (zs : List ℤ) → All IsExact zs → All IsInt zs
All-IsInt [] h = tt
All-IsInt (z ∷ zs) (hz, h) = (IsExact-IsInt z hz, All-IsInt zs h)

decode-encode_link : (l : AuthorLink) → decode_link (encode_link l) ≡ some l
unfolding decode_link encode_link values assign
decode-encode_link l = refl

pub links_back :
    (ls : List AuthorLink)
    → assign (read_slice decode_link) [] (put (omit_list encode_link ls) []) ≡ some ls
links_back = list_back encode_link decode_link decode-encode_link

module _ (float : Number → Number) where
  pub text_same : (s : Bytes) → any_option float (omit_text s) ≡ omit_text s
  unfolding any_value
  text_same [] = refl
  text_same (c ∷ s) = refl

  module _ {ℓ} {A : Type ℓ} (one : A → Json) where
    items_same :
        (xs : List A)
        → All (λ a. any_value float (one a) ≡ one a) xs
        → any_items float (items_of one xs) ≡ items_of one xs
    unfolding any_value items_of
    items_same [] h = refl
    items_same (x ∷ xs) (hx, h) = rw (hx, items_same xs h)

    list_same :
        (xs : List A)
        → All (λ a. any_value float (one a) ≡ one a) xs
        → any_option float (omit_list one xs) ≡ omit_list one xs
    unfolding any_value
    list_same [] h = refl
    list_same (x ∷ xs) h = ap (λ vs. some (array vs)) (items_same (x ∷ xs) h)

  every {ℓ κ} : {A : Type ℓ} (P : A → Type κ) → ((a : A) → P a) → (xs : List A) → All P xs
  every P h [] = tt
  every P h (x ∷ xs) = (h x, every P h xs)

  pub texts_same : (ss : List Bytes) → any_option float (omit_list string ss) ≡ omit_list string ss
  unfolding any_value
  texts_same ss = list_same string ss (every _ (λ s. refl) ss)

  pub texts_value_same : (ss : List Bytes) → any_value float (texts_value ss) ≡ texts_value ss
  unfolding any_value
  texts_value_same ss = ap array (items_same string ss (every _ (λ s. refl) ss))

  encode_link_same : (l : AuthorLink) → any_value float (encode_link l) ≡ encode_link l
  unfolding any_value encode_link insert_field
  encode_link_same l = refl

  pub links_same :
      (ls : List AuthorLink)
      → any_option float (omit_list encode_link ls) ≡ omit_list encode_link ls
  links_same ls = list_same encode_link ls (every _ encode_link_same ls)

module _ (c : Codec) where
  exact :
      (zs : List ℤ) → All IsExact zs → All (λ z. any_value c.float (int_value z) ≡ int_value z) zs
  unfolding any_value
  exact [] h = tt
  exact (z ∷ zs) (hz, h) = (ap number (c.float_back z hz), exact zs h)

  pub ints_same :
      (zs : List ℤ)
      → All IsExact zs
      → any_option c.float (omit_list int_value zs) ≡ omit_list int_value zs
  ints_same zs h = list_same c.float int_value zs (exact zs h)
