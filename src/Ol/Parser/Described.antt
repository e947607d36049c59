-- ===== src/Ol/Parser/Described.antt =====
-- Pages are parsed to the nodes that they describe.
use relentless_bookworm.Base.{◌≡◌, ap, ◌∙◌, Bool, false, Option, some, List, [], Bytes, ◌++◌}
use relentless_bookworm.Text.{bytes_eq}
use relentless_bookworm.Result.{ok, ◌>>=◌}
use relentless_bookworm.Json.{Json, Slots}
use relentless_bookworm.Json.Valid.{Codec, IsValid}
use relentless_bookworm.Json.Members.{wanted}
use relentless_bookworm.Models.{BookNode, WorkNode, AuthorNode, Node, book, work, author}
use relentless_bookworm.Models.Decode.{unmarshal}
use relentless_bookworm.Ol.Parser.{
  Decoder, EditionPayload, WorkPayload, AuthorPayload, parse_node, parse_typed, parse_book_node,
  parse_work_node, parse_author_node, book_of, work_of, author_of,
}
use relentless_bookworm.Ol.Parser.Payload.{
  decoder, into, envelope_from, edition_from, work_payload_from, author_payload_from,
}
use relentless_bookworm.Ol.Parser.Pages.{page_slots, page, AreFurther, IsDescribed, with_raw}
use relentless_bookworm.Ol.Parser.Parsed.{
  keep_keys-All, long_text_back, pairs_back, into-page, type_key, type_back, edition_back,
  work_back, author_back,
}

module _ (d : Decoder) (body : Bytes) where
  node_of_type :
      (key : Bytes) → d.envelope body ≡ some key → parse_node d body ≡ parse_typed d body key
  unfolding parse_node
  node_of_type key e = rw e

  book_of_payload :
      (p : EditionPayload)
      → d.edition body ≡ some p
      → bytes_eq p.key [] ≡ false
      → parse_book_node d body ≡ ok (book_of body p)
  unfolding parse_book_node
  book_of_payload p e k = rw (e, k)

  work_of_payload :
      (p : WorkPayload)
      → d.work_payload body ≡ some p
      → bytes_eq p.key [] ≡ false
      → parse_work_node d body ≡ ok (work_of body p)
  unfolding parse_work_node
  work_of_payload p e k = rw (e, k)

  author_of_payload :
      (p : AuthorPayload)
      → d.author_payload body ≡ some p
      → bytes_eq p.key [] ≡ false
      → parse_author_node d body ≡ ok (author_of body p)
  unfolding parse_author_node
  author_of_payload p e k = rw (e, k)

module _ (c : Codec) (long : Bool) (n : Node) (more : Slots) where
  abbrev body : Bytes
  body = c.print (page long n more)

  unmarshal_page {ℓ} :
      {A : Type ℓ} (from_ : (Bytes → List Json) → Option A)
      → IsValid (page long n more)
      → unmarshal c (into from_) body ≡ from_ (wanted (page_slots long n ++ more))
  unmarshal_page from_ v = rw (c.parse_back (page long n more) v) (into-page from_ long n more)

  typed :
      IsValid (page long n more)
      → AreFurther long n more
      → parse_node (decoder c) body ≡ parse_typed (decoder c) body (type_key n)
  typed v h =
      node_of_type (decoder c) body (type_key n)
        (unmarshal_page envelope_from v ∙ type_back long n more h)

module _ (c : Codec) (long : Bool) (more : Slots) where
  book_described :
      (n : BookNode)
      → IsValid (page long (book n) more)
      → AreFurther long (book n) more
      → IsDescribed (book n)
      → parse_book_node (decoder c) (body c long (book n) more)
        ≡ ok (record n { raw_json = body c long (book n) more })
  book_described n v h (key, authors, works, languages, sorted, ints) =
      book_of_payload (decoder c) (body c long (book n) more) _
        (unmarshal_page c long (book n) more edition_from v
          ∙ edition_back long n more sorted ints h)
        key
      ∙ rw (
        keep_keys-All n.authors authors,
        keep_keys-All n.works works,
        keep_keys-All n.languages languages,
      )

  work_described :
      (n : WorkNode)
      → IsValid (page long (work n) more)
      → AreFurther long (work n) more
      → IsDescribed (work n)
      → parse_work_node (decoder c) (body c long (work n) more)
        ≡ ok (record n { raw_json = body c long (work n) more })
  work_described n v h (key, authors, ints) =
      let (d, e, t) = long_text_back long n.description in
      work_of_payload (decoder c) (body c long (work n) more) _
        (unmarshal_page c long (work n) more work_payload_from v ∙ work_back long n more d e ints h)
        key
      ∙ rw (keep_keys-All n.authors authors, t)

  author_described :
      (n : AuthorNode)
      → IsValid (page long (author n) more)
      → AreFurther long (author n) more
      → IsDescribed (author n)
      → parse_author_node (decoder c) (body c long (author n) more)
        ≡ ok (record n { raw_json = body c long (author n) more })
  author_described n v h (key, sorted, ints) =
      let (d, e, t) = long_text_back long n.bio in
      author_of_payload (decoder c) (body c long (author n) more) _
        (unmarshal_page c long (author n) more author_payload_from v
          ∙ author_back long n more d sorted e ints h)
        key
      ∙ rw (t, pairs_back n.links)

-- A page that describes an edition, a work or an author is parsed to just this node, with the page
-- as its raw JSON: whether its texts stand alone or with their type, and whatever further members
-- the page has, if they have other names. The texts are UTF-8, the keys are not empty, maps are in
-- the order of their keys, and the numbers fit an int.
pub page_described :
    (c : Codec) (long : Bool) (n : Node) (more : Slots)
    → IsValid (page long n more)
    → AreFurther long n more
    → IsDescribed n
    → parse_node (decoder c) (c.print (page long n more))
      ≡ ok (some (with_raw (c.print (page long n more)) n))
unfolding parse_typed bytes_eq
page_described c long (book n) more v h d =
    typed c long (book n) more v h
    ∙ ap (λ r. r >>= λ b. ok (some (book b))) (book_described c long more n v h d)
page_described c long (work n) more v h d =
    typed c long (work n) more v h
    ∙ ap (λ r. r >>= λ b. ok (some (work b))) (work_described c long more n v h d)
page_described c long (author n) more v h d =
    typed c long (author n) more v h
    ∙ ap (λ r. r >>= λ b. ok (some (author b))) (author_described c long more n v h d)
