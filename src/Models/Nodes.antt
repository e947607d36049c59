-- ===== src/Models/Nodes.antt =====
-- Nodes that were printed, read into `any`, and printed again, as the graph writer gets them.
use mathlib.Core.Path.{fun_ext}
use relentless_bookworm.Base.{◌≡◌, refl, ap, ◌∙◌, true, some, List, [], Bytes, All}
use relentless_bookworm.Json.{Json, no_field, Slots, present, values, string}
use relentless_bookworm.Json.Valid.{Codec, IsExact}
use relentless_bookworm.Json.Members.{wanted}
use relentless_bookworm.Json.Any.{any_value, any_fields}
use relentless_bookworm.Json.Any.Members.{distinct, any_slots, values-any_value}
use relentless_bookworm.Models.{BookNode, WorkNode, AuthorNode, Node, book, work, author}
use relentless_bookworm.Models.Encode.{
  book_slots, work_slots, author_slots, encode_node, texts_value,
}
use relentless_bookworm.Models.Decode.{
  book_from, work_from, author_from, decode_book, decode_work, decode_author, read_texts,
  read_element,
}
use relentless_bookworm.Models.Lists.{
  All-IsInt, text_back, texts_back, ints_back, links_back, text_same, texts_same, ints_same,
  links_same, texts_value_same, items_back,
}
use relentless_bookworm.Models.Maps.{IsSorted, map_back, map_same}

-- What Go's values have anyway, the order of the keys of a map, and ints that a float64 holds.
abbrev pub IsPlain : Node → Type 0
IsPlain (book n) = All IsExact n.covers × IsSorted n.identifiers
IsPlain (work n) = All IsExact n.covers
IsPlain (author n) = All IsExact n.photos × IsSorted n.remote_ids

module _ (c : Codec) where
  from_any {ℓ} :
      {A : Type ℓ} (from_ : (Bytes → List Json) → A) (slots : Slots)
      → distinct slots ≡ true
      → any_slots c.float slots ≡ slots
      → from_ (values (any_fields c.float no_field (present slots))) ≡ from_ (wanted slots)
  from_any from_ slots d e =
      ap from_ (fun_ext (λ k. values-any_value c.float slots k d))
      ∙ ap (λ (s : Slots). from_ (wanted s)) e

  book_same : (n : BookNode) → IsPlain (book n) → any_slots c.float (book_slots n) ≡ book_slots n
  unfolding any_value
  book_same n h = rw (
    text_same c.float n.title,
    text_same c.float n.full_title,
    texts_same c.float n.authors,
    texts_same c.float n.works,
    texts_same c.float n.subjects,
    texts_same c.float n.publishers,
    text_same c.float n.publish_date,
    texts_same c.float n.languages,
    map_same texts_value c.float (texts_value_same c.float) n.identifiers h.1,
    ints_same c n.covers h.0,
  )

  work_same : (n : WorkNode) → IsPlain (work n) → any_slots c.float (work_slots n) ≡ work_slots n
  unfolding any_value
  work_same n h = rw (
    text_same c.float n.title,
    texts_same c.float n.authors,
    texts_same c.float n.subjects,
    texts_same c.float n.subject_people,
    texts_same c.float n.subject_times,
    text_same c.float n.description,
    ints_same c n.covers h,
  )

  author_same :
      (n : AuthorNode) → IsPlain (author n) → any_slots c.float (author_slots n) ≡ author_slots n
  unfolding any_value
  author_same n h = rw (
    text_same c.float n.name,
    text_same c.float n.personal_name,
    text_same c.float n.bio,
    texts_same c.float n.alternate_names,
    ints_same c n.photos h.0,
    map_same string c.float (λ s. refl) n.remote_ids h.1,
    links_same c.float n.links,
  )

  pub decode_book_back :
      (n : BookNode)
      → IsPlain (book n)
      → decode_book (any_value c.float (encode_node (book n))) ≡ some (record n { raw_json = [] })
  unfolding decode_book encode_node wanted any_value
  decode_book_back n h =
      from_any book_from (book_slots n) refl (book_same n h)
      ∙ rw (
        text_back n.title,
        text_back n.full_title,
        texts_back n.authors,
        texts_back n.works,
        texts_back n.subjects,
        texts_back n.publishers,
        text_back n.publish_date,
        texts_back n.languages,
        map_back texts_value (read_texts []) (items_back string read_element (λ s. refl))
            n.identifiers h.1,
        ints_back n.covers (All-IsInt n.covers h.0),
      )

  pub decode_work_back :
      (n : WorkNode)
      → IsPlain (work n)
      → decode_work (any_value c.float (encode_node (work n))) ≡ some (record n { raw_json = [] })
  unfolding decode_work encode_node wanted any_value
  decode_work_back n h =
      from_any work_from (work_slots n) refl (work_same n h)
      ∙ rw (
        text_back n.title,
        texts_back n.authors,
        texts_back n.subjects,
        texts_back n.subject_people,
        texts_back n.subject_times,
        text_back n.description,
        ints_back n.covers (All-IsInt n.covers h),
      )

  pub decode_author_back :
      (n : AuthorNode)
      → IsPlain (author n)
      → decode_author (any_value c.float (encode_node (author n)))
        ≡ some (record n { raw_json = [] })
  unfolding decode_author encode_node wanted any_value
  decode_author_back n h =
      from_any author_from (author_slots n) refl (author_same n h)
      ∙ rw (
        text_back n.name,
        text_back n.personal_name,
        text_back n.bio,
        texts_back n.alternate_names,
        ints_back n.photos (All-IsInt n.photos h.0),
        map_back string read_element (λ s. refl) n.remote_ids h.1,
        links_back n.links,
      )
