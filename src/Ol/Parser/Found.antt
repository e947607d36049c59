-- ===== src/Ol/Parser/Found.antt =====
-- What a response to a search looks like, and that it is read: a document and the response leave out
-- what is empty, and may have further members.
use relentless_bookworm.Base.{
  ℤ, pos, negsuc, zero, suc, ◌≡◌, refl, ◌∙◌, Bool, true, false, Option, none, some, List, [], ◌∷◌,
  ◌++◌, Bytes, codes, All, map,
}
use relentless_bookworm.Result.{ok}
use relentless_bookworm.Json.{
  IsInt, Json, truth, number, whole, string, array, object, Slots, present, values, assign,
  read_int, read_items,
}
use relentless_bookworm.Json.Valid.{Codec, IsValid}
use relentless_bookworm.Json.Members.{put, wanted}
use relentless_bookworm.Models.{SearchDoc, SearchResponse}
use relentless_bookworm.Models.Encode.{omit_text, omit_list, items_of}
use relentless_bookworm.Models.RoundTrip.{from_slots}
use relentless_bookworm.Models.Lists.{text_back, texts_back, items_back}
use relentless_bookworm.Models.Search.{
  read_key, read_bool, read_pointer, read_editions, doc_from, read_doc, search_from, decode_search,
}
use relentless_bookworm.Ol.Parser.{parse_search_response}
use relentless_bookworm.Ol.Parser.Payload.{decoder}
use relentless_bookworm.Ol.Parser.Pages.{key_ref, names}

abbrev omit_int : ℤ → Option Json
omit_int (pos zero) = none
omit_int (pos (suc n)) = some (number (whole (pos (suc n))))
omit_int (negsuc n) = some (number (whole (negsuc n)))

abbrev omit_bool : Bool → Option Json
omit_bool false = none
omit_bool true = some (truth true)

abbrev omit_pointer : Option ℤ → Option Json
omit_pointer none = none
omit_pointer (some z) = some (number (whole z))

unfoldable pub editions_value : List Bytes → Json
unfolding present
editions_value ks = object (present ((codes "docs", some (array (items_of key_ref ks))) ∷ []))

abbrev doc_slots : SearchDoc → Slots
doc_slots d =
    (codes "key", some (string d.key))
    ∷ (codes "title", omit_text d.title)
    ∷ (codes "author_key", omit_list string d.author_key)
    ∷ (codes "author_name", omit_list string d.author_name)
    ∷ (codes "cover_edition_key", omit_text d.cover_edition_key)
    ∷ (codes "cover_i", omit_int d.cover_i)
    ∷ (codes "ebook_access", omit_text d.ebook_access)
    ∷ (codes "edition_count", omit_int d.edition_count)
    ∷ (codes "first_publish_year", omit_int d.first_publish_year)
    ∷ (codes "has_fulltext", omit_bool d.has_fulltext)
    ∷ (codes "ia", omit_list string d.ia)
    ∷ (codes "ia_collection", omit_list string d.ia_collection)
    ∷ (codes "language", omit_list string d.language)
    ∷ (codes "lending_edition_s", omit_text d.lending_edition)
    ∷ (codes "lending_identifier_s", omit_text d.lending_identifier)
    ∷ (codes "public_scan_b", omit_bool d.public_scan_b)
    ∷ (codes "id_standard_ebooks", omit_list string d.id_standard_ebooks)
    ∷ (codes "editions", some (editions_value d.editions))
    ∷ []

-- A document with its further members.
unfoldable pub doc_value : SearchDoc × Slots → Json
unfolding present editions_value
doc_value (d, more) = object (present (doc_slots d ++ more))

abbrev pub doc_of : SearchDoc × Slots → SearchDoc
doc_of x = x.0

abbrev response_slots : SearchResponse → List (SearchDoc × Slots) → Slots
response_slots r ds =
    (codes "numFound", omit_int r.num_found)
    ∷ (codes "numFoundExact", omit_bool r.num_found_exact)
    ∷ (codes "num_found", omit_int r.num_found_alt)
    ∷ (codes "start", omit_int r.start)
    ∷ (codes "q", omit_text r.q)
    ∷ (codes "offset", omit_pointer r.offset)
    ∷ (codes "documentation_url", omit_text r.documentation_url)
    ∷ (codes "docs", some (array (items_of doc_value ds)))
    ∷ []

unfoldable pub response_value : SearchResponse → List (SearchDoc × Slots) → Slots → Json
unfolding present doc_value
response_value r ds more = object (present (response_slots r ds ++ more))

abbrev pub DocFurther : SearchDoc × Slots → Type 0
DocFurther (d, more) = All (λ k. wanted more k ≡ []) (names (doc_slots d))

abbrev pub ResponseFurther : SearchResponse → List (SearchDoc × Slots) → Slots → Type 0
ResponseFurther r ds more = All (λ k. wanted more k ≡ []) (names (response_slots r ds))

-- The numbers fit an int.
abbrev pub DocFits : SearchDoc × Slots → Type 0
DocFits (d, more) = IsInt d.cover_i × IsInt d.edition_count × IsInt d.first_publish_year

abbrev PointerFits : Option ℤ → Type 0
PointerFits none = Unit
PointerFits (some z) = IsInt z

abbrev pub ResponseFits : SearchResponse → Type 0
ResponseFits r = IsInt r.num_found × IsInt r.num_found_alt × IsInt r.start × PointerFits r.offset

int_back : (z : ℤ) → IsInt z → assign read_int (pos 0) (put (omit_int z) []) ≡ some z
unfolding assign
int_back (pos zero) h = refl
int_back (pos (suc n)) h = rw h
int_back (negsuc n) h = rw h

bool_back : (b : Bool) → assign read_bool false (put (omit_bool b) []) ≡ some b
unfolding assign
bool_back false = refl
bool_back true = refl

pointer_back :
    (o : Option ℤ) → PointerFits o → assign read_pointer none (put (omit_pointer o) []) ≡ some o
unfolding assign
pointer_back none h = refl
pointer_back (some z) h = rw h

key_back : (k : Bytes) → read_key (key_ref k) ≡ some k
unfolding read_key key_ref
key_back k = refl

editions_back : (ks : List Bytes) → assign read_editions [] (editions_value ks ∷ []) ≡ some ks
unfolding assign read_editions editions_value values
editions_back ks = rw (items_back key_ref read_key key_back ks)

doc_back :
    (d : SearchDoc) (more : Slots)
    → DocFits (d, more)
    → DocFurther (d, more)
    → read_doc (doc_value (d, more)) ≡ some d
unfolding read_doc doc_value doc_from wanted
doc_back d more (f0, f1, f2)
      (
        h0,
        (
          h1,
          (
            h2,
            (
              h3,
              (
                h4,
                (
                  h5,
                  (h6, (h7, (h8, (h9, (h10, (h11, (h12, (h13, (h14, (h15, (h16, (h17, _)))))))))))),
                ),
              ),
            ),
          ),
        ),
      ) =
    from_slots doc_from (doc_slots d ++ more)
    ∙ rw (
      h0,
      h1,
      h2,
      h3,
      h4,
      h5,
      h6,
      h7,
      h8,
      h9,
      h10,
      h11,
      h12,
      h13,
      h14,
      h15,
      h16,
      h17,
      text_back d.title,
      texts_back d.author_key,
      texts_back d.author_name,
      text_back d.cover_edition_key,
      int_back d.cover_i f0,
      text_back d.ebook_access,
      int_back d.edition_count f1,
      int_back d.first_publish_year f2,
      bool_back d.has_fulltext,
      texts_back d.ia,
      texts_back d.ia_collection,
      texts_back d.language,
      text_back d.lending_edition,
      text_back d.lending_identifier,
      bool_back d.public_scan_b,
      texts_back d.id_standard_ebooks,
      editions_back d.editions,
    )

docs_back :
    (ds : List (SearchDoc × Slots))
    → All DocFits ds
    → All DocFurther ds
    → read_items read_doc (items_of doc_value ds) ≡ some (map doc_of ds)
unfolding read_items items_of
docs_back [] f h = refl
docs_back ((d, more) ∷ ds) (fd, f) (hd, h) = rw (doc_back d more fd hd, docs_back ds f h)

response_back :
    (r : SearchResponse) (ds : List (SearchDoc × Slots)) (more : Slots)
    → ResponseFits r
    → All DocFits ds
    → All DocFurther ds
    → ResponseFurther r ds more
    → decode_search (response_value r ds more) ≡ some (record r { docs = map doc_of ds })
unfolding decode_search response_value search_from wanted
response_back r ds more (f0, f1, f2, f3) fd hd (h0, (h1, (h2, (h3, (h4, (h5, (h6, (h7, _)))))))) =
    from_slots search_from (response_slots r ds ++ more)
    ∙ rw (
      h0,
      h1,
      h2,
      h3,
      h4,
      h5,
      h6,
      h7,
      int_back r.num_found f0,
      bool_back r.num_found_exact,
      int_back r.num_found_alt f1,
      int_back r.start f2,
      text_back r.q,
      pointer_back r.offset f3,
      text_back r.documentation_url,
      docs_back ds fd hd,
    )

-- A response to a search is parsed to what it says: its numbers and its documents, each with all its
-- fields, in their order, whatever is left out as empty and whatever further members the response
-- and its documents have, if they have other names. The texts are UTF-8, and the
-- numbers fit an int.
pub response_parsed :
    (c : Codec) (r : SearchResponse) (ds : List (SearchDoc × Slots)) (more : Slots)
    → IsValid (response_value r ds more)
    → ResponseFits r
    → All DocFits ds
    → All DocFurther ds
    → ResponseFurther r ds more
    → parse_search_response (decoder c) (c.print (response_value r ds more))
      ≡ ok (record r { docs = map doc_of ds })
unfolding parse_search_response
response_parsed c r ds more v f fd hd h =
    rw (c.parse_back (response_value r ds more) v, response_back r ds more f fd hd h)
