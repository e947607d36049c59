-- ===== src/Tests/Found.antt =====
-- A response to a search.
use relentless_bookworm.Base.{
  pos, ◌≡◌, refl, true, false, none, some, List, [], ◌∷◌, codes, map, All,
}
use relentless_bookworm.Result.{ok}
use relentless_bookworm.Json.{Slots, number, whole}
use relentless_bookworm.Json.Members.{wanted}
use relentless_bookworm.Json.Valid.{IsValid, is_utf8}
use relentless_bookworm.Models.{SearchDoc, SearchResponse}
use relentless_bookworm.Models.Encode.{items_of}
use relentless_bookworm.Ol.Parser.{parse_search_response}
use relentless_bookworm.Ol.Parser.Payload.{decoder}
use relentless_bookworm.Ol.Parser.Pages.{key_ref}
use relentless_bookworm.Ol.Parser.Found.{
  doc_of, response_value, DocFurther, ResponseFurther, response_parsed,
}
use relentless_bookworm.Tests.Codec.{a_codec}

abbrev a_doc : SearchDoc
a_doc = record {
  key = codes "/works/1";
  title = codes "t";
  author_key = [];
  author_name = [];
  cover_edition_key = [];
  cover_i = pos 0;
  ebook_access = [];
  edition_count = pos 2;
  first_publish_year = pos 0;
  has_fulltext = true;
  ia = [];
  ia_collection = [];
  language = [];
  lending_edition = [];
  lending_identifier = [];
  public_scan_b = false;
  id_standard_ebooks = [];
  editions = codes "/books/1" ∷ [];
}

abbrev a_response : SearchResponse
a_response = record {
  num_found = pos 1;
  num_found_exact = true;
  num_found_alt = pos 1;
  start = pos 0;
  q = codes "sea";
  offset = none;
  documentation_url = [];
  docs = [];
}

abbrev unknown : Slots
unknown = (codes "score", some (number (whole (pos 3)))) ∷ []

abbrev some_docs : List (SearchDoc × Slots)
some_docs = (a_doc, unknown) ∷ []

response-IsValid : IsValid (response_value a_response some_docs unknown)
unfolding response_value is_utf8 items_of key_ref
response-IsValid = (
  refl,
  tt,
  (
    refl,
    tt,
    (
      refl,
      tt,
      (
        refl,
        refl,
        (
          refl,
          (
            (
              refl,
              refl,
              (
                refl,
                refl,
                (refl, tt, (refl, tt, (refl, (refl, ((refl, refl, tt), tt), tt), (refl, tt, tt)))),
              ),
            ),
            tt,
          ),
          (refl, tt, tt),
        ),
      ),
    ),
  ),
)

docs-DocFurther : All DocFurther some_docs
unfolding wanted
docs-DocFurther = (
  (
    refl,
    (
      refl,
      (
        refl,
        (
          refl,
          (
            refl,
            (
              refl,
              (
                refl,
                (
                  refl,
                  (
                    refl,
                    (refl, (refl, (refl, (refl, (refl, (refl, (refl, (refl, (refl, tt))))))))),
                  ),
                ),
              ),
            ),
          ),
        ),
      ),
    ),
  ),
  tt,
)

response-ResponseFurther : ResponseFurther a_response some_docs unknown
unfolding wanted
response-ResponseFurther = (refl, (refl, (refl, (refl, (refl, (refl, (refl, (refl, tt))))))))

response_parsed_example :
    parse_search_response
      (decoder a_codec)
      (a_codec.print (response_value a_response some_docs unknown))
    ≡ ok (record a_response { docs = map doc_of some_docs })
response_parsed_example =
    response_parsed a_codec a_response some_docs unknown response-IsValid (refl, refl, refl, tt)
      ((refl, refl, refl), tt) docs-DocFurther response-ResponseFurther
