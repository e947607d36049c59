-- ===== src/Models/Search.antt =====
-- json.Unmarshal into a SearchResponse.
use relentless_bookworm.Base.{
  if◌then◌else◌, ℤ, pos, Bool, false, Option, none, some, List, [], Bytes, codes,
}
use relentless_bookworm.Json.{
  Json, null, truth, number, string, array, object, whole, literal, members_of, values, assign,
  ◌>>=◌, read_int, fits_int, read_slice,
}
use relentless_bookworm.Models.{SearchDoc, SearchResponse}
use relentless_bookworm.Models.Decode.{text, texts}

abbrev pub read_bool : Bool → Json → Option Bool
read_bool old null = some old
read_bool old (truth b) = some b
read_bool old (number m) = none
read_bool old (string s) = none
read_bool old (array vs) = none
read_bool old (object fs) = none

-- *int
abbrev pub read_pointer : Option ℤ → Json → Option (Option ℤ)
read_pointer old null = some none
read_pointer old (number (whole z)) = if fits_int z then some (some z) else none
read_pointer old (number (literal s)) = none
read_pointer old (truth b) = none
read_pointer old (string s) = none
read_pointer old (array vs) = none
read_pointer old (object fs) = none

-- A struct with the one field `key`
unfoldable pub read_key : Json → Option Bytes
unfolding text values
read_key v = members_of v >>= λ fs. text (values fs) (codes "key")

-- The struct `editions` with its docs
unfoldable pub read_editions : List Bytes → Json → Option (List Bytes)
unfolding read_key assign
read_editions old v =
    members_of v >>= λ fs. assign (read_slice read_key) old (values fs (codes "docs"))

module _ (g : Bytes → List Json) where
  unfoldable pub int : Bytes → Option ℤ
  unfolding assign
  int k = assign read_int (pos 0) (g k)

  unfoldable bool : Bytes → Option Bool
  unfolding assign
  bool k = assign read_bool false (g k)

  unfoldable pub doc_from : Option SearchDoc
  unfolding text texts int bool read_editions
  doc_from = do
    key ← text g (codes "key")
    title ← text g (codes "title")
    author_key ← texts g (codes "author_key")
    author_name ← texts g (codes "author_name")
    cover_edition_key ← text g (codes "cover_edition_key")
    cover_i ← int (codes "cover_i")
    ebook_access ← text g (codes "ebook_access")
    edition_count ← int (codes "edition_count")
    first_publish_year ← int (codes "first_publish_year")
    has_fulltext ← bool (codes "has_fulltext")
    ia ← texts g (codes "ia")
    ia_collection ← texts g (codes "ia_collection")
    language ← texts g (codes "language")
    lending_edition ← text g (codes "lending_edition_s")
    lending_identifier ← text g (codes "lending_identifier_s")
    public_scan_b ← bool (codes "public_scan_b")
    id_standard_ebooks ← texts g (codes "id_standard_ebooks")
    editions ← assign read_editions [] (g (codes "editions"))
    some (record {
      key = key;
      title = title;
      author_key = author_key;
      author_name = author_name;
      cover_edition_key = cover_edition_key;
      cover_i = cover_i;
      ebook_access = ebook_access;
      edition_count = edition_count;
      first_publish_year = first_publish_year;
      has_fulltext = has_fulltext;
      ia = ia;
      ia_collection = ia_collection;
      language = language;
      lending_edition = lending_edition;
      lending_identifier = lending_identifier;
      public_scan_b = public_scan_b;
      id_standard_ebooks = id_standard_ebooks;
      editions = editions;
    })

unfoldable pub read_doc : Json → Option SearchDoc
unfolding doc_from values
read_doc v = members_of v >>= λ fs. doc_from (values fs)

unfoldable pub search_from : (Bytes → List Json) → Option SearchResponse
unfolding text int bool read_doc assign
search_from g = do
  num_found ← int g (codes "numFound")
  num_found_exact ← bool g (codes "numFoundExact")
  num_found_alt ← int g (codes "num_found")
  start ← int g (codes "start")
  q ← text g (codes "q")
  offset ← assign read_pointer none (g (codes "offset"))
  documentation_url ← text g (codes "documentation_url")
  docs ← assign (read_slice read_doc) [] (g (codes "docs"))
  some (record {
    num_found = num_found;
    num_found_exact = num_found_exact;
    num_found_alt = num_found_alt;
    start = start;
    q = q;
    offset = offset;
    documentation_url = documentation_url;
    docs = docs;
  })

unfoldable pub decode_search : Json → Option SearchResponse
unfolding search_from values
decode_search v = members_of v >>= λ fs. search_from (values fs)
