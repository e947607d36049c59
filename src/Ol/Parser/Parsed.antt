-- ===== src/Ol/Parser/Parsed.antt =====
-- What each struct of the parser gets from the members of a page.
use relentless_bookworm.Base.{
  ◌≡◌, refl, ap, Bool, true, false, Option, some, List, [], ◌∷◌, ◌++◌, Bytes, All, map,
}
use relentless_bookworm.Json.{IsInt, Json, string, assign, Slots, read_slice}
use relentless_bookworm.Json.Members.{put, wanted}
use relentless_bookworm.Json.Any.{any_value, insert_field}
use relentless_bookworm.Models.{
  BookNode, WorkNode, AuthorNode, AuthorLink, Node, book, work, author,
}
use relentless_bookworm.Models.Encode.{texts_value, omit_list}
use relentless_bookworm.Models.Decode.{read_texts, read_element}
use relentless_bookworm.Models.RoundTrip.{from_slots}
use relentless_bookworm.Models.Lists.{
  text_back, texts_back, ints_back, links_back, items_back, list_back,
}
use relentless_bookworm.Models.Maps.{IsSorted, map_back}
use relentless_bookworm.Models.Search.{read_key}
use relentless_bookworm.Ol.Parser.{
  keep_keys, text_value, JsonValue, other, edition_key, work_key, author_key,
}
use relentless_bookworm.Ol.Parser.Payload.{
  into, edition_from, work_payload_from, author_payload_from, envelope_from, read_author_ref,
  pair_of, read_any, value_of,
}
use relentless_bookworm.Ol.Parser.Pages.{
  key_ref, author_ref, long_text, page_slots, page, AreFurther, IsKey,
}

pub keep_keys-All : (ks : List Bytes) → All IsKey ks → keep_keys ks ≡ ks
unfolding keep_keys
keep_keys-All [] h = refl
keep_keys-All (k ∷ ks) (hk, h) = rw (hk, keep_keys-All ks h)

refs_back :
    (ks : List Bytes) → assign (read_slice read_key) [] (put (omit_list key_ref ks) []) ≡ some ks
unfolding read_key key_ref
refs_back = list_back key_ref read_key (λ k. refl)

author_refs_back :
    (ks : List Bytes)
    → assign (read_slice read_author_ref) [] (put (omit_list author_ref ks) []) ≡ some ks
unfolding read_author_ref author_ref
author_refs_back = list_back author_ref read_author_ref (λ k. refl)

pub long_text_back :
    (long : Bool) (s : Bytes)
    → (v : JsonValue) × (assign read_any other (put (long_text long s) []) ≡ some v)
      × (text_value v ≡ s)
unfolding assign long_text value_of text_value any_value insert_field
long_text_back long [] = (_, refl, refl)
long_text_back false (c ∷ s) = (_, refl, refl)
long_text_back true (c ∷ s) = (_, refl, refl)

pub pairs_back :
    (ls : List AuthorLink) → map (λ l. record { title = l.0; url = l.1 }) (map pair_of ls) ≡ ls
pairs_back [] = refl
pairs_back (l ∷ ls) = ap (λ (ms : List AuthorLink). l ∷ ms) (pairs_back ls)

pub into-page {ℓ} :
    {A : Type ℓ} (from_ : (Bytes → List Json) → Option A) (long : Bool) (n : Node) (more : Slots)
    → into from_ (page long n more) ≡ from_ (wanted (page_slots long n ++ more))
unfolding page
into-page from_ long n more = from_slots from_ (page_slots long n ++ more)

abbrev pub type_key : Node → Bytes
type_key (book n) = edition_key
type_key (work n) = work_key
type_key (author n) = author_key

pub type_back :
    (long : Bool) (n : Node) (more : Slots)
    → AreFurther long n more
    → envelope_from (wanted (page_slots long n ++ more)) ≡ some (type_key n)
unfolding envelope_from wanted key_ref
type_back long (book n) more h = rw (h.0)
type_back long (work n) more h = rw (h.0)
type_back long (author n) more h = rw (h.0)

pub edition_back :
    (long : Bool) (n : BookNode) (more : Slots)
    → IsSorted n.identifiers
    → All IsInt n.covers
    → AreFurther long (book n) more
    → edition_from (wanted (page_slots long (book n) ++ more))
      ≡ some (record {
        key = n.key;
        title = n.title;
        full_title = n.full_title;
        authors = n.authors;
        works = n.works;
        subjects = n.subjects;
        publishers = n.publishers;
        publish_date = n.publish_date;
        languages = n.languages;
        identifiers = n.identifiers;
        covers = n.covers;
      })
unfolding edition_from wanted
edition_back long n more sorted ints
      (h0, (h1, (h2, (h3, (h4, (h5, (h6, (h7, (h8, (h9, (h10, (h11, _)))))))))))) =
    rw (
      h1,
      h2,
      h3,
      h4,
      h5,
      h6,
      h7,
      h8,
      h9,
      h10,
      h11,
      text_back n.title,
      text_back n.full_title,
      refs_back n.authors,
      refs_back n.works,
      texts_back n.subjects,
      texts_back n.publishers,
      text_back n.publish_date,
      refs_back n.languages,
      map_back texts_value (read_texts []) (items_back string read_element (λ s. refl))
          n.identifiers sorted,
      ints_back n.covers ints,
    )

pub work_back :
    (long : Bool) (n : WorkNode) (more : Slots) (d : JsonValue)
    → assign read_any other (put (long_text long n.description) []) ≡ some d
    → All IsInt n.covers
    → AreFurther long (work n) more
    → work_payload_from (wanted (page_slots long (work n) ++ more))
      ≡ some (record {
        key = n.key;
        title = n.title;
        authors = n.authors;
        subjects = n.subjects;
        subject_people = n.subject_people;
        subject_times = n.subject_times;
        description = d;
        covers = n.covers;
      })
unfolding work_payload_from wanted
work_back long n more d e ints (h0, (h1, (h2, (h3, (h4, (h5, (h6, (h7, (h8, _))))))))) = rw (
  h1,
  h2,
  h3,
  h4,
  h5,
  h6,
  h7,
  h8,
  text_back n.title,
  author_refs_back n.authors,
  texts_back n.subjects,
  texts_back n.subject_people,
  texts_back n.subject_times,
  e,
  ints_back n.covers ints,
)

pub author_back :
    (long : Bool) (n : AuthorNode) (more : Slots) (d : JsonValue)
    → IsSorted n.remote_ids
    → assign read_any other (put (long_text long n.bio) []) ≡ some d
    → All IsInt n.photos
    → AreFurther long (author n) more
    → author_payload_from (wanted (page_slots long (author n) ++ more))
      ≡ some (record {
        key = n.key;
        name = n.name;
        personal_name = n.personal_name;
        bio = d;
        alternate_names = n.alternate_names;
        photos = n.photos;
        remote_ids = n.remote_ids;
        links = map pair_of n.links;
      })
unfolding author_payload_from wanted
author_back long n more d sorted e ints (h0, (h1, (h2, (h3, (h4, (h5, (h6, (h7, (h8, _))))))))) =
    rw (
      h1,
      h2,
      h3,
      h4,
      h5,
      h6,
      h7,
      h8,
      text_back n.name,
      text_back n.personal_name,
      e,
      texts_back n.alternate_names,
      ints_back n.photos ints,
      map_back string read_element (λ s. refl) n.remote_ids sorted,
      links_back n.links,
    )
