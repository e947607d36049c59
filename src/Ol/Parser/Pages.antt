-- ===== src/Ol/Parser/Pages.antt =====
-- What a page of Open Library looks like that describes a node: an edition names its authors, works
-- and languages by objects with a key, a work its authors by objects in objects, and a longer text
-- may be an object with a value. A page may have further members.
use relentless_bookworm.Base.{
  Bool, true, false, ◌≡◌, Option, none, some, List, [], ◌∷◌, ◌++◌, Bytes, codes, All,
}
use relentless_bookworm.Text.{bytes_eq}
use relentless_bookworm.Json.{IsInt, Json, string, object, Slots, present}
use relentless_bookworm.Json.Members.{wanted}
use relentless_bookworm.Models.{BookNode, WorkNode, AuthorNode, Node, book, work, author}
use relentless_bookworm.Models.Encode.{
  omit_text, omit_list, omit_map, int_value, texts_value, encode_link,
}
use relentless_bookworm.Models.Maps.{IsSorted}

unfoldable pub key_ref : Bytes → Json
unfolding present
key_ref k = object (present ((codes "key", some (string k)) ∷ []))

unfoldable pub author_ref : Bytes → Json
unfolding key_ref
author_ref k = object (
    present (
      (codes "author", some (key_ref k))
      ∷ (codes "type", some (key_ref (codes "/type/author_role")))
      ∷ []))

-- A text as it is, or with its type.
unfoldable pub long_text : Bool → Bytes → Option Json
unfolding present
long_text b [] = none
long_text false (c ∷ s) = some (string (c ∷ s))
long_text true (c ∷ s) = some (
    object (
      present (
        (codes "type", some (string (codes "/type/text")))
        ∷ (codes "value", some (string (c ∷ s)))
        ∷ [])))

abbrev pub edition_page : BookNode → Slots
edition_page n =
    (codes "type", some (key_ref (codes "/type/edition")))
    ∷ (codes "key", some (string n.key))
    ∷ (codes "title", omit_text n.title)
    ∷ (codes "full_title", omit_text n.full_title)
    ∷ (codes "authors", omit_list key_ref n.authors)
    ∷ (codes "works", omit_list key_ref n.works)
    ∷ (codes "subjects", omit_list string n.subjects)
    ∷ (codes "publishers", omit_list string n.publishers)
    ∷ (codes "publish_date", omit_text n.publish_date)
    ∷ (codes "languages", omit_list key_ref n.languages)
    ∷ (codes "identifiers", omit_map texts_value n.identifiers)
    ∷ (codes "covers", omit_list int_value n.covers)
    ∷ []

abbrev pub work_page : Bool → WorkNode → Slots
work_page long n =
    (codes "type", some (key_ref (codes "/type/work")))
    ∷ (codes "key", some (string n.key))
    ∷ (codes "title", omit_text n.title)
    ∷ (codes "authors", omit_list author_ref n.authors)
    ∷ (codes "subjects", omit_list string n.subjects)
    ∷ (codes "subject_people", omit_list string n.subject_people)
    ∷ (codes "subject_times", omit_list string n.subject_times)
    ∷ (codes "description", long_text long n.description)
    ∷ (codes "covers", omit_list int_value n.covers)
    ∷ []

abbrev pub author_page : Bool → AuthorNode → Slots
author_page long n =
    (codes "type", some (key_ref (codes "/type/author")))
    ∷ (codes "key", some (string n.key))
    ∷ (codes "name", omit_text n.name)
    ∷ (codes "personal_name", omit_text n.personal_name)
    ∷ (codes "bio", long_text long n.bio)
    ∷ (codes "alternate_names", omit_list string n.alternate_names)
    ∷ (codes "photos", omit_list int_value n.photos)
    ∷ (codes "remote_ids", omit_map string n.remote_ids)
    ∷ (codes "links", omit_list encode_link n.links)
    ∷ []

abbrev pub page_slots : Bool → Node → Slots
page_slots long (book n) = edition_page n
page_slots long (work n) = work_page long n
page_slots long (author n) = author_page long n

unfoldable pub page : Bool → Node → Slots → Json
unfolding present
page long n more = object (present (page_slots long n ++ more))

-- None of the further members has a name that the page uses.
abbrev pub names : Slots → List Bytes
names [] = []
names ((n, o) ∷ slots) = n ∷ names slots

abbrev pub AreFurther : Bool → Node → Slots → Type 0
AreFurther long n more = All (λ k. wanted more k ≡ []) (names (page_slots long n))

abbrev pub IsKey : Bytes → Type 0
IsKey k = bytes_eq k [] ≡ false

-- Keys are not empty, maps are in the order of their keys, and numbers fit an int.
abbrev pub IsDescribed : Node → Type 0
IsDescribed (book n) =
    IsKey n.key
    × All IsKey n.authors
    × All IsKey n.works
    × All IsKey n.languages
    × IsSorted n.identifiers
    × All IsInt n.covers
IsDescribed (work n) = IsKey n.key × All IsKey n.authors × All IsInt n.covers
IsDescribed (author n) = IsKey n.key × IsSorted n.remote_ids × All IsInt n.photos

-- The node with the page as its raw JSON.
abbrev pub with_raw : Bytes → Node → Node
with_raw s (book n) = book (record n { raw_json = s })
with_raw s (work n) = work (record n { raw_json = s })
with_raw s (author n) = author (record n { raw_json = s })
