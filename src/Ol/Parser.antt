-- ===== src/Ol/Parser.antt =====
-- internal/ol/parser.go: from a page of Open Library to a node. json.Unmarshal is a parameter: for
-- each of the structs that the code declares, a function from a body to its value, or `none`; the
-- child Payload makes these functions from the tags of the structs.
pub mod Payload
pub mod Pages
pub mod Parsed
pub mod Described
pub mod Found
use relentless_bookworm.Base.{
  ℤ, Option, none, some, List, [], ◌∷◌, if◌then◌else◌, Bytes, codes, map,
}
use relentless_bookworm.Text.{bytes_eq}
use relentless_bookworm.Result.{Result, ok, err, bad_json, ◌>>=◌}
use relentless_bookworm.Models.{
  Node, book, work, author, BookNode, WorkNode, AuthorNode, SearchResponse,
}

-- A decoded `any`: a string, an object, whose names differ from one another, or one of the others,
-- which are not looked into.
mutual
  pub data JsonValue : Type 0 where
    text : Bytes → JsonValue
    object : Members → JsonValue
    other : JsonValue

  pub data Members : Type 0 where
    no_member : Members
    member : Bytes → JsonValue → Members → Members

-- The local struct `edition`; a keyRef is its key.
pub record EditionPayload : Type 0 where
  pub key : Bytes
  pub title : Bytes
  pub full_title : Bytes
  pub authors : List Bytes
  pub works : List Bytes
  pub subjects : List Bytes
  pub publishers : List Bytes
  pub publish_date : Bytes
  pub languages : List Bytes
  pub identifiers : List (Bytes × List Bytes)
  pub covers : List ℤ

-- The local struct `work`; an authorRef is its author's key.
pub record WorkPayload : Type 0 where
  pub key : Bytes
  pub title : Bytes
  pub authors : List Bytes
  pub subjects : List Bytes
  pub subject_people : List Bytes
  pub subject_times : List Bytes
  pub description : JsonValue
  pub covers : List ℤ

-- The local struct `author`, whose links have a title and a URL.
pub record AuthorPayload : Type 0 where
  pub key : Bytes
  pub name : Bytes
  pub personal_name : Bytes
  pub bio : JsonValue
  pub alternate_names : List Bytes
  pub photos : List ℤ
  pub remote_ids : List (Bytes × Bytes)
  pub links : List (Bytes × Bytes)

-- json.Unmarshal into each struct; of the envelope, the key of its type.
pub record Decoder : Type 0 where
  pub edition : Bytes → Option EditionPayload
  pub work_payload : Bytes → Option WorkPayload
  pub author_payload : Bytes → Option AuthorPayload
  pub envelope : Bytes → Option Bytes
  pub search : Bytes → Option SearchResponse

abbrev pub or_bad_json {ℓ} : {A : Type ℓ} → Option A → Result A
or_bad_json none = err bad_json
or_bad_json (some a) = ok a

-- `for … { if key != "" { append } }`
unfoldable pub keep_keys : List Bytes → List Bytes
keep_keys [] = []
keep_keys (key ∷ keys) = let rest = keep_keys keys in if bytes_eq key [] then rest else key ∷ rest

abbrev text_or_empty : JsonValue → Bytes
text_or_empty (text s) = s
text_or_empty (object ms) = []
text_or_empty other = []

-- `v["value"].(string)`, and the empty string where there is none
unfoldable pub value_text : Members → Bytes
value_text no_member = []
value_text (member name v ms) =
    let rest = value_text ms in if bytes_eq name (codes "value") then text_or_empty v else rest

unfoldable pub text_value : JsonValue → Bytes
unfolding value_text
text_value (text s) = s
text_value (object ms) = value_text ms
text_value other = []

abbrev pub empty_book : BookNode
empty_book = record {
  key = [];
  title = [];
  full_title = [];
  authors = [];
  works = [];
  subjects = [];
  publishers = [];
  publish_date = [];
  languages = [];
  identifiers = [];
  covers = [];
  raw_json = [];
}

abbrev pub empty_work : WorkNode
empty_work = record {
  key = [];
  title = [];
  authors = [];
  subjects = [];
  subject_people = [];
  subject_times = [];
  description = [];
  covers = [];
  raw_json = [];
}

abbrev pub empty_author : AuthorNode
empty_author = record {
  key = [];
  name = [];
  personal_name = [];
  bio = [];
  alternate_names = [];
  photos = [];
  remote_ids = [];
  links = [];
  raw_json = [];
}

abbrev pub book_of : Bytes → EditionPayload → BookNode
book_of body p = record {
  key = p.key;
  title = p.title;
  full_title = p.full_title;
  authors = keep_keys p.authors;
  works = keep_keys p.works;
  subjects = p.subjects;
  publishers = p.publishers;
  publish_date = p.publish_date;
  languages = keep_keys p.languages;
  identifiers = p.identifiers;
  covers = p.covers;
  raw_json = body;
}

abbrev pub work_of : Bytes → WorkPayload → WorkNode
work_of body p = record {
  key = p.key;
  title = p.title;
  authors = keep_keys p.authors;
  subjects = p.subjects;
  subject_people = p.subject_people;
  subject_times = p.subject_times;
  description = text_value p.description;
  covers = p.covers;
  raw_json = body;
}

abbrev pub author_of : Bytes → AuthorPayload → AuthorNode
author_of body p = record {
  key = p.key;
  name = p.name;
  personal_name = p.personal_name;
  bio = text_value p.bio;
  alternate_names = p.alternate_names;
  photos = p.photos;
  remote_ids = p.remote_ids;
  links = map (λ l. record { title = l.0; url = l.1 }) p.links;
  raw_json = body;
}

abbrev pub edition_key : Bytes
edition_key = codes "/type/edition"

abbrev pub work_key : Bytes
work_key = codes "/type/work"

abbrev pub author_key : Bytes
author_key = codes "/type/author"

module _ (decode : Decoder) where
  unfoldable pub parse_book_node : Bytes → Result BookNode
  unfolding keep_keys
  parse_book_node body = do
    p ← or_bad_json (decode.edition body)
    ok (if bytes_eq p.key [] then empty_book else book_of body p)

  unfoldable pub parse_work_node : Bytes → Result WorkNode
  unfolding keep_keys text_value
  parse_work_node body = do
    p ← or_bad_json (decode.work_payload body)
    ok (if bytes_eq p.key [] then empty_work else work_of body p)

  unfoldable pub parse_author_node : Bytes → Result AuthorNode
  unfolding text_value
  parse_author_node body = do
    p ← or_bad_json (decode.author_payload body)
    ok (if bytes_eq p.key [] then empty_author else author_of body p)

  -- The switch of ParseNode.
  unfoldable pub parse_typed : Bytes → Bytes → Result (Option Node)
  unfolding parse_book_node parse_work_node parse_author_node
  parse_typed body key =
      if bytes_eq key edition_key
      then parse_book_node body >>= (λ n. ok (some (book n)))
      else if bytes_eq key work_key
      then parse_work_node body >>= (λ n. ok (some (work n)))
      else if bytes_eq key author_key
      then parse_author_node body >>= (λ n. ok (some (author n)))
      else ok none

  -- What the source returns beside an error is used by no caller.
  unfoldable pub parse_node : Bytes → Result (Option Node)
  unfolding parse_typed
  parse_node body = do key ← or_bad_json (decode.envelope body); parse_typed body key

  unfoldable pub parse_search_response : Bytes → Result SearchResponse
  parse_search_response body = or_bad_json (decode.search body)
