-- ===== src/Models/Encode.antt =====
-- json.Marshal of the models: the names of the fields and `omitempty` are those of the tags. The
-- field raw_json has the tag "-" and is left out. A nil slice in a map would be printed as null,
-- which is read as the empty one.
use relentless_bookworm.Base.{ℤ, pos, Option, none, some, List, [], ◌∷◌, Bytes, codes}
use relentless_bookworm.Json.{
  Json, whole, string, number, array, object, Items, no_item, item, Fields, no_field, field, Slots,
  present,
}
use relentless_bookworm.Json.Valid.{Codec}
use relentless_bookworm.Models.{
  CrawlJob, CrawlStatus, Edge, CrawlFailure, BookNode, WorkNode, AuthorNode, AuthorLink, Node, book,
  work, author, NodeType, edition_type, work_type, author_type, CrawlResult,
}

abbrev pub omit_text : Bytes → Option Json
omit_text [] = none
omit_text (c ∷ s) = some (string (c ∷ s))

module _ {ℓ} {A : Type ℓ} (one : A → Json) where
  unfoldable pub items_of : List A → Items
  items_of [] = no_item
  items_of (x ∷ xs) = item (one x) (items_of xs)

  abbrev pub omit_list : List A → Option Json
  omit_list [] = none
  omit_list (x ∷ xs) = some (array (items_of (x ∷ xs)))

  unfoldable pub entries_of : List (Bytes × A) → Fields
  entries_of [] = no_field
  entries_of ((k, x) ∷ xs) = field k (one x) (entries_of xs)

  abbrev pub omit_map : List (Bytes × A) → Option Json
  omit_map [] = none
  omit_map (e ∷ xs) = some (object (entries_of (e ∷ xs)))

abbrev pub int_value : ℤ → Json
int_value z = number (whole z)

abbrev pub texts_value : List Bytes → Json
texts_value ss = array (items_of string ss)

abbrev pub node_type_text : NodeType → Bytes
node_type_text edition_type = codes "edition"
node_type_text work_type = codes "work"
node_type_text author_type = codes "author"

abbrev pub edge_slots : Edge → Slots
edge_slots e =
    (codes "session_id", some (string e.session_id))
    ∷ (codes "from", some (string e.from))
    ∷ (codes "to", some (string e.to))
    ∷ (codes "relation", some (string e.relation))
    ∷ []

abbrev pub book_slots : BookNode → Slots
book_slots n =
    (codes "key", some (string n.key))
    ∷ (codes "title", omit_text n.title)
    ∷ (codes "full_title", omit_text n.full_title)
    ∷ (codes "authors", omit_list string n.authors)
    ∷ (codes "works", omit_list string n.works)
    ∷ (codes "subjects", omit_list string n.subjects)
    ∷ (codes "publishers", omit_list string n.publishers)
    ∷ (codes "publish_date", omit_text n.publish_date)
    ∷ (codes "languages", omit_list string n.languages)
    ∷ (codes "identifiers", omit_map texts_value n.identifiers)
    ∷ (codes "covers", omit_list int_value n.covers)
    ∷ []

abbrev pub work_slots : WorkNode → Slots
work_slots n =
    (codes "key", some (string n.key))
    ∷ (codes "title", omit_text n.title)
    ∷ (codes "authors", omit_list string n.authors)
    ∷ (codes "subjects", omit_list string n.subjects)
    ∷ (codes "subject_people", omit_list string n.subject_people)
    ∷ (codes "subject_times", omit_list string n.subject_times)
    ∷ (codes "description", omit_text n.description)
    ∷ (codes "covers", omit_list int_value n.covers)
    ∷ []

abbrev link_slots : AuthorLink → Slots
link_slots l = (codes "title", some (string l.title)) ∷ (codes "url", some (string l.url)) ∷ []

unfoldable pub encode_link : AuthorLink → Json
unfolding present
encode_link l = object (present (link_slots l))

abbrev pub author_slots : AuthorNode → Slots
author_slots n =
    (codes "key", some (string n.key))
    ∷ (codes "name", omit_text n.name)
    ∷ (codes "personal_name", omit_text n.personal_name)
    ∷ (codes "bio", omit_text n.bio)
    ∷ (codes "alternate_names", omit_list string n.alternate_names)
    ∷ (codes "photos", omit_list int_value n.photos)
    ∷ (codes "remote_ids", omit_map string n.remote_ids)
    ∷ (codes "links", omit_list encode_link n.links)
    ∷ []

unfoldable pub encode_node : Node → Json
unfolding present
encode_node (book n) = object (present (book_slots n))
encode_node (work n) = object (present (work_slots n))
encode_node (author n) = object (present (author_slots n))

abbrev pub result_slots : CrawlResult → Slots
result_slots r =
    (codes "session_id", some (string r.session_id))
    ∷ (codes "url", some (string r.url))
    ∷ (codes "node_type", some (string (node_type_text r.node_type)))
    ∷ (codes "node", some (encode_node r.node))
    ∷ []

unfoldable pub encode_edge : Edge → Json
unfolding present
encode_edge e = object (present (edge_slots e))

unfoldable pub encode_result : CrawlResult → Json
unfolding present encode_node
encode_result r = object (present (result_slots r))

module _ (c : Codec) where
  abbrev pub job_slots : CrawlJob → Slots
  job_slots j =
      (codes "session_id", some (string j.session_id))
      ∷ (codes "seed_url", some (string j.seed_url))
      ∷ (codes "url", some (string j.url))
      ∷ (codes "depth", some (int_value (pos j.depth)))
      ∷ (codes "created_at", some (string (c.time_text j.created_at)))
      ∷ []

  abbrev pub status_slots : CrawlStatus → Slots
  status_slots s =
      (codes "session_id", some (string s.session_id))
      ∷ (codes "seed_url", some (string s.seed_url))
      ∷ (codes "status", some (string s.status))
      ∷ (codes "created_at", some (string (c.time_text s.created_at)))
      ∷ []

  unfoldable pub encode_job : CrawlJob → Json
  unfolding present
  encode_job j = object (present (job_slots j))

  unfoldable pub encode_status : CrawlStatus → Json
  unfolding present
  encode_status s = object (present (status_slots s))

  -- The dead letter topic, which nothing of the program reads; `text` is err.Error().
  unfoldable pub encode_failure : Bytes → CrawlFailure → Json
  unfolding present
  encode_failure text f = object (
      present (
        (codes "session_id", some (string f.session_id))
        ∷ (codes "seed_url", some (string f.seed_url))
        ∷ (codes "url", some (string f.url))
        ∷ (codes "depth", some (int_value (pos f.depth)))
        ∷ (codes "error", some (string text))
        ∷ (codes "failed_at", some (string (c.time_text f.failed_at)))
        ∷ []))
