-- ===== src/Graph/Query.antt =====
-- The statements of the graph writer and their parameters.
pub mod Laws
use relentless_bookworm.Base.{
  ℕ, Bool, true, false, Option, none, some, List, [], ◌∷◌, ◌++◌, if◌then◌else◌, Bytes, codes,
}
use relentless_bookworm.Text.{bytes_eq, has_prefix, trim_prefix, replace_all, to_upper}
use relentless_bookworm.Models.{Edge, BookNode, WorkNode, AuthorNode}

-- The label of a key, the value it is merged by, and the property that holds the value.
pub record NodeLabel : Type 0 where
  pub label : Bytes
  pub value : Bytes
  pub property : Bytes

unfoldable pub node_label : Bytes → NodeLabel
unfolding has_prefix
node_label key =
    if has_prefix key (codes "/books/")
    then record { label = codes "Book"; value = key; property = codes "key" }
    else if has_prefix key (codes "/works/")
    then record { label = codes "Work"; value = key; property = codes "key" }
    else if has_prefix key (codes "/authors/")
    then record { label = codes "Author"; value = key; property = codes "key" }
    else if has_prefix key (codes "subject:")
    then record {
      label = codes "Subject";
      value = trim_prefix key (codes "subject:");
      property = codes "name";
    }
    else record { label = codes "External"; value = key; property = codes "key" }

unfoldable pub relation_type : (Bytes → Bytes) → Bytes → Bytes
unfolding bytes_eq
relation_type unicode input =
    if bytes_eq input (codes "book_author")
    then codes "BOOK_AUTHOR"
    else if bytes_eq input (codes "book_work")
    then codes "BOOK_WORK"
    else if bytes_eq input (codes "work_author")
    then codes "WORK_AUTHOR"
    else if bytes_eq input (codes "book_subject")
    then codes "BOOK_SUBJECT"
    else if bytes_eq input (codes "work_subject")
    then codes "WORK_SUBJECT"
    else if bytes_eq input (codes "search_work")
    then codes "SEARCH_WORK"
    else to_upper unicode (replace_all input b'-' (codes "_"))

-- A query with its parameters; `none` is a nil.
pub record Statement : Type 0 where
  pub query : Bytes
  pub params : List (Bytes × Option Bytes)

-- `var x any; if s != "" { x = s }`
unfoldable pub or_nil : Bytes → Option Bytes
or_nil s = if bytes_eq s [] then none else some s

unfoldable pub build_edge_query : (Bytes → Bytes) → Edge → Statement
unfolding node_label relation_type
build_edge_query unicode edge =
    let from = node_label edge.from in
    let to = node_label edge.to in
    record {
      query =
          codes "MERGE (from:"
          ++ from.label
          ++ codes " {"
          ++ from.property
          ++ codes ": $fromKey}) MERGE (to:"
          ++ to.label
          ++ codes " {"
          ++ to.property
          ++ codes ": $toKey}) MERGE (from)-[r:"
          ++ relation_type unicode edge.relation
          ++ codes " {session_id: $session_id}]->(to)";
      params =
          (codes "fromKey", some from.value)
          ∷ (codes "toKey", some to.value)
          ∷ (codes "session_id", some edge.session_id)
          ∷ [];
    }

unfoldable pub build_book_query : Bytes → BookNode → Statement
unfolding or_nil
build_book_query session_id node = record {
  query =
      codes "MERGE (b:Book {key: $key}) "
      ++ codes "SET b.session_id = $session_id, "
      ++ codes "b.title = coalesce($title, b.title), "
      ++ codes "b.full_title = coalesce($full_title, b.full_title), "
      ++ codes "b.publish_date = coalesce($publish_date, b.publish_date)";
  params =
      (codes "key", some node.key)
      ∷ (codes "title", or_nil node.title)
      ∷ (codes "full_title", or_nil node.full_title)
      ∷ (codes "publish_date", or_nil node.publish_date)
      ∷ (codes "session_id", some session_id)
      ∷ [];
}

unfoldable pub build_work_query : Bytes → WorkNode → Statement
unfolding or_nil
build_work_query session_id node = record {
  query =
      codes "MERGE (w:Work {key: $key}) "
      ++ codes "SET w.session_id = $session_id, w.title = coalesce($title, w.title)";
  params =
      (codes "key", some node.key)
      ∷ (codes "title", or_nil node.title)
      ∷ (codes "session_id", some session_id)
      ∷ [];
}

unfoldable pub build_author_query : Bytes → AuthorNode → Statement
unfolding or_nil
build_author_query session_id node = record {
  query =
      codes "MERGE (a:Author {key: $key}) "
      ++ codes "SET a.session_id = $session_id, a.name = coalesce($name, a.name)";
  params =
      (codes "key", some node.key)
      ∷ (codes "name", or_nil node.name)
      ∷ (codes "session_id", some session_id)
      ∷ [];
}
