-- ===== src/Graph/Received.antt =====
-- What json.Unmarshal gives to writeResult and writeEdge: the payloads are the texts of a
-- models.CrawlResult, whose node is read into `any`, and of a models.Edge.
pub mod Stored
pub mod Topic
use relentless_bookworm.Base.{ℕ, Bool, Option, none, some, List, [], Bytes, codes, if◌then◌else◌}
use relentless_bookworm.Text.{bytes_eq}
use relentless_bookworm.Json.{Json, null, members_of, values, assign, read_text, ◌>>=◌}
use relentless_bookworm.Json.Valid.{Codec}
use relentless_bookworm.Json.Any.{any_value}
use relentless_bookworm.Models.{Edge}
use relentless_bookworm.Models.Decode.{
  unmarshal, text, decode_book, decode_work, decode_author, decode_edge,
}
use relentless_bookworm.Graph.Consume.{
  Received, edition_result, work_result, author_result, other_result, Outside,
}

-- A field of type `any`
abbrev read_any : Json → Json → Option Json
read_any old v = some v

module _ (c : Codec) where
  -- json.Marshal of a value that was read into `any`, and json.Unmarshal into a struct
  unfoldable pub decode_node {ℓ} : {A : Type ℓ} → (Json → Option A) → Json → Option A
  unfolding any_value
  decode_node read v = unmarshal c read (c.print (any_value c.float v))

  -- The switch over result.NodeType
  unfoldable pub received : Bytes → Json → Received
  unfolding decode_node bytes_eq
  received node_type v =
      if bytes_eq node_type (codes "edition")
      then edition_result (decode_node decode_book v)
      else if bytes_eq node_type (codes "work")
      then work_result (decode_node decode_work v)
      else if bytes_eq node_type (codes "author")
      then author_result (decode_node decode_author v)
      else other_result

  unfoldable pub result_from : (Bytes → List Json) → Option (Bytes × Received)
  unfolding text assign received
  result_from g = do
    session_id ← text g (codes "session_id")
    url ← text g (codes "url")
    node_type ← text g (codes "node_type")
    node ← assign read_any null (g (codes "node"))
    some (session_id, received node_type node)

  unfoldable pub decode_result : Bytes → Option (Bytes × Received)
  unfolding result_from values
  decode_result payload = do v ← c.parse payload; fs ← members_of v; result_from (values fs)

  -- json, and a database and a reader that answer as they may.
  abbrev pub outside : (Bytes → Bytes) → (ℕ → Bool) → (ℕ → Bool) → Outside
  outside unicode runs commits = record {
    result = decode_result;
    edge = unmarshal c decode_edge;
    unicode = unicode;
    runs = runs;
    commits = commits;
  }
