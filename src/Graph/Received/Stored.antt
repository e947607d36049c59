-- ===== src/Graph/Received/Stored.antt =====
-- From the worker's results and edges to the statements of the graph writer.
use relentless_bookworm.Base.{
  ℕ, ◌≡◌, refl, ap, ◌∙◌, Bool, ◌||◌, Option, some, [], Bytes, if◌then◌else◌,
}
use relentless_bookworm.Text.{bytes_eq}
use relentless_bookworm.Result.{ok}
use relentless_bookworm.Json.{Json, members_of, values, ◌>>=◌}
use relentless_bookworm.Json.Valid.{Codec, IsValid}
use relentless_bookworm.Json.Members.{wanted}
use relentless_bookworm.Json.Any.{any_value, any_value-IsValid}
use relentless_bookworm.Models.{
  CrawlJob, Edge, Node, book, work, author, node_id, node_type, new_crawl_result,
}
use relentless_bookworm.Models.Encode.{
  node_type_text, result_slots, encode_result, encode_node, encode_edge,
}
use relentless_bookworm.Models.RoundTrip.{from_slots, decode-encode_edge}
use relentless_bookworm.Models.Decode.{decode_edge, decode_book, decode_work, decode_author}
use relentless_bookworm.Models.Nodes.{
  IsPlain, decode_book_back, decode_work_back, decode_author_back,
}
use relentless_bookworm.Graph.Query.{
  Statement, build_edge_query, build_book_query, build_work_query, build_author_query,
}
use relentless_bookworm.Graph.Consume.{
  Outside, Received, edition_result, work_result, author_result, write_received, Writer, run_write,
  write_result, write_edge,
}
use relentless_bookworm.Graph.Received.{decode_node, received, result_from, decode_result, outside}

-- writeBook, writeWork and writeAuthor: the statement of a node.
unfoldable pub node_statement : Bytes → Node → Statement
node_statement session_id (book n) = build_book_query session_id n
node_statement session_id (work n) = build_work_query session_id n
node_statement session_id (author n) = build_author_query session_id n

write_result_read :
    (out : Outside) (payload session_id : Bytes) (r : Received) (w : Writer)
    → out.result payload ≡ some (session_id, r)
    → write_result out payload w ≡ write_received out session_id r w
unfolding write_result
write_result_read out payload session_id r w e = rw (e, write_result)

write_edge_read :
    (out : Outside) (payload : Bytes) (e : Edge) (w : Writer)
    → out.edge payload ≡ some e
    → write_edge out payload w ≡ (
        if bytes_eq e.from [] || bytes_eq e.to []
        then (ok tt, w)
        else run_write out (build_edge_query out.unicode e) w)
unfolding write_edge
write_edge_read out payload e w h = rw (h, write_edge)

module _ (c : Codec) (unicode : Bytes → Bytes) (runs commits : ℕ → Bool) (job : CrawlJob) where
  abbrev payload : Node → Bytes
  payload n = c.print (encode_result (new_crawl_result job n))

  node-IsValid :
      (n : Node) → IsValid (encode_result (new_crawl_result job n)) → IsValid (encode_node n)
  unfolding encode_result new_crawl_result
  node-IsValid n h = h.2.2.2.1

  decode_node_back {ℓ} :
      {A : Type ℓ} (read : Json → Option A) (n : Node) (a : A)
      → IsValid (encode_node n)
      → read (any_value c.float (encode_node n)) ≡ some a
      → decode_node c read (encode_node n) ≡ some a
  unfolding decode_node
  decode_node_back read n a h e = rw (
    c.parse_back (any_value c.float (encode_node n)) (any_value-IsValid c.float (encode_node n) h),
    e,
  )

  -- What is left of a node: all but its raw JSON.
  abbrev read_node : Node → Received
  read_node (book n) = edition_result (some (record n { raw_json = [] }))
  read_node (work n) = work_result (some (record n { raw_json = [] }))
  read_node (author n) = author_result (some (record n { raw_json = [] }))

  received_back :
      (n : Node)
      → IsValid (encode_node n)
      → IsPlain n
      → received c (node_type_text (node_type n)) (encode_node n) ≡ read_node n
  unfolding received node_type
  received_back (book n) h p =
      ap edition_result (decode_node_back decode_book (book n) _ h (decode_book_back c n p))
  received_back (work n) h p =
      ap work_result (decode_node_back decode_work (work n) _ h (decode_work_back c n p))
  received_back (author n) h p =
      ap author_result (decode_node_back decode_author (author n) _ h (decode_author_back c n p))

  members_back :
      (n : Node)
      → (members_of (encode_result (new_crawl_result job n)) >>= λ fs. result_from c (values fs))
        ≡ some (job.session_id, received c (node_type_text (node_type n)) (encode_node n))
  unfolding result_from encode_result new_crawl_result wanted
  members_back n = from_slots (result_from c) (result_slots (new_crawl_result job n))

  decode_result_back :
      (n : Node)
      → IsValid (encode_result (new_crawl_result job n))
      → IsPlain n
      → decode_result c (payload n) ≡ some (job.session_id, read_node n)
  unfolding decode_result
  decode_result_back n h p =
      ap (λ (o : Option Json). o >>= λ v. members_of v >>= λ fs. result_from c (values fs))
        (c.parse_back (encode_result (new_crawl_result job n)) h)
      ∙ members_back n
      ∙ ap (λ r. some (job.session_id, r)) (received_back n (node-IsValid n h) p)

  write_received_back :
      (n : Node) (w : Writer)
      → write_received (outside c unicode runs commits) job.session_id (read_node n) w ≡ (
          if bytes_eq (node_id n) []
          then (ok tt, w)
          else run_write (outside c unicode runs commits) (node_statement job.session_id n) w)
  unfolding write_received node_statement node_id build_book_query build_work_query
      build_author_query
  write_received_back (book n) w = refl
  write_received_back (work n) w = refl
  write_received_back (author n) w = refl

  -- A result that the worker publishes becomes the statement for its node, with the session of the
  -- job; a node with no key is passed over.
  pub result_stored :
      (n : Node) (w : Writer)
      → IsValid (encode_result (new_crawl_result job n))
      → IsPlain n
      → write_result (outside c unicode runs commits) (payload n) w ≡ (
          if bytes_eq (node_id n) []
          then (ok tt, w)
          else run_write (outside c unicode runs commits) (node_statement job.session_id n) w)
  result_stored n w h p =
      write_result_read (outside c unicode runs commits) (payload n) job.session_id (read_node n) w
        (decode_result_back n h p)
      ∙ write_received_back n w

-- An edge that the worker publishes becomes its statement, when it has both ends.
pub edge_stored :
    (c : Codec) (unicode : Bytes → Bytes) (runs commits : ℕ → Bool) (e : Edge) (w : Writer)
    → IsValid (encode_edge e)
    → write_edge (outside c unicode runs commits) (c.print (encode_edge e)) w ≡ (
        if bytes_eq e.from [] || bytes_eq e.to []
        then (ok tt, w)
        else run_write (outside c unicode runs commits) (build_edge_query unicode e) w)
edge_stored c unicode runs commits e w h =
    write_edge_read (outside c unicode runs commits) (c.print (encode_edge e)) e w (
      ap (λ (o : Option Json). o >>= decode_edge) (c.parse_back (encode_edge e) h)
      ∙ decode-encode_edge e)
