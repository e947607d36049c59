-- ===== src/Tests/Exchange.antt =====
-- What the services send to one another, with a codec for test data.
use relentless_bookworm.Base.{Bytes, ◌≡◌, refl, true, some, [], ◌∷◌, ◌++◌, codes, arith, pos}
use relentless_bookworm.Json.{whole, number}
use relentless_bookworm.Json.Valid.{IsValid, is_utf8}
use relentless_bookworm.Commit.{Message}
use relentless_bookworm.Models.{CrawlStatus, Edge, Node, node_type, author, new_crawl_result}
use relentless_bookworm.Models.Encode.{
  items_of, entries_of, encode_job, encode_status, encode_edge, encode_result,
}
use relentless_bookworm.Models.Decode.{unmarshal, decode_job, decode_status, decode_edge}
use relentless_bookworm.Models.RoundTrip.{unmarshal_back}
use relentless_bookworm.Graph.Consume.{Writer, consume_results, consume_edges}
use relentless_bookworm.Graph.Received.{outside}
use relentless_bookworm.Graph.Received.Topic.{
  Carries, statements_of, edge_statements, topics_stored,
}
use relentless_bookworm.Text.{bytes_eq}
use relentless_bookworm.Result.{ok}
use relentless_bookworm.Json.{Slots}
use relentless_bookworm.Json.Members.{wanted}
use relentless_bookworm.Ol.Parser.{parse_node}
use relentless_bookworm.Ol.Parser.Payload.{decoder}
use relentless_bookworm.Ol.Parser.Pages.{
  key_ref, long_text, page, AreFurther, IsDescribed, with_raw,
}
use relentless_bookworm.Ol.Parser.Described.{page_described}
use relentless_bookworm.Models.{CrawlResult}
use relentless_bookworm.Worker.State.{Env}
use relentless_bookworm.Worker.Publish.{publish_result}
use relentless_bookworm.Graph.Consume.{write_result, run_write}
use relentless_bookworm.Graph.Received.Stored.{node_statement}
use relentless_bookworm.Wiring.Pages.{page_reaches_graph}
use relentless_bookworm.Tests.Fixtures.{an_env, a_config, a_world}
use relentless_bookworm.Tests.Codec.{a_codec}
use relentless_bookworm.Tests.Fixtures.{a_job, an_author}

abbrev a_status : CrawlStatus
a_status = record {
  session_id = codes "s";
  seed_url = codes "u";
  status = codes "queued";
  created_at = 5;
}

abbrev an_edge : Edge
an_edge = record {
  session_id = codes "s";
  from = codes "/books/1";
  to = codes "/works/2";
  relation = codes "book_work";
}

job-IsValid : IsValid (encode_job a_codec a_job)
unfolding encode_job is_utf8
job-IsValid = (refl, refl, (refl, refl, (refl, refl, (refl, tt, (refl, refl, tt)))))

status-IsValid : IsValid (encode_status a_codec a_status)
unfolding encode_status is_utf8
status-IsValid = (refl, refl, (refl, refl, (refl, refl, (refl, refl, tt))))

edge-IsValid : IsValid (encode_edge an_edge)
unfolding encode_edge is_utf8
edge-IsValid = (refl, refl, (refl, refl, (refl, refl, (refl, refl, tt))))

unmarshal_back_example :
    (unmarshal a_codec (decode_job a_codec) (a_codec.print (encode_job a_codec a_job)) ≡ some a_job)
    × (unmarshal a_codec (decode_status a_codec) (a_codec.print (encode_status a_codec a_status))
        ≡ some a_status)
    × (unmarshal a_codec decode_edge (a_codec.print (encode_edge an_edge)) ≡ some an_edge)
unmarshal_back_example =
    unmarshal_back a_codec a_job a_status an_edge job-IsValid refl status-IsValid edge-IsValid

-- The author comes with a photo and an identifier.
abbrev the_author : Node
the_author =
    author (record an_author { photos = pos 12 ∷ []; remote_ids = (codes "viaf", codes "1") ∷ [] })

abbrev a_result : Message
a_result = record {
  partition = 0;
  offset = 0;
  value = a_codec.print (encode_result (new_crawl_result a_job the_author));
}

result-IsValid : IsValid (encode_result (new_crawl_result a_job the_author))
unfolding encode_result is_utf8 new_crawl_result node_type items_of entries_of
result-IsValid = (
  refl,
  refl,
  (
    refl,
    refl,
    (
      refl,
      refl,
      (refl, (refl, refl, (refl, refl, (refl, (tt, tt), (refl, (refl, refl, tt), tt)))), tt),
    ),
  ),
)

abbrev a_writer : Writer
a_writer = record {
  statements = [];
  committed = [];
  received = 0;
  failed = 0;
  written = 0;
  runs = 0;
  commits = 0;
}

carried : Carries a_codec (a_result ∷ []) ((a_job, the_author) ∷ [])
carried = (refl, result-IsValid, ((omega arith, tt), (tt, tt)), tt)

abbrev edge_message : Message
edge_message = record { partition = 0; offset = 0; value = a_codec.print (encode_edge an_edge) }

topics_stored_example :
    ((consume_results
        (outside a_codec (λ b. b) (λ n. true) (λ n. true))
        a_writer
        (a_result ∷ [])).statements
      ≡ a_writer.statements ++ statements_of ((a_job, the_author) ∷ []))
    × ((consume_edges
          (outside a_codec (λ b. b) (λ n. true) (λ n. true))
          a_writer
          (edge_message ∷ [])).statements
        ≡ a_writer.statements ++ edge_statements (λ b. b) (an_edge ∷ []))
topics_stored_example =
    topics_stored a_codec (λ b. b) (λ n. true) (λ n. true) (λ n. refl) (a_result ∷ [])
      (edge_message ∷ []) ((a_job, the_author) ∷ []) (an_edge ∷ []) a_writer a_writer carried
      (refl, edge-IsValid, tt)

-- The page of an author, with a long text and a member that the parser does not know.
abbrev described_author : Node
described_author =
    author (record an_author { bio = codes "x"; remote_ids = (codes "viaf", codes "1") ∷ [] })

abbrev further : Slots
further = (codes "revision", some (number (whole (pos 3)))) ∷ []

page-IsValid : IsValid (page true described_author further)
unfolding page is_utf8 long_text entries_of key_ref
page-IsValid = (
  refl,
  (refl, refl, tt),
  (
    refl,
    refl,
    (refl, refl, (refl, (refl, refl, (refl, refl, tt)), (refl, (refl, refl, tt), (refl, tt, tt)))),
  ),
)

further-AreFurther : AreFurther true described_author further
unfolding wanted
further-AreFurther = (refl, (refl, (refl, (refl, (refl, (refl, (refl, (refl, (refl, tt)))))))))

described : IsDescribed described_author
unfolding bytes_eq
described = (refl, (tt, tt), tt)

page_described_example :
    parse_node (decoder a_codec) (a_codec.print (page true described_author further))
    ≡ ok (some (with_raw (a_codec.print (page true described_author further)) described_author))
page_described_example =
    page_described a_codec true described_author further page-IsValid further-AreFurther described

abbrev page_text : Bytes
page_text = a_codec.print (page true described_author further)

-- A worker that parses with the codec.
abbrev codec_env : Env
codec_env = record an_env { decode = decoder a_codec }

parsed-IsValid :
    IsValid (encode_result (new_crawl_result a_job (with_raw page_text described_author)))
unfolding encode_result is_utf8 new_crawl_result node_type items_of entries_of
parsed-IsValid = (
  refl,
  refl,
  (
    refl,
    refl,
    (
      refl,
      refl,
      (refl, (refl, refl, (refl, refl, (refl, refl, (refl, (refl, refl, tt), tt)))), tt),
    ),
  ),
)

page_reaches_graph_example :
    (m : Node) × (r : CrawlResult) × (parse_node codec_env.decode page_text ≡ ok (some m))
    × ((publish_result codec_env a_config a_job (some m) a_world).1.results
        ≡ a_world.results ++ r ∷ [])
    × (write_result
          (outside a_codec (λ b. b) (λ n. true) (λ n. true))
          (a_codec.print (encode_result r))
          a_writer
        ≡ run_write
            (outside a_codec (λ b. b) (λ n. true) (λ n. true))
            (node_statement a_job.session_id described_author)
            a_writer)
page_reaches_graph_example =
    page_reaches_graph a_codec codec_env a_config a_job true described_author further (λ b. b)
      (λ n. true) (λ n. true) a_world a_writer refl refl refl page-IsValid further-AreFurther
      described (tt, (tt, tt)) parsed-IsValid
