-- ===== src/Wiring/Pages.antt =====
-- From a page of Open Library to neo4j: the parser, the worker's publishResult with json, and the
-- graph writer.
use relentless_bookworm.Base.{ℕ, ◌≡◌, refl, ◌∙◌, Bool, true, false, some, [], ◌∷◌, ◌++◌, Bytes}
use relentless_bookworm.Text.{bytes_eq}
use relentless_bookworm.Result.{ok}
use relentless_bookworm.Json.{Slots}
use relentless_bookworm.Json.Valid.{Codec, IsValid}
use relentless_bookworm.Models.{
  CrawlJob, CrawlResult, Node, book, work, author, node_id, new_crawl_result,
}
use relentless_bookworm.Models.Encode.{encode_result}
use relentless_bookworm.Models.Nodes.{IsPlain}
use relentless_bookworm.Ol.Parser.{parse_node}
use relentless_bookworm.Ol.Parser.Payload.{decoder}
use relentless_bookworm.Ol.Parser.Pages.{page, AreFurther, IsDescribed, with_raw}
use relentless_bookworm.Ol.Parser.Described.{page_described}
use relentless_bookworm.Worker.State.{Env, Config, World}
use relentless_bookworm.Worker.Publish.{publish_result}
use relentless_bookworm.Graph.Query.{build_book_query, build_work_query, build_author_query}
use relentless_bookworm.Graph.Consume.{Writer, run_write, write_result}
use relentless_bookworm.Graph.Received.{outside}
use relentless_bookworm.Graph.Received.Stored.{node_statement, result_stored}

result_written :
    (env : Env) (cfg : Config) (job : CrawlJob) (n : Node) (w : World)
    → cfg.results_writer ≡ true
    → env.writes w.tick ≡ true
    → (publish_result env cfg job (some n) w).1.results ≡ w.results ++ new_crawl_result job n ∷ []
unfolding publish_result
result_written env cfg job n w h e = rw (h, e)

with_raw-node_statement :
    (s session_id : Bytes) (n : Node)
    → node_statement session_id (with_raw s n) ≡ node_statement session_id n
unfolding node_statement build_book_query build_work_query build_author_query
with_raw-node_statement s session_id (book n) = refl
with_raw-node_statement s session_id (work n) = refl
with_raw-node_statement s session_id (author n) = refl

key_of_described :
    (s : Bytes) (n : Node) → IsDescribed n → bytes_eq (node_id (with_raw s n)) [] ≡ false
unfolding node_id
key_of_described s (book n) d = d.0
key_of_described s (work n) d = d.0
key_of_described s (author n) d = d.0

with_raw-IsPlain : (s : Bytes) (n : Node) → IsPlain n → IsPlain (with_raw s n)
with_raw-IsPlain s (book n) p = p
with_raw-IsPlain s (work n) p = p
with_raw-IsPlain s (author n) p = p

module _ (c : Codec) (env : Env) (cfg : Config) (job : CrawlJob) (long : Bool) (n : Node)
    (more : Slots) where
  -- A page that describes a node reaches the graph: the worker, whose parser stands on the same
  -- json as the graph writer, parses the page to a node and publishes one result for it, when
  -- publishing is on and Kafka takes the message; and of this result's text the graph writer runs
  -- just the statement of the node that the page describes, with the session of the job. The texts
  -- are UTF-8, keys are not empty, the further members of the page have other names, the maps are
  -- in the order of their keys, and the ints are held by a float64.
  pub page_reaches_graph :
      (unicode : Bytes → Bytes) (runs commits : ℕ → Bool) (w : World) (g : Writer)
      → env.decode ≡ decoder c
      → cfg.results_writer ≡ true
      → env.writes w.tick ≡ true
      → IsValid (page long n more)
      → AreFurther long n more
      → IsDescribed n
      → IsPlain n
      → IsValid (encode_result (new_crawl_result job (with_raw (c.print (page long n more)) n)))
      → (m : Node) × (r : CrawlResult) × (parse_node env.decode (c.print (page long n more))
          ≡ ok (some m))
        × ((publish_result env cfg job (some m) w).1.results ≡ w.results ++ r ∷ [])
        × (write_result (outside c unicode runs commits) (c.print (encode_result r)) g
            ≡ run_write (outside c unicode runs commits) (node_statement job.session_id n) g)
  page_reaches_graph unicode runs commits w g same on takes v further d p vr =
      let body = c.print (page long n more) in
      let m = with_raw body n in
      (
        m,
        new_crawl_result job m,
        rw same (page_described c long n more v further d),
        result_written env cfg job m w on takes,
        result_stored c unicode runs commits job m g vr (with_raw-IsPlain body n p)
            ∙ rw (key_of_described body n d, with_raw-node_statement body job.session_id n),
      )
