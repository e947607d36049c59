-- ===== src/Tests/Topics.antt =====
-- Parsed pages, and the graph writer.
use relentless_bookworm.Base.{◌≡◌, refl, true, false, some, [], ◌∷◌, ◌++◌, All, codes, ltb}
use relentless_bookworm.Text.{
  trim_space, trim_front, trim_right, has_prefix, prefix_length, cut_front, bytes_eq, to_upper,
  replace_all,
}
use relentless_bookworm.Result.{ok}
use relentless_bookworm.Models.{author, Edge}
use relentless_bookworm.Ol.Parser.{parse_node, text_value, author_of}
use relentless_bookworm.Worker.Expand.Plan.{node_plan}
use relentless_bookworm.Worker.Expand.Parsed.{HasEnds, parse_node-HasEnds}
use relentless_bookworm.Graph.Query.{relation_type}
use relentless_bookworm.Graph.Consume.{
  Outside, Writer, other_result, consume_results, consume_edges,
}
use relentless_bookworm.Graph.Consume.Committed.{Consumed, consume_both-Consumed}
use relentless_bookworm.Api
use relentless_bookworm.Api.{
  Server, normalize_seed_url, new_status, seed_job, handle_crawl, handle_crawl_status,
}
use relentless_bookworm.Api.Laws.{crawl_then_status}
use relentless_bookworm.Tests.Fixtures.{at, an_env, an_author_payload}

page_parsed : parse_node an_env.decode [] ≡ ok (some (author (author_of [] an_author_payload)))
unfolding parse_node text_value bytes_eq
page_parsed = refl

parse_node-HasEnds_example :
    All HasEnds (node_plan (some (author (author_of [] an_author_payload))))
parse_node-HasEnds_example =
    parse_node-HasEnds an_env.decode [] (some (author (author_of [] an_author_payload))) page_parsed

book_tag : relation_type (λ s. s) (codes "book-tag") ≡ codes "BOOK_TAG"
unfolding relation_type to_upper replace_all
book_tag = refl

abbrev an_edge : Edge
an_edge = record {
  session_id = codes "s";
  from = codes "/works/1";
  to = codes "/authors/2";
  relation = codes "work_author";
}

-- Every message holds the edge; the first transaction fails.
abbrev an_outside : Outside
an_outside = record {
  result = λ b. some (codes "s", other_result);
  edge = λ b. some an_edge;
  unicode = λ s. s;
  runs = λ n. ltb 0 n;
  commits = λ n. true;
}

abbrev a_writer : Writer
a_writer = record {
  statements = [];
  committed = [];
  received = 0;
  failed = 0;
  written = 0;
  runs = 0;
  commits = 0;
}

consume_both-Consumed_example :
    Consumed a_writer (at 0 ∷ at 1 ∷ []) (consume_results an_outside a_writer (at 0 ∷ at 1 ∷ []))
    × Consumed a_writer (at 0 ∷ at 1 ∷ []) (consume_edges an_outside a_writer (at 0 ∷ at 1 ∷ []))
consume_both-Consumed_example = consume_both-Consumed an_outside a_writer (at 0 ∷ at 1 ∷ [])

abbrev a_server : Server
a_server = record { frontier = []; keys = []; tick = 0 }

-- The session is "7", and the only text of a status stands for one status.
abbrev an_api : Api.Outside
an_api = record {
  writes = λ n. true;
  answers = λ n. true;
  now = λ n. 5;
  session_id = λ n. codes "7";
  marshal = λ st. [];
  unmarshal = λ v. some (record {
    session_id = codes "7";
    seed_url = normalize_seed_url (trim_space (codes " sea"));
    status = codes "queued";
    created_at = 5;
  });
}

sea_given : bytes_eq (trim_space (codes " sea")) [] ≡ false
unfolding bytes_eq trim_space trim_front trim_right has_prefix prefix_length cut_front
sea_given = refl

seven_given : bytes_eq (codes "7") [] ≡ false
unfolding bytes_eq
seven_given = refl

crawl_then_status_example :
    let seed = normalize_seed_url (trim_space (codes " sea")) in
    let st = new_status an_api [] seed 5 in
    let posted = handle_crawl an_api [] (codes "POST") (codes " sea") a_server in
    let got =
      handle_crawl_status an_api [] (codes "GET") (codes "/crawl/" ++ st.session_id) posted.1 in
    (posted.0 ≡ record { code = 202; body = some st })
    × (got.0 ≡ record { code = 200; body = some st })
    × (got.1.frontier ≡ [] ++ seed_job an_api [] seed 5 ∷ [])
crawl_then_status_example =
    crawl_then_status an_api [] (codes " sea") a_server sea_given refl refl refl refl
      ((λ e. cc), tt) seven_given
