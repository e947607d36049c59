-- ===== src/Graph/Received/Topic.antt =====
-- The topics of results and edges as a whole, from the worker's json to neo4j.
use relentless_bookworm.Base.{
  Bytes, ℕ, ◌+◌, ◌≡◌, ◌||◌, refl, ap, sym, ◌∙◌, Bool, true, false, List, [], ◌∷◌, ◌++◌,
  if◌then◌else◌, append_assoc, append-nil, arith,
}
use relentless_bookworm.Text.{bytes_eq}
use relentless_bookworm.Result.{Result, ok, err}
use relentless_bookworm.Commit.{Message}
use relentless_bookworm.Json.Valid.{Codec, IsValid}
use relentless_bookworm.Models.{Edge, CrawlJob, Node, node_id, new_crawl_result}
use relentless_bookworm.Models.Encode.{encode_edge, encode_result}
use relentless_bookworm.Models.Nodes.{IsPlain}
use relentless_bookworm.Graph.Query.{Statement, build_edge_query}
use relentless_bookworm.Graph.Consume.{
  Outside, Writer, run_write, write_result, write_edge, after_write, consume_one, consume,
  consume_results, consume_edges,
}
use relentless_bookworm.Graph.Received.{outside}
use relentless_bookworm.Graph.Received.Stored.{node_statement, result_stored, edge_stored}

-- The messages that publishResult writes for jobs with their nodes, wherever they stand in the topic.
abbrev pub Carries : Codec → List Message → List (CrawlJob × Node) → Type 0
Carries c [] [] = Unit
Carries c [] (r ∷ rs) = ⊥
Carries c (m ∷ ms) [] = ⊥
Carries c (m ∷ ms) ((job, n) ∷ rs) =
    (m.value ≡ c.print (encode_result (new_crawl_result job n)))
    × IsValid (encode_result (new_crawl_result job n))
    × IsPlain n
    × Carries c ms rs

-- The messages that publishEdge writes for edges.
abbrev pub CarriesEdges : Codec → List Message → List Edge → Type 0
CarriesEdges c [] [] = Unit
CarriesEdges c [] (e ∷ es) = ⊥
CarriesEdges c (m ∷ ms) [] = ⊥
CarriesEdges c (m ∷ ms) (e ∷ es) =
    (m.value ≡ c.print (encode_edge e)) × IsValid (encode_edge e) × CarriesEdges c ms es

-- The statement of an edge that has both ends.
abbrev pub edge_statements : (Bytes → Bytes) → List Edge → List Statement
edge_statements unicode [] = []
edge_statements unicode (e ∷ es) =
    (if bytes_eq e.from [] || bytes_eq e.to [] then [] else build_edge_query unicode e ∷ [])
    ++ edge_statements unicode es

-- The statement of a node that has a key.
abbrev pub statements_of : List (CrawlJob × Node) → List Statement
statements_of [] = []
statements_of ((job, n) ∷ rs) =
    (if bytes_eq (node_id n) [] then [] else node_statement job.session_id n ∷ [])
    ++ statements_of rs

module _ (c : Codec) (unicode : Bytes → Bytes) (runs commits : ℕ → Bool)
    (answers : (n : ℕ) → runs n ≡ true) where
  abbrev out : Outside
  out = outside c unicode runs commits

  after_write-statements :
      (m : Message) (r : Result (Unit {0}) × Writer)
      → (after_write out m r).statements ≡ r.1.statements
  after_write-statements m (err e, w) = refl
  after_write-statements m (ok u, w) = ground arith

  written-statements :
      (b : Bool) (s : Statement) (w : Writer)
      → (if b then (ok tt, w) else run_write out s w).1.statements
        ≡ w.statements ++ (if b then [] else s ∷ [])
  unfolding run_write
  written-statements true s w = sym (append-nil w.statements)
  written-statements false s w = rw (answers w.runs)

  one-statements :
      (m : Message) (job : CrawlJob) (n : Node) (w : Writer)
      → m.value ≡ c.print (encode_result (new_crawl_result job n))
      → IsValid (encode_result (new_crawl_result job n))
      → IsPlain n
      → (consume_one out (write_result out) w m).statements
        ≡ w.statements
          ++ (if bytes_eq (node_id n) [] then [] else node_statement job.session_id n ∷ [])
  unfolding consume_one
  one-statements m job n w e h p =
      let u = record w { received = w.received + 1 } in
      after_write-statements m (write_result out m.value u)
      ∙ ap (λ v. (write_result out v u).1.statements) e
      ∙ ap (λ (r : Result (Unit {0}) × Writer). r.1.statements)
          (result_stored c unicode runs commits job n u h p)
      ∙ written-statements (bytes_eq (node_id n) []) (node_statement job.session_id n) u

  results_stored :
      (ms : List Message) (rs : List (CrawlJob × Node)) (w : Writer)
      → Carries c ms rs
      → (consume_results out w ms).statements ≡ w.statements ++ statements_of rs
  unfolding consume_results consume
  results_stored [] [] w h = sym (append-nil w.statements)
  results_stored [] (r ∷ rs) w h = absurd h
  results_stored (m ∷ ms) [] w h = absurd h
  results_stored (m ∷ ms) ((job, n) ∷ rs) w (e, v, p, h) =
      results_stored ms rs (consume_one out (write_result out) w m) h
      ∙ ap (λ ss. ss ++ statements_of rs) (one-statements m job n w e v p)
      ∙ append_assoc w.statements
          (if bytes_eq (node_id n) [] then [] else node_statement job.session_id n ∷ [])
          (statements_of rs)

  edge-statements :
      (m : Message) (e : Edge) (w : Writer)
      → m.value ≡ c.print (encode_edge e)
      → IsValid (encode_edge e)
      → (consume_one out (write_edge out) w m).statements
        ≡ w.statements
          ++ (if bytes_eq e.from [] || bytes_eq e.to []
              then []
              else build_edge_query unicode e ∷ [])
  unfolding consume_one
  edge-statements m e w h v =
      let u = record w { received = w.received + 1 } in
      after_write-statements m (write_edge out m.value u)
      ∙ ap (λ x. (write_edge out x u).1.statements) h
      ∙ ap (λ (r : Result (Unit {0}) × Writer). r.1.statements)
          (edge_stored c unicode runs commits e u v)
      ∙ written-statements (bytes_eq e.from [] || bytes_eq e.to []) (build_edge_query unicode e) u

  edges_stored :
      (ms : List Message) (es : List Edge) (w : Writer)
      → CarriesEdges c ms es
      → (consume_edges out w ms).statements ≡ w.statements ++ edge_statements unicode es
  unfolding consume_edges consume
  edges_stored [] [] w h = sym (append-nil w.statements)
  edges_stored [] (e ∷ es) w h = absurd h
  edges_stored (m ∷ ms) [] w h = absurd h
  edges_stored (m ∷ ms) (e ∷ es) w (x, v, h) =
      edges_stored ms es (consume_one out (write_edge out) w m) h
      ∙ ap (λ ss. ss ++ edge_statements unicode es) (edge-statements m e w x v)
      ∙ append_assoc w.statements
          (if bytes_eq e.from [] || bytes_eq e.to [] then [] else build_edge_query unicode e ∷ [])
          (edge_statements unicode es)

  -- While neo4j answers, what the workers publish is stored: the results of their topic become the
  -- statements of their nodes, one for each node that has a key, with the session of its job, and
  -- the edges of theirs become the statements of the edges that have both ends, each in the order
  -- of the topic and whether or not the commits succeed. The texts are UTF-8, the ints of a node are
  -- held by a float64, and its maps are in the order of their keys.
  pub topics_stored :
      (ms ns : List Message) (rs : List (CrawlJob × Node)) (es : List Edge) (w v : Writer)
      → Carries c ms rs
      → CarriesEdges c ns es
      → ((consume_results out w ms).statements ≡ w.statements ++ statements_of rs)
        × ((consume_edges out v ns).statements ≡ v.statements ++ edge_statements unicode es)
  topics_stored ms ns rs es w v h k = (results_stored ms rs w h, edges_stored ns es v k)
