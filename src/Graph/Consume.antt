-- ===== src/Graph/Consume.antt =====
-- writeResult, writeEdge, consumeResults and consumeEdges. Neo4j, json and the kafka reader are
-- parameters.
pub mod Committed
use relentless_bookworm.Base.{
  ℕ, ◌+◌, Bool, true, false, ◌||◌, Option, none, some, List, [], ◌∷◌, ◌++◌, if◌then◌else◌, Bytes,
  codes,
}
use relentless_bookworm.Text.{bytes_eq}
use relentless_bookworm.Result.{Error, Result, ok, err, bad_json, graph_failed}
use relentless_bookworm.Models.{Edge, BookNode, WorkNode, AuthorNode}
use relentless_bookworm.Commit.{Message}
use relentless_bookworm.Graph.Query.{
  Statement, build_edge_query, build_book_query, build_work_query, build_author_query,
}

-- A result as it is read back: its type is text, and its node is decoded in a second step, which
-- may fail (`none`).
pub data Received : Type 0 where
  edition_result : Option BookNode → Received
  work_result : Option WorkNode → Received
  author_result : Option AuthorNode → Received
  other_result : Received

-- The outside: json, the Unicode tables of strings.ToUpper, and whether the n-th transaction and the n-th commit succeed.
pub record Outside : Type 0 where
  pub result : Bytes → Option (Bytes × Received)
  pub edge : Bytes → Option Edge
  pub unicode : Bytes → Bytes
  pub runs : ℕ → Bool
  pub commits : ℕ → Bool

-- What the writer has done: the statements that were run, the messages that were committed, the
-- three counters of a topic, and the numbers of calls.
pub record Writer : Type 0 where
  pub statements : List Statement
  pub committed : List Message
  pub received : ℕ
  pub failed : ℕ
  pub written : ℕ
  pub runs : ℕ
  pub commits : ℕ

module _ (out : Outside) where
  unfoldable pub run_write : Statement → Writer → Result (Unit {0}) × Writer
  run_write s w =
      if out.runs w.runs
      then (ok tt, record w { statements = w.statements ++ s ∷ []; runs = w.runs + 1 })
      else (err graph_failed, record w { runs = w.runs + 1 })

  unfoldable pub write_received : Bytes → Received → Writer → Result (Unit {0}) × Writer
  unfolding run_write
  write_received session_id (edition_result none) w = (err bad_json, w)
  write_received session_id (edition_result (some n)) w =
      if bytes_eq n.key [] then (ok tt, w) else run_write (build_book_query session_id n) w
  write_received session_id (work_result none) w = (err bad_json, w)
  write_received session_id (work_result (some n)) w =
      if bytes_eq n.key [] then (ok tt, w) else run_write (build_work_query session_id n) w
  write_received session_id (author_result none) w = (err bad_json, w)
  write_received session_id (author_result (some n)) w =
      if bytes_eq n.key [] then (ok tt, w) else run_write (build_author_query session_id n) w
  write_received session_id other_result w = (ok tt, w)

  unfoldable pub write_result : Bytes → Writer → Result (Unit {0}) × Writer
  unfolding write_received
  write_result payload w = elim (out.result payload) [
    | none ↦ (err bad_json, w)
    | some (session_id, r) ↦ write_received session_id r w
  ]

  unfoldable pub write_edge : Bytes → Writer → Result (Unit {0}) × Writer
  unfolding run_write
  write_edge payload w = elim (out.edge payload) [
    | none ↦ (err bad_json, w)
    | some e ↦
        if bytes_eq e.from [] || bytes_eq e.to []
        then (ok tt, w)
        else run_write (build_edge_query out.unicode e) w
  ]

  -- Behind the write of a message.
  abbrev pub after_write : Message → Result (Unit {0}) × Writer → Writer
  after_write msg (err e, w) = record w { failed = w.failed + 1 }
  after_write msg (ok u, w) =
      if out.commits w.commits
      then record w {
        written = w.written + 1;
        commits = w.commits + 1;
        committed = w.committed ++ msg ∷ [];
      }
      else record w { written = w.written + 1; commits = w.commits + 1 }

  -- One round of a loop, on a message that was fetched; `write` is one of the two above.
  unfoldable pub consume_one :
      (Bytes → Writer → Result (Unit {0}) × Writer) → Writer → Message → Writer
  consume_one write w msg =
      after_write msg (write msg.value (record w { received = w.received + 1 }))

  unfoldable pub consume :
      (Bytes → Writer → Result (Unit {0}) × Writer) → Writer → List Message → Writer
  consume write w [] = w
  consume write w (m ∷ ms) = consume write (consume_one write w m) ms

  unfoldable pub consume_results : Writer → List Message → Writer
  unfolding write_result
  consume_results = consume write_result

  unfoldable pub consume_edges : Writer → List Message → Writer
  unfolding write_edge
  consume_edges = consume write_edge
