-- ===== src/Graph/Metrics.antt =====
-- handleMetrics of cmd/graph-writer/main.go, over the counters of the two consumers.
pub mod Laws
use relentless_bookworm.Base.{ℕ, List, [], ◌∷◌, Bytes, codes}
use relentless_bookworm.Exposition.{Page, only_get, sample_lines}
use relentless_bookworm.Graph.Consume.{Writer}

-- The consumer of results, and that of edges.
abbrev pub graph_samples : Writer → Writer → List (Bytes × ℕ)
graph_samples results edges =
    (codes "relentless_graph_writer_up", 1)
    ∷ (codes "relentless_graph_writer_results_received_total", results.received)
    ∷ (codes "relentless_graph_writer_results_failed_total", results.failed)
    ∷ (codes "relentless_graph_writer_edges_received_total", edges.received)
    ∷ (codes "relentless_graph_writer_edges_failed_total", edges.failed)
    ∷ (codes "relentless_graph_writer_results_written_total", results.written)
    ∷ (codes "relentless_graph_writer_edges_written_total", edges.written)
    ∷ []

unfoldable pub handle_graph_metrics : Bytes → Writer → Writer → Page
unfolding only_get sample_lines
handle_graph_metrics method results edges =
    only_get method (sample_lines (graph_samples results edges))
