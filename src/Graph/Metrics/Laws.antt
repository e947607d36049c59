-- ===== src/Graph/Metrics/Laws.antt =====
-- What a client reads off the page of the graph writer.
use relentless_bookworm.Base.{◌≡◌, refl, ap, ◌∙◌, sym, true, some, [], append-nil, codes}
use relentless_bookworm.Text.{bytes_eq}
use relentless_bookworm.Text.Query.{has_byte}
use relentless_bookworm.Exposition.{sample_lines}
use relentless_bookworm.Exposition.Laws.{
  wrapped, read_samples, read_samples-sample_lines, plain_names, plain_names-All,
}
use relentless_bookworm.Graph.Consume.{Writer}
use relentless_bookworm.Graph.Metrics.{graph_samples, handle_graph_metrics}

graph_names : (results edges : Writer) → plain_names (graph_samples results edges) ≡ true
unfolding plain_names has_byte
graph_names results edges = refl

-- Whatever messages the two consumers have taken, and whatever came of them, a GET of the page is
-- answered with status 200, and its seven samples are read back in order with the counters modulo
-- 2^64, with nothing behind them.
pub graph_metrics_read :
    (results edges : Writer)
    → let page = handle_graph_metrics (codes "GET") results edges in
      (page.status_code ≡ 200)
      × (read_samples 7 page.body ≡ some (wrapped (graph_samples results edges), []))
unfolding handle_graph_metrics bytes_eq
graph_metrics_read results edges = (
  refl,
  ap (read_samples 7) (sym (append-nil (sample_lines (graph_samples results edges))))
      ∙ read_samples-sample_lines (graph_samples results edges) []
          (plain_names-All (graph_samples results edges) (graph_names results edges)),
)
