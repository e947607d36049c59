-- ===== src/Wiring/Laws.antt =====
-- That the processes meet on the topics.
use relentless_bookworm.Base.{
  ℤ, ◌≡◌, refl, sym, ◌⊎◌, inl, inr, ◌↔◌, Option, [], Bytes, codes, Bool-cases, if◌then◌else◌,
}
use relentless_bookworm.Text.{bytes_eq}
use relentless_bookworm.Text.Laws.{bytes_eq_iff}
use relentless_bookworm.Settings.{get_env}
use relentless_bookworm.Worker.Setup.{read_settings}
use relentless_bookworm.Wiring.{KafkaReader, KafkaWriter, api_wiring, worker_wiring, graph_wiring}

-- What is written by the one is read by the other.
abbrev pub Meets : KafkaWriter → KafkaReader → Type 0
Meets w r = (w.addr ≡ r.broker) × (w.topic ≡ r.topic)

-- When a setting that falls back to a text comes to that text.
fallback_iff :
    (value t : Bytes) → (t ≡ (if bytes_eq value [] then t else value)) ↔ (value ≡ []) ⊎ (value ≡ t)
fallback_iff value t = elim (Bool-cases (bytes_eq value [])) [
  | inl unset ↦ rw unset ((λ e. inl ((bytes_eq_iff value []).0 unset)), (λ e. refl))
  | inr given ↦ rw given (
    (λ e. inr (sym e)),
    λ s. elim s [ inl empty ↦ cc (given, (bytes_eq_iff value []).1 empty) | inr same ↦ sym same ],
  )
]

-- In one environment, whatever is set in it, the jobs that a worker enqueues come to the workers, and
-- their results and edges to the graph writer. The jobs of the API come to the workers just if
-- KAFKA_FRONTIER_TOPIC, which only the worker reads, is empty or names the topic of the API.
pub topics_meet :
    (parse : Bytes → Option ℤ) (getenv : Bytes → Bytes)
    → let api = api_wiring getenv in
      let worker = worker_wiring (read_settings parse getenv) in
      let graph = graph_wiring getenv in
      Meets worker.frontier_writer worker.reader
      × Meets worker.results_writer graph.results_reader
      × Meets worker.edges_writer graph.edges_reader
      × (Meets api.producer worker.reader
          ↔ (getenv (codes "KAFKA_FRONTIER_TOPIC") ≡ [])
            ⊎ (getenv (codes "KAFKA_FRONTIER_TOPIC") ≡ api.producer.topic))
unfolding read_settings api_wiring worker_wiring graph_wiring get_env
topics_meet parse getenv =
    let f =
      fallback_iff (getenv (codes "KAFKA_FRONTIER_TOPIC"))
        (get_env getenv (codes "KAFKA_TOPIC") (codes "relentless.crawl.frontier")) in
    ((refl, refl), (refl, refl), (refl, refl), ((λ m. f.0 m.1), λ s. (refl, f.1 s)))
