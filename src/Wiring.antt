-- ===== src/Wiring.antt =====
-- How the processes find one another: the readers, writers and stores that the main functions of
-- cmd/api, cmd/worker and cmd/graph-writer make from the environment, with NewProducer of
-- internal/kafka/producer.go and NewRedisStatusStore of internal/store/redis_status_store.go.
pub mod Pages
pub mod Seeds
pub mod Laws
use relentless_bookworm.Base.{ℕ, ℤ, Bool, false, Bytes, codes, Option}
use relentless_bookworm.Settings.{get_env}
use relentless_bookworm.Worker.Setup.{Settings, read_settings, seconds}

-- kafka.Writer and kafka.ReaderConfig
pub record KafkaWriter : Type 0 where
  pub addr : Bytes
  pub topic : Bytes
  pub allow_auto_topic_creation : Bool

pub record KafkaReader : Type 0 where
  pub broker : Bytes
  pub topic : Bytes
  pub group_id : Bytes

-- NewProducer
abbrev pub new_producer : Bytes → Bytes → KafkaWriter
new_producer broker topic = record {
  addr = broker;
  topic = topic;
  allow_auto_topic_creation = false;
}

pub record StatusStore : Type 0 where
  pub addr : Bytes
  pub prefix : Bytes
  pub ttl : ℕ

abbrev pub new_redis_status_store : Bytes → Bytes → ℕ → StatusStore
new_redis_status_store addr prefix ttl = record { addr = addr; prefix = prefix; ttl = ttl }

-- cmd/api
pub record ApiWiring : Type 0 where
  pub producer : KafkaWriter
  pub status_store : StatusStore

unfoldable pub api_wiring : (Bytes → Bytes) → ApiWiring
unfolding get_env
api_wiring getenv =
    let broker = get_env getenv (codes "KAFKA_BROKER") (codes "localhost:9092") in
    let topic = get_env getenv (codes "KAFKA_TOPIC") (codes "relentless.crawl.frontier") in
    let redis_addr = get_env getenv (codes "REDIS_ADDR") (codes "localhost:6379") in
    record {
      producer = new_producer broker topic;
      status_store = new_redis_status_store redis_addr (codes "crawl:status:") (seconds 86400);
    }

-- cmd/worker
pub record WorkerWiring : Type 0 where
  pub reader : KafkaReader
  pub redis_addr : Bytes
  pub results_writer : KafkaWriter
  pub edges_writer : KafkaWriter
  pub frontier_writer : KafkaWriter
  pub dlq_writer : KafkaWriter

abbrev topic_writer : Bytes → Bytes → KafkaWriter
topic_writer broker topic = record {
  addr = broker;
  topic = topic;
  allow_auto_topic_creation = false;
}

unfoldable pub worker_wiring : Settings → WorkerWiring
worker_wiring s = record {
  reader = record { broker = s.broker; topic = s.frontier_topic; group_id = s.group_id };
  redis_addr = s.redis_addr;
  results_writer = topic_writer s.broker s.results_topic;
  edges_writer = topic_writer s.broker s.edges_topic;
  frontier_writer = topic_writer s.broker s.frontier_topic;
  dlq_writer = topic_writer s.broker s.dlq_topic;
}

-- cmd/graph-writer
pub record GraphWiring : Type 0 where
  pub neo4j_uri : Bytes
  pub neo4j_user : Bytes
  pub neo4j_password : Bytes
  pub results_reader : KafkaReader
  pub edges_reader : KafkaReader
  pub metrics_addr : Bytes

unfoldable pub graph_wiring : (Bytes → Bytes) → GraphWiring
unfolding get_env
graph_wiring getenv =
    let broker = get_env getenv (codes "KAFKA_BROKER") (codes "localhost:9092") in
    record {
      neo4j_uri = get_env getenv (codes "NEO4J_URI") (codes "neo4j://localhost:7687");
      neo4j_user = get_env getenv (codes "NEO4J_USER") (codes "neo4j");
      neo4j_password = get_env getenv (codes "NEO4J_PASSWORD") (codes "neo4j");
      results_reader = record {
        broker = broker;
        topic = get_env getenv (codes "KAFKA_RESULTS_TOPIC") (codes "relentless.crawl.results");
        group_id = get_env getenv (codes "KAFKA_RESULTS_GROUP") (codes "relentless-graph-results");
      };
      edges_reader = record {
        broker = broker;
        topic = get_env getenv (codes "KAFKA_EDGES_TOPIC") (codes "relentless.graph.edges");
        group_id = get_env getenv (codes "KAFKA_EDGES_GROUP") (codes "relentless-graph-edges");
      };
      metrics_addr = get_env getenv (codes "METRICS_ADDR") (codes ":9091");
    }
