-- ===== src/Worker.antt =====
-- cmd/worker/main.go and cmd/worker/worker_metrics.go, in their children: State (what a worker has and
-- what it sees of the outside), Publish (one message to a topic), Expand (the edges and jobs of a
-- node), Frame (what these leave alone), Fetch (one job with its retries), Dispatch (a message from
-- the frontier to its commit), Pipeline (the goroutines and their channels), Crawl (all jobs of the
-- frontier topic), Setup (from the
-- environment to a worker), Histogram (latencies), Metrics (the page for Prometheus).
pub mod Histogram
pub mod State
pub mod Publish
pub mod Expand
pub mod Frame
pub mod Fetch
pub mod Dispatch
pub mod Pipeline
pub mod Crawl
pub mod Metrics
pub mod Setup
