-- ===== src/Graph.antt =====
-- cmd/graph-writer/main.go, in its children: Query (the statements for neo4j), Consume (the loops
-- over the two topics), Received (what they unmarshal), Metrics (the page of the counters).
pub mod Query
pub mod Consume
pub mod Received
pub mod Metrics
