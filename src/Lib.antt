-- ===== src/Lib.antt =====
-- Relentless Bookworm is a crawler of Open Library: an API puts a seed URL on the frontier topic
-- of Kafka; workers take jobs from the topic, skip what redis has seen, fetch a page, and publish
-- the node found, its edges and further jobs; a graph writer stores nodes and edges. This library
-- models the worker with its goroutines, what it stands on, the graph writer, the API and the
-- load generator, and how they are wired to one another.
--
--   * Commit (cmd/worker/commit_coordinator.go): the commitCoordinator as a record with its two
--     maps and gauges; enqueue, commitNext, drain, flush and run are functions on it. What the
--     kafka reader answers is a function of the number of the call and the message. Its children
--     are about what is committed: Keeps (induction on a run), View (the maps as functions),
--     InOrder, Sequence, Held, Complete, Drain, Missing, Early, Gauge, Arrival.
--   * Worker (cmd/worker/main.go): State holds the settings (Config), the outside (Env) and what
--     the worker leaves behind (World). Publish has publishResult, publishDLQ, publishEdge and
--     enqueueURLToFronter; Expand has fetchJSONWithMetrics (cmd/worker/worker_metrics.go),
--     publishEdgesAndFrontier and the expansions of a node; Fetch has handleJob with its crawls
--     and handleJobWithRetry; Dispatch has dispatchMessage and processJobAsync. Frame says what
--     each operation leaves alone. A job reaches Commit by the list of messages that were sent on
--     commitCh. Pipeline interleaves `run`, the jobs, the coordinator and the shutdown of main as
--     a step relation over the semaphore, the WaitGroup and commitCh; its children say where
--     messages are (Sound), how work is finished (Finish) and committed (Deliver), how a shutdown
--     may fail (Shutdown), and that the steps simulate dispatchMessage (Outcome). Setup has the
--     settings of main, newWorker's limits, robots.txt and the proxy (Setup.Proxy, Setup.Client).
--     Histogram and Metrics have cmd/worker/worker_metrics.go. Dispatch.Effects carries a property
--     of the single effects over to a whole job, and Crawl follows the jobs from the frontier topic
--     through the workers and back to it, to the end of a crawl.
--   * Ol (internal/ol/client.go, internal/ol/robots.go, internal/ol/parser.go): the URLs,
--     fetching, robots.txt, and the nodes of a page: Parser.Payload has the structs of the parser
--     with their tags, Parser.Pages and Parser.Found what pages and responses of Open Library look
--     like. Worker.Expand.Parsed joins the parser to the expansion.
--   * Graph (cmd/graph-writer/main.go): Query has nodeLabel, relationType and the statements;
--     Consume has writeResult, writeEdge, consumeResults and consumeEdges; Received has what they
--     unmarshal, with decodeNode; Metrics has handleMetrics.
--   * Loadgen (cmd/loadgen/main.go): loadConfig, submitSeed and run; its Laws join it to the API.
--   * Wiring: the topics, brokers and stores for which the main functions of the API, the worker
--     and the graph writer make readers and writers. Wiring.Seeds follows a seed from the API to
--     a worker, and Wiring.Pages a page from the parser through the worker and the results topic
--     to the graph writer.
--   * Settings (common/helper.go): GetEnv, ParseDuration and ParseInt. Exposition: what the pages
--     for Prometheus share.
--   * Models (internal/models): jobs, nodes, edges and results; Encode and Decode are their JSON by
--     the tags of the fields, RoundTrip, Nodes, Lists and Maps read back what was printed, Search
--     has the response to a search.
--   * Json: what is used of encoding/json: values, members by their names, what Unmarshal puts into
--     a field, a value read into `any` and printed again (Any), and the texts of values as a codec
--     whose laws are hypotheses (Valid).
--   * Api (cmd/api/main.go with internal/kafka/producer.go and
--     internal/store/redis_status_store.go): handleCrawl, handleCrawlStatus and handleMetrics
--     with their routes, over the frontier topic and the keys of redis.
--   * Base, Map, Text and Result: shared names, association lists, the byte strings of Go with
--     what is used of its packages strings, strconv and net/url (Text.Decimal, Text.Query), and
--     errors.
--   * Tests: the theorems at concrete inputs, and runs.
--
-- Kafka, redis, neo4j, net/http, the texts of JSON and contexts are parameters: calls are numbered
-- by a tick, and each answer is a function of that number, so an answer may change from call to
-- call. What one goroutine does between two points where it may wait is one function, or one step
-- of Worker.Pipeline; Dispatch.Once lets anything that only adds keys happen between the steps of a
-- run.
--
-- Fuel: the loop of `drain` is given one round for each buffered message and one more, which is
-- enough since a round that goes on takes one message out of the buffer. The retry loop is
-- structural in the attempts that are left. Decimal texts are made with the number and one more
-- as fuel. Offsets, depths and delays are natural numbers without an upper bound; negative
-- settings, which the code treats as no limit, are 0. Keys in redis do not expire.
--
-- An int that is read from JSON is refused where it does not fit 64 bits, and names of members are
-- compared as encoding/json folds them. The tables of Unicode, by which a relation that is not
-- ASCII is put in upper case, are a parameter. A job's depth is not negative. Go's maps stand as
-- lists in the order of their keys.
--
-- Counters that are printed are taken modulo 2^64, and the FNV hash is a 32-bit one.
--
-- Not modelled: the texts of log lines and errors, the HTTP servers below their handlers, the
-- timeouts of the HTTP transport, closing of connections, how a float is printed (a parameter),
-- cmd/kafka-check, which only connects, the interfaces of internal/graph, and the mocks, which
-- are generated.
pub mod Base
pub mod Map
pub mod Text
pub mod Result
pub mod Ol
pub mod Json
pub mod Models
pub mod Commit
pub mod Worker
pub mod Graph
pub mod Api
pub mod Exposition
pub mod Loadgen
pub mod Settings
pub mod Wiring
pub mod Tests
