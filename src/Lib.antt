-- ===== src/Lib.antt =====
-- The crawler of a real-estate site: four workers on RabbitMQ queues that share one PostgreSQL
-- database, and what they share.
--
-- A discovery task walks a page of search results (internal/discovery) and sends each listing's URL
-- to the fetcher (internal/fetcher), which stores the page and sends its number to the parser
-- (internal/parser). The parser stores a seller, a listing and a snapshot, and sends the seller to the
-- enricher (internal/enrich), which sends the URLs on the seller's profile to the fetcher again. The
-- package internal/queue declares the queues, publishes, and settles each delivery by a retry policy;
-- internal/db/sqlc holds the queries.
--
-- Base: names of the libraries, Go's integers (Int), bytes, times, errors (Values) and time.Time.Sub
--   (Clock) over native numbers.
-- Runtime: Env is what a worker's calls meet, as a parameter: the clocks, the broker's, the database's,
--   the limiter's and the server's answers, each indexed by the number of calls made so far, so that
--   any sequence of answers is covered. World is the state: the tables, the sequences' numbers, the
--   messages and the requests. An action takes a World to a result and a World; Actions has the single
--   calls. A statement may be refused, or done with its reply lost.
-- Storage: internal/db/sqlc. Rows are models.go; Sellers, Listings and Fetches are the queries of the
--   files of these names, each a function on a table as a list of rows. Constraints other than the
--   unique keys are among the database's refusals.
-- Queue: internal/queue. Names and Topology are topology.go, Publisher is Publish and PublishDead, with
--   watchReturns and Close in Publisher/Returns,
--   Headers is xDeathCount, Consumer is NewConsumer and dispatch, Consumer/Run is Run and Close as a
--   step relation of the broker, the loop and the goroutines. Consumer/Retries follows one message
--   through its deliveries; RabbitMQ's dead-lettering is a parameter with its documented behaviour. The
--   message is followed through any list of deliveries, each of which may lose its Ack or Nack or crash
--   its consumer, so that the broker makes it again; a result says how many that reach the broker are
--   enough. In Run the connection may be lost: what is in the channel is dropped then, and a later Ack
--   fails.
-- Fetcher, Discovery, Enrich: the handlers of internal/fetcher/fetcher.go,
--   internal/discovery/discovery.go and internal/enrich/enrich.go, whole, with recentlyFetched,
--   mustMarshalHeaders, resolveAndClean, buildSearchPageURL, fetchListingURLs and fetchProfile.
-- Parser: State is extractPrerenderedState and Page is Parse of internal/parser/parser.go, with
--   hash.go; Worker is the handler of internal/parser/worker.go. The transaction of pgx.BeginFunc is a
--   parameter with its documented behaviour.
--
-- The libraries that the code calls are parameters where they decide something: encoding/json, net/url,
-- goquery, crypto/sha256, strconv, strings.Split and TrimSpace, and the comparisons
-- of float64. Loops are structural recursion.
--
-- Scheduler: parseCommaList, buildTemplatedURLs, main and tick of cmd/scheduler/main.go; Loop is main's
--   loop, as a step relation of the signal, the ticker and main.
-- Classification: the views that the API and the ranking read. Score and Views are the SQL of
--   migrations/0001_init.sql (seller_stats) and migrations/0007_seller_manual_label.sql, with scores in
--   hundredths; Queries is internal/db/sqlc/classifier.sql.go, each query on the view's rows. Which of
--   two rows that are equal in the order comes first is left to the model, and no result is about it.
-- Api: internal/api/server.go. Api has the payloads and the parsing of parameters, Replies what each
--   reply holds, Handlers one function per handler, Routes the mux, CORS and the log line. A handler's
--   calls meet Env like a worker's.
-- Classify and Demo: cmd/classify/main.go and cmd/db-demo/main.go, from the environment variable on.
-- Connections: Connect of internal/db/db.go, NewPublisher of internal/queue/publisher.go and the client
--   of internal/httpc/client.go, from what the libraries answer to what is opened and closed.
-- Pipeline: all of these as one system. Tables, Sellers, Sending, Fetching, Exploring, Parsing, Saving,
--   Storing, Enriching, Scheduling and Serving have for each part that it keeps the agreement of tables
--   and messages that Pipeline states; System has the histories, in which each step is one delivery to
--   a worker, a run of ticks, a request or rounds of the refresh; Handoffs is what a worker finds behind
--   a message, Views what the API's views show of the tables, Counts what a refresh counts (Columns
--   describes the counts), and Journey the runs of the fetcher and
--   the parser behind each other where every call works. Bodies that cmd/publish sends by hand are
--   deliveries of a history, not its messages.
-- Commands: the mains under cmd of the four workers, consume, publish, topology and api, from their
--   variables and arguments on, with the handler and the queue that each wires; Serving is the end of
--   the API's main, as a step relation of the signal, the server and main.
--
-- Not modelled: flag parsing, the publisher's mutex, the interleaving of handlers at a finer grain than
-- a whole delivery or request, and logging but the access log's line.
pub mod Base
pub mod Storage
pub mod Runtime
pub mod Queue
pub mod Fetcher
pub mod Discovery
pub mod Enrich
pub mod Parser
pub mod Scheduler
pub mod Classification
pub mod Api
pub mod Demo
pub mod Classify
pub mod Connections
pub mod Pipeline
pub mod Commands
