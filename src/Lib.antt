-- ===== src/Lib.antt =====
-- DistLink, a URL shortener: a Nest application over Cassandra, Redis and Kafka (src/).
--
-- The parts and the files that model them:
--
-- Base: texts, lists and dictionaries (Dict), handlers as state passing with a result (Exec), what
-- an action leaves alone (Frame), scripts of failing calls (Faults).
-- ShortCode: src/utils/short-code.generator.ts. `generate` takes the bytes of randomBytes;
-- `generate_batch` takes a schedule that says which task gets its next code, and which one.
-- Alphabet is on the length of codes, Uniqueness and Completion on batches.
-- SafeBrowsing: src/modules/safe-browsing/safe-browsing.service.ts, `check_url` over the outcome
-- of the request.
-- Redis: src/modules/redis/redis.service.ts, a key space with get, set and del.
-- Urls: src/modules/urls. Types has the rows, DTOs and statements; World the clients and the
-- state; Values, Records, Service and Edit are `UrlsService` (urls.service.ts), Controller has the
-- handlers of `UrlsController` (urls.controller.ts) and Gateway its routes with their guards,
-- Cleanup is `UrlsCleanupService` (urls-cleanup.service.ts). Creation, Lookup, Replacement,
-- Access, Gates and Expiry hold the proofs about single operations. Coherence says what the cache
-- shows of the rows, Directory is the abstract view of the rows, Effects, Listing, Renaming and
-- Updates show what each operation does to both, and History joins the operations to histories.
-- Clicks: src/modules/clicks/click-processor.service.ts. Events has the events, dead letters and
-- the grouping of a batch, Processor the buffers and saves, DeadLetters the retries of dead
-- letters, Service the life of the service from its constructor to its shutdown with the periodic
-- flush, Agents the enrichment and the anonymous addresses, Daily the queries of an analytics
-- batch. Counting, Buffers, Retries, Aggregation and Anonymity hold the proofs on single
-- operations; Letters, Rounds and Drains show what each operation does to the clicks that wait,
-- and History joins the operations to histories. src/modules/clicks/clicks.service.ts: Countries
-- has the lookup of countries and the sums by country, Recording the clicks and their counts,
-- Ranges the statistics of a range of dates with the handler of
-- src/modules/clicks/clicks.controller.ts. Geolocation, Totals, Slices and Dates hold the proofs.
-- Kafka: src/modules/kafka/kafka-producer.service.ts and kafka-consumer.service.ts, the producer
-- with its connection and messages, and the handler of the consumer; Kafka/Admin has the start of
-- the consumer and src/modules/kafka/kafka-admin.service.ts. The proofs are in Kafka/Delivery,
-- Kafka/Counting, Kafka/Connection and Kafka/Provision.
-- Redirect: src/modules/urls/redirect.controller.ts; the proofs are in Redirect/Outcomes.
-- Auth: src/modules/users/users.service.ts (Users) and src/modules/auth/auth.service.ts (Tokens,
-- Service), over the table, Redis, bcrypt, JWT and the email queue of World. Guards has the
-- guards, the strategies of Passport and the handlers of src/modules/auth/auth.controller.ts that
-- use the user of a request; Controller has its other handlers and its routes. Sessions, Accounts
-- and Admission hold the proofs on single operations. Writes says what a write may do to the
-- accounts, Steps, Methods, Joins and Served show that each call, method and request does no more,
-- and History joins the requests to histories.
-- Schema: src/modules/database/database.service.ts (Scylla) and
-- src/modules/clickhouse/clickhouse.service.ts (ClickHouse), the tables that a start makes;
-- Statements is on a list of statements, Start on the start of the first, Restart on what it
-- leaves.
-- Mailer: src/modules/mailer/mailer.service.ts and
-- src/modules/queue/processors/email.processor.ts, the worker of the email queue; the proofs are
-- in Mailer/Delivery.
-- Metrics: src/modules/monitoring/prometheus.service.ts, the counters by name.
-- RateLimit: src/common/guards/rate-limit.guard.ts and its decorator; the proofs are in
-- RateLimit/Window.
-- Retry: src/common/utils/retry.util.ts.
-- Configuration: src/configs/validation.ts, the check of the environment.
-- Tests: concrete stores (Stores, Rows, Signatures), and the theorems at concrete inputs.
--
-- A handler is a function from the state to a result and the next state; a throw keeps what was
-- written before it. The URL service calls Safe Browsing, the pool of codes, the tables and Redis;
-- the controller, behind the rate limit and the guards of the authentication, calls the service;
-- the cleanup works on the same tables and on Redis. A redirect calls the URL service, records the
-- click in the tables of the statistics and sends an event to Kafka; the consumer of Kafka hands
-- the event to the click processor, which adds to the counters that the URL service reads. The
-- auth service adds jobs to the email queue, which the mailer works off.
--
-- Redis, the tables of Cassandra, the servers on which a start makes them, the cluster of Kafka,
-- bcrypt, the JWT library, Passport, Handlebars, the template files and the UUIDs are parameters:
-- records of operations with the laws that the code relies on. A row is found by its key, an
-- INSERT replaces a row, an UPDATE makes a row that is not there, an index finds every row that
-- has the value, an UPDATE of a counter adds to it, a CREATE ... IF NOT EXISTS keeps what is
-- there, a signed token verifies under its key while it lives, a hash compares with its password,
-- Passport hands a verified token to the strategy. Each call of a client takes the next outcome of
-- a script: it fails and changes nothing, or it succeeds. Keys do not run out by themselves,
-- except the counters of the rate limit, and those that a step of a history drops; a theorem that
-- needs a key to be kept says so. The calls of one Promise.all run one after the other, a call
-- that is not awaited runs at once, and handlers do not interleave. In a history of the URL
-- service or of the click processor no call fails, and a code that `create` takes from the pool is
-- free; the cleanup is no step of such a history. In a history of requests to the authentication
-- any call may fail; an id that is drawn is assumed to be no account's, which random UUIDs are in
-- practice. Dates of statistics are days since 1970. An INSERT of a click under a time and an id
-- that its link does not have adds a row. The driver gives a counter as a Long and an id as a
-- Uuid, which are objects, and JSON makes texts of them: the owner of a URL and its clicks stand
-- for what they name, and the dates of the URL, which are Dates or texts, tell whether they come
-- from the driver or from JSON; where the total of a day is added up, the text of a Long is
-- written out. A message of Kafka has an event, or a text that is not JSON; other JSON is not
-- among the messages.
--
-- There is no fuel: each loop of the code runs on a count that the code has (attempts, retries,
-- the days of a range) or over a list; the loop over slices has a round for each date, and each
-- round takes a date.
--
-- Not modelled: log messages, the calls of metrics, and the waits between retries of a save, which
-- nothing reads; the timer of the cleanup; the empty handler that starts the sign-in by Google; an
-- update that names no new code; a list cached under the name of a code in `update`; columns of an
-- account that nothing computes with. A saved analytics batch is kept as its events beside its
-- queries. The connection of Redis, the retries of jobs by Bull and the wiring of the modules are
-- outside the library.
pub mod Base
pub mod ShortCode
pub mod SafeBrowsing
pub mod Redis
pub mod Schema
pub mod Urls
pub mod Clicks
pub mod Kafka
pub mod Mailer
pub mod Metrics
pub mod Redirect
pub mod Auth
pub mod RateLimit
pub mod Retry
pub mod Configuration
pub mod Tests
