-- ===== src/Lib.antt =====
-- Ranking: topics are ranked from metrics of entities, snapshots of the rankings are stored with
-- their history, and other systems hear of them by a transactional outbox.
--
-- The parts, and where they are modelled (paths of the sources from the root of the repository):
--
--   Prelude         lists, Booleans, tables as association lists, sorting, integers, and the
--                   interface `Number` for IEEE 754 doubles with the laws `IsOrdered`
--   Window          the enum TimeWindow (prisma/schema.prisma)
--   Signals         src/domain/entity-signals.ts and the signal part of topic-kind-policy.ts:
--                   the latest observation of each metric key of an entity; Signals/Latest and
--                   Signals/Coverage have the proofs
--   Stats           src/domain/entity-topic-stats.ts, src/domain/ranking-history-summary.ts and the
--                   end streaks of src/domain/scoring.ts; proofs in Stats/Streaks,
--                   Stats/Materialized and Stats/Batch
--   Scoring         src/domain/scoring.ts; proofs in Scoring/Normalize; Scoring/Fixed is an instance
--                   of `Number` for the tests
--   Policy          presets and merging of src/domain/topic-kind-policy.ts, the parser of
--                   src/domain/policy-json.ts (Policy/Parse) and the comparison of two versions of
--                   src/domain/topic-version-diff.ts (Policy/Diff); proofs in Policy/Weights,
--                   Policy/Decay, Policy/Accepted and Policy/Unchanged
--   Ranking         src/rankings/rankings.service.ts: the pure part of materializeRankingSnapshot
--                   (Ranking), the tables (Ranking/Store), persistSnapshotTransaction
--                   (Ranking/Store/Transaction),
--                   materializeRankingSnapshot (Ranking/Jobs), runRanking and processRankingJob
--                   (Ranking/Service), enqueueRanking (Ranking/Queue); proofs in Ranking/Order, Ranking/History,
--                   Ranking/Writes, Ranking/Settling, Ranking/Outcome and Ranking/Requeue
--   Outbox          src/outbox/outbox-claim.ts, src/outbox/outbox-publisher.service.ts and the routing
--                   of src/kafka/event-registry.ts; proofs in Outbox/Claims, Outbox/Flush,
--                   Outbox/Published and Outbox/Once; Outbox/Flushers has the claim by type and the loop
--                   of src/search/elastic-entity-outbox-flusher.service.ts and
--                   src/analytics/clickhouse-outbox-flusher.service.ts
--   Dispatch        consumers/followup-dispatch/src/handler.ts: the consumer with its ledger;
--                   runs of it and the proofs in Dispatch/Once
--   Anomalies       src/domain/trend-anomaly.ts: the data and the removal of duplicates
--                   (Anomalies), the detections (Anomalies/Detect); proofs in Anomalies/Dedupe
--   Access          src/compliance: scopes, headers and the table of keys (Access), the guard
--                   (Access/Guard), the filter by tenant (Access/Tenants) and the redaction of entities
--                   (Access/Redaction); proofs also in Access/Admission and Access/Keys
--   Alerts          src/observability: the evaluation of the metrics (Alerts), the routes, the payloads and
--                   the cooldown (Alerts/Router); proofs in Alerts/Levels, Alerts/Outcome and
--                   Alerts/Cooldown
--   Crawl           src/ingestion: robots.txt (Crawl/Robots) and the rules of a host (Crawl/Robots/Cache),
--                   with proofs in Crawl/Robots/Longest, Crawl/Robots/Reading and Crawl/Robots/RoundTrip;
--                   the checks of addresses (Crawl/Address); the retries (Crawl/Fetch), with proofs in
--                   Crawl/Fetch/Retries and Crawl/Fetch/Agents; the loop of processCrawlJob (Crawl/Job),
--                   with proofs in Crawl/Job/Ends and Crawl/Job/Bounds
--   Realtime        src/domain/realtime-ranking-window.ts
--
-- How they interact: a job or a request starts processRankingJob or runRanking, which call
-- materializeRankingSnapshot. It reads the metrics, indexes them (Signals), scores and normalises
-- them (Scoring, Policy), and writes a snapshot in one transaction, with the history, the statistics
-- (Stats) and the outbox rows. The publisher (Outbox) claims these rows and sends them to Kafka,
-- where the consumer of follow-ups (Dispatch) takes them up. Anomalies are found in the summaries of
-- snapshots and in the streaks (Stats). Alerts watch the backlog of the outbox and the crawler. The guard
-- (Access) stands in front of every request.
--
-- State is passed explicitly: `Db` holds the tables, `World` adds the queue and the events, and a
-- database table is a list in the order of insertion. An exception is `err` of `Result`. A
-- transaction is one function that gives all its writes or an error. Ids and times are natural
-- numbers, times in milliseconds. Names of functions and fields are those of the source in snake
-- case.
--
-- Loops are recursions on lists, or on the index that counts down (Stats.streak_loop). The crawl loop
-- (Crawl.Job.crawl) has fuel, and (n + 1) * n + n rounds are enough, where n is the number of the seeds or
-- the limit for addresses: it is shown that the loop is done then. The publisher's batch is limited to 80 rows as in the source.
--
-- Arguments of the model, since their code is not in the repository: the doubles (`Number`; results on
-- their order name the laws they need), what Kafka, the schema validator and the row locks of
-- PostgreSQL answer (`Broker`, `locked`), what an update of the publisher throws (`Broker`), the fingerprint of the weights and the settings
-- (`Surroundings`, `Settings`), the digest of a key, `new URL` and the answers of the web (`Web`,
-- `Job.answer`, `Job.redirects`), the replies to a webhook (`Call.fetch`), and `Number(x)` and `String(x)` of values that
-- are no number and no string (`Conversions`). A hash is taken to be injective where it is an id.
--
-- Not modelled: failures of the database other than missing rows, broken constraints and the updates of the
-- publisher, the HTTP layer, the caches, the realtime transport, the fetching of the crawler, the search and vector
-- indexes, the agents and language models, and the web console.
pub mod Prelude
pub mod Window
pub mod Signals
pub mod Stats
pub mod Scoring
pub mod Policy
pub mod Ranking
pub mod Outbox
pub mod Dispatch
pub mod Anomalies
pub mod Alerts
pub mod Access
pub mod Crawl
pub mod Realtime
