-- ===== src/Outbox.antt =====
-- The transactional outbox: src/outbox/outbox-claim.ts, src/outbox/outbox.constants.ts,
-- src/outbox/outbox-publisher.service.ts and the routing part of src/kafka/event-registry.ts.
-- The table is a list in the order of the ids. What PostgreSQL, Kafka and the schema validator answer
-- are arguments.
pub mod Claims
pub mod Flush
pub mod Flushers
pub mod Published
pub mod Once
mod Tests
use ranking.Prelude.{
  ℕ, zero, suc, ◌+◌, ◌*◌, Bool, true, false, ◌&&◌, ◌||◌, not, Option, none, some, List, [], ◌∷◌,
  ◌++◌, map, String, ltb, leb, if◌then◌else◌, min, filter, any, nat_beq,
}
use ranking.Prelude.Keys.{nat_key, ◌==◌}

-- The outbox types of outbox.constants.ts.
pub data OutboxType : Type 0 where
  snapshot_completed followup_requested clickhouse_snapshot : OutboxType
  elastic_entity_sync elastic_crawled_url_sync crawl_url_fetched agent_run_completed : OutboxType

-- A row of `OutboxEvent`; times are milliseconds.
pub record OutboxRow (P : Type 0) : Type 0 where
  pub id : ℕ
  pub type : OutboxType
  pub payload : P
  pub published_at : Option ℕ
  pub kafka_published_at : Option ℕ
  pub leased_until : Option ℕ
  pub attempts : ℕ
  pub last_error : Option String

-- `publishToKafka` of the route of a type; the rest of `listKafkaPublishOutboxTypes` is the variable
-- KAFKA_PUBLISH_RANKING_FOLLOWUP.
pub publish_to_kafka : OutboxType → Bool
publish_to_kafka OutboxType.followup_requested = false
publish_to_kafka _ = true

abbrev is_followup : OutboxType → Bool
is_followup OutboxType.followup_requested = true
is_followup _ = false

-- The type is in `listKafkaPublishOutboxTypes()`.
unfoldable pub is_published_type : Bool → OutboxType → Bool
unfolding publish_to_kafka
is_published_type followup_enabled t = publish_to_kafka t || (is_followup t && followup_enabled)

pub data SideEffect : Type 0 where
  external_kafka_only in_process_flusher dual_kafka_and_flusher : SideEffect

-- `sideEffect` of the route of a type.
unfoldable pub side_effect : OutboxType → SideEffect
side_effect OutboxType.snapshot_completed = SideEffect.external_kafka_only
side_effect OutboxType.followup_requested = SideEffect.in_process_flusher
side_effect OutboxType.crawl_url_fetched = SideEffect.external_kafka_only
side_effect OutboxType.clickhouse_snapshot = SideEffect.dual_kafka_and_flusher
side_effect OutboxType.elastic_entity_sync = SideEffect.dual_kafka_and_flusher
side_effect OutboxType.elastic_crawled_url_sync = SideEffect.dual_kafka_and_flusher
side_effect OutboxType.agent_run_completed = SideEffect.external_kafka_only

-- `"leasedUntil" IS NULL OR "leasedUntil" < NOW()`
abbrev pub is_free : ℕ → Option ℕ → Bool
is_free now none = true
is_free now (some until) = ltb until now

abbrev pub is_null : Option ℕ → Bool
is_null none = true
is_null (some _) = false

module _ {P : Type 0} where
  -- The WHERE clause of `claimOutboxBatchForKafkaTypes`. A row that another transaction has locked
  -- is skipped.
  unfoldable pub is_claimable : (OutboxType → Bool) → (ℕ → Bool) → ℕ → OutboxRow P → Bool
  is_claimable types locked now row =
      is_null row.kafka_published_at
      && (types row.type && (is_free now row.leased_until && not (locked row.id)))

  abbrev pub lease : ℕ → OutboxRow P → OutboxRow P
  lease until row = record row { leased_until = some until }

  -- SELECT ... ORDER BY id LIMIT n FOR UPDATE SKIP LOCKED, then UPDATE ... RETURNING: the new table
  -- and the claimed rows.
  unfoldable pub claim :
      (OutboxRow P → Bool) → ℕ → ℕ → List (OutboxRow P) → List (OutboxRow P) × List (OutboxRow P)
  claim test until limit [] = ([], [])
  claim test until zero (row ∷ rows) = (row ∷ rows, [])
  claim test until (suc limit) (row ∷ rows) =
      let taken = claim test until limit rows in
      let left = claim test until (suc limit) rows in
      if test row
      then (lease until row ∷ taken.0, lease until row ∷ taken.1)
      else (row ∷ left.0, left.1)

  -- `claimOutboxBatchForKafkaTypes`; a lease is given in seconds.
  unfoldable pub claim_for_kafka :
      (OutboxType → Bool)
      → (ℕ → Bool)
      → ℕ
      → ℕ
      → ℕ
      → List (OutboxRow P)
      → List (OutboxRow P) × List (OutboxRow P)
  claim_for_kafka types locked now lease_seconds limit table =
      claim (is_claimable types locked now) (now + lease_seconds * 1000) limit table

  -- `prisma.outboxEvent.update({ where: { id } })`
  unfoldable pub update_row :
      ℕ → (OutboxRow P → OutboxRow P) → List (OutboxRow P) → List (OutboxRow P)
  update_row id f [] = []
  update_row id f (row ∷ rows) = (if row.id == id then f row else row) ∷ update_row id f rows

-- How `kafka.send` ends: true, false, or with an exception, after which Kafka may have the message or not.
pub data SendResult : Type 0 where
  sent unavailable : SendResult
  failed : String → SendResult

-- What the publisher asks of its surroundings for one row.
pub record Broker (P : Type 0) : Type 0 where
  -- `validateBeforePublish` of the payload: if it is not valid, the text that is stored
  pub schema_errors : OutboxRow P → Option String
  -- `resolveKafkaTopicForOutboxType` finds a topic
  pub has_topic : OutboxType → Bool
  pub send : OutboxRow P → SendResult
  -- what the update after the send throws, if it does; an update that throws has changed nothing
  pub update_error : OutboxRow P → Option String
  -- the update throws that postpones a row which is not valid, has no topic or could not be sent
  pub postpone_fails : OutboxRow P → Bool

-- A call of `kafka.send` for a row, with its answer and what the update after it has thrown.
pub record Sending : Type 0 where
  pub id : ℕ
  pub answer : SendResult
  pub update_error : Option String

-- Whether the loop goes on after a row.
pub data Next : Type 0 where
  go_on stop : Next

abbrev pub flush_batch : ℕ
flush_batch = 80

-- `Math.min(180, 8 + row.attempts * 6)`
pub backoff_seconds : ℕ → ℕ
backoff_seconds attempts = min 180 (8 + attempts * 6)

-- The rest of the loop runs unless the row stops it.
abbrev pub proceed :
    {P : Type 0}
    → Next
    → List (OutboxRow P)
    → List Sending
    → List (OutboxRow P) × List Sending
    → List (OutboxRow P) × List Sending
proceed Next.stop table calls rest = (table, calls)
proceed Next.go_on table calls rest = (rest.0, calls ++ rest.1)

module _ {P : Type 0} (broker : Broker P) (now : ℕ) where
  -- The row after an attempt that did not publish it.
  abbrev pub postpone : String → ℕ → OutboxRow P → OutboxRow P
  postpone error millis row = record row {
    attempts = row.attempts + 1;
    last_error = some error;
    leased_until = some (now + millis);
  }

  abbrev pub mark_published : OutboxRow P → OutboxRow P
  mark_published row = record row {
    kafka_published_at = some now;
    last_error = none;
    leased_until = none;
  }

  -- An update that postpones a row; if it throws, the flush ends with its error.
  abbrev pub postponed : Next → String → ℕ → OutboxRow P → (OutboxRow P → OutboxRow P) × Next
  postponed next error millis row =
      if broker.postpone_fails row
      then (λ other. other, Next.stop)
      else (postpone error millis, next)

  -- `catch (e)`.
  abbrev pub after_error : String → OutboxRow P → (OutboxRow P → OutboxRow P) × Next
  after_error error row = postponed Next.stop error (backoff_seconds row.attempts * 1000) row

  -- The try with its catch: what the updates in it throw is caught as well.
  abbrev pub after_send :
      SendResult → Option String → OutboxRow P → (OutboxRow P → OutboxRow P) × Next
  after_send (SendResult.failed error) e row = after_error error row
  after_send SendResult.sent none row = (mark_published, Next.go_on)
  after_send SendResult.sent (some error) row = after_error error row
  after_send SendResult.unavailable none row =
      (postpone "Kafka producer unavailable (broker down or connecting)" 30_000, Next.stop)
  after_send SendResult.unavailable (some error) row = after_error error row

  -- The body of the loop of `flushOutbox`: the update of the row, whether the loop goes on, and the call
  -- of `kafka.send`, if there is one.
  unfoldable pub publish_row : OutboxRow P → (OutboxRow P → OutboxRow P) × Next × List Sending
  unfolding backoff_seconds
  publish_row row = elim (broker.schema_errors row) [
    | some errors ↦
        let (update, next) = postponed Next.go_on errors 300_000 row in (update, next, [])
    | none ↦
        let answer = broker.send row in
        let error = broker.update_error row in
        let (tried, after) = after_send answer error row in
        let (update, next) =
          postponed Next.go_on "kafka: outbox type not in event registry" 120_000 row in
        if broker.has_topic row.type
        then (tried, after, (record { id = row.id; answer = answer; update_error = error }) ∷ [])
        else (update, next, [])
  ]

  -- The loop over the claimed rows: the table, and the calls of `kafka.send`, in their order.
  unfoldable pub publish_rows :
      List (OutboxRow P) → List (OutboxRow P) → List (OutboxRow P) × List Sending
  unfolding update_row
  publish_rows [] table = (table, [])
  publish_rows (row ∷ rows) table =
      let (update, next, calls) = publish_row row in
      let table' = update_row row.id update table in
      let rest = publish_rows rows table' in proceed next table' calls rest

  -- `flushOutbox` with Kafka configured.
  unfoldable pub flush_outbox :
      (OutboxType → Bool) → (ℕ → Bool) → ℕ → List (OutboxRow P) → List (OutboxRow P) × List Sending
  unfolding claim_for_kafka
  flush_outbox types locked lease_seconds table =
      let (leased, claimed) = claim_for_kafka types locked now lease_seconds flush_batch table in
      publish_rows claimed leased
