-- ===== src/Outbox/Tests.antt =====
-- Examples for the outbox: two rows, and brokers that take messages or not.
use ranking.Prelude.{
  ℕ, ◌≡◌, refl, Bool, true, false, List, [], ◌∷◌, ◌++◌, map, none, some, All, arith,
}
use ranking.Outbox.{
  OutboxType, OutboxRow, Broker, SendResult, is_published_type, publish_to_kafka, is_claimable,
  claim, claim_for_kafka, update_row, flush_outbox, publish_row, publish_rows,
}
use ranking.Outbox.Claims.{IsDisjoint, claims-IsDisjoint}
use ranking.Outbox.Flush.{sent_ids, recorded, publication, published_view, flush_publications}
use ranking.Outbox.Flushers.{SideResult, flush_side}
use ranking.Outbox.Published.{is_published}
use ranking.Outbox.Once.{IsSettled, World, Step, Reach, sent_once}

abbrev row : ℕ → OutboxType → OutboxRow ℕ
row id type = record {
  id = id;
  type = type;
  payload = 0;
  published_at = none;
  kafka_published_at = none;
  leased_until = none;
  attempts = 0;
  last_error = none;
}

abbrev table : List (OutboxRow ℕ)
table =
    row 1 OutboxType.snapshot_completed
    ∷ row 2 OutboxType.followup_requested
    ∷ row 3 OutboxType.agent_run_completed
    ∷ []

abbrev broker : SendResult → Broker ℕ
broker answer = record {
  schema_errors = λ row. none;
  has_topic = λ t. true;
  send = λ row. answer;
  update_error = λ row. none;
  postpone_fails = λ row. false;
}

-- The database fails after Kafka has confirmed a message.
abbrev forgetful : Broker ℕ
forgetful = record {
  schema_errors = λ row. none;
  has_topic = λ t. true;
  send = λ row. SendResult.sent;
  update_error = λ row. some "connection lost";
  postpone_fails = λ row. false;
}

abbrev nothing_locked : ℕ → Bool
nothing_locked id = false

abbrev is_followup : OutboxType → Bool
is_followup OutboxType.followup_requested = true
is_followup _ = false

abbrev kinds : OutboxType → Bool
kinds = is_published_type false

-- The follow-up is not for Kafka, so two rows are sent.
two_sent :
    sent_ids (flush_outbox (broker SendResult.sent) 5_000 kinds nothing_locked 60 table).1
    ≡ 1 ∷ 3 ∷ []
unfolding flush_outbox claim_for_kafka claim is_claimable is_published_type publish_rows publish_row
    update_row publish_to_kafka
two_sent = refl

claims-IsDisjoint_example :
    let first = claim_for_kafka kinds nothing_locked 5_000 60 1 table in
    IsDisjoint first.1 (claim_for_kafka kinds nothing_locked 9_000 60 80 first.0).1
claims-IsDisjoint_example =
    claims-IsDisjoint kinds kinds nothing_locked nothing_locked 5_000 9_000 60 60 1 80 table
      (refl, (refl, (refl, tt))) (omega arith)

flush_publications_example :
    let (after, calls) =
      flush_outbox (broker SendResult.sent) 5_000 kinds nothing_locked 60 table in
    map publication after ≡ map (published_view 5_000 (recorded calls)) table
flush_publications_example =
    flush_publications (broker SendResult.sent) kinds nothing_locked 5_000 60 table

abbrev start : World ℕ
start = record { table = table; log = [] }

abbrev flushed : Broker ℕ → ℕ → World ℕ → World ℕ
flushed b now w = record {
  table = (flush_outbox b now kinds nothing_locked 60 w.table).0;
  log = w.log ++ (flush_outbox b now kinds nothing_locked 60 w.table).1;
}

-- Kafka is down at first, a flusher takes a follow-up, then Kafka gets a message that is not recorded.
abbrev second : World ℕ
second = flushed (broker SendResult.unavailable) 5_000 start

abbrev third : World ℕ
third = record {
  table = flush_side (λ row. SideResult.finished) 6_000 is_followup nothing_locked 60 second.table;
  log = second.log;
}

abbrev last : World ℕ
last = flushed (broker SendResult.sent) 900_000 (flushed forgetful 400_000 third)

abbrev four_flushes : Reach start last
four_flushes =
    Reach.next
      (Reach.next
        (Reach.next
          (Reach.next Reach.here
            (Step.flush start (broker SendResult.unavailable) kinds nothing_locked 5_000 60))
          (Step.other_side second (λ row. SideResult.finished) 6_000 is_followup nothing_locked 60))
        (Step.flush third forgetful kinds nothing_locked 400_000 60))
      (Step.flush (flushed forgetful 400_000 third) (broker SendResult.sent) kinds nothing_locked
        900_000 60)

four_flushes_log : (sent_ids last.log ≡ 1 ∷ 1 ∷ 1 ∷ 3 ∷ []) × (recorded last.log ≡ 1 ∷ 3 ∷ [])
unfolding flush_outbox claim_for_kafka claim is_claimable is_published_type publish_rows publish_row
    update_row publish_to_kafka flush_side ranking.Outbox.Flushers.flush_side_rows
    ranking.Outbox.Flushers.claim_by_type ranking.Outbox.Flushers.is_claimable_by_type
    ranking.Outbox.Flushers.after_side
four_flushes_log = (refl, refl)

sent_once_example :
    IsSettled last.log
    × All (λ id. is_published id (map publication last.table) ≡ true) (recorded last.log)
sent_once_example = sent_once table (refl, (refl, (refl, tt))) four_flushes
