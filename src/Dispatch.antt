-- ===== src/Dispatch.antt =====
-- consumers/followup-dispatch/src/handler.ts: the Kafka consumer that dispatches follow-ups, with the
-- ledger of the outbox ids it has handled. An outbox id is the decimal text of a number and is
-- modelled as the number; the ledger's file is the list of its lines.
pub mod Once
mod Tests
use ranking.Prelude.{
  ℕ, ◌+◌, Bool, true, false, Option, none, some, List, [], ◌∷◌, ◌++◌, String, holds, if◌then◌else◌,
}

-- `OutboxIdLedger`: the set in memory, and the file.
pub record Ledger : Type 0 where
  pub seen : List ℕ
  pub file : List ℕ

-- The constructor of the ledger: the set is read from the file.
unfoldable pub load : List ℕ → Ledger
load file = record { seen = file; file = file }

unfoldable pub record_id : ℕ → Ledger → Ledger
record_id id ledger =
    if holds ledger.seen id
    then ledger
    else record { seen = id ∷ ledger.seen; file = ledger.file ++ id ∷ [] }

-- `DispatchStats`.
pub record Stats : Type 0 where
  pub processed : ℕ
  pub skipped_duplicate : ℕ
  pub invalid : ℕ
  pub dispatch_failures : ℕ
  pub last_snapshot_id : Option String
  pub last_processed_at : Option ℕ

abbrev pub no_stats : Stats
no_stats = record {
  processed = 0;
  skipped_duplicate = 0;
  invalid = 0;
  dispatch_failures = 0;
  last_snapshot_id = none;
  last_processed_at = none;
}

-- `FollowupDispatchHandler`.
pub record Handler : Type 0 where
  pub ledger : Ledger
  pub stats : Stats

-- What `handle` reads of a message: `meta.outboxId` and `payload.snapshotId`.
pub record Envelope : Type 0 where
  pub outbox_id : ℕ
  pub snapshot_id : String

-- How the POST request ends: with a status that is ok, with another status, or with an exception.
pub data Response : Type 0 where
  accepted refused unreachable : Response

-- How `handle` ends; `thrown` stands for the exception, after which Kafka delivers the message again.
pub data Outcome : Type 0 where
  processed duplicate thrown : Outcome

abbrev pub add_failures : ℕ → Handler → Handler
add_failures n h = record h {
  stats = record h.stats { dispatch_failures = h.stats.dispatch_failures + n };
}

-- The part of `handle` after the request. The exception of a refused request reaches the catch block
-- of the same try statement, which counts it again.
unfoldable pub after_request : ℕ → Envelope → Response → Handler → Handler × Outcome
unfolding record_id
after_request now e Response.accepted h = (
  record {
    ledger = record_id e.outbox_id h.ledger;
    stats = record h.stats {
      processed = h.stats.processed + 1;
      last_snapshot_id = some e.snapshot_id;
      last_processed_at = some now;
    };
  },
  Outcome.processed,
)
after_request now e Response.refused h = (add_failures 2 h, Outcome.thrown)
after_request now e Response.unreachable h = (add_failures 1 h, Outcome.thrown)

unfoldable pub handle : ℕ → Response → Handler → Envelope → Handler × Outcome
unfolding after_request
handle now response h e =
    if holds h.ledger.seen e.outbox_id
    then (
      record h { stats = record h.stats { skipped_duplicate = h.stats.skipped_duplicate + 1 } },
      Outcome.duplicate,
    )
    else after_request now e response h

unfoldable pub record_invalid : Handler → Handler
record_invalid h = record h { stats = record h.stats { invalid = h.stats.invalid + 1 } }
