-- ===== src/Ranking/Store.antt =====
-- src/rankings/rankings.service.ts: the tables.
pub mod Transaction
use ranking.Prelude.{
  ℕ, suc, ◌+◌, Bool, ◌&&◌, ◌||◌, Option, none, some, List, [], ◌∷◌, ◌++◌, map, String,
  if◌then◌else◌, length, any, or_else, max,
}
use ranking.Prelude.Keys.{nat_key, string_key, ◌==◌}
use ranking.Prelude.Dict.{Dict, get}
use ranking.Prelude.Number.{Number}
use ranking.Window.{TimeWindow, window_beq}
use ranking.Signals.{Metric}
use ranking.Scoring.{zero_f, sum_of}
use ranking.Stats.{StatsTable, upsert_entity_topic_stats_batch}
use ranking.Policy.{Policy, TopicKind}
use ranking.Outbox.{OutboxRow, OutboxType}
use ranking.Ranking.{Item, HistoryRow}

pub data Status : Type 0 where
  queued running completed failed : Status

-- Why an operation throws.
pub data Failure : Type 0 where
  topic_not_found version_not_found ranking_not_found no_entities no_coverage : Failure
  snapshot_not_found unique_constraint foreign_key queue_refused : Failure

-- A row of `TopicRanking`.
pub record TopicRanking : Type 0 where
  pub id : ℕ
  pub topic_version_id : ℕ
  pub time_window : TimeWindow
  pub window_start : ℕ
  pub window_end : ℕ
  pub status : Status
  pub queued_at : Option ℕ
  pub started_at : Option ℕ
  pub completed_at : Option ℕ
  pub last_error : Option Failure

-- A row of `Topic`.
pub record Topic : Type 0 where
  pub id : ℕ
  pub kind : TopicKind

-- A row of `TopicVersion`: `policy` is what `parseRankingPolicyJson` makes of `policyJson`, none if
-- it throws, and `raw_entity_ids` are the `entityIds` of `policyJson`, which are read unparsed.
pub record TopicVersion (F : Type 0) : Type 0 where
  pub id : ℕ
  pub topic_id : ℕ
  pub version : String
  pub policy : Option (Policy F)
  pub raw_entity_ids : List ℕ

-- The parts of `${version}.${timeWindow}.${time}`; neither of the last two holds a dot.
pub record SnapshotVersion : Type 0 where
  pub version : String
  pub time_window : TimeWindow
  pub time : ℕ

-- A row of `TopicRankSnapshot`, with its items.
pub record Snapshot (F : Type 0) : Type 0 where
  pub id : ℕ
  pub topic_ranking_id : ℕ
  pub snapshot_time : ℕ
  pub snapshot_version : SnapshotVersion
  pub confidence_score : F
  pub score_model_id : ℕ
  pub items : List (Item F)

-- A row of `ScoreModel`: its name stands for `topicVersion:<id>`, and its version for the label of
-- the topic version and the fingerprint of the weights.
pub record ScoreModel (F : Type 0) : Type 0 where
  pub id : ℕ
  pub topic_version_id : ℕ
  pub label : String
  pub fingerprint : String
  pub weights : Dict String F

-- A row of `ScoreBreakdown`; the item is given by its snapshot and its rank.
pub record BreakdownRow (F : Type 0) : Type 0 where
  pub model_id : ℕ
  pub snapshot_id : ℕ
  pub rank : ℕ
  pub component : String
  pub value : F
  pub weight : F

-- The payload of `ranking.snapshot.completed` and of `clickhouse.ranking.snapshot.ingest`.
pub record SnapshotEvent (F : Type 0) : Type 0 where
  pub snapshot_id : ℕ
  pub topic_ranking_id : ℕ
  pub topic_version_id : ℕ
  pub topic_id : ℕ
  pub snapshot_time : ℕ
  pub item_count : ℕ
  pub confidence_score : F
  pub score_model_id : Option ℕ

-- What an operation that may throw gives.
pub data Result {ℓ} (A : Type ℓ) : Type ℓ where
  ok : A → Result A
  err : Failure → Result A

-- The tables. `next_id` stands for all the sequences that give ids.
pub record Db (F : Type 0) : Type 0 where
  pub topics : List Topic
  pub versions : List (TopicVersion F)
  pub metrics : List (Metric F)
  pub rankings : List TopicRanking
  pub snapshots : List (Snapshot F)
  pub models : List (ScoreModel F)
  pub breakdowns : List (BreakdownRow F)
  pub history : List (HistoryRow F)
  pub stats : StatsTable
  -- the snapshots that a `TrendAnalysis` row of kind "snapshot_summary" was written for
  pub trends : List ℕ
  pub outbox : List (OutboxRow (SnapshotEvent F))
  pub next_id : ℕ

-- `findUnique` and `findFirst`: the first row that passes a test.
abbrev pub find_by {ℓ} : {A : Type ℓ} → (A → Bool) → List A → Option A
find_by p [] = none
find_by p (x ∷ xs) = if p x then some x else find_by p xs

-- `update({ where: { id } })` on `TopicRanking`.
unfoldable pub update_ranking :
    ℕ → (TopicRanking → TopicRanking) → List TopicRanking → List TopicRanking
update_ranking id f [] = []
update_ranking id f (r ∷ rs) = (if r.id == id then f r else r) ∷ update_ranking id f rs

-- `{ status: 'completed', completedAt: new Date(), lastError: null }`
abbrev pub complete : ℕ → TopicRanking → TopicRanking
complete now r = record r { status = Status.completed; completed_at = some now; last_error = none }

abbrev same_version : SnapshotVersion → SnapshotVersion → Bool
same_version a b =
    a.version == b.version && (window_beq a.time_window b.time_window && a.time == b.time)

module _ {F : Type 0} where
  -- `where: { topicRankingId_snapshotTime }`
  abbrev pub is_snapshot_of : ℕ → ℕ → Snapshot F → Bool
  is_snapshot_of ranking time s = s.topic_ranking_id == ranking && s.snapshot_time == time

  unfoldable pub find_snapshot : ℕ → ℕ → List (Snapshot F) → Option (Snapshot F)
  find_snapshot ranking time = find_by (is_snapshot_of ranking time)

  -- The two unique constraints of `TopicRankSnapshot` that a new row could break (P2002).
  unfoldable pub violates_unique : ℕ → ℕ → SnapshotVersion → List (Snapshot F) → Bool
  violates_unique ranking time version = any (λ s.
      s.topic_ranking_id == ranking
      && (s.snapshot_time == time || same_version s.snapshot_version version))

-- What `materializeRankingSnapshot` hands to `persistSnapshotTransaction`.
pub record Plan (F : Type 0) : Type 0 where
  pub topic_ranking_id : ℕ
  pub topic_version_id : ℕ
  pub topic_id : ℕ
  pub version : String
  pub time_window : TimeWindow
  pub snapshot_time : ℕ
  pub items : List (Item F)
  pub weights : Dict String F

-- The snapshot version of a plan.
abbrev pub plan_version : {F : Type 0} → Plan F → SnapshotVersion
plan_version plan = record {
  version = plan.version;
  time_window = plan.time_window;
  time = plan.snapshot_time;
}
