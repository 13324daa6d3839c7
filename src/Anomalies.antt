-- ===== src/Anomalies.antt =====
-- src/domain/trend-anomaly.ts: what is found in the summary of a snapshot or in the history of an
-- entity, the removal of duplicates, and the status of the alert.
-- A message is made of the other fields of its item and is left out.
pub mod Detect
pub mod Dedupe
mod Tests
use ranking.Prelude.{
  ℕ, ◌*◌, Bool, true, false, ◌&&◌, ◌||◌, Option, none, some, List, [], ◌∷◌, ◌++◌, map, foldl,
  filter, any, String, ltb, leb, if◌then◌else◌, length, or_else, max, min,
}
use Prim.Native.String.{◌++◌ as join}
use ranking.Prelude.Keys.{Key, string_key, ◌==◌}
use ranking.Prelude.Dict.{Dict, get, set, values}
use ranking.Prelude.Number.{Number, le, max_of, min_of}
use ranking.Prelude.Sorting.{sort_by}
use ranking.Stats.{end_streak_rank_improving, end_streak_rank_declining}

pub data Severity : Type 0 where
  warn critical : Severity

-- The values of `TrendAnomalyItem.code`.
pub data Code : Type 0 where
  entity_rank_surge entity_rank_plunge snapshot_surge_cluster snapshot_volatile_cluster : Code
  snapshot_momentum_imbalance entity_streak_improving entity_streak_declining : Code

pub record Thresholds (F : Type 0) : Type 0 where
  pub min_rank_change_warn : F
  pub min_rank_change_critical : F
  pub surge_count_warn : F
  pub volatile_share_warn : F
  pub momentum_imbalance_ratio : F
  pub streak_steps_warn : F

-- `TrendAnomalyItem`.
pub record Anomaly (F : Type 0) : Type 0 where
  pub code : Code
  pub severity : Severity
  pub topic_id : String
  pub topic_slug : Option String
  pub snapshot_id : Option String
  pub entity_id : Option String
  pub entity_name : Option String
  pub value : F
  pub threshold : F
  pub detected_at : ℕ

-- An entry of `topRankGainers` or `topRankLosers`; a rank change that is no number is none.
pub record Mover (F : Type 0) : Type 0 where
  pub entity_id : Option String
  pub canonical_name : Option String
  pub rank_change : Option F

-- `SnapshotTrendPayload`, with `[]` for what is missing.
pub record TrendPayload (F : Type 0) : Type 0 where
  pub kind : Option String
  pub snapshot_id : Option String
  pub item_count : Option F
  pub trend_type_counts : Dict String F
  pub top_rank_gainers : List (Mover F)
  pub top_rank_losers : List (Mover F)

-- The argument `ctx` of the two detections.
pub record Context : Type 0 where
  pub topic_id : String
  pub topic_slug : Option String
  pub entity_id : Option String
  pub entity_name : Option String
  pub at : ℕ

pub rank_of : Severity → ℕ
rank_of Severity.critical = 2
rank_of Severity.warn = 1

code_text : Code → String
code_text Code.entity_rank_surge = "entity_rank_surge"
code_text Code.entity_rank_plunge = "entity_rank_plunge"
code_text Code.snapshot_surge_cluster = "snapshot_surge_cluster"
code_text Code.snapshot_volatile_cluster = "snapshot_volatile_cluster"
code_text Code.snapshot_momentum_imbalance = "snapshot_momentum_imbalance"
code_text Code.entity_streak_improving = "entity_streak_improving"
code_text Code.entity_streak_declining = "entity_streak_declining"

-- `worstTrendAlertStatus`.
pub data AlertStatus : Type 0 where
  ok warn critical : AlertStatus

abbrev pub is_critical : Severity → Bool
is_critical Severity.critical = true
is_critical Severity.warn = false

abbrev pub is_warn : Severity → Bool
is_warn Severity.critical = false
is_warn Severity.warn = true

module _ {F : Type 0} where
  -- `${a.code}:${a.entityId ?? ''}:${a.snapshotId ?? ''}:${a.topicId}`
  pub key_of : Anomaly F → String
  unfolding code_text
  key_of a = join (code_text a.code) (
      join ":" (
        join (or_else a.entity_id "")
          (join ":" (join (or_else a.snapshot_id "") (join ":" a.topic_id)))))

  abbrev pub outranks : Option (Anomaly F) → Anomaly F → Bool
  outranks none a = true
  outranks (some prev) a = ltb (rank_of prev.severity) (rank_of a.severity)

  -- The loop of `dedupeTrendAnomalies`.
  pub keep_best : Dict String (Anomaly F) → Anomaly F → Dict String (Anomaly F)
  unfolding rank_of
  keep_best best a = if outranks (get (key_of a) best) a then set (key_of a) a best else best

  pub best_by_key : List (Anomaly F) → Dict String (Anomaly F)
  unfolding keep_best
  best_by_key = foldl keep_best []

  -- `(a, b) => rank(b.severity) - rank(a.severity)` below zero
  abbrev pub before : Anomaly F → Anomaly F → Bool
  before a b = ltb (rank_of b.severity) (rank_of a.severity)

  pub dedupe_trend_anomalies : List (Anomaly F) → List (Anomaly F)
  unfolding best_by_key
  dedupe_trend_anomalies items = sort_by before (values (best_by_key items))

  pub worst_trend_alert_status : List (Anomaly F) → AlertStatus
  worst_trend_alert_status items =
      if any (λ a. is_critical a.severity) items
      then AlertStatus.critical
      else if any (λ a. is_warn a.severity) items
      then AlertStatus.warn
      else AlertStatus.ok
