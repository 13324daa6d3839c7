-- ===== src/Stats.antt =====
-- src/domain/entity-topic-stats.ts, the end streaks of src/domain/scoring.ts and
-- src/domain/ranking-history-summary.ts. Ranks are natural numbers, and a smaller rank is better.
pub mod Streaks
pub mod Materialized
pub mod Batch
mod Tests
use ranking.Prelude.{
  ℕ, zero, suc, ◌+◌, ◌-◌, ◌≡◌, ◌↔◌, Bool, true, false, ◌&&◌, Option, none, some, List, [], ◌∷◌,
  foldl, ltb, if◌then◌else◌, min, max, length, arith, nat_beq, nat_beq_iff, map,
}
use ranking.Prelude.Keys.{Key, ◌==◌, nat_key}
use ranking.Prelude.Dict.{Dict, get, set}
use ranking.Window.{TimeWindow, window_beq, window_beq_iff}

-- `historyAsc[i].rank`; the loops below read no index out of range.
abbrev pub rank_at : List ℕ → ℕ → ℕ
rank_at [] i = 0
rank_at (r ∷ rs) zero = r
rank_at (r ∷ rs) (suc i) = rank_at rs i

-- The loop of the two streak functions from index `i` down, with the streak `s` so far.
pub streak_loop : (ℕ → ℕ → Bool) → List ℕ → ℕ → ℕ → ℕ
streak_loop better history zero s = s
streak_loop better history (suc i) s =
    let rest = streak_loop better history i (s + 1) in
    if better (rank_at history (suc i)) (rank_at history i) then rest else s

abbrev pub improves : ℕ → ℕ → Bool
improves new old = ltb new old

abbrev pub declines : ℕ → ℕ → Bool
declines new old = ltb old new

-- `endStreakRankImproving` and `endStreakRankDeclining` differ in the comparison alone.
unfoldable pub end_streak : (ℕ → ℕ → Bool) → List ℕ → ℕ
unfolding streak_loop
end_streak better history =
    if ltb (length history) 2 then 0 else streak_loop better history (length history - 1) 0

abbrev pub end_streak_rank_improving : List ℕ → ℕ
end_streak_rank_improving = end_streak improves

abbrev pub end_streak_rank_declining : List ℕ → ℕ
end_streak_rank_declining = end_streak declines

-- A row of `EntityTopicStats`.
pub record TopicStats : Type 0 where
  pub best_rank : ℕ
  pub worst_rank : ℕ
  pub current_streak_up : ℕ
  pub current_streak_down : ℕ
  pub last_rank : Option ℕ
  pub last_as_of : ℕ

-- The two streaks after a new rank.
abbrev pub next_streak : (ℕ → ℕ → Bool) → Option ℕ → ℕ → ℕ → ℕ
next_streak better none streak new = 0
next_streak better (some last) streak new = if better new last then streak + 1 else 0

unfoldable pub next_entity_topic_stats : Option TopicStats → ℕ → ℕ → TopicStats
next_entity_topic_stats none new_rank as_of = record {
  best_rank = new_rank;
  worst_rank = new_rank;
  current_streak_up = 0;
  current_streak_down = 0;
  last_rank = some new_rank;
  last_as_of = as_of;
}
next_entity_topic_stats (some prev) new_rank as_of = record {
  best_rank = min prev.best_rank new_rank;
  worst_rank = max prev.worst_rank new_rank;
  current_streak_up = next_streak improves prev.last_rank prev.current_streak_up new_rank;
  current_streak_down = next_streak declines prev.last_rank prev.current_streak_down new_rank;
  last_rank = some new_rank;
  last_as_of = as_of;
}

-- `summaryScope`.
pub data SummaryScope : Type 0 where
  materialized_history returned_points : SummaryScope

-- The result of `rankingHistorySummary`.
pub record HistorySummary : Type 0 where
  pub best_rank : ℕ
  pub worst_rank : ℕ
  pub end_streak_rank_improving : ℕ
  pub end_streak_rank_declining : ℕ
  pub point_count : ℕ
  pub materialized : Bool
  pub summary_scope : SummaryScope

-- `Math.min(...ranks)` and `Math.max(...ranks)` of a list that is not empty.
abbrev pub least : ℕ → List ℕ → ℕ
least r rs = foldl min r rs

abbrev pub greatest : ℕ → List ℕ → ℕ
greatest r rs = foldl max r rs

unfoldable pub ranking_history_summary : List ℕ → Option TopicStats → Option HistorySummary
ranking_history_summary points (some stats) = some (record {
  best_rank = stats.best_rank;
  worst_rank = stats.worst_rank;
  end_streak_rank_improving = stats.current_streak_up;
  end_streak_rank_declining = stats.current_streak_down;
  point_count = length points;
  materialized = true;
  summary_scope = SummaryScope.materialized_history;
})
ranking_history_summary [] none = none
ranking_history_summary (r ∷ rs) none = some (record {
  best_rank = least r rs;
  worst_rank = greatest r rs;
  end_streak_rank_improving = end_streak_rank_improving (r ∷ rs);
  end_streak_rank_declining = end_streak_rank_declining (r ∷ rs);
  point_count = length (r ∷ rs);
  materialized = false;
  summary_scope = SummaryScope.returned_points;
})

-- The unique key of the stats table.
pub record StatsKey : Type 0 where
  pub entity : ℕ
  pub topic : ℕ
  pub window : TimeWindow

unfoldable pub stats_key_beq : StatsKey → StatsKey → Bool
stats_key_beq a b = a.entity == b.entity && (a.topic == b.topic && window_beq a.window b.window)

pub stats_key_beq_iff : (a b : StatsKey) → (stats_key_beq a b ≡ true) ↔ (a ≡ b)
unfolding stats_key_beq
stats_key_beq_iff a b = ground (arith, window_beq_iff a.window b.window)

instance abbrev pub key_of_stats : Key StatsKey
key_of_stats = record { same = stats_key_beq; same_iff = stats_key_beq_iff }

abbrev pub stats_key : ℕ → ℕ → TimeWindow → StatsKey
stats_key entity topic window = record { entity = entity; topic = topic; window = window }

abbrev pub StatsTable : Type 0
StatsTable = Dict StatsKey TopicStats

-- One round of `upsertEntityTopicStatsBatch`, for the item (entity, rank).
pub upsert_stats : ℕ → TimeWindow → ℕ → StatsTable → ℕ × ℕ → StatsTable
upsert_stats topic window as_of table (entity, rank) =
    let key = stats_key entity topic window in
    set key (next_entity_topic_stats (get key table) rank as_of) table

unfoldable pub upsert_entity_topic_stats_batch :
    StatsTable → ℕ → TimeWindow → ℕ → List (ℕ × ℕ) → StatsTable
unfolding upsert_stats
upsert_entity_topic_stats_batch table topic window as_of items =
    foldl (upsert_stats topic window as_of) table items
