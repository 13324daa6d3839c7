-- ===== src/Ranking/Tests.antt =====
-- Examples for a run: one topic with two entities, in fixed-point numbers.
use mathlib.Core.List.{Perm}
use ranking.Prelude.{ℕ, ◌*◌, ◌≡◌, ◌≢◌, refl, List, [], ◌∷◌, map, length, String, All}
use ranking.Prelude.Int.{ℤ, pos}
use ranking.Window.{TimeWindow, window_beq}
use ranking.Ranking.History.{own_points, recent_history_stays}
use ranking.Ranking.{HistoryRow, recent_history}
use ranking.Prelude.{zero, suc, ◌≤◌, ltb, arith, ◌++◌, false}
use ranking.Prelude.Dict.{get, set}
use ranking.Signals.{
  Metric, index_entity_signals, index_of_entity, group_metrics_by_entity,
  pick_latest_metrics_by_key, latest_by_key, entity_has_required_signals,
}
use ranking.Scoring.{robust_min_max_normalize}
use ranking.Scoring.Fixed.{fixed, fixed-IsOrdered}
use ranking.Ranking.{Scored, metrics_until, eligible_ids, entities_to_rank, rank_rows, items_from}
use ranking.Ranking.Order.{
  HasAll, IsDescending, count_from, entities_to_rank-HasAll, rank_rows-Perm, rank_rows-IsDescending,
  items_from_ranks,
}

abbrev metric : ℕ → String → ℕ → ℕ → Metric ℤ
metric entity key value time = record {
  entity_id = entity;
  metric_key = key;
  value = pos (value * 1_000_000_000);
  source_tier = 1;
  observed_at = time;
}

abbrev metrics : List (Metric ℤ)
metrics =
    metric 7 "streams" 10 100
    ∷ metric 8 "streams" 20 110
    ∷ metric 7 "social" 50 130
    ∷ metric 8 "social" 50 130
    ∷ metric 9 "social" 50 130
    ∷ []

abbrev needed : List String
needed = "streams" ∷ "social" ∷ []

two_eligible : eligible_ids metrics (7 ∷ 8 ∷ 9 ∷ []) needed 200 ≡ 7 ∷ 8 ∷ []
unfolding eligible_ids index_entity_signals index_of_entity group_metrics_by_entity
    pick_latest_metrics_by_key latest_by_key metrics_until entity_has_required_signals get set
two_eligible = refl

some_eligible : eligible_ids metrics (7 ∷ 8 ∷ 9 ∷ []) needed 200 ≢ []
some_eligible e = absurd (cc (two_eligible))

-- Entity 9 lacks a signal, and so is left out.
entities_to_rank-HasAll_example :
    All
      (HasAll metrics (7 ∷ 8 ∷ 9 ∷ []) needed 200)
      (entities_to_rank metrics (7 ∷ 8 ∷ 9 ∷ []) needed 200)
entities_to_rank-HasAll_example =
    entities_to_rank-HasAll metrics (7 ∷ 8 ∷ 9 ∷ []) needed 200 some_eligible

abbrev scored_of : ℕ → ℕ → Scored ℤ
scored_of id total = record {
  entity_id = id;
  total = pos (total * 1_000_000_000);
  breakdown = [];
  coverage = pos 1_000_000_000;
  avg_tier = pos 1_000_000_000;
  controversy = pos 0;
  authority = pos 1_000_000_000;
}

abbrev scored : List (Scored ℤ)
scored = scored_of 7 1 ∷ scored_of 8 4 ∷ scored_of 9 2 ∷ scored_of 10 3 ∷ []

rank_rows-Perm_example : Perm (map (λ r. r.0) (rank_rows scored)) scored
rank_rows-Perm_example = rank_rows-Perm scored

rank_rows-IsDescending_example : IsDescending (map (λ r. r.1) (rank_rows scored))
unfolding robust_min_max_normalize
rank_rows-IsDescending_example =
    rank_rows-IsDescending fixed-IsOrdered scored (refl, (refl, (refl, (refl, tt))))

items_from_ranks_example :
    (map (λ it. it.rank) (items_from [] 1 TimeWindow.week [] 1 (rank_rows scored))
      ≡ count_from 1 (length (rank_rows scored)))
    × (map (λ it. it.entity_id) (items_from [] 1 TimeWindow.week [] 1 (rank_rows scored))
        ≡ map (λ r. r.0.entity_id) (rank_rows scored))
    × (map (λ it. it.popularity_score) (items_from [] 1 TimeWindow.week [] 1 (rank_rows scored))
        ≡ map (λ r. r.1) (rank_rows scored))
items_from_ranks_example = items_from_ranks [] 1 TimeWindow.week [] 1 (rank_rows scored)

abbrev point : ℕ → HistoryRow ℤ
point time = record {
  entity_id = 7;
  topic_id = 1;
  time_window = TimeWindow.week;
  as_of = time;
  rank = 1;
  score = pos time;
  snapshot_id = time;
}

abbrev points : ℕ → List (HistoryRow ℤ)
points zero = []
points (suc n) = point n ∷ points n

points_old :
    (n : ℕ)
    → n ≤ 100
    → All (λ h. ltb 100 h.as_of ≡ false) (own_points 1 TimeWindow.week 7 (points n))
unfolding window_beq
points_old zero h = tt
points_old (suc n) h = (ground arith, points_old n (omega arith))

recent_history_stays_example :
    recent_history (points 32 ++ point 100 ∷ []) 1 TimeWindow.week 7
    ≡ recent_history (points 32) 1 TimeWindow.week 7
unfolding window_beq
recent_history_stays_example =
    recent_history_stays 1 TimeWindow.week 7 (points 32) (point 100) (omega arith)
      (points_old 32 (omega arith))
