-- ===== src/Stats/Tests.antt =====
-- Examples for streaks and statistics.
use mathlib.Core.Option
use ranking.Prelude.{ℕ, ◌+◌, ◌≡◌, refl, List, [], ◌∷◌, ◌++◌, map, foldl, none, if◌then◌else◌}
use ranking.Prelude.Dict.{get}
use ranking.Window.{TimeWindow}
use ranking.Stats.{
  StatsTable, stats_key, key_of_stats, improves, end_streak, ranking_history_summary,
  upsert_entity_topic_stats_batch,
}
use ranking.Stats.Streaks.{end_streak-snoc}
use ranking.Stats.Materialized.{stats_after, as_materialized, ranking_history_summary_agrees}
use ranking.Stats.Batch.{own_items, after_item, get-upsert_batch}

-- From rank 9 to 5 and to 3 is a streak of two.
two_improvements : end_streak improves (4 ∷ 9 ∷ 5 ∷ 3 ∷ []) ≡ 2
unfolding end_streak
two_improvements = refl

end_streak-snoc_example :
    end_streak improves (((4 ∷ 9 ∷ []) ++ 5 ∷ []) ++ 3 ∷ [])
    ≡ (if improves 3 5 then end_streak improves ((4 ∷ 9 ∷ []) ++ 5 ∷ []) + 1 else 0)
end_streak-snoc_example = end_streak-snoc improves (4 ∷ 9 ∷ []) 5 3

abbrev history : List (ℕ × ℕ)
history = (4, 10) ∷ (9, 20) ∷ (5, 30) ∷ (3, 40) ∷ []

ranking_history_summary_agrees_example :
    ranking_history_summary (map (λ p. p.0) history) (stats_after history)
    ≡ Option.map as_materialized (ranking_history_summary (map (λ p. p.0) history) none)
ranking_history_summary_agrees_example = ranking_history_summary_agrees history

abbrev table : StatsTable
table = upsert_entity_topic_stats_batch [] 1 TimeWindow.week 10 ((7, 2) ∷ (8, 1) ∷ [])

get-upsert_batch_example :
    get
      (stats_key 7 1 TimeWindow.week)
      (upsert_entity_topic_stats_batch table 1 TimeWindow.week 20 ((8, 2) ∷ (7, 1) ∷ []))
    ≡ foldl
        (after_item 1 TimeWindow.week 20 (stats_key 7 1 TimeWindow.week))
        (get (stats_key 7 1 TimeWindow.week) table)
        (own_items 1 TimeWindow.week 20 (stats_key 7 1 TimeWindow.week) ((8, 2) ∷ (7, 1) ∷ []))
get-upsert_batch_example =
    get-upsert_batch 1 TimeWindow.week 20 (stats_key 7 1 TimeWindow.week) table
      ((8, 2) ∷ (7, 1) ∷ [])
