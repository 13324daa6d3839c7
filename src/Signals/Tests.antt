-- ===== src/Signals/Tests.antt =====
-- Examples for the metrics of an entity.
use ranking.Prelude.{ℕ, ◌≡◌, ◌↔◌, true, List, [], ◌∷◌, String, length, some, refl}
use ranking.Prelude.Keys.{string_key}
use ranking.Prelude.Dict.{get, set}
use ranking.Signals.{
  Metric, latest_by_key, pick_latest_metrics_by_key, index_of_entity, group_metrics_by_entity,
  entity_has_required_signals, signal_hits,
}
use ranking.Signals.Latest.{LatestOf, pick_latest-LatestOf}
use ranking.Signals.Coverage.{
  required_in, entity_has_required-eq-required_in, entity_has_required_iff_full,
}

abbrev metric : ℕ → String → ℕ → ℕ → Metric ℕ
metric entity key value time = record {
  entity_id = entity;
  metric_key = key;
  value = value;
  source_tier = 1;
  observed_at = time;
}

abbrev metrics : List (Metric ℕ)
metrics =
    metric 7 "streams" 10 100
    ∷ metric 8 "streams" 20 110
    ∷ metric 7 "streams" 30 120
    ∷ metric 7 "streams" 40 120
    ∷ metric 7 "social" 50 130
    ∷ metric 7 "streams" 60 140
    ∷ []

abbrev needed : List String
needed = "social" ∷ "streams" ∷ []

-- Of the two newest observations up to 130, the first is kept.
latest_streams :
    get "streams" (pick_latest_metrics_by_key metrics 130) ≡ some (metric 7 "streams" 30 120)
unfolding pick_latest_metrics_by_key get latest_by_key set
latest_streams = refl

pick_latest-LatestOf_example :
    LatestOf
      (λ (m : Metric ℕ). m.metric_key)
      (λ m. m.observed_at)
      130
      "streams"
      metrics
      (get "streams" (pick_latest_metrics_by_key metrics 130))
pick_latest-LatestOf_example = pick_latest-LatestOf metrics 130 "streams"

entity_has_required-eq-required_in_example :
    entity_has_required_signals
      (index_of_entity (group_metrics_by_entity metrics) 130 7).signal_rows
      needed
      130
    ≡ required_in metrics 130 7 needed
entity_has_required-eq-required_in_example = entity_has_required-eq-required_in metrics 130 7 needed

entity_has_required_iff_full_example :
    let idx = index_of_entity (group_metrics_by_entity metrics) 130 8 in
    (entity_has_required_signals idx.signal_rows needed 130 ≡ true)
    ↔ (signal_hits idx.present_keys needed ≡ length needed)
entity_has_required_iff_full_example = entity_has_required_iff_full metrics 130 8 needed
