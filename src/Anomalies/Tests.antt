-- ===== src/Anomalies/Tests.antt =====
-- Examples for anomalies, with fixed-point numbers.
use ranking.Prelude.{ℕ, ◌*◌, ◌≡◌, refl, List, [], ◌∷◌, map, some, none, String}
use ranking.Prelude.Int.{ℤ, pos}
use ranking.Prelude.Keys.{string_key}
use ranking.Prelude.Dict.{get}
use ranking.Scoring.Fixed.{fixed}
use ranking.Signals.Latest.{LatestOf}
use ranking.Anomalies.{
  Anomaly, Code, Severity, Thresholds, Context, key_of, best_by_key, dedupe_trend_anomalies,
  worst_trend_alert_status,
}
use ranking.Anomalies.Detect.{detect_streak_anomalies}
use ranking.Anomalies.Dedupe.{weight, best_by_key-LatestOf, worst_status-dedupe}

abbrev whole : ℕ → ℤ
whole n = pos (n * 1_000_000_000)

abbrev context : Context
context = record {
  topic_id = "1";
  topic_slug = none;
  entity_id = some "7";
  entity_name = none;
  at = 100;
}

abbrev thresholds : Thresholds ℤ
thresholds = record {
  min_rank_change_warn = whole 3;
  min_rank_change_critical = whole 8;
  surge_count_warn = whole 5;
  volatile_share_warn = whole 1;
  momentum_imbalance_ratio = whole 3;
  streak_steps_warn = whole 2;
}

-- Two steps up are worth a warning, four are critical.
streaks :
    map (λ a. a.severity) (detect_streak_anomalies (9 ∷ 7 ∷ 5 ∷ 4 ∷ 1 ∷ []) thresholds context)
    ≡ Severity.critical ∷ []
unfolding detect_streak_anomalies ranking.Stats.end_streak
streaks = refl

abbrev plunge : Severity → ℕ → Anomaly ℤ
plunge severity change = record {
  code = Code.entity_rank_plunge;
  severity = severity;
  topic_id = "1";
  topic_slug = none;
  snapshot_id = some "4";
  entity_id = some "7";
  entity_name = none;
  value = whole change;
  threshold = whole 3;
  detected_at = 100;
}

abbrev items : List (Anomaly ℤ)
items =
    plunge Severity.warn 4
    ∷ plunge Severity.critical 9
    ∷ plunge Severity.critical 10
    ∷ record (plunge Severity.warn 5) { entity_id = some "8" }
    ∷ []

abbrev key : String
key = key_of (plunge Severity.warn 4)

best_by_key-LatestOf_example : LatestOf key_of weight 2 key items (get key (best_by_key items))
best_by_key-LatestOf_example = best_by_key-LatestOf items key

worst_status-dedupe_example :
    worst_trend_alert_status (dedupe_trend_anomalies items) ≡ worst_trend_alert_status items
worst_status-dedupe_example = worst_status-dedupe items
