-- ===== src/Anomalies/Dedupe.antt =====
-- `dedupeTrendAnomalies` of src/domain/trend-anomaly.ts: which item of a key is kept, and that the
-- status of the alert is not changed.
use ranking.Prelude.{
  ℕ, ◌≤◌, ◌≡◌, refl, sym, ap, ◌∙◌, true, false, List, [], ◌∷◌, foldl, any, if◌then◌else◌,
  Bool-cases, inl, inr, arith, max, String, leb,
}
use ranking.Prelude.Keys.{string_key}
use ranking.Prelude.Dict.{Dict, get, set, values}
use ranking.Prelude.Sorting.{sort_by, insert}
use ranking.Signals.{keep_latest, latest_by_key}
use ranking.Signals.Latest.{LatestOf, latest_by_key-LatestOf}
use ranking.Anomalies.{
  Anomaly, AlertStatus, rank_of, key_of, keep_best, best_by_key, before, outranks,
  dedupe_trend_anomalies, is_critical, is_warn, worst_trend_alert_status,
}

-- The status is read off the largest weight.
abbrev status_at : ℕ → AlertStatus
status_at n =
    if leb 2 n then AlertStatus.critical else if leb 1 n then AlertStatus.warn else AlertStatus.ok

module _ {F : Type 0} where
  abbrev pub weight : Anomaly F → ℕ
  weight a = rank_of a.severity

  weight-le : (a : Anomaly F) → weight a ≤ 2
  unfolding rank_of
  weight-le a = ground arith

  foldl-keep_best :
      (m : Dict String (Anomaly F)) (items : List (Anomaly F))
      → foldl keep_best m items ≡ foldl (keep_latest key_of weight 2) m items
  unfolding keep_best keep_latest
  foldl-keep_best m [] = refl
  foldl-keep_best m (a ∷ items) = ground (arith, foldl-keep_best (keep_best m a) items, weight-le a)

  -- Of the items with the same code, entity, snapshot and topic, the map of `dedupeTrendAnomalies`
  -- keeps the first of the most severe ones, and it has an entry for each such group.
  pub best_by_key-LatestOf :
      (items : List (Anomaly F)) (k : String)
      → LatestOf key_of weight 2 k items (get k (best_by_key items))
  unfolding best_by_key latest_by_key
  best_by_key-LatestOf items k =
      rw (foldl-keep_best [] items) (latest_by_key-LatestOf key_of weight 2 k items)

  -- The largest weight of a list, and 0 for none.
  level : List (Anomaly F) → ℕ
  level [] = 0
  level (a ∷ items) = max (weight a) (level items)

  level-set :
      (k : String) (a : Anomaly F) (m : Dict String (Anomaly F))
      → outranks (get k m) a ≡ true
      → level (values (set k a m)) ≡ max (weight a) (level (values m))
  unfolding level get set
  level-set k a [] h = refl
  level-set k a ((j, b) ∷ m) h = ground (arith, level-set k a m)

  level-keep :
      (k : String) (a : Anomaly F) (m : Dict String (Anomaly F))
      → outranks (get k m) a ≡ false
      → level (values m) ≡ max (weight a) (level (values m))
  unfolding level get
  level-keep k a [] h = absurd (cc)
  level-keep k a ((j, b) ∷ m) h = ground (arith, level-keep k a m)

  level-keep_best :
      (m : Dict String (Anomaly F)) (a : Anomaly F)
      → level (values (keep_best m a)) ≡ max (weight a) (level (values m))
  unfolding keep_best
  level-keep_best m a = elim (Bool-cases (outranks (get (key_of a) m) a)) [
    | inl e ↦ rw e (level-set (key_of a) a m e)
    | inr e ↦ rw e (level-keep (key_of a) a m e)
  ]

  level-foldl :
      (m : Dict String (Anomaly F)) (items : List (Anomaly F))
      → level (values (foldl keep_best m items)) ≡ max (level (values m)) (level items)
  unfolding level
  level-foldl m [] = omega arith
  level-foldl m (a ∷ items) = omega (arith, level-foldl (keep_best m a) items, level-keep_best m a)

  level-insert :
      (a : Anomaly F) (items : List (Anomaly F))
      → level (insert before a items) ≡ max (weight a) (level items)
  unfolding level insert
  level-insert a [] = refl
  level-insert a (b ∷ items) = ground (arith, level-insert a items)

  level-sort_by : (items : List (Anomaly F)) → level (sort_by before items) ≡ level items
  unfolding level sort_by
  level-sort_by [] = refl
  level-sort_by (a ∷ items) =
      level-insert a (sort_by before items) ∙ ap (max (weight a)) (level-sort_by items)

  level-dedupe : (items : List (Anomaly F)) → level (dedupe_trend_anomalies items) ≡ level items
  unfolding dedupe_trend_anomalies best_by_key level
  level-dedupe items =
      level-sort_by (values (best_by_key items)) ∙ (level-foldl [] items ∙ omega arith)

  any_critical-level :
      (items : List (Anomaly F)) → any (λ a. is_critical a.severity) items ≡ leb 2 (level items)
  unfolding level rank_of
  any_critical-level [] = refl
  any_critical-level (a ∷ items) = ground (arith, any_critical-level items)

  any_warn-level :
      (items : List (Anomaly F))
      → leb 2 (level items) ≡ false
      → any (λ a. is_warn a.severity) items ≡ leb 1 (level items)
  unfolding level rank_of
  any_warn-level [] h = refl
  any_warn-level (a ∷ items) h = ground (arith, any_warn-level items)

  status-level :
      (items : List (Anomaly F)) → worst_trend_alert_status items ≡ status_at (level items)
  unfolding worst_trend_alert_status
  status-level items = ground (arith, any_critical-level items, any_warn-level items)

  -- The removal of duplicates does not change the status of the alert.
  pub worst_status-dedupe :
      (items : List (Anomaly F))
      → worst_trend_alert_status (dedupe_trend_anomalies items) ≡ worst_trend_alert_status items
  worst_status-dedupe items =
      status-level (dedupe_trend_anomalies items)
      ∙ (ap status_at (level-dedupe items) ∙ sym (status-level items))
