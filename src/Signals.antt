-- ===== src/Signals.antt =====
-- src/domain/entity-signals.ts, and the signal part of src/domain/topic-kind-policy.ts: the latest
-- observation of each metric key, and which required signals an entity has.
-- A date is its number of milliseconds; the value of a metric is of any type.
pub mod Latest
pub mod Coverage
mod Tests
use ranking.Prelude.{
  ℕ, Bool, Option, none, some, List, [], ◌∷◌, ◌++◌, map, foldl, String, ltb, is_some, or_else,
  length, filter, all, if◌then◌else◌, ◌≡◌,
}
use ranking.Prelude.Keys.{nat_key, string_key, ◌==◌}
use ranking.Prelude.Dict.{Dict, get, set, has, keys, values}

-- `MetricLike`.
pub record Metric (F : Type 0) : Type 0 where
  pub entity_id : ℕ
  pub metric_key : String
  pub value : F
  pub source_tier : ℕ
  pub observed_at : ℕ

-- `SignalRow`.
pub record SignalRow : Type 0 where
  pub metric_key : String
  pub observed_at : ℕ

-- `SignalObservation`.
pub record Signal (F : Type 0) : Type 0 where
  pub key : String
  pub raw : F
  pub observed_at : ℕ
  pub tier : ℕ

-- `!cur || row.observedAt > cur.observedAt`
abbrev pub replaces : {A : Type 0} → (A → ℕ) → Option A → A → Bool
replaces time_of none row = Bool.true
replaces time_of (some c) row = ltb (time_of c) (time_of row)

-- The body of the loops that keep the latest row of each key.
module _ {A : Type 0} (key_of : A → String) (time_of : A → ℕ) (as_of : ℕ) where
  unfoldable pub keep_latest : Dict String A → A → Dict String A
  keep_latest m row =
      if ltb as_of (time_of row)
      then m
      else if replaces time_of (get (key_of row) m) row
      then set (key_of row) row m
      else m

  unfoldable pub latest_by_key : List A → Dict String A
  unfolding keep_latest
  latest_by_key = foldl keep_latest []

-- `EntitySignalIndex`.
pub record EntitySignals (F : Type 0) : Type 0 where
  pub entity_id : ℕ
  pub latest : Dict String (Metric F)
  pub signal_rows : List SignalRow
  pub signals : List (Signal F)
  pub present_keys : List String

module _ {F : Type 0} where
  unfoldable pub pick_latest_metrics_by_key : List (Metric F) → ℕ → Dict String (Metric F)
  pick_latest_metrics_by_key metrics as_of =
      latest_by_key (λ m. m.metric_key) (λ m. m.observed_at) as_of metrics

  unfoldable pub metrics_to_signal_observations : Dict String (Metric F) → List (Signal F)
  metrics_to_signal_observations latest =
      map
        (λ e. record {
          key = e.0;
          raw = e.1.value;
          observed_at = e.1.observed_at;
          tier = e.1.source_tier;
        })
        latest

  -- One round of `groupMetricsByEntity`.
  unfoldable pub add_to_group : Dict ℕ (List (Metric F)) → Metric F → Dict ℕ (List (Metric F))
  add_to_group groups m = set m.entity_id (or_else (get m.entity_id groups) [] ++ m ∷ []) groups

  unfoldable pub group_metrics_by_entity : List (Metric F) → Dict ℕ (List (Metric F))
  unfolding add_to_group
  group_metrics_by_entity = foldl add_to_group []

  unfoldable pub index_of_entity : Dict ℕ (List (Metric F)) → ℕ → ℕ → EntitySignals F
  index_of_entity groups as_of id =
      let latest = pick_latest_metrics_by_key (or_else (get id groups) []) as_of in
      record {
        entity_id = id;
        latest = latest;
        signal_rows =
            map (λ m. record { metric_key = m.metric_key; observed_at = m.observed_at })
              (values latest);
        signals = metrics_to_signal_observations latest;
        present_keys = keys latest;
      }

  unfoldable pub index_entity_signals : List (Metric F) → List ℕ → ℕ → List (EntitySignals F)
  index_entity_signals metrics entity_ids as_of =
      map (index_of_entity (group_metrics_by_entity metrics) as_of) entity_ids

unfoldable pub entity_has_required_signals : List SignalRow → List String → ℕ → Bool
entity_has_required_signals rows [] as_of = Bool.true
entity_has_required_signals rows (k ∷ ks) as_of =
    let latest = latest_by_key (λ (r : SignalRow). r.metric_key) (λ r. r.observed_at) as_of rows in
    all (λ key. has key latest) (k ∷ ks)

-- `signalCoverage` as the pair of its numerator and denominator.
abbrev pub contains : List String → String → Bool
contains [] k = Bool.false
contains (x ∷ xs) k = if x == k then Bool.true else contains xs k

unfoldable pub signal_hits : List String → List String → ℕ
signal_hits present required = length (filter (contains present) required)
