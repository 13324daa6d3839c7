-- ===== src/Policy.antt =====
-- The policy of a topic version: src/domain/topic-kind-policy.ts (presets and merging).
pub mod Parse
pub mod Weights
pub mod Decay
pub mod Accepted
pub mod Diff
pub mod Unchanged
mod Tests
use ranking.Prelude.{ℕ, ◌*◌, Bool, Option, none, some, List, String, ltb, or_else}
use ranking.Prelude.Dict.{Dict, keys}
use ranking.Prelude.Number.{Number}
use ranking.Scoring.{DecayParams}

-- The enum `TopicKind` of prisma/schema.prisma.
pub data TopicKind : Type 0 where
  objective semi_objective subjective_trend : TopicKind

-- An entry of `RankingPolicyJson.metricDefinitions`.
pub record MetricDefinition : Type 0 where
  pub key : String
  pub label : String
  pub description : String
  pub normalization_guide : String
  pub source_hints : List String

-- `RankingPolicyJson`; an entity id is a number.
pub record Policy (F : Type 0) : Type 0 where
  pub entity_ids : Option (List ℕ)
  pub weights : Dict String F
  pub required_signal_keys : Option (List String)
  pub metric_definitions : Option (List MetricDefinition)
  pub decay : Option (DecayParams F)

-- A coverage, and a bound on it, as numerator and denominator.
abbrev pub Ratio : Type 0
Ratio = ℕ × ℕ

-- `TopicKindPreset.minCoverageToRank`.
unfoldable pub min_coverage_to_rank : TopicKind → Ratio
min_coverage_to_rank TopicKind.objective = (1, 1)
min_coverage_to_rank TopicKind.semi_objective = (67, 100)
min_coverage_to_rank TopicKind.subjective_trend = (1, 1)

-- `coverage < minCoverage`; denominators are not 0.
abbrev pub below : Ratio → Ratio → Bool
below (a, b) (c, d) = ltb (a * d) (c * b)

module _ {F : Type 0} ⦃num : Number F⦄ where
  -- `TopicKindPreset.decay`.
  unfoldable pub preset_decay : TopicKind → DecayParams F
  preset_decay TopicKind.objective = record {
    half_life_days = some (num.lit 14 1);
    breakpoints = none;
  }
  preset_decay TopicKind.semi_objective = record {
    half_life_days = some (num.lit 10 1);
    breakpoints = none;
  }
  preset_decay TopicKind.subjective_trend = record {
    half_life_days = some (num.lit 5 1);
    breakpoints = none;
  }

  unfoldable pub merge_policy_with_topic_kind : TopicKind → Policy F → Policy F
  merge_policy_with_topic_kind kind policy = record policy {
    required_signal_keys = some (or_else policy.required_signal_keys (keys policy.weights));
    decay = some (or_else policy.decay (preset_decay kind));
  }
