-- ===== src/Ranking.antt =====
-- src/rankings/rankings.service.ts: the data of the ranking store and the pure part of
-- `materializeRankingSnapshot`, from the metrics to the items of a snapshot.
pub mod Store
pub mod Jobs
pub mod Service
pub mod Queue
pub mod Writes
pub mod Settling
pub mod Requeue
pub mod Outcome
pub mod Order
pub mod History
mod Tests
mod RunTests
use ranking.Prelude.{
  ℕ, suc, ◌+◌, ◌≡◌, Bool, true, false, ◌&&◌, not, Option, none, some, List, [], ◌∷◌, ◌++◌, map,
  foldl, String, ltb, leb, if◌then◌else◌, length, filter, any, or_else, take, max,
}
use ranking.Prelude.Keys.{nat_key, ◌==◌}
use ranking.Prelude.Int.{ℤ, sub_ℕ}
use ranking.Prelude.Dict.{Dict, get, set, keys, values}
use ranking.Prelude.Number.{Number, eq, max_of, min_of}
use ranking.Prelude.Sorting.{sort_by}
use ranking.Window.{TimeWindow, window_beq}
use ranking.Signals.{
  Metric, Signal, EntitySignals, index_entity_signals, entity_has_required_signals, signal_hits,
  contains,
}
use ranking.Scoring.{
  DecayParams, TrendType, zero_f, one_f, sum_of, score_entity, robust_min_max_normalize,
  least_squares_slope, standard_dev, classify_trend, ai_confidence,
}
use ranking.Policy.{
  Policy, TopicKind, Ratio, below, min_coverage_to_rank, merge_policy_with_topic_kind,
}

-- A row of `RankingItem`.
pub record Item (F : Type 0) : Type 0 where
  pub entity_id : ℕ
  pub rank : ℕ
  pub previous_rank : Option ℕ
  pub rank_change : Option ℤ
  pub trend_type : TrendType
  pub trend_score : F
  pub popularity_score : F
  pub authority_score : F
  pub controversy_score : F
  pub confidence_score : F
  pub score_breakdown : Dict String F

-- A row of `RankingItemHistory`.
pub record HistoryRow (F : Type 0) : Type 0 where
  pub entity_id : ℕ
  pub topic_id : ℕ
  pub time_window : TimeWindow
  pub as_of : ℕ
  pub rank : ℕ
  pub score : F
  pub snapshot_id : ℕ

-- `Scored`, the local type of `materializeRankingSnapshot`.
pub record Scored (F : Type 0) : Type 0 where
  pub entity_id : ℕ
  pub total : F
  pub breakdown : Dict String F
  pub coverage : F
  pub avg_tier : F
  pub controversy : F
  pub authority : F

-- `new Set(keys)`, in the order of first occurrence.
unfoldable pub unique_from : List String → List String → List String
unique_from seen [] = []
unique_from seen (k ∷ ks) =
    let later = unique_from seen ks in
    let added = unique_from (k ∷ seen) ks in if contains seen k then later else k ∷ added

abbrev pub unique : List String → List String
unique = unique_from []

-- `if (eligibleIds.length > 0) entityIds = eligibleIds`
abbrev pub unless_empty : List ℕ → List ℕ → List ℕ
unless_empty ids [] = ids
unless_empty ids (e ∷ es) = e ∷ es

module _ {F : Type 0} where
  -- `entityId: { in: ids }, observedAt: { lte: snapshotTime }`
  unfoldable pub metrics_until : List (Metric F) → List ℕ → ℕ → List (Metric F)
  metrics_until table ids time =
      filter (λ m. any (λ id. m.entity_id == id) ids && leb m.observed_at time) table

  unfoldable pub eligible_ids : List (Metric F) → List ℕ → List String → ℕ → List ℕ
  eligible_ids table ids required time =
      map (λ idx. idx.entity_id)
        (filter (λ idx. entity_has_required_signals idx.signal_rows required time)
          (index_entity_signals (metrics_until table ids time) ids time))

  -- The entities with all required signals, or all entities if there is none.
  unfoldable pub entities_to_rank : List (Metric F) → List ℕ → List String → ℕ → List ℕ
  unfolding eligible_ids
  entities_to_rank table ids required time = unless_empty ids (eligible_ids table ids required time)

module _ {F : Type 0} ⦃num : Number F⦄ where
  open num use {lit, sub, div, lt}

  -- The coverage of an index: 1 if nothing is required.
  abbrev pub coverage_of : List String → EntitySignals F → Ratio
  coverage_of [] idx = (1, 1)
  coverage_of (k ∷ ks) idx = (signal_hits idx.present_keys (k ∷ ks), length (k ∷ ks))

  abbrev pub scored_of :
      List String → Dict String F → Option (DecayParams F) → ℕ → EntitySignals F → Scored F
  scored_of required weights decay time idx =
      let (total, breakdown) = score_entity idx.signals weights time decay in
      let (hits, slots) = coverage_of required idx in
      let tiers = map (λ s. lit s.tier 1) idx.signals in
      record {
        entity_id = idx.entity_id;
        total = total;
        breakdown = breakdown;
        coverage = lit hits slots;
        avg_tier = div (sum_of tiers) (lit (max 1 (length tiers)) 1);
        controversy = standard_dev (values breakdown);
        authority = lit hits slots;
      }

  -- The loop over `indexed`.
  unfoldable pub score_indexed :
      List String
      → Dict String F
      → Option (DecayParams F)
      → Ratio
      → ℕ
      → List (EntitySignals F)
      → List (Scored F)
  score_indexed required weights decay min_coverage time [] = []
  score_indexed required weights decay min_coverage time (idx ∷ rest) =
      let later = score_indexed required weights decay min_coverage time rest in
      if below (coverage_of required idx) min_coverage
      then later
      else scored_of required weights decay time idx ∷ later

  -- `scored.map((s, i) => ({ s, n: normalizedTotals[i] }))`
  unfoldable pub pair_up : List (Scored F) → List F → List (Scored F × F)
  pair_up [] ns = []
  pair_up (s ∷ ss) [] = []
  pair_up (s ∷ ss) (n ∷ ns) = (s, n) ∷ pair_up ss ns

  -- `(a, b) => b.n - a.n` below zero
  abbrev pub before_row : Scored F × F → Scored F × F → Bool
  before_row a b = lt (sub b.1 a.1) zero_f

  unfoldable pub rank_rows : List (Scored F) → List (Scored F × F)
  unfolding pair_up
  rank_rows scored =
      sort_by before_row (pair_up scored (robust_min_max_normalize (map (λ s. s.total) scored)))

  -- The history of an entity: `orderBy: { asOf: 'asc' }, take: 32`.
  unfoldable pub recent_history : List (HistoryRow F) → ℕ → TimeWindow → ℕ → List (HistoryRow F)
  recent_history table topic window entity = take 32 (
      sort_by (λ a b. ltb a.as_of b.as_of)
        (filter
          (λ h. h.entity_id == entity && (h.topic_id == topic && window_beq h.time_window window))
          table))

  abbrev abs_f : F → F
  abs_f x = if lt x zero_f then sub zero_f x else x

  -- The body of the loop over `rankRows`, for the row with 0-based index `rank - 1`.
  unfoldable pub make_item :
      List (HistoryRow F) → ℕ → TimeWindow → Dict ℕ ℕ → ℕ → Scored F × F → Item F
  make_item history topic window prev_rank rank (s, n) =
      let prev = get s.entity_id prev_rank in
      let series = map (λ h. h.score) (recent_history history topic window s.entity_id) ++ n ∷ [] in
      let slope = least_squares_slope series in
      let vol = standard_dev (if ltb 1 (length series) then series else n ∷ n ∷ []) in
      record {
        entity_id = s.entity_id;
        rank = rank;
        previous_rank = prev;
        rank_change = elim prev [ none ↦ none | some p ↦ some (sub_ℕ p rank) ];
        trend_type = classify_trend slope (div vol (max_of (lit 1 1_000_000) (abs_f n)));
        trend_score = slope;
        popularity_score = n;
        authority_score = s.authority;
        controversy_score = s.controversy;
        confidence_score =
            ai_confidence s.coverage (min_of one_f (standard_dev (values s.breakdown))) s.avg_tier;
        score_breakdown = s.breakdown;
      }

  unfoldable pub items_from :
      List (HistoryRow F) → ℕ → TimeWindow → Dict ℕ ℕ → ℕ → List (Scored F × F) → List (Item F)
  items_from history topic window prev_rank rank [] = []
  items_from history topic window prev_rank rank (row ∷ rows) =
      make_item history topic window prev_rank rank row
      ∷ items_from history topic window prev_rank (rank + 1) rows

  -- `prevRankByEntity`, from the items of the previous snapshot.
  unfoldable pub prev_ranks : List (Item F) → Dict ℕ ℕ
  prev_ranks = foldl (λ m it. set it.entity_id it.rank m) []
