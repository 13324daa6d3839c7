-- ===== src/Anomalies/Detect.antt =====
-- src/domain/trend-anomaly.ts: the two detections.
use ranking.Prelude.{
  ℕ, Bool, true, false, ◌&&◌, Option, none, some, List, [], ◌∷◌, ◌++◌, filter, String, ltb,
  if◌then◌else◌, length, or_else, max, min,
}
use ranking.Prelude.Keys.{string_key, ◌==◌}
use ranking.Prelude.Dict.{get}
use ranking.Prelude.Number.{Number, le, max_of, min_of}
use ranking.Stats.{end_streak_rank_improving, end_streak_rank_declining}
use ranking.Anomalies.{Severity, Code, Thresholds, Anomaly, Mover, TrendPayload, Context}

-- `!text` is false.
abbrev pub is_given : Option String → Bool
is_given none = false
is_given (some t) = if t == "" then false else true

-- `payload.kind && payload.kind !== 'snapshot_summary'`
abbrev pub is_other_kind : Option String → Bool
is_other_kind none = false
is_other_kind (some k) = if k == "" then false else if k == "snapshot_summary" then false else true

concat_map : {A B : Type 0} → (A → List B) → List A → List B
concat_map f [] = []
concat_map f (x ∷ xs) = f x ++ concat_map f xs

abbrev pub severity_if : Bool → Severity
severity_if high = if high then Severity.critical else Severity.warn

module _ {F : Type 0} ⦃num : Number F⦄ where
  open num use {lit, add, sub, mul, div, lt, is_finite}

  abbrev zero_f : F
  zero_f = lit 0 1

  abbrev pub found : Context → Option String → Code → Severity → F → F → Anomaly F
  found ctx snapshot code severity value threshold = record {
    code = code;
    severity = severity;
    topic_id = ctx.topic_id;
    topic_slug = ctx.topic_slug;
    snapshot_id = snapshot;
    entity_id = ctx.entity_id;
    entity_name = ctx.entity_name;
    value = value;
    threshold = threshold;
    detected_at = ctx.at;
  }

  -- The two tests of a rank change, given its size.
  abbrev pub rank_change_found :
      Context → Option String → Thresholds F → Code → Mover F → F → List (Anomaly F)
  rank_change_found ctx snapshot t code m size =
      let ctx' = record ctx { entity_id = m.entity_id; entity_name = m.canonical_name } in
      if le t.min_rank_change_critical size
      then found ctx' snapshot code Severity.critical size t.min_rank_change_critical ∷ []
      else if le t.min_rank_change_warn size
      then found ctx' snapshot code Severity.warn size t.min_rank_change_warn ∷ []
      else []

  -- A gain has a positive change, a loss a negative one; `size` is what is compared.
  pub mover_found :
      (F → Bool)
      → (F → F)
      → Code
      → Context
      → Option String
      → Thresholds F
      → Mover F
      → List (Anomaly F)
  mover_found counts size code ctx snapshot t m = elim m.rank_change [
    | none ↦ []
    | some rc ↦
        if is_given m.entity_id && (is_finite rc && counts rc)
        then rank_change_found ctx snapshot t code m (size rc)
        else []
  ]

  -- `(m.rankChange ?? 0)` passes the test.
  abbrev changed : (F → Bool) → Mover F → Bool
  changed test m = test (or_else m.rank_change zero_f)

  -- The part on momentum; the counts are positive.
  momentum_found : Context → Option String → Thresholds F → ℕ → ℕ → List (Anomaly F)
  momentum_found ctx snapshot t gainers losers =
      let ratio = lit (max gainers losers) (min gainers losers) in
      if ltb 0 gainers && (ltb 0 losers && le t.momentum_imbalance_ratio ratio)
      then found ctx snapshot Code.snapshot_momentum_imbalance
          (severity_if (le (mul t.momentum_imbalance_ratio (lit 15 10)) ratio)) ratio
          t.momentum_imbalance_ratio
        ∷ []
      else []

  pub detect_anomalies_from_snapshot_summary :
      TrendPayload F → Thresholds F → Context → List (Anomaly F)
  unfolding mover_found concat_map momentum_found
  detect_anomalies_from_snapshot_summary p t ctx =
      let snapshot = p.snapshot_id in
      let base = record ctx { entity_id = none; entity_name = none } in
      let surges = or_else (get "SURGE" p.trend_type_counts) zero_f in
      let share =
        div (or_else (get "VOLATILE" p.trend_type_counts) zero_f)
          (max_of (lit 1 1) (or_else p.item_count zero_f)) in
      let gainers = length (filter (changed (λ x. lt zero_f x)) p.top_rank_gainers) in
      let losers = length (filter (changed (λ x. lt x zero_f)) p.top_rank_losers) in
      if is_other_kind p.kind
      then []
      else concat_map
          (mover_found (λ x. lt zero_f x) (λ x. x) Code.entity_rank_surge base snapshot t)
          p.top_rank_gainers
        ++ (concat_map
              (mover_found (λ x. lt x zero_f) (λ x. sub zero_f x) Code.entity_rank_plunge ctx
                snapshot t)
              p.top_rank_losers
            ++ ((if le t.surge_count_warn surges
                  then found base snapshot Code.snapshot_surge_cluster
                      (severity_if (le (mul t.surge_count_warn (lit 2 1)) surges)) surges
                      t.surge_count_warn
                    ∷ []
                  else [])
                ++ ((if le t.volatile_share_warn share
                      then found base snapshot Code.snapshot_volatile_cluster
                          (severity_if
                            (le (min_of (lit 1 1) (mul t.volatile_share_warn (lit 15 10))) share))
                          share t.volatile_share_warn
                        ∷ []
                      else [])
                    ++ momentum_found base snapshot t gainers losers)))

  -- One of the two tests of `detectStreakAnomalies`.
  abbrev pub streak_found : Thresholds F → Context → Code → ℕ → List (Anomaly F)
  streak_found t ctx code steps =
      if le t.streak_steps_warn (lit steps 1)
      then found ctx none code (severity_if (le (mul t.streak_steps_warn (lit 2 1)) (lit steps 1)))
          (lit steps 1) t.streak_steps_warn
        ∷ []
      else []

  unfoldable pub detect_streak_anomalies : List ℕ → Thresholds F → Context → List (Anomaly F)
  detect_streak_anomalies points t ctx =
      streak_found t ctx Code.entity_streak_improving (end_streak_rank_improving points)
      ++ streak_found t ctx Code.entity_streak_declining (end_streak_rank_declining points)
