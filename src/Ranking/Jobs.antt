-- ===== src/Ranking/Jobs.antt =====
-- src/rankings/rankings.service.ts: `materializeRankingSnapshot`, `runRanking`, `enqueueRanking` and
-- `processRankingJob`.
use ranking.Prelude.{
  ℕ, suc, ◌+◌, Bool, true, false, ◌&&◌, ◌||◌, Option, none, some, List, [], ◌∷◌, ◌++◌, map, foldl,
  String, ltb, if◌then◌else◌, filter, or_else,
}
use ranking.Prelude.Keys.{nat_key, ◌==◌}
use ranking.Prelude.Dict.{Dict, keys}
use ranking.Prelude.Number.{Number}
use ranking.Prelude.Sorting.{sort_by}
use ranking.Window.{TimeWindow}
use ranking.Signals.{index_entity_signals}
use ranking.Policy.{Policy, TopicKind, merge_policy_with_topic_kind, min_coverage_to_rank}
use ranking.Ranking.{
  Item, Scored, unique, metrics_until, entities_to_rank, score_indexed, rank_rows, items_from,
  prev_ranks,
}
use ranking.Ranking.Store.{
  Failure, TopicRanking, Topic, TopicVersion, Snapshot, Db, Plan, Result, ok, err, find_by,
  find_snapshot, update_ranking, complete,
}
use ranking.Ranking.Store.Transaction.{Surroundings, persist_snapshot}

-- `RunRankingArgs`.
pub record RunArgs : Type 0 where
  pub topic_version_id : ℕ
  pub time_window : TimeWindow
  pub window_start : ℕ
  pub window_end : ℕ
  pub as_of : Option ℕ

-- `args.asOf ?? args.windowEnd`
abbrev pub snapshot_time : RunArgs → ℕ
snapshot_time args = or_else args.as_of args.window_end

module _ {F : Type 0} ⦃num : Number F⦄ where
  abbrev default_weights : Dict String F
  default_weights =
      ("streams", num.lit 35 100)
      ∷ ("mentions", num.lit 25 100)
      ∷ ("social", num.lit 2 10)
      ∷ ("news", num.lit 2 10)
      ∷ []

  abbrev default_policy : Policy F
  default_policy = record {
    entity_ids = none;
    weights = default_weights;
    required_signal_keys = none;
    metric_definitions = none;
    decay = none;
  }

-- The distinct entities of the metrics, in the order of first occurrence.
distinct_from : List ℕ → List ℕ → List ℕ
distinct_from seen [] = []
distinct_from seen (id ∷ ids) =
    let later = distinct_from seen ids in
    let added = distinct_from (id ∷ seen) ids in
    if ranking.Prelude.holds seen id then later else id ∷ added

module _ {F : Type 0} where
  -- `resolveEntityIds`.
  unfoldable pub resolve_entity_ids : Db F → List ℕ → List ℕ
  unfolding distinct_from
  resolve_entity_ids db [] = distinct_from [] (map (λ m. m.entity_id) db.metrics)
  resolve_entity_ids db (id ∷ ids) = id ∷ ids

  -- The snapshots before a time, the newest first.
  abbrev previous_snapshots : ℕ → ℕ → List (Snapshot F) → List (Snapshot F)
  previous_snapshots ranking time snapshots =
      sort_by (λ a b. ltb b.snapshot_time a.snapshot_time)
        (filter (λ s. s.topic_ranking_id == ranking && ltb s.snapshot_time time) snapshots)

  abbrev items_of_first : List (Snapshot F) → List (Item F)
  items_of_first [] = []
  items_of_first (s ∷ _) = s.items

-- What the reading part of `materializeRankingSnapshot` comes to.
pub data Planned (F : Type 0) : Type 0 where
  existing : Snapshot F → Planned F
  planned : Plan F → Planned F

-- The order of the checks: the topic, the entities, then the snapshot that may be there already.
abbrev pub plan_from :
    {F : Type 0}
    → Option Topic
    → List ℕ
    → Option (Snapshot F)
    → (TopicKind → Result (Planned F))
    → Result (Planned F)
plan_from none ids found plan = err Failure.topic_not_found
plan_from (some topic) [] found plan = err Failure.no_entities
plan_from (some topic) (_ ∷ _) (some snap) plan = ok (Planned.existing snap)
plan_from (some topic) (_ ∷ _) none plan = plan topic.kind

module _ {F : Type 0} ⦃num : Number F⦄ (db : Db F) (ranking : TopicRanking)
    (version : TopicVersion F) (args : RunArgs) where
  -- The policy in force: the version's own, or the defaults if it does not parse, with what the kind
  -- of the topic adds.
  abbrev policy_of : TopicKind → Policy F
  policy_of kind = merge_policy_with_topic_kind kind (or_else version.policy default_policy)

  abbrev required_of : TopicKind → List String
  required_of kind =
      let policy = policy_of kind in
      unique (or_else policy.required_signal_keys (keys policy.weights))

  -- The scored entities of a topic of this kind.
  unfoldable pub scored_entities : TopicKind → List (Scored F)
  scored_entities kind =
      let time = snapshot_time args in
      let policy = policy_of kind in
      let required = required_of kind in
      let ids =
        entities_to_rank db.metrics (resolve_entity_ids db version.raw_entity_ids) required time in
      score_indexed required policy.weights policy.decay (min_coverage_to_rank kind) time
        (index_entity_signals (metrics_until db.metrics ids time) ids time)

  -- The items of the new snapshot.
  unfoldable pub planned_items : List (Scored F) → List (Item F)
  planned_items scored =
      items_from db.history version.topic_id args.time_window
        (prev_ranks
          (items_of_first (previous_snapshots ranking.id (snapshot_time args) db.snapshots)))
        1 (rank_rows scored)

  unfoldable pub plan_scored : TopicKind → List (Scored F) → Result (Planned F)
  plan_scored kind [] = err Failure.no_coverage
  plan_scored kind (s ∷ scored) = ok (
      Planned.planned (record {
        topic_ranking_id = ranking.id;
        topic_version_id = version.id;
        topic_id = version.topic_id;
        version = version.version;
        time_window = args.time_window;
        snapshot_time = snapshot_time args;
        items = planned_items (s ∷ scored);
        weights = (policy_of kind).weights;
      }))

  -- The reading part of `materializeRankingSnapshot`.
  unfoldable pub plan_snapshot : Result (Planned F)
  plan_snapshot =
      plan_from (find_by (λ t. t.id == version.topic_id) db.topics)
        (resolve_entity_ids db version.raw_entity_ids)
        (find_snapshot ranking.id (snapshot_time args) db.snapshots)
        (λ kind. plan_scored kind (scored_entities kind))

module _ {F : Type 0} ⦃num : Number F⦄ (env : Surroundings F) (now : ℕ) where
  -- The answer with a snapshot that is there already: the ranking is marked as completed.
  abbrev pub complete_existing : Db F → ℕ → Snapshot F → Db F × Snapshot F
  complete_existing db ranking snap =
      (record db { rankings = update_ranking ranking (complete now) db.rankings }, snap)

  -- `e.code === 'P2002'`
  abbrev pub is_unique_error : Failure → Bool
  is_unique_error Failure.unique_constraint = true
  is_unique_error _ = false

  -- A broken unique constraint (P2002), as after a lost race, ends with the snapshot that is there.
  abbrev pub after_persist : Db F → Plan F → Result (Db F × Snapshot F) → Result (Db F × Snapshot F)
  after_persist db plan (ok r) = ok r
  after_persist db plan (err f) =
      if is_unique_error f
      then elim (find_snapshot plan.topic_ranking_id plan.snapshot_time db.snapshots) [
        | some snap ↦ ok (complete_existing db plan.topic_ranking_id snap)
        | none ↦ err Failure.snapshot_not_found
      ]
      else err f

  -- The writing part of `materializeRankingSnapshot`, on the tables as they are by then.
  unfoldable pub commit_plan : Db F → ℕ → Planned F → Result (Db F × Snapshot F)
  commit_plan db ranking (Planned.existing snap) = ok (complete_existing db ranking snap)
  commit_plan db ranking (Planned.planned plan) =
      after_persist db plan (persist_snapshot env now plan db)

  abbrev pub commit_result : Db F → ℕ → Result (Planned F) → Result (Db F × Snapshot F)
  commit_result db ranking (ok p) = commit_plan db ranking p
  commit_result db ranking (err f) = err f

  -- `materializeRankingSnapshot` without interference between its parts.
  unfoldable pub materialize :
      Db F → TopicRanking → TopicVersion F → RunArgs → Result (Db F × Snapshot F)
  unfolding plan_snapshot commit_plan
  materialize db ranking version args =
      commit_result db ranking.id (plan_snapshot db ranking version args)
