-- ===== src/Ranking/Store/Transaction.antt =====
-- src/rankings/rankings.service.ts: `persistSnapshotTransaction` and `resolveOrCreateScoreModel`.
use ranking.Prelude.{
  ℕ, suc, ◌+◌, Bool, false, ◌&&◌, ◌||◌, not, any, all, Option, none, some, List, [], ◌∷◌, ◌++◌, map,
  String, if◌then◌else◌, length, max,
}
use ranking.Prelude.Keys.{nat_key, string_key, ◌==◌}
use ranking.Prelude.Dict.{Dict, get}
use ranking.Prelude.Number.{Number}
use ranking.Scoring.{zero_f, sum_of}
use ranking.Stats.{upsert_entity_topic_stats_batch}
use ranking.Outbox.{OutboxRow, OutboxType}
use ranking.Ranking.{Item, HistoryRow}
use ranking.Ranking.Store.{
  Snapshot, ScoreModel, BreakdownRow, SnapshotEvent, Result, ok, err, Db, find_by, update_ranking,
  complete, violates_unique, Plan, plan_version, Failure,
}

-- What the program does not implement here: the SHA-256 fingerprint of the weights, the settings that
-- decide on the ClickHouse row, and whether the table `Entity` has a row with an id.
pub record Surroundings (F : Type 0) : Type 0 where
  pub fingerprint : Dict String F → String
  pub clickhouse_outbox : Bool
  pub entity_exists : ℕ → Bool

module _ {F : Type 0} ⦃num : Number F⦄ (env : Surroundings F) (now : ℕ) (plan : Plan F) where
  abbrev pub is_model : ScoreModel F → Bool
  is_model m =
      m.topic_version_id == plan.topic_version_id
      && (m.label == plan.version && m.fingerprint == env.fingerprint plan.weights)

  -- `resolveOrCreateScoreModel`: the id of the model, the models and the next free id.
  unfoldable pub resolve_or_create_score_model : Db F → ℕ × List (ScoreModel F) × ℕ
  resolve_or_create_score_model db = elim (find_by is_model db.models) [
    | some m ↦ (m.id, db.models, db.next_id)
    | none ↦ (
      db.next_id,
      db.models
          ++ record {
            id = db.next_id;
            topic_version_id = plan.topic_version_id;
            label = plan.version;
            fingerprint = env.fingerprint plan.weights;
            weights = plan.weights;
          }
            ∷ [],
      suc db.next_id,
    )
  ]

  -- `typeof w === 'number' && Number.isFinite(w) ? w : 0`
  abbrev finite_or_zero : Option F → F
  finite_or_zero none = zero_f
  finite_or_zero (some w) = if num.is_finite w then w else zero_f

  -- The rows of one item: the finite parts of its breakdown, with their weights.
  unfoldable pub breakdown_rows : ℕ → ℕ → ℕ → Dict String F → List (BreakdownRow F)
  breakdown_rows model snapshot rank [] = []
  breakdown_rows model snapshot rank ((component, value) ∷ rest) =
      let row : BreakdownRow F = record {
        model_id = model;
        snapshot_id = snapshot;
        rank = rank;
        component = component;
        value = value;
        weight = finite_or_zero (get component plan.weights);
      } in
      let later = breakdown_rows model snapshot rank rest in
      if num.is_finite value then row ∷ later else later

  unfoldable pub all_breakdown_rows : ℕ → ℕ → List (Item F) → List (BreakdownRow F)
  all_breakdown_rows model snapshot [] = []
  all_breakdown_rows model snapshot (it ∷ items) =
      breakdown_rows model snapshot it.rank it.score_breakdown
      ++ all_breakdown_rows model snapshot items

  abbrev pub average_confidence : F
  average_confidence =
      num.div (sum_of (map (λ it. it.confidence_score) plan.items))
        (num.lit (max 1 (length plan.items)) 1)

  abbrev pub new_snapshot : ℕ → ℕ → Snapshot F
  new_snapshot model id = record {
    id = id;
    topic_ranking_id = plan.topic_ranking_id;
    snapshot_time = plan.snapshot_time;
    snapshot_version = plan_version plan;
    confidence_score = average_confidence;
    score_model_id = model;
    items = plan.items;
  }

  abbrev pub history_row : ℕ → Item F → HistoryRow F
  history_row snapshot it = record {
    entity_id = it.entity_id;
    topic_id = plan.topic_id;
    time_window = plan.time_window;
    as_of = plan.snapshot_time;
    rank = it.rank;
    score = it.popularity_score;
    snapshot_id = snapshot;
  }

  abbrev pub outbox_row : ℕ → OutboxType → Snapshot F → OutboxRow (SnapshotEvent F)
  outbox_row id type snap = record {
    id = id;
    type = type;
    payload = record {
      snapshot_id = snap.id;
      topic_ranking_id = plan.topic_ranking_id;
      topic_version_id = plan.topic_version_id;
      topic_id = plan.topic_id;
      snapshot_time = plan.snapshot_time;
      item_count = length plan.items;
      confidence_score = snap.confidence_score;
      score_model_id = some snap.score_model_id;
    };
    published_at = none;
    kafka_published_at = none;
    leased_until = none;
    attempts = 0;
    last_error = none;
  }

  abbrev pub clickhouse_rows : ℕ → Snapshot F → List (OutboxRow (SnapshotEvent F))
  clickhouse_rows id snap =
      if env.clickhouse_outbox then outbox_row id OutboxType.clickhouse_snapshot snap ∷ [] else []

  -- `@@unique([snapshotId, entityId])` of `RankingItem` refuses the items.
  unfoldable pub has_duplicate : List (Item F) → Bool
  has_duplicate [] = false
  has_duplicate (it ∷ items) = any (λ j. j.entity_id == it.entity_id) items || has_duplicate items

  -- The foreign key to `Entity` accepts the items.
  abbrev pub have_entities : List (Item F) → Bool
  have_entities items = all (λ it. env.entity_exists it.entity_id) items

  -- `persistSnapshotTransaction`: all writes, or none if a unique constraint or a foreign key is broken;
  -- if both are, the unique constraint is the one that is reported.
  unfoldable pub persist_snapshot : Db F → Result (Db F × Snapshot F)
  unfolding resolve_or_create_score_model has_duplicate
  persist_snapshot db =
      let (model, models, id) = resolve_or_create_score_model db in
      let snap = new_snapshot model id in
      if violates_unique plan.topic_ranking_id plan.snapshot_time (plan_version plan) db.snapshots
        || has_duplicate plan.items
      then err Failure.unique_constraint
      else if not (have_entities plan.items)
      then err Failure.foreign_key
      else ok (
        record db {
          snapshots = db.snapshots ++ snap ∷ [];
          models = models;
          breakdowns = db.breakdowns ++ all_breakdown_rows model id plan.items;
          history = db.history ++ map (history_row id) plan.items;
          stats =
              upsert_entity_topic_stats_batch db.stats plan.topic_id plan.time_window
                plan.snapshot_time (map (λ it. (it.entity_id, it.rank)) plan.items);
          trends = db.trends ++ id ∷ [];
          rankings = update_ranking plan.topic_ranking_id (complete now) db.rankings;
          outbox =
              db.outbox
              ++ (outbox_row (id + 1) OutboxType.snapshot_completed snap
                  ∷ clickhouse_rows (id + 2) snap);
          next_id = id + 3;
        },
        snap,
      )
