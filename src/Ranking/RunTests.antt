-- ===== src/Ranking/RunTests.antt =====
-- Examples for runs, jobs and requests: one topic version with two entities, in fixed-point numbers.
use ranking.Prelude.{
  ℕ, ◌*◌, ◌≡◌, refl, Bool, true, false, List, [], ◌∷◌, length, String, some, none, Option,
}
use ranking.Prelude.Int.{ℤ, pos}
use ranking.Window.{TimeWindow}
use ranking.Signals.{Metric}
use ranking.Policy.{TopicKind, Policy}
use ranking.Scoring.Fixed.{fixed}
use ranking.Ranking.Store.{
  Status, TopicRanking, Topic, TopicVersion, Snapshot, Db, Plan, Result, ok, err, update_ranking,
  complete,
}
use ranking.Ranking.Store.Transaction.{Surroundings, persist_snapshot}
use ranking.Ranking.Writes.{IsAnnounced, persist-IsAnnounced}
use ranking.Ranking.Jobs.{RunArgs, materialize}
use ranking.Ranking.Settling.{materialize_again}
use ranking.Ranking.Service.{World, Job, Settings, process_ranking_job}
use ranking.Ranking.Outcome.{IsClosed, process_job-IsClosed}
use ranking.Ranking.Queue.{job, enqueue_ranking}
use ranking.Ranking.Requeue.{enqueue_again}

abbrev metric : ℕ → String → ℕ → ℕ → Metric ℤ
metric entity key value time = record {
  entity_id = entity;
  metric_key = key;
  value = pos (value * 1_000_000_000);
  source_tier = 1;
  observed_at = time;
}

abbrev policy : Policy ℤ
policy = record {
  entity_ids = some (7 ∷ 8 ∷ []);
  weights = ("streams", pos 1_000_000_000) ∷ [];
  required_signal_keys = none;
  metric_definitions = none;
  decay = none;
}

abbrev version : TopicVersion ℤ
version = record {
  id = 5;
  topic_id = 1;
  version = "v1";
  policy = some policy;
  raw_entity_ids = 7 ∷ 8 ∷ [];
}

abbrev ranking_row : TopicRanking
ranking_row = record {
  id = 3;
  topic_version_id = 5;
  time_window = TimeWindow.week;
  window_start = 0;
  window_end = 200;
  status = Status.queued;
  queued_at = some 10;
  started_at = none;
  completed_at = none;
  last_error = none;
}

abbrev db : Db ℤ
db = record {
  topics = record { id = 1; kind = TopicKind.objective } ∷ [];
  versions = version ∷ [];
  metrics = metric 7 "streams" 10 100 ∷ metric 8 "streams" 20 110 ∷ [];
  rankings = ranking_row ∷ [];
  snapshots = [];
  models = [];
  breakdowns = [];
  history = [];
  stats = [];
  trends = [];
  outbox = [];
  next_id = 100;
}

abbrev args : RunArgs
args = record {
  topic_version_id = 5;
  time_window = TimeWindow.week;
  window_start = 0;
  window_end = 200;
  as_of = none;
}

abbrev env : Surroundings ℤ
env = record { fingerprint = λ w. "f"; clickhouse_outbox = true; entity_exists = λ id. true }

abbrev settings : Settings
settings = record { followup_disabled = false; queue_takes = true }

abbrev world : World ℤ
world = record { db = db; jobs = []; followups = []; events = [] }

abbrev some_job : Job
some_job = record { ranking_id = 3; args = args }

process_job-IsClosed_example : IsClosed 3 args (process_ranking_job env settings 300 world some_job)
process_job-IsClosed_example =
    process_job-IsClosed env settings 300 world some_job ranking_row version refl refl

abbrev is_ok : {A : Type 0} → Result A → Bool
is_ok (ok a) = true
is_ok (err f) = false

abbrev from_ok : {A : Type 0} → A → Result A → A
from_ok a (ok b) = b
from_ok a (err f) = a

ok-from_ok : {A : Type 0} (a : A) (r : Result A) → is_ok r ≡ true → r ≡ ok (from_ok a r)
ok-from_ok a (ok b) e = refl
ok-from_ok a (err f) e = absurd (cc)

abbrev no_snapshot : Snapshot ℤ
no_snapshot = record {
  id = 0;
  topic_ranking_id = 0;
  snapshot_time = 0;
  snapshot_version = record { version = ""; time_window = TimeWindow.week; time = 0 };
  confidence_score = pos 0;
  score_model_id = 0;
  items = [];
}

abbrev first_run : Result (Db ℤ × Snapshot ℤ)
first_run = materialize env 300 db ranking_row version args

abbrev stored : Db ℤ × Snapshot ℤ
stored = from_ok (db, no_snapshot) first_run

first_run-stored : first_run ≡ ok stored
unfolding materialize ranking.Ranking.Jobs.resolve_entity_ids ranking.Ranking.Store.find_snapshot
    ranking.Ranking.Jobs.plan_scored ranking.Ranking.Jobs.scored_entities
    ranking.Ranking.score_indexed ranking.Ranking.metrics_until ranking.Ranking.entities_to_rank
    ranking.Ranking.Store.violates_unique ranking.Ranking.Store.Transaction.persist_snapshot
    ranking.Signals.index_entity_signals ranking.Signals.entity_has_required_signals
    ranking.Ranking.unique_from ranking.Policy.merge_policy_with_topic_kind ranking.Prelude.Dict.get
    ranking.Signals.latest_by_key ranking.Signals.index_of_entity
    ranking.Signals.pick_latest_metrics_by_key ranking.Signals.group_metrics_by_entity
    ranking.Prelude.Dict.set ranking.Signals.signal_hits ranking.Policy.min_coverage_to_rank
    ranking.Ranking.Jobs.planned_items ranking.Ranking.items_from ranking.Ranking.rank_rows
    ranking.Prelude.Sorting.sort_by ranking.Scoring.robust_min_max_normalize ranking.Scoring.squash
    ranking.Scoring.score_entity ranking.Signals.metrics_to_signal_observations
    ranking.Scoring.blended_observation ranking.Scoring.time_weight
    ranking.Scoring.trust_from_source_tier ranking.Ranking.make_item
first_run-stored = ok-from_ok (db, no_snapshot) first_run refl

materialize_again_example :
    materialize env 900 stored.0 ranking_row version args
    ≡ ok
        (record stored.0 { rankings = update_ranking 3 (complete 900) stored.0.rankings }, stored.1)
materialize_again_example =
    materialize_again env 300 900 db stored.0 ranking_row version args stored.1 first_run-stored

abbrev plan : Plan ℤ
plan = record {
  topic_ranking_id = 3;
  topic_version_id = 5;
  topic_id = 1;
  version = "v1";
  time_window = TimeWindow.week;
  snapshot_time = 200;
  items = [];
  weights = policy.weights;
}

abbrev persisted : Db ℤ × Snapshot ℤ
persisted = from_ok (db, no_snapshot) (persist_snapshot env 300 plan db)

persist-persisted : persist_snapshot env 300 plan db ≡ ok persisted
unfolding persist_snapshot ranking.Ranking.Store.violates_unique
persist-persisted = ok-from_ok (db, no_snapshot) (persist_snapshot env 300 plan db) refl

persist-IsAnnounced_example : IsAnnounced persisted.0
persist-IsAnnounced_example =
    persist-IsAnnounced env 300 plan db persisted.0 persisted.1 persist-persisted
      (record { outbox = refl; trends = refl })

abbrev requested : World ℤ
requested = (enqueue_ranking settings 250 world args).0

enqueue-requested : enqueue_ranking settings 250 world args ≡ (requested, ok (job 3))
unfolding enqueue_ranking ranking.Ranking.Service.upsert_ranking ranking.Ranking.Store.find_snapshot
    ranking.Ranking.Queue.add_job ranking.Ranking.Jobs.resolve_entity_ids ranking.Window.window_beq
enqueue-requested = refl

-- The queue refuses all jobs by then.
enqueue_again_example :
    let (after, answer) =
      enqueue_ranking (record settings { queue_takes = false }) 260 requested args in
    (answer ≡ ok (job 3)) × (after.jobs ≡ requested.jobs)
enqueue_again_example =
    enqueue_again settings (record settings { queue_takes = false }) 250 260 args world requested 3
      enqueue-requested
