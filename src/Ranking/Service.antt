-- ===== src/Ranking/Service.antt =====
-- src/rankings/rankings.service.ts: `runRanking`, `enqueueRanking` and `processRankingJob`, over the
-- tables, the queues and the events that are published.
use ranking.Prelude.{
  ℕ, suc, Bool, true, false, ◌&&◌, Option, none, some, List, [], ◌∷◌, ◌++◌, if◌then◌else◌,
}
use ranking.Prelude.Keys.{nat_key, ◌==◌}
use ranking.Prelude.Number.{Number}
use ranking.Window.{window_beq}
use ranking.Ranking.Store.{
  Status, Failure, TopicRanking, Topic, TopicVersion, Snapshot, Db, Result, ok, err, find_by,
  update_ranking,
}
use ranking.Ranking.Store.Transaction.{Surroundings}
use ranking.Ranking.Jobs.{RunArgs, resolve_entity_ids, materialize}

-- What is published for the console, and to whom.
pub data Event : Type 0 where
  snapshot_ready : (snapshot ranking version : ℕ) (deduped : Bool) → Event
  ranking_failed : (ranking version : ℕ) → Failure → Event

-- A job of the queue `ranking`; its id is a hash of all of it.
pub record Job : Type 0 where
  pub ranking_id : ℕ
  pub args : RunArgs

pub record World (F : Type 0) : Type 0 where
  pub db : Db F
  pub jobs : List Job
  -- the snapshots for which a follow-up was requested
  pub followups : List ℕ
  pub events : List Event

-- The catch block: `{ status: 'failed', lastError }`.
abbrev pub fail_with : Failure → TopicRanking → TopicRanking
fail_with f r = record r { status = Status.failed; last_error = some f }

-- `status: { in: ['queued', 'failed'] }`
abbrev pub may_start : Status → Bool
may_start Status.queued = true
may_start Status.failed = true
may_start _ = false

abbrev pub start : ℕ → TopicRanking → TopicRanking
start now r =
    if may_start r.status
    then record r { status = Status.running; started_at = some now; last_error = none }
    else r

module _ {F : Type 0} where
  -- `emitSnapshotReadyEvent`: nothing if the topic is gone.
  unfoldable pub emit_snapshot_ready : World F → Snapshot F → ℕ → TopicVersion F → Bool → World F
  emit_snapshot_ready w snap ranking version deduped =
      elim (find_by (λ (t : Topic). t.id == version.topic_id) w.db.topics) [
        | none ↦ w
        | some _ ↦ record w {
          events = w.events ++ snapshot_ready snap.id ranking version.id deduped ∷ [];
        }
      ]

  abbrev emit_failed_of : World F → ℕ → ℕ → Failure → Option (TopicVersion F) → World F
  emit_failed_of w ranking version f none = w
  emit_failed_of w ranking version f (some v) = record w {
    events = w.events ++ ranking_failed ranking version f ∷ [];
  }

  -- `emitRankingFailedEvent`: nothing if the topic version is gone.
  unfoldable pub emit_ranking_failed : World F → ℕ → ℕ → Failure → World F
  emit_ranking_failed w ranking version f =
      emit_failed_of w ranking version f (find_by (λ v. v.id == version) w.db.versions)

  -- `enqueuePostSnapshotFollowup`; whatever the queue answers, the ranking goes on.
  unfoldable pub enqueue_post_snapshot_followup : Bool → World F → ℕ → World F
  enqueue_post_snapshot_followup disabled w snapshot =
      if disabled then w else record w { followups = w.followups ++ snapshot ∷ [] }

  abbrev pub with_rankings : World F → List TopicRanking → World F
  with_rankings w rankings = record w { db = record w.db { rankings = rankings } }

-- `topicVersionId_timeWindow_windowStart`
abbrev pub is_ranking_of : RunArgs → TopicRanking → Bool
is_ranking_of args r =
    r.topic_version_id == args.topic_version_id
    && (window_beq r.time_window args.time_window && r.window_start == args.window_start)

abbrev pub new_ranking : ℕ → Status → Option ℕ → RunArgs → ℕ → TopicRanking
new_ranking now status started args id = record {
  id = id;
  topic_version_id = args.topic_version_id;
  time_window = args.time_window;
  window_start = args.window_start;
  window_end = args.window_end;
  status = status;
  queued_at = some now;
  started_at = started;
  completed_at = none;
  last_error = none;
}

module _ {F : Type 0} where
  -- The two upserts differ in the row that is made and in what is updated: the tables and the row.
  unfoldable pub upsert_ranking :
      (TopicRanking → TopicRanking) → (ℕ → TopicRanking) → RunArgs → Db F → Db F × TopicRanking
  upsert_ranking update create args db = elim (find_by (is_ranking_of args) db.rankings) [
    | some r ↦ (record db { rankings = update_ranking r.id update db.rankings }, update r)
    | none ↦ (
      record db { rankings = db.rankings ++ create db.next_id ∷ []; next_id = suc db.next_id },
      create db.next_id,
    )
  ]

  abbrev pub begin_run : ℕ → RunArgs → Db F → Db F × TopicRanking
  begin_run now args =
      upsert_ranking
        (λ r. record r {
          status = Status.running;
          window_end = args.window_end;
          started_at = some now;
          last_error = none;
          completed_at = none;
        })
        (new_ranking now Status.running (some now) args) args

  abbrev pub begin_queued : ℕ → RunArgs → Db F → Db F × TopicRanking
  begin_queued now args =
      upsert_ranking
        (λ r. record r {
          status = Status.queued;
          window_end = args.window_end;
          queued_at = some now;
          last_error = none;
        })
        (new_ranking now Status.queued none args) args

-- Settings: RANKING_FOLLOWUP_DISABLED, and whether the queue takes a new job.
pub record Settings : Type 0 where
  pub followup_disabled : Bool
  pub queue_takes : Bool

module _ {F : Type 0} ⦃num : Number F⦄ (env : Surroundings F) (settings : Settings) (now : ℕ) where
  -- The end of `runRanking` and `processRankingJob`: the follow-up and the event, or the catch block.
  unfoldable pub finish :
      World F → ℕ → TopicVersion F → Result (Db F × Snapshot F) → World F × Result (Snapshot F)
  finish w ranking version (ok (db, snap)) =
      let w' =
        enqueue_post_snapshot_followup settings.followup_disabled (record w { db = db }) snap.id in
      (emit_snapshot_ready w' snap ranking version false, ok snap)
  finish w ranking version (err f) =
      let w' = with_rankings w (update_ranking ranking (fail_with f) w.db.rankings) in
      (emit_ranking_failed w' ranking version.id f, err f)

  abbrev pub with_version :
      World F
      → ℕ
      → RunArgs
      → Option TopicRanking
      → Option (TopicVersion F)
      → World F × Result (Snapshot F)
  with_version w id args none version = (w, err Failure.ranking_not_found)
  with_version w id args (some r) none = (w, err Failure.version_not_found)
  with_version w id args (some r) (some version) =
      finish w id version (materialize env now w.db r version args)

  -- `processRankingJob`.
  unfoldable pub process_ranking_job : World F → Job → World F × Result (Snapshot F)
  unfolding finish
  process_ranking_job w job =
      let id = job.ranking_id in
      let w' = with_rankings w (update_ranking id (start now) w.db.rankings) in
      with_version w' id job.args (find_by (λ r. r.id == id) w'.db.rankings)
        (find_by (λ v. v.id == job.args.topic_version_id) w'.db.versions)

  abbrev pub run_with : World F → RunArgs → TopicVersion F → List ℕ → World F × Result (Snapshot F)
  run_with w args version [] = (w, err Failure.no_entities)
  run_with w args version (_ ∷ _) =
      let (db, ranking) = begin_run now args w.db in
      finish (record w { db = db }) ranking.id version (materialize env now db ranking version args)

  -- `runRanking`.
  unfoldable pub run_ranking : World F → RunArgs → World F × Result (Snapshot F)
  unfolding finish upsert_ranking
  run_ranking w args = elim (find_by (λ v. v.id == args.topic_version_id) w.db.versions) [
    | none ↦ (w, err Failure.version_not_found)
    | some version ↦ run_with w args version (resolve_entity_ids w.db version.raw_entity_ids)
  ]
