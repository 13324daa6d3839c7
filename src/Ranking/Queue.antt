-- ===== src/Ranking/Queue.antt =====
-- src/rankings/rankings.service.ts: `enqueueRanking`; src/rankings/ranking-job.ts: the id of a job.
use ranking.Prelude.{
  ℕ, Bool, true, false, ◌&&◌, Option, none, some, List, [], ◌∷◌, ◌++◌, if◌then◌else◌,
}
use ranking.Prelude.Keys.{nat_key, ◌==◌}
use ranking.Window.{window_beq}
use ranking.Ranking.Store.{
  Failure, TopicRanking, TopicVersion, Snapshot, Db, Result, ok, err, find_by, find_snapshot,
  update_ranking, complete,
}
use ranking.Ranking.Jobs.{RunArgs, snapshot_time, resolve_entity_ids}
use ranking.Ranking.Service.{
  Job, World, Settings, emit_snapshot_ready, begin_queued, upsert_ranking,
}

-- What `enqueueRanking` answers: the ranking of a job that is queued, or the snapshot that is there.
pub data Queued : Type 0 where
  job : ℕ → Queued
  deduped : (ranking snapshot : ℕ) → Queued

unfoldable pub same_time : Option ℕ → Option ℕ → Bool
same_time none none = true
same_time (some a) (some b) = a == b
same_time _ _ = false

-- Two jobs have the same id if all parts of the hashed text agree; SHA-256 is taken to be injective.
unfoldable pub same_job : Job → Job → Bool
unfolding same_time
same_job a b =
    a.ranking_id == b.ranking_id
    && (a.args.topic_version_id == b.args.topic_version_id
        && (window_beq a.args.time_window b.args.time_window
            && (a.args.window_start == b.args.window_start
                && (a.args.window_end == b.args.window_end
                    && same_time a.args.as_of b.args.as_of))))

module _ {F : Type 0} (settings : Settings) (now : ℕ) where
  -- `rankingQueue.add`: a job that is there is not added again. If the queue refuses, a job that is
  -- there is as good, and else the error is thrown.
  unfoldable pub add_job : World F → Job → World F × Result Queued
  unfolding same_job
  add_job w j = elim (find_by (same_job j) w.jobs) [
    | some _ ↦ (w, ok (job j.ranking_id))
    | none ↦
        if settings.queue_takes
        then (record w { jobs = w.jobs ++ j ∷ [] }, ok (job j.ranking_id))
        else (w, err Failure.queue_refused)
  ]

  -- The answer if the snapshot is there already.
  abbrev pub answer_existing : World F → ℕ → TopicVersion F → Snapshot F → World F × Result Queued
  answer_existing w ranking version snap =
      let rankings = update_ranking ranking (complete now) w.db.rankings in
      (
        emit_snapshot_ready (record w { db = record w.db { rankings = rankings } }) snap ranking
            version true,
        ok (deduped ranking snap.id),
      )

  -- The rest of `enqueueRanking` after the upsert of the ranking.
  abbrev pub enqueue_begun :
      World F → RunArgs → TopicVersion F → Db F × TopicRanking → World F × Result Queued
  enqueue_begun w args version (db, ranking) =
      let w' = record w { db = db } in
      elim (find_snapshot ranking.id (snapshot_time args) db.snapshots) [
        | some snap ↦ answer_existing w' ranking.id version snap
        | none ↦ add_job w' (record { ranking_id = ranking.id; args = args })
      ]

  abbrev pub enqueue_with : World F → RunArgs → TopicVersion F → List ℕ → World F × Result Queued
  enqueue_with w args version [] = (w, err Failure.no_entities)
  enqueue_with w args version (_ ∷ _) = enqueue_begun w args version (begin_queued now args w.db)

  -- `enqueueRanking`.
  unfoldable pub enqueue_ranking : World F → RunArgs → World F × Result Queued
  unfolding add_job upsert_ranking
  enqueue_ranking w args = elim (find_by (λ v. v.id == args.topic_version_id) w.db.versions) [
    | none ↦ (w, err Failure.version_not_found)
    | some version ↦ enqueue_with w args version (resolve_entity_ids w.db version.raw_entity_ids)
  ]
