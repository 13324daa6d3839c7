-- ===== src/Ranking/Outcome.antt =====
-- How `processRankingJob` leaves the row of the ranking.
use mathlib.Core.Option
use ranking.Prelude.{
  ℕ, ◌≡◌, refl, ap, ◌∙◌, Bool, false, List, [], ◌∷◌, some, Option, Bool-cases, inl, inr, arith,
  nat_beq_iff,
}
use ranking.Prelude.Keys.{nat_key, ◌==◌}
use ranking.Prelude.Number.{Number}
use ranking.Ranking.Store.{
  Status, Failure, TopicRanking, TopicVersion, Snapshot, Db, Result, ok, err, find_by,
  find_snapshot, update_ranking, complete,
}
use ranking.Ranking.Store.Transaction.{Surroundings}
use ranking.Ranking.Jobs.{RunArgs, snapshot_time, materialize}
use ranking.Ranking.Service.{
  Job, World, Settings, start, fail_with, finish, process_ranking_job, with_rankings,
  emit_snapshot_ready, emit_ranking_failed, enqueue_post_snapshot_followup,
}
use ranking.Ranking.Settling.{materialize-IsSettled}

-- The row of a ranking.
abbrev pub row_of : List TopicRanking → ℕ → Option TopicRanking
row_of rankings id = find_by (λ r. r.id == id) rankings

pub row_of-update :
    (id : ℕ) (f : TopicRanking → TopicRanking)
    → ((r : TopicRanking) → (f r).id ≡ r.id)
    → (rs : List TopicRanking) → row_of (update_ranking id f rs) id ≡ Option.map f (row_of rs id)
unfolding update_ranking
row_of-update id f h [] = refl
row_of-update id f h (r ∷ rs) = elim (Bool-cases (r.id == id)) [
  | inl e ↦ rw (e, h r, e) refl
  | inr e ↦ rw (e, e) (row_of-update id f h rs)
]

row_of-id : (rs : List TopicRanking) (id : ℕ) (r : TopicRanking) → row_of rs id ≡ some r → r.id ≡ id
row_of-id [] id r e = absurd (cc)
row_of-id (x ∷ rs) id r e = ground (arith, row_of-id rs id r, nat_beq_iff x.id id)

start_id : (now : ℕ) (r : TopicRanking) → (start now r).id ≡ r.id
start_id now r = ground arith

abbrev ending : TopicRanking → Status × Option Failure
ending r = (r.status, r.last_error)

module _ {F : Type 0} where
  -- A run that answers a snapshot has marked the ranking as completed, and the snapshot is stored; a
  -- run that fails has marked the ranking as failed, with the reason.
  abbrev pub IsClosed : ℕ → RunArgs → World F × Result (Snapshot F) → Type 0
  IsClosed id args (w, ok snap) =
      (Option.map (λ (r : TopicRanking). r.status) (row_of w.db.rankings id)
        ≡ some Status.completed)
      × (find_snapshot id (snapshot_time args) w.db.snapshots ≡ some snap)
  IsClosed id args (w, err f) =
      Option.map ending (row_of w.db.rankings id) ≡ some (Status.failed, some f)

  db-emit_ready :
      (w : World F) (snap : Snapshot F) (id : ℕ) (v : TopicVersion F) (deduped : Bool)
      → (emit_snapshot_ready w snap id v deduped).db ≡ w.db
  unfolding emit_snapshot_ready
  db-emit_ready w snap id v deduped = ground arith

  db-emit_failed :
      (w : World F) (id version : ℕ) (f : Failure) → (emit_ranking_failed w id version f).db ≡ w.db
  unfolding emit_ranking_failed
  db-emit_failed w id version f = ground arith

  db-followup :
      (off : Bool) (w : World F) (snap : ℕ) → (enqueue_post_snapshot_followup off w snap).db ≡ w.db
  unfolding enqueue_post_snapshot_followup
  db-followup off w snap = ground arith

module _ {F : Type 0} ⦃num : Number F⦄ (env : Surroundings F) (settings : Settings) (now : ℕ) where
  finish-IsClosed :
      (w : World F) (r : TopicRanking) (v : TopicVersion F) (args : RunArgs) (id : ℕ)
      → r.id ≡ id
      → row_of w.db.rankings id ≡ some r
      → (res : Result (Db F × Snapshot F)) → materialize env now w.db r v args ≡ res
      → IsClosed id args (finish env settings now w id v res)
  unfolding finish
  finish-IsClosed w r v args id i e (ok (db, snap)) m =
      let s = materialize-IsSettled env now w.db db r v args snap m in
      let (t, updated) = s.rankings in
      let same =
        db-emit_ready
          (enqueue_post_snapshot_followup settings.followup_disabled (record w { db = db }) snap.id)
          snap id v false
        ∙ db-followup settings.followup_disabled (record w { db = db }) snap.id in
      (
        ap (λ d. Option.map (λ (r : TopicRanking). r.status) (row_of d.rankings id)) same
            ∙ rw (updated, i, row_of-update id (complete t) (λ r. refl) w.db.rankings, e) refl,
        ap (λ d. find_snapshot id (snapshot_time args) d.snapshots) same ∙ (rw (← i) s.found),
      )
  finish-IsClosed w r v args id i e (err f) m =
      ap (λ d. Option.map ending (row_of d.rankings id))
        (db-emit_failed (with_rankings w (update_ranking id (fail_with f) w.db.rankings)) id v.id f)
      ∙ rw (row_of-update id (fail_with f) (λ r. refl) w.db.rankings, e) refl

  -- A job for a ranking and a topic version that exist is closed, whatever it finds: the row of its
  -- ranking ends as completed, with the answered snapshot stored under the ranking and the time of
  -- the job, or as failed, with the reason; it is never left running.
  pub process_job-IsClosed :
      (w : World F) (job : Job) (r : TopicRanking) (v : TopicVersion F)
      → row_of w.db.rankings job.ranking_id ≡ some r
      → find_by (λ (v : TopicVersion F). v.id == job.args.topic_version_id) w.db.versions ≡ some v
      → IsClosed job.ranking_id job.args (process_ranking_job env settings now w job)
  unfolding process_ranking_job
  process_job-IsClosed w job r v er ev =
      let id = job.ranking_id in
      let w' = with_rankings w (update_ranking id (start now) w.db.rankings) in
      let found : row_of w'.db.rankings id ≡ some (start now r) =
        row_of-update id (start now) (start_id now) w.db.rankings
        ∙ ap (Option.map (start now)) er in
      rw (found, ev)
        (finish-IsClosed w' (start now r) v job.args id
          (row_of-id w'.db.rankings id (start now r) found) found _ refl)
