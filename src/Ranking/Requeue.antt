-- ===== src/Ranking/Requeue.antt =====
-- Requests that are made again: `enqueueRanking` of src/rankings/rankings.service.ts.
use mathlib.Core.Path.{subst}
use ranking.Prelude.{
  ℕ, ◌≡◌, refl, ◌∙◌, Bool, true, List, [], ◌∷◌, ◌++◌, some, none, Bool-cases, Option-cases, inl,
  inr, arith, if◌then◌else◌,
}
use ranking.Prelude.Keys.{nat_key, ◌==◌}
use ranking.Window.{window_beq_iff}
use ranking.Ranking.Store.{
  TopicRanking, TopicVersion, Db, Result, ok, err, find_by, find_snapshot, update_ranking,
}
use ranking.Ranking.Jobs.{RunArgs, snapshot_time, resolve_entity_ids}
use ranking.Ranking.Settling.{resolve-congr}
use ranking.Ranking.Service.{Job, World, Settings, is_ranking_of, begin_queued, upsert_ranking}
use ranking.Ranking.Queue.{
  Queued, job, deduped, same_time, same_job, add_job, enqueue_begun, enqueue_with, enqueue_ranking,
}

-- A row is found again after an update that keeps ids and the tested key.
find-update :
    (test : TopicRanking → Bool) (f : TopicRanking → TopicRanking)
    → ((r : TopicRanking) → (f r).id ≡ r.id)
    → ((r : TopicRanking) → test (f r) ≡ test r)
    → (id : ℕ) (rs : List TopicRanking) (r : TopicRanking) → find_by test rs ≡ some r
    → (found : TopicRanking) × (find_by test (update_ranking id f rs) ≡ some found)
      × (found.id ≡ r.id)
unfolding update_ranking
find-update test f keeps_id keeps id [] r e = absurd (cc)
find-update test f keeps_id keeps id (x ∷ rs) r e = elim (Bool-cases (test x)) [
  | inl h ↦ (if x.id == id then f x else x, ground (arith, keeps x), ground (arith, keeps_id x))
  | inr h ↦
      let (found, ef, ei) = find-update test f keeps_id keeps id rs r (ground arith) in
      (found, ground (arith, keeps x), ei)
]

find-snoc :
    {A : Type 0} (test : A → Bool) (xs : List A) (x : A)
    → find_by test xs ≡ none
    → test x ≡ true
    → find_by test (xs ++ x ∷ []) ≡ some x
find-snoc test [] x e h = rw h refl
find-snoc test (y ∷ ys) x e h = ground (arith, find-snoc test ys x)

same_job_refl : (j : Job) → same_job j j ≡ true
unfolding same_job same_time
same_job_refl j = ground (arith, window_beq_iff j.args.time_window j.args.time_window)

module _ {F : Type 0} where
  -- The tables and the queue hold what a queued request left there.
  pub record IsQueued (args : RunArgs) (id : ℕ) (w : World F) : Type 0 where
    pub version : TopicVersion F
    pub entity : ℕ
    pub entities : List ℕ
    pub row : TopicRanking
    pub queued : Job
    pub version_found : find_by (λ v. v.id == args.topic_version_id) w.db.versions ≡ some version
    pub resolved : resolve_entity_ids w.db version.raw_entity_ids ≡ entity ∷ entities
    pub row_found : find_by (is_ranking_of args) w.db.rankings ≡ some row
    pub row_id : row.id ≡ id
    pub no_snapshot : find_snapshot id (snapshot_time args) w.db.snapshots ≡ none
    pub job_found :
        find_by (same_job (record { ranking_id = id; args = args })) w.jobs ≡ some queued

  begin_queued_found :
      (now : ℕ) (args : RunArgs) (db : Db F) (row : TopicRanking)
      → find_by (is_ranking_of args) db.rankings ≡ some row
      → ((begin_queued now args db).1.id ≡ row.id)
        × ((begin_queued now args db).0.snapshots ≡ db.snapshots)
  unfolding upsert_ranking
  begin_queued_found now args db row e = rw (upsert_ranking, e) (refl, refl)

  begun_again :
      (settings : Settings) (now : ℕ) (args : RunArgs) (w : World F) (version : TopicVersion F)
      (begun : Db F × TopicRanking) (queued : Job)
      → find_snapshot begun.1.id (snapshot_time args) begun.0.snapshots ≡ none
      → find_by (same_job (record { ranking_id = begun.1.id; args = args })) w.jobs ≡ some queued
      → let (w', answer) = enqueue_begun settings now w args version begun in
        (answer ≡ ok (job begun.1.id)) × (w'.jobs ≡ w.jobs)
  unfolding add_job
  begun_again settings now args w version (db, ranking) queued e f =
      rw (enqueue_begun, e, add_job, f) (refl, refl)

  again :
      (settings : Settings) (now : ℕ) (args : RunArgs) (id : ℕ) (w : World F)
      → IsQueued args id w
      → let (w', answer) = enqueue_ranking settings now w args in
        (answer ≡ ok (job id)) × (w'.jobs ≡ w.jobs)
  unfolding enqueue_ranking
  again settings now args id w q =
      let (ei, es) = begin_queued_found now args w.db q.row q.row_found in
      let same = ei ∙ q.row_id in
      rw (enqueue_ranking, q.version_found, q.resolved, enqueue_with)
        (rw same at (
          begun_again settings now args w q.version (begin_queued now args w.db) q.queued
            (rw (same, es) q.no_snapshot) (rw same q.job_found)))

  -- What a request ensures if it is queued.
  abbrev LeavesQueued : RunArgs → World F × Result Queued → Type 0
  LeavesQueued args (w, ok (job id)) = IsQueued args id w
  LeavesQueued args (w, ok (deduped id snap)) = Unit {0}
  LeavesQueued args (w, err f) = Unit {0}

  -- The row that the upsert made or updated is found under the key of the request.
  begin_queued-row :
      (now : ℕ) (args : RunArgs) (db : Db F)
      → (row : TopicRanking) × (find_by (is_ranking_of args) (begin_queued now args db).0.rankings
          ≡ some row)
        × (row.id ≡ (begin_queued now args db).1.id)
  unfolding upsert_ranking
  begin_queued-row now args db = elim (Option-cases (find_by (is_ranking_of args) db.rankings)) [
    | inl e ↦
        rw (upsert_ranking, e)
          (
            _,
            find-snoc (is_ranking_of args) db.rankings _ e
                (ground (arith, window_beq_iff args.time_window args.time_window)),
            refl,
          )
    | inr (r, e) ↦
        rw (upsert_ranking, e)
          (find-update (is_ranking_of args) _ (λ r. refl) (λ r. refl) r.id db.rankings r e)
  ]

  add_job-LeavesQueued :
      (settings : Settings) (now : ℕ) (args : RunArgs) (id : ℕ) (w : World F)
      → ((w' : World F) (queued : Job)
          → w'.db ≡ w.db
          → find_by (same_job (record { ranking_id = id; args = args })) w'.jobs ≡ some queued
          → IsQueued args id w')
      → LeavesQueued args (add_job settings now w (record { ranking_id = id; args = args }))
  unfolding add_job
  add_job-LeavesQueued settings now args id w h =
      let j : Job = record { ranking_id = id; args = args } in
      elim (Option-cases (find_by (same_job j) w.jobs)) [
        | inr (q, e) ↦ rw (add_job, e) (h w q refl e)
        | inl e ↦ elim (Bool-cases settings.queue_takes) [
          | inl t ↦
              rw (add_job, e, t) (h _ j refl (find-snoc (same_job j) w.jobs j e (same_job_refl j)))
          | inr t ↦ rw (add_job, e, t) tt
        ]
      ]

  begun-LeavesQueued :
      (settings : Settings) (now : ℕ) (args : RunArgs) (w : World F) (version : TopicVersion F)
      (entity : ℕ) (entities : List ℕ)
      → find_by (λ (v : TopicVersion F). v.id == args.topic_version_id) w.db.versions ≡ some version
      → resolve_entity_ids w.db version.raw_entity_ids ≡ entity ∷ entities
      → (begun : Db F × TopicRanking) → begun.0.versions ≡ w.db.versions
      → resolve_entity_ids begun.0 version.raw_entity_ids
        ≡ resolve_entity_ids w.db version.raw_entity_ids
      → (row : TopicRanking) → find_by (is_ranking_of args) begun.0.rankings ≡ some row
      → row.id ≡ begun.1.id
      → LeavesQueued args (enqueue_begun settings now w args version begun)
  begun-LeavesQueued settings now args w version entity entities ev er (db, ranking) sv sr row ef
        ei =
      elim (Option-cases (find_snapshot ranking.id (snapshot_time args) db.snapshots)) [
        | inr (snap, e) ↦ rw (enqueue_begun, e) tt
        | inl e ↦
            rw (enqueue_begun, e)
              (add_job-LeavesQueued settings now args ranking.id (record w { db = db })
                (λ w' queued same found. record {
                  version = version;
                  entity = entity;
                  entities = entities;
                  row = row;
                  queued = queued;
                  version_found = rw (same, sv) ev;
                  resolved = rw same (sr ∙ er);
                  row_found = rw same ef;
                  row_id = ei;
                  no_snapshot = rw same e;
                  job_found = found;
                }))
      ]

  upsert-keeps :
      (now : ℕ) (args : RunArgs) (db : Db F)
      → let db' = (begin_queued now args db).0 in
        (db'.versions ≡ db.versions) × (db'.metrics ≡ db.metrics)
  unfolding upsert_ranking
  upsert-keeps now args db = elim (Option-cases (find_by (is_ranking_of args) db.rankings)) [
    | inl e ↦ rw (upsert_ranking, e) (refl, refl)
    | inr (r, e) ↦ rw (upsert_ranking, e) (refl, refl)
  ]

  entities-LeavesQueued :
      (settings : Settings) (now : ℕ) (args : RunArgs) (w : World F) (version : TopicVersion F)
      → find_by (λ (v : TopicVersion F). v.id == args.topic_version_id) w.db.versions ≡ some version
      → (ids : List ℕ) → resolve_entity_ids w.db version.raw_entity_ids ≡ ids
      → LeavesQueued args (enqueue_with settings now w args version ids)
  entities-LeavesQueued settings now args w version ev [] e = tt
  entities-LeavesQueued settings now args w version ev (id ∷ ids) e =
      let begun = begin_queued now args w.db in
      let (versions, metrics) = upsert-keeps now args w.db in
      let (row, ef, ei) = begin_queued-row now args w.db in
      begun-LeavesQueued settings now args w version id ids ev e begun versions
        (resolve-congr w.db begun.0 version.raw_entity_ids metrics) row ef ei

  enqueue-LeavesQueued :
      (settings : Settings) (now : ℕ) (args : RunArgs) (w : World F)
      → LeavesQueued args (enqueue_ranking settings now w args)
  unfolding enqueue_ranking
  enqueue-LeavesQueued settings now args w =
      elim (Option-cases
        (find_by (λ (v : TopicVersion F). v.id == args.topic_version_id) w.db.versions)) [
          | inl e ↦ rw (enqueue_ranking, e) tt
          | inr (v, e) ↦
              rw (enqueue_ranking, e) (entities-LeavesQueued settings now args w v e _ refl)
        ]

-- A request that was queued can be made again, at any time and whether the queue takes new jobs or
-- not: it is answered with the same ranking, and no second job is added.
pub enqueue_again :
    {F : Type 0} (settings settings' : Settings) (now later : ℕ) (args : RunArgs) (w w' : World F)
    (id : ℕ)
    → enqueue_ranking settings now w args ≡ (w', ok (job id))
    → let (w'', answer) = enqueue_ranking settings' later w' args in
      (answer ≡ ok (job id)) × (w''.jobs ≡ w'.jobs)
enqueue_again settings settings' now later args w w' id e =
    again settings' later args id w'
      (subst (LeavesQueued args) e (enqueue-LeavesQueued settings now args w))
