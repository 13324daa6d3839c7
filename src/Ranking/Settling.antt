-- ===== src/Ranking/Settling.antt =====
-- A materialised snapshot is found again under its key, and a second run returns it unchanged.
use mathlib.Core.Path.{subst}
use ranking.Prelude.{
  Bool-cases, ℕ, ◌≡◌, refl, ap, ◌∙◌, false, List, [], ◌∷◌, ◌++◌, some, none, Option, Option-cases,
  inl, inr, arith, nat_beq_iff,
}
use ranking.Prelude.Keys.{nat_key}
use ranking.Prelude.Number.{Number}
use ranking.Ranking.Store.{
  TopicRanking, TopicVersion, Topic, Snapshot, Db, Plan, Result, ok, err, find_snapshot,
  violates_unique, plan_version, SnapshotVersion, update_ranking, complete,
}
use ranking.Ranking.Store.Transaction.{Surroundings, persist_snapshot}
use ranking.Ranking.Jobs.{
  is_unique_error, RunArgs, Planned, snapshot_time, commit_plan, materialize, plan_snapshot,
  commit_result, plan_scored, plan_from, resolve_entity_ids, scored_entities, complete_existing,
  after_persist,
}
use ranking.Ranking.Writes.{persist-IsWritten, IsAnnounced, persist-IsAnnounced}

module _ {F : Type 0} where
  find-append_fresh :
      (ranking time : ℕ) (version : SnapshotVersion) (snaps : List (Snapshot F)) (snap : Snapshot F)
      → violates_unique ranking time version snaps ≡ false
      → snap.topic_ranking_id ≡ ranking
      → snap.snapshot_time ≡ time
      → find_snapshot ranking time (snaps ++ snap ∷ []) ≡ some snap
  unfolding find_snapshot violates_unique
  find-append_fresh ranking time version [] snap f er et =
      ground (arith, nat_beq_iff snap.topic_ranking_id ranking, nat_beq_iff snap.snapshot_time time)
  find-append_fresh ranking time version (s ∷ snaps) snap f er et =
      ground (arith, find-append_fresh ranking time version snaps snap)

abbrev Ensures : {A : Type 0} → (A → Type 0) → Result A → Type 0
Ensures P (ok a) = P a
Ensures P (err f) = Unit {0}

module _ {F : Type 0} ⦃num : Number F⦄ where
  -- What a plan says of the tables that it was made from.
  abbrev pub IsPlanOf : Db F → TopicRanking → RunArgs → Planned F → Type 0
  IsPlanOf db r args (Planned.existing snap) =
      find_snapshot r.id (snapshot_time args) db.snapshots ≡ some snap
  IsPlanOf db r args (Planned.planned plan) =
      (plan.topic_ranking_id ≡ r.id) × (plan.snapshot_time ≡ snapshot_time args)

  plan_scored-Ensures :
      (db : Db F) (r : TopicRanking) (v : TopicVersion F) (args : RunArgs)
      (kind : ranking.Policy.TopicKind) (scored : List (ranking.Ranking.Scored F))
      → Ensures (IsPlanOf db r args) (plan_scored db r v args kind scored)
  unfolding plan_scored
  plan_scored-Ensures db r v args kind [] = tt
  plan_scored-Ensures db r v args kind (s ∷ scored) = (refl, refl)

  plan_from-Ensures :
      (db : Db F) (r : TopicRanking) (args : RunArgs) (topic : Option Topic) (ids : List ℕ)
      (found : Option (Snapshot F))
      → find_snapshot r.id (snapshot_time args) db.snapshots ≡ found
      → (plan : ranking.Policy.TopicKind → Result (Planned F))
      → ((kind : ranking.Policy.TopicKind) → Ensures (IsPlanOf db r args) (plan kind))
      → Ensures (IsPlanOf db r args) (plan_from topic ids found plan)
  plan_from-Ensures db r args none ids found e plan h = tt
  plan_from-Ensures db r args (some topic) [] found e plan h = tt
  plan_from-Ensures db r args (some topic) (id ∷ ids) (some snap) e plan h = e
  plan_from-Ensures db r args (some topic) (id ∷ ids) none e plan h = h topic.kind

  plan-Ensures :
      (db : Db F) (r : TopicRanking) (v : TopicVersion F) (args : RunArgs)
      → Ensures (IsPlanOf db r args) (plan_snapshot db r v args)
  unfolding plan_snapshot
  plan-Ensures db r v args =
      plan_from-Ensures db r args _ _ _ refl _
        (λ kind. plan_scored-Ensures db r v args kind (scored_entities db r v args kind))

module _ {F : Type 0} ⦃num : Number F⦄ (env : Surroundings F) (now : ℕ) where
  -- What a run that succeeds says of the tables before and after it.
  pub record IsSettled (r : TopicRanking) (args : RunArgs) (db db' : Db F) (snap : Snapshot F)
      : Type 0 where
    pub found : find_snapshot r.id (snapshot_time args) db'.snapshots ≡ some snap
    pub topics : db'.topics ≡ db.topics
    pub metrics : db'.metrics ≡ db.metrics
    pub announced : IsAnnounced db → IsAnnounced db'
    pub versions : db'.versions ≡ db.versions
    pub rankings : (t : ℕ) × (db'.rankings ≡ update_ranking r.id (complete t) db.rankings)

  abbrev Settles : TopicRanking → RunArgs → Db F → Db F × Snapshot F → Type 0
  Settles r args db (db', snap) = IsSettled r args db db' snap

  existing-IsSettled :
      (db : Db F) (r : TopicRanking) (args : RunArgs) (snap : Snapshot F) (id : ℕ)
      → find_snapshot r.id (snapshot_time args) db.snapshots ≡ some snap
      → id ≡ r.id
      → Settles r args db (complete_existing env now db id snap)
  existing-IsSettled db r args snap id e i = record {
    found = e;
    topics = refl;
    metrics = refl;
    announced = λ a. record { outbox = a.outbox; trends = a.trends };
    versions = refl;
    rankings = (now, ap (λ n. update_ranking n (complete now) db.rankings) i);
  }

  persisted-IsSettled :
      (db : Db F) (r : TopicRanking) (args : RunArgs) (plan : Plan F)
      → IsPlanOf db r args (Planned.planned plan)
      → (res : Result (Db F × Snapshot F)) → persist_snapshot env now plan db ≡ res
      → Ensures (Settles r args db) (after_persist env now db plan res)
  persisted-IsSettled db r args plan (er, et) (ok (db', snap)) e =
      let w = persist-IsWritten env now plan db db' snap e in
      record {
        found = rw w.snapshots (
            find-append_fresh r.id (snapshot_time args) (plan_version plan) db.snapshots snap
              (rw (← er, ← et) w.fresh) (w.ranking ∙ er) (w.time ∙ et));
        topics = w.topics;
        metrics = w.metrics;
        announced = persist-IsAnnounced env now plan db db' snap e;
        versions = w.versions;
        rankings = rw (← er) w.rankings;
      }
  persisted-IsSettled db r args plan (er, et) (err f) e =
      elim (Bool-cases (is_unique_error env now f)) [
        | inr other ↦ rw (other, Ensures) tt
        | inl unique ↦
            elim (Option-cases
              (find_snapshot plan.topic_ranking_id plan.snapshot_time db.snapshots)) [
                | inl none_found ↦ rw (unique, none_found, Ensures) tt
                | inr (snap, found) ↦
                    rw (unique, found, Ensures)
                      (existing-IsSettled db r args snap plan.topic_ranking_id
                        (rw (er, et) at found) er)
              ]
      ]

  commit-IsSettled :
      (db : Db F) (r : TopicRanking) (args : RunArgs) (p : Planned F)
      → IsPlanOf db r args p
      → Ensures (Settles r args db) (commit_plan env now db r.id p)
  unfolding commit_plan
  commit-IsSettled db r args (Planned.existing snap) h =
      existing-IsSettled db r args snap r.id h refl
  commit-IsSettled db r args (Planned.planned plan) h =
      persisted-IsSettled db r args plan h (persist_snapshot env now plan db) refl

  commit_result-Ensures :
      (db : Db F) (r : TopicRanking) (args : RunArgs) (p : Result (Planned F))
      → Ensures (IsPlanOf db r args) p
      → Ensures (Settles r args db) (commit_result env now db r.id p)
  commit_result-Ensures db r args (ok p) h = commit-IsSettled db r args p h
  commit_result-Ensures db r args (err f) h = tt

  pub materialize-IsSettled :
      (db db' : Db F) (r : TopicRanking) (v : TopicVersion F) (args : RunArgs) (snap : Snapshot F)
      → materialize env now db r v args ≡ ok (db', snap)
      → IsSettled r args db db' snap
  unfolding materialize
  materialize-IsSettled db db' r v args snap e =
      subst (Ensures (Settles r args db)) e
        (commit_result-Ensures db r args (plan_snapshot db r v args) (plan-Ensures db r v args))

module _ {F : Type 0} where
  plan_from_again :
      (topic : Option Topic) (ids : List ℕ) (found : Option (Snapshot F))
      (plan plan' : ranking.Policy.TopicKind → Result (Planned F)) (p : Planned F)
      (snap : Snapshot F)
      → plan_from topic ids found plan ≡ ok p
      → plan_from topic ids (some snap) plan' ≡ ok (Planned.existing snap)
  plan_from_again none ids found plan plan' p snap e = absurd (cc)
  plan_from_again (some topic) [] found plan plan' p snap e = absurd (cc)
  plan_from_again (some topic) (id ∷ ids) found plan plan' p snap e = refl

  pub resolve-congr :
      (db db' : Db F) (raw : List ℕ)
      → db'.metrics ≡ db.metrics
      → resolve_entity_ids db' raw ≡ resolve_entity_ids db raw
  unfolding resolve_entity_ids
  resolve-congr db db' [] e = rw e
  resolve-congr db db' (id ∷ raw) e = refl

module _ {F : Type 0} ⦃num : Number F⦄ where
  -- A plan that was found once is found again in tables with the same topics and metrics, and is
  -- then the snapshot that is stored.
  replan :
      (db db' : Db F) (r : TopicRanking) (v : TopicVersion F) (args : RunArgs) (p : Planned F)
      (snap : Snapshot F)
      → plan_snapshot db r v args ≡ ok p
      → db'.topics ≡ db.topics
      → db'.metrics ≡ db.metrics
      → find_snapshot r.id (snapshot_time args) db'.snapshots ≡ some snap
      → plan_snapshot db' r v args ≡ ok (Planned.existing snap)
  unfolding plan_snapshot resolve_entity_ids find_snapshot plan_scored
  replan db db' r v args p snap e topics metrics found =
      rw (topics, resolve-congr db db' v.raw_entity_ids metrics, found)
        (plan_from_again _ (resolve_entity_ids db v.raw_entity_ids) _ _ _ p snap e)

  planned_of :
      (env : Surroundings F) (now : ℕ) (db : Db F) (id : ℕ) (res : Result (Planned F))
      (out : Db F × Snapshot F)
      → commit_result env now db id res ≡ ok out
      → (p : Planned F) × (res ≡ ok p)
  planned_of env now db id (ok p) out e = (p, refl)
  planned_of env now db id (err f) out e = absurd (cc)

-- A run that has succeeded can be run again: it returns the same snapshot, and changes nothing but
-- the row of the ranking, which it marks as completed.
pub materialize_again :
    {F : Type 0} ⦃num : Number F⦄ (env : Surroundings F) (now later : ℕ) (db db' : Db F)
    (r : TopicRanking) (v : TopicVersion F) (args : RunArgs) (snap : Snapshot F)
    → materialize env now db r v args ≡ ok (db', snap)
    → materialize env later db' r v args
      ≡ ok (record db' { rankings = update_ranking r.id (complete later) db'.rankings }, snap)
unfolding materialize commit_plan
materialize_again env now later db db' r v args snap e =
    let s = materialize-IsSettled env now db db' r v args snap e in
    let (p, planned) = planned_of env now db r.id (plan_snapshot db r v args) (db', snap) e in
    rw (replan db db' r v args p snap planned s.topics s.metrics s.found)
