-- ===== src/Ranking/Writes.antt =====
-- What a ranking run writes: the snapshot, and the rows that go with it.
use mathlib.Core.Path.{subst}
use ranking.Prelude.{
  ◌||◌, arith, ℕ, ◌+◌, ◌≡◌, refl, ap, sym, ◌∙◌, Bool, true, false, List, [], ◌∷◌, ◌++◌, map,
  Bool-cases, inl, inr, filter,
}
use ranking.Prelude.Number.{Number}
use ranking.Outbox.{OutboxRow, OutboxType}
use ranking.Ranking.Store.{
  Snapshot, SnapshotEvent, Db, Plan, Result, ok, err, violates_unique, update_ranking, complete,
  plan_version,
}
use ranking.Ranking.Store.Transaction.{
  Surroundings, persist_snapshot, clickhouse_rows, outbox_row, new_snapshot, has_duplicate,
  have_entities, resolve_or_create_score_model,
}

map-snoc :
    {A : Type 0} (f : A → ℕ) (xs : List A) (x : A) → map f (xs ++ x ∷ []) ≡ map f xs ++ f x ∷ []
map-snoc f [] x = refl
map-snoc f (y ∷ xs) x = ap (◌∷◌ (f y)) (map-snoc f xs x)

abbrev is_completed_type : OutboxType → Bool
is_completed_type OutboxType.snapshot_completed = true
is_completed_type _ = false

module _ {F : Type 0} where
  -- The snapshots that a `ranking.snapshot.completed` row was written for, in the order of the rows.
  abbrev pub announced : List (OutboxRow (SnapshotEvent F)) → List ℕ
  announced rows = map (λ r. r.payload.snapshot_id) (filter (λ r. is_completed_type r.type) rows)

  -- Each snapshot has exactly one outbox row that announces it and one row of trend analysis.
  pub record IsAnnounced (db : Db F) : Type 0 where
    pub outbox : announced db.outbox ≡ map (λ s. s.id) db.snapshots
    pub trends : db.trends ≡ map (λ s. s.id) db.snapshots

module _ {F : Type 0} (plan : Plan F) where
  -- What the transaction adds to the tables.
  pub record IsWritten (db db' : Db F) (snap : Snapshot F) : Type 0 where
    pub fresh :
        violates_unique plan.topic_ranking_id plan.snapshot_time (plan_version plan) db.snapshots
        ≡ false
    pub snapshots : db'.snapshots ≡ db.snapshots ++ snap ∷ []
    pub announcements : announced db'.outbox ≡ announced db.outbox ++ snap.id ∷ []
    pub trends : db'.trends ≡ db.trends ++ snap.id ∷ []
    pub ranking : snap.topic_ranking_id ≡ plan.topic_ranking_id
    pub time : snap.snapshot_time ≡ plan.snapshot_time
    pub items : snap.items ≡ plan.items
    pub topics : db'.topics ≡ db.topics
    pub versions : db'.versions ≡ db.versions
    pub metrics : db'.metrics ≡ db.metrics
    pub rankings :
        (now : ℕ) × (db'.rankings ≡ update_ranking plan.topic_ranking_id (complete now) db.rankings)

from_ok : {A : Type 0} → A → Result A → A
from_ok a (ok b) = b
from_ok a (err f) = a

pub ok-injective : {A : Type 0} (a b : A) → ok a ≡ ok b → a ≡ b
unfolding from_ok
ok-injective a b e = ap (from_ok a) e

module _ {F : Type 0} ⦃num : Number F⦄ (env : Surroundings F) (now : ℕ) (plan : Plan F) where
  announced-new :
      (rows : List (OutboxRow (SnapshotEvent F))) (a b : ℕ) (snap : Snapshot F)
      → announced (
          rows
          ++ (outbox_row env now plan a OutboxType.snapshot_completed snap
              ∷ clickhouse_rows env now plan b snap))
        ≡ announced rows ++ snap.id ∷ []
  announced-new [] a b snap = elim (Bool-cases env.clickhouse_outbox) [
    | inl e ↦ rw e
    | inr e ↦ rw e
  ]
  announced-new (row ∷ rows) a b snap = elim (Bool-cases (is_completed_type row.type)) [
    | inl e ↦ rw e (ap (◌∷◌ row.payload.snapshot_id) (announced-new rows a b snap))
    | inr e ↦ rw e (announced-new rows a b snap)
  ]

  pub persist-IsWritten :
      (db db' : Db F) (snap : Snapshot F)
      → persist_snapshot env now plan db ≡ ok (db', snap)
      → IsWritten plan db db' snap
  unfolding persist_snapshot
  persist-IsWritten db db' snap e =
      let taken =
        violates_unique plan.topic_ranking_id plan.snapshot_time (plan_version plan) db.snapshots in
      elim (Bool-cases (taken || has_duplicate env now plan plan.items)) [
        | inl bad ↦ absurd (cc (rw bad at e))
        | inr good ↦ elim (Bool-cases (have_entities env now plan plan.items)) [
          | inr bad ↦ absurd (cc (rw (good, bad) at e))
          | inl known ↦
              subst (λ r. IsWritten plan db r.0 r.1) (ok-injective _ _ (rw (good, known) at e))
                (record {
                  fresh = ground (arith, good);
                  snapshots = refl;
                  announcements =
                      let (model, models, id) = resolve_or_create_score_model env now plan db in
                      announced-new db.outbox (id + 1) (id + 2)
                        (new_snapshot env now plan model id);
                  trends = refl;
                  ranking = refl;
                  time = refl;
                  items = refl;
                  topics = refl;
                  versions = refl;
                  metrics = refl;
                  rankings = (now, refl);
                })
        ]
      ]

  -- A transaction that succeeds keeps the invariant that, in their order, each snapshot has exactly
  -- one completed event in the outbox and one row of trend analysis.
  pub persist-IsAnnounced :
      (db db' : Db F) (snap : Snapshot F)
      → persist_snapshot env now plan db ≡ ok (db', snap)
      → IsAnnounced db
      → IsAnnounced db'
  persist-IsAnnounced db db' snap e a =
      let w = persist-IsWritten db db' snap e in
      let ids = sym (map-snoc (λ (s : Snapshot F). s.id) db.snapshots snap) in
      record {
        outbox =
            w.announcements
            ∙ (ap (λ l. l ++ snap.id ∷ []) a.outbox
                ∙ (ids ∙ ap (map (λ s. s.id)) (sym w.snapshots)));
        trends =
            w.trends
            ∙ (ap (λ l. l ++ snap.id ∷ []) a.trends
                ∙ (ids ∙ ap (map (λ s. s.id)) (sym w.snapshots)));
      }
