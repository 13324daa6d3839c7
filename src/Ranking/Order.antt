-- ===== src/Ranking/Order.antt =====
-- The order, the ranks and the entities of a ranking.
use mathlib.Core.List.{Perm}
use mathlib.Core.List.Perm
use ranking.Prelude.{
  ℕ, zero, suc, ◌+◌, ◌≡◌, ◌≢◌, refl, ◌∙◌, ap, sym, true, false, List, [], ◌∷◌, map, All, inl, inr,
  Bool-cases, arith, filter, String, length, length-map,
}
use ranking.Prelude.Dict.{Dict}
use ranking.Prelude.Number.{Number, IsOrdered}
use ranking.Prelude.Sorting.{sort_by-Perm, sort_by-IsSorted, IsSorted, IsWeakOrder}
use ranking.Window.{TimeWindow}
use ranking.Signals.{
  Metric, index_entity_signals, index_of_entity, group_metrics_by_entity,
  entity_has_required_signals,
}
use ranking.Signals.Coverage.{required_in, entity_has_required-eq-required_in}
use ranking.Scoring.{robust_min_max_normalize}
use ranking.Scoring.Normalize.{length-normalize}
use ranking.Ranking.{
  HistoryRow, Scored, metrics_until, eligible_ids, entities_to_rank, unless_empty, pair_up,
  before_row, rank_rows, make_item, items_from,
}

non_empty-All :
    (P : ℕ → Type 0) (ids es : List ℕ) → es ≢ [] → All P es → All P (unless_empty ids es)
non_empty-All P ids [] h a = absurd (h refl)
non_empty-All P ids (e ∷ es) h a = a

module _ {F : Type 0} (table : List (Metric F)) (ids : List ℕ) (required : List String)
    (time : ℕ) where
  -- The entity has a metric for each required key, not after the time of the snapshot.
  abbrev pub HasAll : ℕ → Type 0
  HasAll id = required_in (metrics_until table ids time) time id required ≡ true

  eligible-All :
      (some_ids : List ℕ)
      → All HasAll (
          map
            (λ idx. idx.entity_id)
            (filter
              (λ idx. entity_has_required_signals idx.signal_rows required time)
              (index_entity_signals (metrics_until table ids time) some_ids time)))
  unfolding index_entity_signals index_of_entity
  eligible-All [] = tt
  eligible-All (id ∷ rest) =
      let own = metrics_until table ids time in
      let test =
        entity_has_required_signals
          (index_of_entity (group_metrics_by_entity own) time id).signal_rows required time in
      elim (Bool-cases test) [
        | inl e ↦
            rw e
              (sym (entity_has_required-eq-required_in own time id required) ∙ e, eligible-All rest)
        | inr e ↦ rw e (eligible-All rest)
      ]

  -- If some entity has all required signals, only such entities are ranked, whatever coverage the
  -- topic's kind asks for.
  pub entities_to_rank-HasAll :
      eligible_ids table ids required time ≢ []
      → All HasAll (entities_to_rank table ids required time)
  unfolding entities_to_rank
  entities_to_rank-HasAll h = non_empty-All HasAll ids _ h (eligible-All ids)

module _ {F : Type 0} ⦃num : Number F⦄ where
  map-pair_up :
      (scored : List (Scored F)) (ns : List F)
      → length ns ≡ length scored
      → map (λ r. r.0) (pair_up scored ns) ≡ scored
  unfolding pair_up
  map-pair_up [] ns h = refl
  map-pair_up (s ∷ ss) [] h = absurd (omega arith)
  map-pair_up (s ∷ ss) (n ∷ ns) h = ap (◌∷◌ s) (map-pair_up ss ns (omega arith))

  pair_up-All :
      (P : F → Type 0) (scored : List (Scored F)) (ns : List F)
      → All P ns
      → All (λ r. P r.1) (pair_up scored ns)
  unfolding pair_up
  pair_up-All P [] ns h = tt
  pair_up-All P (s ∷ ss) [] h = tt
  pair_up-All P (s ∷ ss) (n ∷ ns) h = (h.0, pair_up-All P ss ns h.1)

  row_order : IsOrdered num → IsWeakOrder before_row (λ r. num.is_num r.1 ≡ true)
  row_order laws = record {
    asym = λ x y px py e.
        ground (arith, laws.lt-sub-zero y.1 x.1, laws.lt-sub-zero x.1 y.1, laws.lt_asym y.1 x.1);
    neg_trans = λ x y z px py pz e f. ground (
      arith,
      laws.lt-sub-zero y.1 z.1,
      laws.lt-sub-zero x.1 y.1,
      laws.lt-sub-zero x.1 z.1,
      laws.lt_neg_trans z.1 y.1 x.1,
    );
  }

  -- Each scored entity is ranked, and exactly once.
  pub rank_rows-Perm : (scored : List (Scored F)) → Perm (map (λ r. r.0) (rank_rows scored)) scored
  unfolding rank_rows
  rank_rows-Perm scored =
      let normalized = robust_min_max_normalize (map (λ s. s.total) scored) in
      Perm.trans (Perm.map (λ r. r.0) (sort_by-Perm before_row (pair_up scored normalized))) (
        rw (map-pair_up scored normalized (length-normalize _ ∙ length-map _ scored))
          (Perm.refl scored))

  -- No number is below a later one.
  abbrev pub IsDescending : List F → Type 0
  IsDescending [] = Unit
  IsDescending (n ∷ ns) = All (λ m. num.lt n m ≡ false) ns × IsDescending ns

  behind-All :
      (laws : IsOrdered num) (row : Scored F × F) (rows : List (Scored F × F))
      → All (λ r. before_row r row ≡ false) rows
      → All (λ m. num.lt row.1 m ≡ false) (map (λ r. r.1) rows)
  behind-All laws row [] h = tt
  behind-All laws row (r ∷ rows) h =
      (sym (laws.lt-sub-zero row.1 r.1) ∙ h.0, behind-All laws row rows h.1)

  sorted-IsDescending :
      (laws : IsOrdered num) (rows : List (Scored F × F))
      → IsSorted before_row rows
      → IsDescending (map (λ r. r.1) rows)
  sorted-IsDescending laws [] h = tt
  sorted-IsDescending laws (row ∷ rows) h =
      (behind-All laws row rows h.0, sorted-IsDescending laws rows h.1)

  -- If numbers are ordered as doubles are and no normalised score is NaN, the normalised scores of the
  -- ranked rows descend: none is below the score of a later row.
  pub rank_rows-IsDescending :
      (laws : IsOrdered num) (scored : List (Scored F))
      → All (λ n. num.is_num n ≡ true) (robust_min_max_normalize (map (λ s. s.total) scored))
      → IsDescending (map (λ r. r.1) (rank_rows scored))
  unfolding rank_rows
  rank_rows-IsDescending laws scored h = sorted-IsDescending laws _ (
      sort_by-IsSorted before_row (λ r. num.is_num r.1 ≡ true) (row_order laws)
        (pair_up scored (robust_min_max_normalize (map (λ s. s.total) scored)))
        (pair_up-All (λ n. num.is_num n ≡ true) scored _ h))

-- The numbers from `start` on, `n` of them.
abbrev pub count_from : ℕ → ℕ → List ℕ
count_from start zero = []
count_from start (suc n) = start ∷ count_from (start + 1) n

module _ {F : Type 0} ⦃num : Number F⦄ (history : List (HistoryRow F)) (topic : ℕ)
    (window : TimeWindow) (prev_rank : Dict ℕ ℕ) where
  -- The items of a list of rows have consecutive ranks from the first one on, and in their order the
  -- entities and the normalised scores of the rows.
  pub items_from_ranks :
      (rank : ℕ) (rows : List (Scored F × F))
      → (map (λ it. it.rank) (items_from history topic window prev_rank rank rows)
          ≡ count_from rank (length rows))
        × (map (λ it. it.entity_id) (items_from history topic window prev_rank rank rows)
            ≡ map (λ r. r.0.entity_id) rows)
        × (map (λ it. it.popularity_score) (items_from history topic window prev_rank rank rows)
            ≡ map (λ r. r.1) rows)
  unfolding items_from make_item
  items_from_ranks rank [] = (refl, refl, refl)
  items_from_ranks rank (row ∷ rows) =
      let (ranks, ids, scores) = items_from_ranks (rank + 1) rows in
      (ap (◌∷◌ rank) ranks, ap (◌∷◌ row.0.entity_id) ids, ap (◌∷◌ row.1) scores)
