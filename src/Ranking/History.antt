-- ===== src/Ranking/History.antt =====
-- The history that the trend of an entity is computed from.
use mathlib.Core.List.{append-nil}
use ranking.Prelude.Number.{Number}
use ranking.Prelude.{
  filter-append, ℕ, zero, suc, ◌+◌, ◌≤◌, ◌≡◌, refl, ap, ◌∙◌, Bool, false, ◌&&◌, List, [], ◌∷◌, ◌++◌,
  All, filter, take, length, ltb, Bool-cases, inl, inr, arith,
}
use ranking.Prelude.Keys.{nat_key, ◌==◌}
use ranking.Prelude.Sorting.{insert, sort_by}
use ranking.Window.{TimeWindow, window_beq}
use ranking.Ranking.{HistoryRow, recent_history}

module _ {A : Type 0} (before : A → A → Bool) (last : A) where
  insert-snoc :
      (x : A) (xs : List A)
      → before last x ≡ false
      → insert before x (xs ++ last ∷ []) ≡ insert before x xs ++ last ∷ []
  unfolding insert
  insert-snoc x [] h = rw h refl
  insert-snoc x (y ∷ xs) h = ground (arith, insert-snoc x xs h)

  sort_by-snoc :
      (xs : List A)
      → All (λ x. before last x ≡ false) xs
      → sort_by before (xs ++ last ∷ []) ≡ sort_by before xs ++ last ∷ []
  unfolding sort_by insert
  sort_by-snoc [] h = refl
  sort_by-snoc (x ∷ xs) h =
      ap (insert before x) (sort_by-snoc xs h.1) ∙ insert-snoc x (sort_by before xs) h.0

module _ {A : Type 0} where
  length-insert :
      (before : A → A → Bool) (x : A) (xs : List A) → length (insert before x xs) ≡ length xs + 1
  unfolding insert
  length-insert before x [] = refl
  length-insert before x (y ∷ xs) = ground (arith, length-insert before x xs)

  length-sort_by : (before : A → A → Bool) (xs : List A) → length (sort_by before xs) ≡ length xs
  unfolding sort_by
  length-sort_by before [] = refl
  length-sort_by before (x ∷ xs) =
      omega (arith, length-insert before x (sort_by before xs), length-sort_by before xs)

  take-append : (n : ℕ) (xs ys : List A) → n ≤ length xs → take n (xs ++ ys) ≡ take n xs
  take-append zero xs ys h = refl
  take-append (suc n) [] ys h = absurd (omega arith)
  take-append (suc n) (x ∷ xs) ys h = ap (◌∷◌ x) (take-append n xs ys (omega arith))

module _ {F : Type 0} ⦃num : Number F⦄ (topic : ℕ) (window : TimeWindow) (entity : ℕ) where
  -- The points of an entity in a topic and window.
  abbrev pub own_points : List (HistoryRow F) → List (HistoryRow F)
  own_points =
      filter
        (λ h. h.entity_id == entity && (h.topic_id == topic && window_beq h.time_window window))

  -- Once an entity has 32 points, a point that is not older than these changes nothing: the history
  -- that the trend is computed from stays the 32 oldest points.
  pub recent_history_stays :
      (table : List (HistoryRow F)) (last : HistoryRow F)
      → 32 ≤ length (own_points table)
      → All (λ h. ltb last.as_of h.as_of ≡ false) (own_points table)
      → recent_history (table ++ last ∷ []) topic window entity
        ≡ recent_history table topic window entity
  unfolding recent_history
  recent_history_stays table last long latest =
      let test : HistoryRow F → Bool =
        λ h. h.entity_id == entity && (h.topic_id == topic && window_beq h.time_window window) in
      let older : HistoryRow F → HistoryRow F → Bool = λ a b. ltb a.as_of b.as_of in
      elim (Bool-cases (test last)) [
        | inl e ↦
            rw
              (
                filter-append test table (last ∷ []),
                e,
                sort_by-snoc older last (own_points table) latest,
              )
              (take-append 32 (sort_by older (own_points table)) (last ∷ [])
                (omega (arith, long, length-sort_by older (own_points table))))
        | inr e ↦ rw (filter-append test table (last ∷ []), e, append-nil) refl
      ]
