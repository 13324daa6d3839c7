-- ===== src/Stats/Batch.antt =====
-- A batch of ranks updates the rows of its entities, topic and window, and no other row.
use ranking.Prelude.{
  ℕ, ◌≡◌, refl, ◌∙◌, ap, List, [], ◌∷◌, foldl, Option, some, filter, Bool-cases, inl, inr, arith,
}
use ranking.Prelude.Keys.{◌==◌}
use ranking.Prelude.Dict.{get, get-set}
use ranking.Window.{TimeWindow}
use ranking.Stats.{
  TopicStats, StatsKey, StatsTable, stats_key, key_of_stats, stats_key_beq_iff,
  next_entity_topic_stats, upsert_stats, upsert_entity_topic_stats_batch,
}

module _ (topic : ℕ) (window : TimeWindow) (as_of : ℕ) (key : StatsKey) where
  -- The items of a batch that belong to the row of `key`.
  abbrev pub own_items : List (ℕ × ℕ) → List (ℕ × ℕ)
  own_items items = filter (λ it. stats_key it.0 topic window == key) items

  abbrev pub after_item : Option TopicStats → ℕ × ℕ → Option TopicStats
  after_item prev it = some (next_entity_topic_stats prev it.1 as_of)

  get-upsert_stats :
      (table : StatsTable) (it : ℕ × ℕ)
      → get key (upsert_stats topic window as_of table it)
        ≡ foldl after_item (get key table) (own_items (it ∷ []))
  unfolding upsert_stats
  get-upsert_stats table (entity, rank) = ground (
    arith,
    stats_key_beq_iff (stats_key entity topic window) key,
    get-set (stats_key entity topic window) key
        (next_entity_topic_stats (get (stats_key entity topic window) table) rank as_of) table,
  )

  foldl-own_items :
      (it : ℕ × ℕ) (items : List (ℕ × ℕ)) (o : Option TopicStats)
      → foldl after_item (foldl after_item o (own_items (it ∷ []))) (own_items items)
        ≡ foldl after_item o (own_items (it ∷ items))
  foldl-own_items it items o = elim (Bool-cases (stats_key it.0 topic window == key)) [
    | inl e ↦ rw e
    | inr e ↦ rw e
  ]

  -- After a batch each row is the old row, advanced by the ranks that the batch has for it, in
  -- their order; a row of another topic, window or entity is unchanged.
  pub get-upsert_batch :
      (table : StatsTable) (items : List (ℕ × ℕ))
      → get key (upsert_entity_topic_stats_batch table topic window as_of items)
        ≡ foldl after_item (get key table) (own_items items)
  unfolding upsert_entity_topic_stats_batch
  get-upsert_batch table [] = refl
  get-upsert_batch table (it ∷ items) =
      get-upsert_batch (upsert_stats topic window as_of table it) items
      ∙ (ap (λ o. foldl after_item o (own_items items)) (get-upsert_stats table it)
          ∙ foldl-own_items it items (get key table))
