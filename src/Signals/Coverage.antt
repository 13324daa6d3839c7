-- ===== src/Signals/Coverage.antt =====
-- Grouping by entity, required signals and coverage.
use ranking.Prelude.{
  ℕ, ◌≤◌, ◌≡◌, refl, ◌↔◌, inl, inr, List, [], ◌∷◌, ◌++◌, foldl, String, arith, All, Bool-cases, ltb,
  leb, Bool, true, ◌&&◌, ◌||◌, ap, sym, ◌∙◌, map, filter, any, all, or_else, length, length-filter,
  filter-append,
}
use mathlib.Core.List.{append-nil, append_assoc}
use mathlib.Core.Bool.{or-false, or_assoc}
use ranking.Prelude.Keys.{nat_key, string_key, ◌==◌}
use ranking.Prelude.Dict.{Dict, get, set, get-set, has, keys, values}
use ranking.Signals.{
  Metric, SignalRow, replaces, keep_latest, latest_by_key, pick_latest_metrics_by_key, add_to_group,
  group_metrics_by_entity, index_of_entity, entity_has_required_signals, signal_hits, contains,
}

module _ {F : Type 0} (id : ℕ) where
  -- The metrics of one entity, in their order.
  abbrev pub own_metrics : List (Metric F) → List (Metric F)
  own_metrics metrics = filter (λ m. m.entity_id == id) metrics

  get-add_to_group :
      (groups : Dict ℕ (List (Metric F))) (m : Metric F)
      → or_else (get id (add_to_group groups m)) []
        ≡ or_else (get id groups) [] ++ own_metrics (m ∷ [])
  unfolding add_to_group
  get-add_to_group groups m = elim (Bool-cases (m.entity_id == id)) [
    | inl e ↦
        rw (get-set m.entity_id id _ groups, e)
          (ap (λ j. or_else (get j groups) [] ++ m ∷ []) ((nat_key.same_iff _ _).0 e))
    | inr e ↦ rw (get-set m.entity_id id _ groups, e) (sym (append-nil _))
  ]

  get-foldl-add_to_group :
      (groups : Dict ℕ (List (Metric F))) (metrics : List (Metric F))
      → or_else (get id (foldl add_to_group groups metrics)) []
        ≡ or_else (get id groups) [] ++ own_metrics metrics
  get-foldl-add_to_group groups [] = sym (append-nil _)
  get-foldl-add_to_group groups (m ∷ metrics) =
      get-foldl-add_to_group (add_to_group groups m) metrics
      ∙ (ap (λ l. l ++ own_metrics metrics) (get-add_to_group groups m)
          ∙ (append_assoc (or_else (get id groups) []) (own_metrics (m ∷ [])) (own_metrics metrics)
              ∙ ap (λ l. or_else (get id groups) [] ++ l)
                  (sym (filter-append (λ m. m.entity_id == id) (m ∷ []) metrics))))

module _ {A : Type 0} (key_of : A → String) (time_of : A → ℕ) (as_of : ℕ) (k : String) where
  abbrev counts : A → Bool
  counts a = key_of a == k && leb (time_of a) as_of

  has-keep_latest :
      (m : Dict String A) (row : A)
      → has k (keep_latest key_of time_of as_of m row) ≡ (has k m || counts row)
  unfolding keep_latest
  has-keep_latest m row =
      ground (arith, string_key.same_iff (key_of row) k, get-set (key_of row) k row m)

  has-foldl :
      (m : Dict String A) (rows : List A)
      → has k (foldl (keep_latest key_of time_of as_of) m rows) ≡ (has k m || any counts rows)
  has-foldl m [] = sym (or-false _)
  has-foldl m (row ∷ rows) =
      has-foldl (keep_latest key_of time_of as_of m row) rows
      ∙ (ap (λ b. b || any counts rows) (has-keep_latest m row)
          ∙ or_assoc (has k m) (counts row) (any counts rows))

  -- A key has an entry exactly if some row counts for it.
  pub has-latest_by_key :
      (rows : List A) → has k (latest_by_key key_of time_of as_of rows) ≡ any counts rows
  unfolding latest_by_key get
  has-latest_by_key rows = has-foldl [] rows

-- Every entry of the map of latest rows is filed under its own key and is not after `asOf`.
module _ {F : Type 0} (as_of : ℕ) where
  abbrev IsFiled : String × Metric F → Type 0
  IsFiled e = (e.1.metric_key ≡ e.0) × (e.1.observed_at ≤ as_of)

  set-IsFiled :
      (k : String) (m : Metric F) (d : Dict String (Metric F))
      → m.metric_key ≡ k
      → m.observed_at ≤ as_of
      → All IsFiled d
      → All IsFiled (set k m d)
  unfolding set
  set-IsFiled k m [] e le h = ((e, le), tt)
  set-IsFiled k m ((j, w) ∷ d) e le h = elim (Bool-cases (j == k)) [
    | inl same ↦ rw same ((e ∙ sym ((string_key.same_iff _ _).0 same), le), h.1)
    | inr other ↦ rw other (h.0, set-IsFiled k m d e le h.1)
  ]

  keep_latest-IsFiled :
      (d : Dict String (Metric F)) (m : Metric F)
      → All IsFiled d
      → All IsFiled (keep_latest (λ m. m.metric_key) (λ m. m.observed_at) as_of d m)
  unfolding keep_latest
  keep_latest-IsFiled d m h = elim (Bool-cases (ltb as_of m.observed_at)) [
    | inl late ↦ rw late h
    | inr on_time ↦
        elim (Bool-cases (replaces (λ (m : Metric F). m.observed_at) (get m.metric_key d) m)) [
          | inl new ↦ rw (on_time, new) (set-IsFiled m.metric_key m d refl (ground arith) h)
          | inr old ↦ rw (on_time, old) h
        ]
  ]

  foldl-IsFiled :
      (d : Dict String (Metric F)) (metrics : List (Metric F))
      → All IsFiled d
      → All IsFiled (foldl (keep_latest (λ m. m.metric_key) (λ m. m.observed_at) as_of) d metrics)
  unfolding keep_latest
  foldl-IsFiled d [] h = h
  foldl-IsFiled d (m ∷ metrics) h =
      foldl-IsFiled (keep_latest (λ m. m.metric_key) (λ m. m.observed_at) as_of d m) metrics
        (keep_latest-IsFiled d m h)

  -- A key of such a map is found again among its rows.
  any-values :
      (k : String) (d : Dict String (Metric F))
      → All IsFiled d
      → any
          (λ (r : SignalRow). r.metric_key == k && leb r.observed_at as_of)
          (map (λ m. record { metric_key = m.metric_key; observed_at = m.observed_at }) (values d))
        ≡ has k d
  unfolding get
  any-values k [] h = refl
  any-values k ((j, m) ∷ d) h =
      ground
        (arith, any-values k d h.1, string_key.same_iff j k, string_key.same_iff m.metric_key k)

  contains-keys : (k : String) (d : Dict String (Metric F)) → contains (keys d) k ≡ has k d
  unfolding get
  contains-keys k [] = refl
  contains-keys k ((j, m) ∷ d) = ground (arith, contains-keys k d)

-- The index of an entity is built from that entity's own metrics.
index-latest :
    {F : Type 0} (metrics : List (Metric F)) (as_of id : ℕ)
    → (index_of_entity (group_metrics_by_entity metrics) as_of id).latest
      ≡ pick_latest_metrics_by_key (own_metrics id metrics) as_of
unfolding index_of_entity group_metrics_by_entity get
index-latest metrics as_of id =
    ap (λ l. pick_latest_metrics_by_key l as_of) (get-foldl-add_to_group id [] metrics)

-- The test that `entityHasRequiredSignals` makes of the index of an entity, as a formula over the
-- metrics: each required key has a metric of this entity that is not after `asOf`.
pub required_in :
    {F : Type 0} (metrics : List (Metric F)) (as_of id : ℕ) (required : List String) → Bool
required_in metrics as_of id required =
    all (λ k. any (λ m. m.metric_key == k && leb m.observed_at as_of) (own_metrics id metrics))
      required

all-congr :
    {A : Type 0} (p q : A → Bool) (xs : List A) → ((x : A) → p x ≡ q x) → all p xs ≡ all q xs
all-congr p q [] h = refl
all-congr p q (x ∷ xs) h = rw (h x, all-congr p q xs h)

entity_has_required-all :
    (rows : List SignalRow) (required : List String) (as_of : ℕ)
    → entity_has_required_signals rows required as_of
      ≡ all
          (λ k.
            has k (latest_by_key (λ (r : SignalRow). r.metric_key) (λ r. r.observed_at) as_of rows))
          required
unfolding entity_has_required_signals
entity_has_required-all rows [] as_of = refl
entity_has_required-all rows (k ∷ ks) as_of = refl

module _ {F : Type 0} (metrics : List (Metric F)) (as_of id : ℕ) where
  has-rows :
      (k : String)
      → has k (
          latest_by_key
            (λ (r : SignalRow). r.metric_key)
            (λ r. r.observed_at)
            as_of
            (index_of_entity (group_metrics_by_entity metrics) as_of id).signal_rows)
        ≡ has k (index_of_entity (group_metrics_by_entity metrics) as_of id).latest
  unfolding index_of_entity pick_latest_metrics_by_key latest_by_key
  has-rows k =
      has-latest_by_key (λ r. r.metric_key) (λ r. r.observed_at) as_of k _
      ∙ any-values as_of k _
          (foldl-IsFiled as_of [] (or_else (get id (group_metrics_by_entity metrics)) []) tt)

  pub has-latest :
      (k : String)
      → has k (index_of_entity (group_metrics_by_entity metrics) as_of id).latest
        ≡ any (λ m. m.metric_key == k && leb m.observed_at as_of) (own_metrics id metrics)
  unfolding pick_latest_metrics_by_key
  has-latest k =
      ap (has k) (index-latest metrics as_of id)
      ∙ has-latest_by_key (λ m. m.metric_key) (λ m. m.observed_at) as_of k (own_metrics id metrics)

  entity_has_required-all_latest :
      (required : List String)
      → entity_has_required_signals
          (index_of_entity (group_metrics_by_entity metrics) as_of id).signal_rows
          required
          as_of
        ≡ all
            (λ k. has k (index_of_entity (group_metrics_by_entity metrics) as_of id).latest)
            required
  entity_has_required-all_latest required =
      entity_has_required-all _ required as_of ∙ all-congr _ _ required has-rows

  -- The index of an entity passes `entityHasRequiredSignals` exactly if, for every required key, the
  -- metrics hold one with this key, of this entity and not after `asOf`.
  pub entity_has_required-eq-required_in :
      (required : List String)
      → entity_has_required_signals
          (index_of_entity (group_metrics_by_entity metrics) as_of id).signal_rows
          required
          as_of
        ≡ required_in metrics as_of id required
  unfolding required_in
  entity_has_required-eq-required_in required =
      entity_has_required-all_latest required ∙ all-congr _ _ required has-latest

hits-all :
    (present required : List String)
    → (all (contains present) required ≡ true) ↔ (signal_hits present required ≡ length required)
unfolding signal_hits
hits-all present [] = (λ _. refl, λ _. refl)
hits-all present (k ∷ ks) = ground (arith, hits-all present ks, length-filter (contains present) ks)

pub signal_hits-le :
    (present required : List String) → signal_hits present required ≤ length required
unfolding signal_hits
signal_hits-le present required = length-filter (contains present) required

-- An entity has all required signals exactly if its coverage is full: as many of the required keys
-- are among its present keys as there are required keys.
pub entity_has_required_iff_full :
    {F : Type 0} (metrics : List (Metric F)) (as_of id : ℕ) (required : List String)
    → let idx = index_of_entity (group_metrics_by_entity metrics) as_of id in
      (entity_has_required_signals idx.signal_rows required as_of ≡ true)
      ↔ (signal_hits idx.present_keys required ≡ length required)
unfolding index_of_entity
entity_has_required_iff_full metrics as_of id required =
    rw
      (
        entity_has_required-all_latest metrics as_of id required,
        ← all-congr _ _ required (λ k.
            contains-keys as_of k
              (index_of_entity (group_metrics_by_entity metrics) as_of id).latest),
      )
      (hits-all _ required)
