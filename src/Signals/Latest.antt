-- ===== src/Signals/Latest.antt =====
-- What the latest-by-key loops keep: for each key the newest row that is not after `asOf`, and of
-- rows equally new the first.
use ranking.Prelude.{
  ℕ, ◌≤◌, ◌<◌, ◌≡◌, refl, ◌⊎◌, ◌↔◌, inl, inr, Option, none, some, List, [], ◌∷◌, ◌++◌, foldl,
  String, arith, All, Bool-cases, Option-cases, ltb, if◌then◌else◌, ap, sym, ◌∙◌,
}
use mathlib.Core.Option.{some-injective}
use mathlib.Core.Path.{subst}
use ranking.Prelude.Keys.{string_key, ◌==◌}
use ranking.Prelude.Dict.{Dict, get, get-set}
use ranking.Signals.{Metric, replaces, keep_latest, latest_by_key, pick_latest_metrics_by_key}

module _ {A : Type 0} (key_of : A → String) (time_of : A → ℕ) (as_of : ℕ) (k : String) where
  -- The row counts for the key `k`.
  abbrev pub Counts : A → Type 0
  Counts a = (key_of a ≡ k) × (time_of a ≤ as_of)

  -- `r` is the latest row of `rows` that counts, and the first of the latest ones.
  pub record IsLatest (rows : List A) (r : A) : Type 0 where
    pub before : List A
    pub after : List A
    pub split : rows ≡ before ++ r ∷ after
    pub counted : Counts r
    pub newer : All (λ a. Counts a → time_of a < time_of r) before
    pub newest : All (λ a. Counts a → time_of a ≤ time_of r) after

  -- The entry of one key, followed through the loop.
  step : Option A → A → Option A
  step cur row =
      if ltb as_of (time_of row)
      then cur
      else if key_of row == k
      then (if replaces time_of cur row then some row else cur)
      else cur

  get-keep_latest :
      (m : Dict String A) (row : A)
      → get k (keep_latest key_of time_of as_of m row) ≡ step (get k m) row
  unfolding keep_latest step
  get-keep_latest m row =
      ground (arith, string_key.same_iff (key_of row) k, get-set (key_of row) k row m)

  get-foldl :
      (m : Dict String A) (rows : List A)
      → get k (foldl (keep_latest key_of time_of as_of) m rows) ≡ foldl step (get k m) rows
  get-foldl m [] = refl
  get-foldl m (row ∷ rows) =
      get-foldl (keep_latest key_of time_of as_of m row) rows
      ∙ ap (λ o. foldl step o rows) (get-keep_latest m row)

  -- What the loop leaves for `k`, given the entry `cur` that it starts from.
  Found : Option A → List A → Option A → Type 0
  Found cur rows none = (cur ≡ none) × All (λ a. ¬ Counts a) rows
  Found cur rows (some r) =
      ((cur ≡ some r) × All (λ a. Counts a → time_of a ≤ time_of r) rows)
      ⊎ (IsLatest rows r × ((c : A) → cur ≡ some c → time_of c < time_of r))

  -- A round takes the row, or keeps the entry.
  step-cases :
      (cur : Option A) (row : A)
      → ((step cur row ≡ some row)
          × Counts row
          × ((c : A) → cur ≡ some c → time_of c < time_of row))
        ⊎ ((step cur row ≡ cur)
            × (Counts row → (c : A) × (cur ≡ some c) × (time_of row ≤ time_of c)))
  unfolding step
  step-cases cur row = elim (Bool-cases (ltb as_of (time_of row))) [
    | inl late ↦ inr (rw late, λ h. absurd (ground (arith, h.1)))
    | inr on_time ↦ elim (Bool-cases (key_of row == k)) [
      | inr other ↦ inr (
        rw (on_time, other),
        λ h. absurd (ground (arith, h.0, string_key.same_iff (key_of row) k)),
      )
      | inl same ↦ elim (Option-cases cur) [
        | inl e ↦ inl (
          rw (e, on_time, same),
          ((string_key.same_iff _ _).0 same, ground arith),
          λ c e'. absurd (cc),
        )
        | inr (c, e) ↦ elim (Bool-cases (ltb (time_of c) (time_of row))) [
          | inl newer ↦ inl (
            rw (e, on_time, same, newer),
            ((string_key.same_iff _ _).0 same, ground arith),
            λ c' e'. ground arith,
          )
          | inr older ↦ inr (rw (e, on_time, same, older), λ h. (c, e, ground arith))
        ]
      ]
    ]
  ]

  Found-cons :
      (cur : Option A) (row : A) (rows : List A) (o : Option A)
      → Found (step cur row) rows o
      → Found cur (row ∷ rows) o
  unfolding Found
  Found-cons cur row rows none f = elim (step-cases cur row) [
    | inl (taken, counted, newer) ↦ absurd (ground arith)
    | inr (kept, older) ↦ (ground arith, (λ h. ground (arith, older h), f.1))
  ]
  Found-cons cur row rows (some r) (inl (e, rest)) = elim (step-cases cur row) [
    | inl (taken, counted, newer) ↦
        let same : row ≡ r = some-injective _ _ (sym taken ∙ e) in
        inr (
          record {
            before = [];
            after = rows;
            split = ap (λ x. x ∷ rows) same;
            counted = subst Counts same counted;
            newer = tt;
            newest = rest;
          },
          λ c e'. rw (← same) (newer c e'),
        )
    | inr (kept, older) ↦ inl (sym kept ∙ e, (λ h. ground (arith, older h), rest))
  ]
  Found-cons cur row rows (some r) (inr (l, newer)) = elim (step-cases cur row) [
    | inl (taken, counted, newer') ↦ inr (
      record {
        before = row ∷ l.before;
        after = l.after;
        split = ap (◌∷◌ row) l.split;
        counted = l.counted;
        newer = (λ h. newer row taken, l.newer);
        newest = l.newest;
      },
      λ c e. omega (arith, newer' c e, newer row taken),
    )
    | inr (kept, older) ↦ inr (
      record {
        before = row ∷ l.before;
        after = l.after;
        split = ap (◌∷◌ row) l.split;
        counted = l.counted;
        newer = (λ h. let (c, e, le) = older h in omega (arith, newer c (kept ∙ e)), l.newer);
        newest = l.newest;
      },
      λ c e. newer c (kept ∙ e),
    )
  ]

  foldl-Found : (cur : Option A) (rows : List A) → Found cur rows (foldl step cur rows)
  unfolding Found
  foldl-Found none [] = (refl, tt)
  foldl-Found (some c) [] = inl (refl, tt)
  foldl-Found cur (row ∷ rows) = Found-cons cur row rows _ (foldl-Found (step cur row) rows)

  -- What an entry, or its absence, says of the rows.
  abbrev pub LatestOf : List A → Option A → Type 0
  LatestOf rows none = All (λ a. ¬ Counts a) rows
  LatestOf rows (some r) = IsLatest rows r

  Found→LatestOf : (rows : List A) (o : Option A) → Found none rows o → LatestOf rows o
  unfolding Found
  Found→LatestOf rows none f = f.1
  Found→LatestOf rows (some r) (inl (e, _)) = absurd (cc)
  Found→LatestOf rows (some r) (inr (l, _)) = l

  pub latest_by_key-LatestOf :
      (rows : List A) → LatestOf rows (get k (latest_by_key key_of time_of as_of rows))
  unfolding latest_by_key get
  latest_by_key-LatestOf rows =
      rw (get-foldl [] rows) (Found→LatestOf rows _ (foldl-Found none rows))

  All-not-Counts-split :
      (before : List A) (r : A) (after : List A)
      → All (λ a. ¬ Counts a) (before ++ r ∷ after)
      → ¬ Counts r
  All-not-Counts-split [] r after h = h.0
  All-not-Counts-split (x ∷ before) r after h = All-not-Counts-split before r after h.1

  -- A key has an entry exactly if a row counts for it.
  pub latest_by_key-none_iff :
      (rows : List A)
      → (get k (latest_by_key key_of time_of as_of rows) ≡ none) ↔ All (λ a. ¬ Counts a) rows
  latest_by_key-none_iff rows =
      none_iff rows (get k (latest_by_key key_of time_of as_of rows)) (latest_by_key-LatestOf rows)
    where
      none_iff :
          (rows : List A) (o : Option A) → LatestOf rows o → (o ≡ none) ↔ All (λ a. ¬ Counts a) rows
      none_iff rows none l = (λ _. l, λ _. refl)
      none_iff rows (some r) l = (
        λ e. absurd (cc),
        λ h. absurd (
            All-not-Counts-split l.before r l.after (subst (All (λ a. ¬ Counts a)) l.split h)
              l.counted),
      )

-- The map of `pickLatestMetricsByKey` holds, for each metric key, the newest observation that is
-- not after `asOf`, and of equally new ones the first in the list. A key has no entry only if the
-- list has no such observation.
pub pick_latest-LatestOf :
    {F : Type 0} (metrics : List (Metric F)) (as_of : ℕ) (k : String)
    → LatestOf
        (λ m. m.metric_key)
        (λ m. m.observed_at)
        as_of
        k
        metrics
        (get k (pick_latest_metrics_by_key metrics as_of))
unfolding pick_latest_metrics_by_key
pick_latest-LatestOf metrics as_of k =
    latest_by_key-LatestOf (λ m. m.metric_key) (λ m. m.observed_at) as_of k metrics
