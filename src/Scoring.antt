-- ===== src/Scoring.antt =====
-- src/domain/scoring.ts, but for the streaks (Stats.antt). Doubles are a `Number`; an age is computed
-- from milliseconds, and a tier is a whole number. A `Record<string, number>` is a `Dict`: its keys
-- are taken not to look like array indices, which JavaScript would move to the front.
pub mod Normalize
pub mod Fixed
mod Tests
use ranking.Prelude.{
  ℕ, zero, suc, ◌+◌, ◌-◌, ◌*◌, ◌/◌, Bool, true, false, ◌&&◌, ◌||◌, Option, none, some, List, [],
  ◌∷◌, ◌++◌, foldl, map, ltb, leb, if◌then◌else◌, length, get_elem?, or_else, max, String,
}
use ranking.Prelude.Keys.{string_key}
use ranking.Prelude.Dict.{Dict, get, set, values}
use ranking.Prelude.Sorting.{sort_by}
use ranking.Prelude.Number.{Number, le, eq, max_of, min_of}
use ranking.Signals.{Signal}

-- An entry of `DecayParams.breakpoints`.
pub record Breakpoint (F : Type 0) : Type 0 where
  pub max_age_days : F
  pub weight : F

pub record DecayParams (F : Type 0) : Type 0 where
  pub half_life_days : Option F
  pub breakpoints : Option (List (Breakpoint F))

pub data DecayKind : Type 0 where
  exponential piecewise : DecayKind

-- The labels of `classifyTrend`, which `toTrendType` takes to the values of `TrendType`.
pub data TrendType : Type 0 where
  surge steady_up flat volatile steady_down decline : TrendType

module _ {F : Type 0} ⦃num : Number F⦄ where
  open num use {lit, add, sub, mul, div, lt, sqrt, exp, half_pow}

  abbrev pub zero_f : F
  zero_f = lit 0 1

  abbrev pub one_f : F
  one_f = lit 1 1

  abbrev pub sum_of : List F → F
  sum_of = foldl add zero_f

  -- `Math.max(0, now - ts) / 86_400_000`
  abbrev age_days : ℕ → ℕ → F
  age_days ts now = lit (now - ts) 86_400_000

  -- The loop over the sorted breakpoints.
  first_weight : F → List (Breakpoint F) → F
  first_weight age [] = lit 5 100
  first_weight age (b ∷ bs) = if le age b.max_age_days then b.weight else first_weight age bs

  abbrev default_breakpoints : List (Breakpoint F)
  default_breakpoints =
      record { max_age_days = lit 7 1; weight = one_f }
      ∷ record { max_age_days = lit 30 1; weight = lit 6 10 }
      ∷ record { max_age_days = lit 365 1; weight = lit 25 100 }
      ∷ []

  unfoldable pub time_weight : ℕ → ℕ → DecayKind → DecayParams F → F
  unfolding first_weight
  time_weight ts now DecayKind.exponential p =
      half_pow (div (age_days ts now) (or_else p.half_life_days (lit 7 1)))
  time_weight ts now DecayKind.piecewise p = first_weight (age_days ts now) (elim p.breakpoints [
    | none ↦ default_breakpoints
    | some bps ↦ sort_by (λ a c. lt (sub a.max_age_days c.max_age_days) zero_f) bps
  ])

  -- `1 / (1 + Math.exp(tier - 2))`
  unfoldable pub trust_from_source_tier : F → F
  trust_from_source_tier tier = div one_f (add one_f (exp (sub tier (lit 2 1))))

  unfoldable pub blended_observation : F → ℕ → ℕ → F → DecayParams F → F
  blended_observation value observed_at now tier decay =
      mul (mul value (time_weight observed_at now DecayKind.exponential decay))
        (trust_from_source_tier tier)

  -- `sorted[Math.floor(0.05 * (n - 1))]` and `sorted[Math.floor(0.95 * (n - 1))]`: the rounded
  -- product of the double nearest to k / 20 and of m has the floor of k * m / 20.
  -- The index is never out of range, where the source takes the first or last element.
  abbrev pub quantile : ℕ → ℕ → List F → F
  quantile k other sorted =
      or_else (get_elem? sorted ((k * (length sorted - 1)) / 20))
        (or_else (get_elem? sorted other) zero_f)

  abbrev pub before_number : F → F → Bool
  before_number a b = lt (sub a b) zero_f

  abbrev pub span_of : F → F → F
  span_of q05 q95 = max_of (lit 1 1_000_000_000) (sub q95 q05)

  -- `Math.min(1, Math.max(0, (v - q05) / span))`
  unfoldable pub squash : F → F → F → F
  squash q05 span v = min_of one_f (max_of zero_f (div (sub v q05) span))

  unfoldable pub robust_min_max_normalize : List F → List F
  robust_min_max_normalize [] = []
  robust_min_max_normalize (v ∷ vs) =
      let sorted = sort_by before_number (v ∷ vs) in
      let q05 = quantile 1 0 sorted in
      let q95 = quantile 19 (length sorted - 1) sorted in
      map (squash q05 (span_of q05 q95)) (v ∷ vs)

  -- The loop of `scoreEntity`.
  unfoldable pub add_to_breakdown :
      Dict String F → ℕ → DecayParams F → Dict String F → Signal F → Dict String F
  add_to_breakdown weights now decay breakdown s =
      let w = or_else (get s.key weights) zero_f in
      let v = blended_observation s.raw s.observed_at now (lit s.tier 1) decay in
      set s.key (mul v w) breakdown

  abbrev default_decay : DecayParams F
  default_decay = record { half_life_days = some (lit 10 1); breakpoints = none }

  -- The result is (total, breakdown).
  unfoldable pub score_entity :
      List (Signal F) → Dict String F → ℕ → Option (DecayParams F) → F × Dict String F
  unfolding add_to_breakdown
  score_entity signals weights now decay =
      let breakdown =
        foldl (add_to_breakdown weights now (or_else decay default_decay)) [] signals in
      (sum_of (values breakdown), breakdown)

  abbrev square : F → F
  square x = mul x x

  -- The loop of `leastSquaresSlope` from index `i` on: the sums `num` and `den`.
  slope_sums : F → F → ℕ → List F → F → F → F × F
  slope_sums mean_x mean_y i [] n d = (n, d)
  slope_sums mean_x mean_y i (y ∷ ys) n d =
      let dx = sub (lit i 1) mean_x in
      slope_sums mean_x mean_y (i + 1) ys (add n (mul dx (sub y mean_y))) (add d (square dx))

  unfoldable pub least_squares_slope : List F → F
  unfolding slope_sums
  least_squares_slope y =
      let n = length y in
      let mean_x = lit (n - 1) 2 in
      let mean_y = div (sum_of y) (lit n 1) in
      let (top, den) = slope_sums mean_x mean_y 0 y zero_f zero_f in
      if ltb n 2 then zero_f else if eq den zero_f then zero_f else div top den

  unfoldable pub standard_dev : List F → F
  standard_dev vs =
      let n = length vs in
      let m = div (sum_of vs) (lit n 1) in
      let v = div (foldl (λ acc x. add acc (square (sub x m))) zero_f vs) (lit (max 1 (n - 1)) 1) in
      if ltb n 2 then zero_f else sqrt v

  unfoldable pub classify_trend : F → F → TrendType
  classify_trend slope volatility =
      if lt (lit 15 100) slope
      then TrendType.surge
      else if lt (lit 5 100) slope && lt volatility (lit 2 10)
      then TrendType.steady_up
      else if lt slope (sub zero_f (lit 15 100))
      then TrendType.decline
      else if lt slope (sub zero_f (lit 5 100)) && lt volatility (lit 2 10)
      then TrendType.steady_down
      else if lt (lit 35 100) volatility
      then TrendType.volatile
      else TrendType.flat

  unfoldable pub ai_confidence : F → F → F → F
  ai_confidence coverage variance avg_tier = max_of zero_f (
      min_of one_f (
        add (add (mul (lit 5 10) coverage) (mul (lit 3 10) (sub one_f variance)))
          (mul (lit 2 10) (trust_from_source_tier avg_tier))))
