-- ===== src/Scoring/Normalize.antt =====
-- `robustMinMaxNormalize`: range, order, and what it does to the largest values.
use mathlib.Core.Option.{some-injective}
use ranking.Prelude.{
  ℕ, zero, suc, ◌-◌, ◌≡◌, refl, ◌∙◌, true, false, List, [], ◌∷◌, map, some, get_elem?, Bool-cases,
  inl, inr, arith, ap, sym, length, length-map,
}
use ranking.Prelude.Number.{Number, IsOrdered, max_of, min_of}
use ranking.Prelude.Sorting.{sort_by}
use ranking.Scoring.{
  zero_f, one_f, quantile, before_number, span_of, squash, robust_min_max_normalize,
}

get_elem?-map :
    {A B : Type 0} (f : A → B) (xs : List A) (i : ℕ) (x : A)
    → get_elem? xs i ≡ some x
    → get_elem? (map f xs) i ≡ some (f x)
get_elem?-map f [] i x h = absurd (cc)
get_elem?-map f (y ∷ xs) zero x h = ap some (ap f (some-injective _ _ h))
get_elem?-map f (y ∷ xs) (suc i) x h = get_elem?-map f xs i x h

-- A value of a mapped list comes from a value of the list.
get_elem?-map_inv :
    {A B : Type 0} (f : A → B) (xs : List A) (i : ℕ) (b : B)
    → get_elem? (map f xs) i ≡ some b
    → (x : A) × (b ≡ f x)
get_elem?-map_inv f [] i b h = absurd (cc)
get_elem?-map_inv f (y ∷ xs) zero b h = (y, sym (some-injective _ _ h))
get_elem?-map_inv f (y ∷ xs) (suc i) b h = get_elem?-map_inv f xs i b h

module _ {F : Type 0} ⦃num : Number F⦄ where
  abbrev pub sorted_values : List F → List F
  sorted_values vs = sort_by before_number vs

  abbrev pub q05_of : List F → F
  q05_of vs = quantile 1 0 (sorted_values vs)

  abbrev pub q95_of : List F → F
  q95_of vs = quantile 19 (length (sorted_values vs) - 1) (sorted_values vs)

  pub normalize-map :
      (vs : List F)
      → robust_min_max_normalize vs ≡ map (squash (q05_of vs) (span_of (q05_of vs) (q95_of vs))) vs
  unfolding robust_min_max_normalize
  normalize-map [] = refl
  normalize-map (v ∷ vs) = refl

  pub length-normalize : (vs : List F) → length (robust_min_max_normalize vs) ≡ length vs
  length-normalize vs = rw (normalize-map vs) (length-map _ vs)

module _ {F : Type 0} ⦃num : Number F⦄ (laws : IsOrdered num) where
  open num use {lt, is_num, is_finite, sub, div, lit}
  open laws use {lt_num, lt_asym, lt_neg_trans, lit_num, lit_pos, lt-sub, lt-div, div_num, div_self}

  lt_irrefl : (a : F) → lt a a ≡ false
  lt_irrefl a = elim (Bool-cases (lt a a)) [ inl e ↦ lt_asym a a e | inr e ↦ e ]

  lt_of_nan_left : (a b : F) → is_num a ≡ false → lt a b ≡ false
  lt_of_nan_left a b h = elim (Bool-cases (lt a b)) [
    | inl e ↦ absurd (ground (arith, lt_num a b))
    | inr e ↦ e
  ]

  lt_of_nan_right : (a b : F) → is_num b ≡ false → lt a b ≡ false
  lt_of_nan_right a b h = elim (Bool-cases (lt a b)) [
    | inl e ↦ absurd (ground (arith, lt_num a b))
    | inr e ↦ e
  ]

  max_of_mono :
      (c a b : F) → is_num c ≡ true → lt b a ≡ false → lt (max_of c b) (max_of c a) ≡ false
  max_of_mono c a b hc h = ground (
    arith,
    lt_of_nan_right (max_of c b) a,
    lt_of_nan_left b (max_of c a),
    lt_neg_trans a b c,
    lt_asym c b,
    lt_irrefl c,
  )

  min_of_mono :
      (c a b : F) → is_num c ≡ true → lt b a ≡ false → lt (min_of c b) (min_of c a) ≡ false
  min_of_mono c a b hc h = ground (
    arith,
    lt_of_nan_right (min_of c b) a,
    lt_of_nan_left b (min_of c a),
    lt_neg_trans c a b,
    lt_asym a c,
    lt_irrefl c,
  )

  clamp_range :
      (x : F)
      → is_num x ≡ true
      → (lt (min_of one_f (max_of zero_f x)) zero_f ≡ false)
        × (lt one_f (min_of one_f (max_of zero_f x)) ≡ false)
  clamp_range x h = ground (
    arith,
    lit_num 0 1,
    lit_num 1 1,
    lt_irrefl zero_f,
    lt_irrefl one_f,
    lt_asym zero_f x,
    lt_asym zero_f one_f,
    lt_asym (max_of zero_f x) one_f,
    lit_pos 1 1 (omega arith) (omega arith) (omega arith),
  )

  -- The clamp keeps NaN.
  clamp_nan : (x : F) → is_num x ≡ false → is_num (min_of one_f (max_of zero_f x)) ≡ false
  clamp_nan x h = ground (arith, lit_num 0 1, lit_num 1 1)

  span_pos : (a b : F) → is_num (span_of a b) ≡ true → lt zero_f (span_of a b) ≡ true
  span_pos a b h =
      let tiny : F = lit 1 1_000_000_000 in
      let pos = lit_pos 1 1_000_000_000 (omega arith) (omega arith) (omega arith) in
      elim (Bool-cases (lt zero_f (span_of a b))) [
        | inl e ↦ e
        | inr e ↦ absurd (
            ground (
              arith,
              pos,
              lit_num 1 1_000_000_000,
              lt_neg_trans tiny (sub b a) zero_f,
              lt_asym tiny (sub b a),
            ))
      ]

  div_nan : (a b : F) → is_num b ≡ false → is_num (div a b) ≡ false
  div_nan a b h = elim (Bool-cases (is_num (div a b))) [
    | inl e ↦ absurd (ground (arith, div_num a b e))
    | inr e ↦ e
  ]

  -- The larger of two values is not scored below the other.
  pub squash_mono :
      (q05 q95 v w : F)
      → lt w v ≡ false
      → lt (squash q05 (span_of q05 q95) w) (squash q05 (span_of q05 q95) v) ≡ false
  unfolding squash
  squash_mono q05 q95 v w h = elim (Bool-cases (is_num (span_of q05 q95))) [
    | inl good ↦
        min_of_mono _ _ _ (lit_num 1 1) (
          max_of_mono _ _ _ (lit_num 0 1) (lt-div _ _ _ (span_pos q05 q95 good) (lt-sub v w q05 h)))
    | inr nan ↦ lt_of_nan_left _ _ (clamp_nan _ (div_nan (sub w q05) _ nan))
  ]

  clamp_top :
      (x : F) → is_num x ≡ true → lt x one_f ≡ false → min_of one_f (max_of zero_f x) ≡ one_f
  clamp_top x h k = ground (
    arith,
    lit_num 0 1,
    lit_num 1 1,
    lit_pos 1 1 (omega arith) (omega arith) (omega arith),
    lt_neg_trans one_f x zero_f,
  )

  squash_top :
      (q05 q95 v : F)
      → lt v q95 ≡ false
      → lt (lit 1 1_000_000_000) (sub q95 q05) ≡ true
      → is_finite (sub q95 q05) ≡ true
      → is_num (div (sub v q05) (sub q95 q05)) ≡ true
      → squash q05 (span_of q05 q95) v ≡ one_f
  unfolding squash
  squash_top q05 q95 v top wide fin good =
      let wide_span : span_of q05 q95 ≡ sub q95 q05 =
        ground (arith, lit_num 1 1_000_000_000, lt_num _ _ wide) in
      let pos : lt zero_f (sub q95 q05) ≡ true =
        rw (← wide_span) (span_pos q05 q95 (rw wide_span (lt_num _ _ wide).1)) in
      rw wide_span (
        clamp_top _ good (
          rw (← div_self (sub q95 q05) pos fin)
            (lt-div (sub q95 q05) (sub v q05) (sub q95 q05) pos (lt-sub q95 v q05 top))))

  -- Two scores at positions of the list stay in order: where the second value is not below the
  -- first, neither is its normalised value. NaN compares false with everything.
  pub normalize_mono :
      (vs : List F) (i j : ℕ) (v w : F)
      → get_elem? vs i ≡ some v
      → get_elem? vs j ≡ some w
      → lt w v ≡ false
      → (a : F) × (b : F) × (get_elem? (robust_min_max_normalize vs) i ≡ some a)
        × (get_elem? (robust_min_max_normalize vs) j ≡ some b)
        × (lt b a ≡ false)
  normalize_mono vs i j v w hi hj h =
      let f = squash (q05_of vs) (span_of (q05_of vs) (q95_of vs)) in
      (
        f v,
        f w,
        rw (normalize-map vs) (get_elem?-map f vs i v hi),
        rw (normalize-map vs) (get_elem?-map f vs j w hj),
        squash_mono (q05_of vs) (q95_of vs) v w h,
      )

  -- Every value from the 95% quantile up is scored 1, whatever lies between such values: if the
  -- spread of the quantiles is finite and above 1e-9, and the quotient is no NaN.
  pub normalize_top :
      (vs : List F) (i : ℕ) (v : F)
      → get_elem? vs i ≡ some v
      → lt v (q95_of vs) ≡ false
      → lt (lit 1 1_000_000_000) (sub (q95_of vs) (q05_of vs)) ≡ true
      → is_finite (sub (q95_of vs) (q05_of vs)) ≡ true
      → is_num (div (sub v (q05_of vs)) (sub (q95_of vs) (q05_of vs))) ≡ true
      → get_elem? (robust_min_max_normalize vs) i ≡ some one_f
  normalize_top vs i v hi top wide fin good =
      rw (normalize-map vs) (
        get_elem?-map _ vs i v hi
        ∙ ap some (squash_top (q05_of vs) (q95_of vs) v top wide fin good))

  -- A normalised value lies in [0, 1], where it is no NaN.
  pub normalize_range :
      (vs : List F) (i : ℕ) (a : F)
      → get_elem? (robust_min_max_normalize vs) i ≡ some a
      → is_num a ≡ true
      → (lt a zero_f ≡ false) × (lt one_f a ≡ false)
  unfolding squash
  normalize_range vs i a e h =
      let f = squash (q05_of vs) (span_of (q05_of vs) (q95_of vs)) in
      let (x, from) = get_elem?-map_inv f vs i a (rw (normalize-map vs) at e) in
      let q = div (sub x (q05_of vs)) (span_of (q05_of vs) (q95_of vs)) in
      let good : is_num q ≡ true = elim (Bool-cases (is_num q)) [
        | inl g ↦ g
        | inr n ↦ absurd (cc (clamp_nan q n))
      ] in
      rw from (clamp_range q good)
