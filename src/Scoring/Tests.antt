-- ===== src/Scoring/Tests.antt =====
-- Examples for the normalisation, with fixed-point numbers.
use ranking.Prelude.{◌≡◌, refl, false, List, [], ◌∷◌, some, get_elem?}
use ranking.Prelude.Int.{ℤ, pos}
use ranking.Prelude.Sorting.{sort_by}
use ranking.Scoring.{robust_min_max_normalize, squash, zero_f, one_f}
use ranking.Scoring.Fixed.{fixed, fixed-IsOrdered}
use ranking.Scoring.Normalize.{normalize_mono, normalize_top, normalize_range}

-- The totals 1, 2, 4 and 3.
abbrev totals : List ℤ
totals = pos 1_000_000_000 ∷ pos 2_000_000_000 ∷ pos 4_000_000_000 ∷ pos 3_000_000_000 ∷ []

-- The second largest total already has score 1.
scores :
    robust_min_max_normalize totals
    ≡ pos 0 ∷ pos 500_000_000 ∷ pos 1_000_000_000 ∷ pos 1_000_000_000 ∷ []
unfolding robust_min_max_normalize squash sort_by
scores = refl

normalize_mono_example :
    (a : ℤ) × (b : ℤ) × (get_elem? (robust_min_max_normalize totals) 1 ≡ some a)
    × (get_elem? (robust_min_max_normalize totals) 3 ≡ some b)
    × (fixed.lt b a ≡ false)
normalize_mono_example =
    normalize_mono fixed-IsOrdered totals 1 3 (pos 2_000_000_000) (pos 3_000_000_000) refl refl refl

normalize_top_example : get_elem? (robust_min_max_normalize totals) 2 ≡ some one_f
unfolding sort_by
normalize_top_example =
    normalize_top fixed-IsOrdered totals 2 (pos 4_000_000_000) refl refl refl refl refl

normalize_range_example :
    (fixed.lt (pos 500_000_000) zero_f ≡ false) × (fixed.lt one_f (pos 500_000_000) ≡ false)
unfolding robust_min_max_normalize squash sort_by
normalize_range_example = normalize_range fixed-IsOrdered totals 1 (pos 500_000_000) refl refl
