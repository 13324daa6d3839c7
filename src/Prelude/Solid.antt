-- ===== src/Prelude/Solid.antt =====
-- Texts with no white space, which trimming leaves as they are.
use mathlib.Core.Path.{◌≡◌, refl, ap}
use mathlib.Core.Bool.{Bool, true, not}
use mathlib.Core.List.{[], ◌∷◌}
use native.Mathlib.Omega.{arith}
use ranking.Prelude.Lists.{all}
use ranking.Prelude.Texts.{Text, is_space, trim_start, trim_end, trim, put}

-- A text with no white space.
abbrev pub is_solid : Text → Bool
is_solid t = all (λ c. not (is_space c)) t

pub trim_start-solid : (t : Text) → is_solid t ≡ true → trim_start t ≡ t
unfolding trim_start
trim_start-solid [] h = refl
trim_start-solid (c ∷ t) h = ground arith

pub trim_end-solid : (t : Text) → is_solid t ≡ true → trim_end t ≡ t
unfolding trim_end
trim_end-solid [] h = refl
trim_end-solid (c ∷ []) h = ground arith
trim_end-solid (c ∷ d ∷ t) h =
    let below : trim_end (d ∷ t) ≡ d ∷ t = trim_end-solid (d ∷ t) (ground arith) in ap (put c) below

pub trim-solid : (t : Text) → is_solid t ≡ true → trim t ≡ t
trim-solid t h = rw (trim_start-solid t h) (trim_end-solid t h)
