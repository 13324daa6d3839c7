-- ===== src/Prelude/Numbers.antt =====
-- Lists of ids: membership as a Boolean test, and lists that hold no id twice.
use Prim.Native.Nat.{ℕ}
use mathlib.Core.Path.{◌≡◌, refl}
use mathlib.Core.Bool.{Bool, false, ◌||◌}
use mathlib.Core.List.{List, [], ◌∷◌, ◌++◌}
use native.Mathlib.Omega.{arith}
use ranking.Prelude.Tests.{nat_beq}
use ranking.Prelude.Lists.{All}

abbrev pub holds : List ℕ → ℕ → Bool
holds [] x = false
holds (y ∷ ys) x = nat_beq y x || holds ys x

abbrev pub Unique : List ℕ → Type 0
Unique [] = Unit
Unique (x ∷ xs) = (holds xs x ≡ false) × Unique xs

pub holds-append : (xs ys : List ℕ) (x : ℕ) → holds (xs ++ ys) x ≡ (holds xs x || holds ys x)
holds-append [] ys x = refl
holds-append (y ∷ xs) ys x = ground (arith, holds-append xs ys x)

pub Unique-append :
    (xs ys : List ℕ) → Unique xs → Unique ys → All (λ y. holds xs y ≡ false) ys → Unique (xs ++ ys)
Unique-append [] ys ux uy h = uy
Unique-append (x ∷ xs) ys ux uy h = (
  ground (arith, ux.0, holds-append xs ys x, not-holds xs x ys h),
  Unique-append xs ys ux.1 uy (tail_of xs x ys h),
)
  where
    not-holds :
        (xs : List ℕ) (x : ℕ) (ys : List ℕ)
        → All (λ y. holds (x ∷ xs) y ≡ false) ys
        → holds ys x ≡ false
    not-holds xs x [] h = refl
    not-holds xs x (y ∷ ys) h = ground (arith, h.0, not-holds xs x ys h.1)

    tail_of :
        (xs : List ℕ) (x : ℕ) (ys : List ℕ)
        → All (λ y. holds (x ∷ xs) y ≡ false) ys
        → All (λ y. holds xs y ≡ false) ys
    tail_of xs x [] h = tt
    tail_of xs x (y ∷ ys) h = (ground (arith, h.0), tail_of xs x ys h.1)
