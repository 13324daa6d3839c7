-- ===== src/Prelude/Number.antt =====
-- What the code does with a JavaScript `number` that is no index or counter: IEEE 754 doubles are
-- an argument, with the operations that the source applies.
use mathlib.Core.Path.{◌≡◌}
use mathlib.Core.Bool.{Bool, true, false}
use Prim.Native.Nat.{ℕ, ◌<◌, ◌≤◌}
use ranking.Prelude.Tests.{if◌then◌else◌}

pub record Number (F : Type 0) : Type 0 where
  -- the double nearest to `n / d`, for the literals of the source and for counters
  pub lit : ℕ → ℕ → F
  pub add : F → F → F
  pub sub : F → F → F
  pub mul : F → F → F
  pub div : F → F → F
  pub lt : F → F → Bool
  -- `!Number.isNaN(x)`
  pub is_num : F → Bool
  -- `Number.isFinite(x)`
  pub is_finite : F → Bool
  pub sqrt : F → F
  pub exp : F → F
  -- `0.5 ** x`
  pub half_pow : F → F

module _ {F : Type 0} ⦃n : Number F⦄ where
  -- A comparison with NaN is false, so `a <= b` is not `!(b < a)`.
  abbrev pub le : F → F → Bool
  le a b =
      if n.is_num a
      then (if n.is_num b then (if n.lt b a then false else true) else false)
      else false

  -- `a === b`
  abbrev pub eq : F → F → Bool
  eq a b =
      if n.is_num a
      then (if n.is_num b
          then (if n.lt a b then false else if n.lt b a then false else true)
          else false)
      else false

  -- `Math.max` and `Math.min` give NaN if an argument is NaN.
  abbrev pub max_of : F → F → F
  max_of a b = if n.is_num a then (if n.is_num b then (if n.lt a b then b else a) else b) else a

  abbrev pub min_of : F → F → F
  min_of a b = if n.is_num a then (if n.is_num b then (if n.lt b a then b else a) else b) else a

-- The order of doubles: total on the values that are not NaN, false at NaN. Rounding keeps the
-- order of differences and of quotients by a positive number.
pub record IsOrdered {F : Type 0} (n : Number F) : Type 0 where
  pub lt_num : (a b : F) → n.lt a b ≡ true → (n.is_num a ≡ true) × (n.is_num b ≡ true)
  pub lt_asym : (a b : F) → n.lt a b ≡ true → n.lt b a ≡ false
  pub lt_neg_trans :
      (a b c : F) → n.is_num b ≡ true → n.lt c b ≡ false → n.lt b a ≡ false → n.lt c a ≡ false
  -- `a - b < 0` exactly if `a < b`: subtraction of doubles underflows gradually.
  pub lt-sub-zero : (a b : F) → n.lt (n.sub a b) (n.lit 0 1) ≡ n.lt a b
  pub lit_num : (a b : ℕ) → n.is_num (n.lit a b) ≡ true
  pub lit_pos : (a b : ℕ) → 0 < a → 0 < b → b ≤ 1_000_000_000 → n.lt (n.lit 0 1) (n.lit a b) ≡ true
  pub lt-sub : (a b c : F) → n.lt b a ≡ false → n.lt (n.sub b c) (n.sub a c) ≡ false
  pub lt-div :
      (a b s : F)
      → n.lt (n.lit 0 1) s ≡ true
      → n.lt b a ≡ false
      → n.lt (n.div b s) (n.div a s) ≡ false
  pub div_num : (a b : F) → n.is_num (n.div a b) ≡ true → n.is_num b ≡ true
  pub div_self : (s : F) → n.lt (n.lit 0 1) s ≡ true → n.is_finite s ≡ true → n.div s s ≡ n.lit 1 1
