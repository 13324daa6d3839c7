-- ===== src/Prelude/Sorting.antt =====
-- `Array.prototype.sort`, which is stable, by the test `before x y`: the comparator's value at
-- (x, y) is below zero.
use mathlib.Core.Path.{◌≡◌}
use mathlib.Core.Bool.{Bool, true, false}
use mathlib.Core.Logic.{inl, inr}
use mathlib.Core.List.{List, [], ◌∷◌, Perm}
use mathlib.Core.List.Perm
use ranking.Prelude.Tests.{if◌then◌else◌, Bool-cases}
use ranking.Prelude.Lists.{All}

module _ {ℓ} {A : Type ℓ} (before : A → A → Bool) where
  -- `x` stood in front of all of `ys`, and stays in front of its equals.
  unfoldable pub insert : A → List A → List A
  insert x [] = x ∷ []
  insert x (y ∷ ys) = if before y x then y ∷ insert x ys else x ∷ y ∷ ys

  unfoldable pub sort_by : List A → List A
  unfolding insert
  sort_by [] = []
  sort_by (x ∷ xs) = insert x (sort_by xs)

  -- Nothing stands behind an element that should stand before it.
  abbrev pub IsSorted : List A → Type 0
  IsSorted [] = Unit
  IsSorted (x ∷ xs) = All (λ y. before y x ≡ false) xs × IsSorted xs

  insert-Perm : (x : A) (ys : List A) → Perm (insert x ys) (x ∷ ys)
  unfolding insert
  insert-Perm x [] = Perm.refl _
  insert-Perm x (y ∷ ys) = elim (Bool-cases (before y x)) [
    | inl e ↦ rw e (Perm.trans (Perm.cons y (insert-Perm x ys)) (Perm.swap x y ys))
    | inr e ↦ rw e (Perm.refl _)
  ]

  -- Sorting loses and adds nothing.
  pub sort_by-Perm : (xs : List A) → Perm (sort_by xs) xs
  unfolding sort_by
  sort_by-Perm [] = Perm.refl _
  sort_by-Perm (x ∷ xs) = Perm.trans (insert-Perm x (sort_by xs)) (Perm.cons x (sort_by-Perm xs))

  module _ {κ} (P : A → Type κ) where
    insert-All : (x : A) (ys : List A) → P x → All P ys → All P (insert x ys)
    unfolding insert
    insert-All x [] p h = (p, tt)
    insert-All x (y ∷ ys) p h = elim (Bool-cases (before y x)) [
      | inl e ↦ rw e (h.0, insert-All x ys p h.1)
      | inr e ↦ rw e (p, h)
    ]

    pub sort_by-All : (xs : List A) → All P xs → All P (sort_by xs)
    unfolding sort_by
    sort_by-All [] h = h
    sort_by-All (x ∷ xs) h = insert-All x (sort_by xs) h.0 (sort_by-All xs h.1)

    -- On the elements with property `P` the test is a strict weak order.
    pub record IsWeakOrder : Type (ℓ ⊔ κ) where
      pub asym : (x y : A) → P x → P y → before x y ≡ true → before y x ≡ false
      pub neg_trans :
          (x y z : A)
          → P x
          → P y
          → P z
          → before z y ≡ false
          → before y x ≡ false
          → before z x ≡ false

    module _ (order : IsWeakOrder) where
      open order use {asym, neg_trans}

      behind :
          (x y : A) (zs : List A)
          → P x
          → P y
          → All P zs
          → before y x ≡ false
          → All (λ z. before z y ≡ false) zs
          → All (λ z. before z x ≡ false) zs
      behind x y [] px py pz h k = tt
      behind x y (z ∷ zs) px py pz h k =
          (neg_trans x y z px py pz.0 k.0 h, behind x y zs px py pz.1 h k.1)

      insert-All_behind :
          (y x : A) (zs : List A)
          → before x y ≡ false
          → All (λ z. before z y ≡ false) zs
          → All (λ z. before z y ≡ false) (insert x zs)
      unfolding insert
      insert-All_behind y x [] h k = (h, tt)
      insert-All_behind y x (z ∷ zs) h k = elim (Bool-cases (before z x)) [
        | inl e ↦ rw e (k.0, insert-All_behind y x zs h k.1)
        | inr e ↦ rw e (h, k)
      ]

      insert-IsSorted :
          (x : A) (ys : List A) → P x → All P ys → IsSorted ys → IsSorted (insert x ys)
      unfolding insert
      insert-IsSorted x [] p h s = (tt, tt)
      insert-IsSorted x (y ∷ ys) p h s = elim (Bool-cases (before y x)) [
        | inl e ↦
            rw e (insert-All_behind y x ys (asym y x h.0 p e) s.0, insert-IsSorted x ys p h.1 s.1)
        | inr e ↦ rw e ((e, behind x y ys p h.0 h.1 e s.0), s)
      ]

      pub sort_by-IsSorted : (xs : List A) → All P xs → IsSorted (sort_by xs)
      unfolding sort_by
      sort_by-IsSorted [] h = tt
      sort_by-IsSorted (x ∷ xs) h =
          insert-IsSorted x (sort_by xs) h.0 (sort_by-All xs h.1) (sort_by-IsSorted xs h.1)
