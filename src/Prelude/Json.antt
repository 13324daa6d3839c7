-- ===== src/Prelude/Json.antt =====
-- The values of JSON, as the columns and the bodies of requests hold them, over a type of numbers.
use mathlib.Core.Bool.{Bool}
use mathlib.Core.List.{List, [], ◌∷◌}
use mathlib.Core.Option.{Option, none, some}
use Prim.Native.String.{String}
use ranking.Prelude.Keys.{string_key, ◌==◌}
use ranking.Prelude.Tests.{if◌then◌else◌}

mutual
  pub data Json (F : Type 0) : Type 0 where
    null : Json F
    flag : Bool → Json F
    number : F → Json F
    text : String → Json F
    array : Elements F → Json F
    object : Fields F → Json F

  pub data Elements (F : Type 0) : Type 0 where
    done : Elements F
    element : Json F → Elements F → Elements F

  pub data Fields (F : Type 0) : Type 0 where
    closed : Fields F
    field : String → Json F → Fields F → Fields F

module _ {F : Type 0} where
  abbrev pub elements : Elements F → List (Json F)
  elements Elements.done = []
  elements (Elements.element x xs) = x ∷ elements xs

  abbrev pub fields : Fields F → List (String × Json F)
  fields Fields.closed = []
  fields (Fields.field k x xs) = (k, x) ∷ fields xs

  -- `new Array(...)` of values.
  abbrev pub to_elements : List (Json F) → Elements F
  to_elements [] = Elements.done
  to_elements (x ∷ xs) = Elements.element x (to_elements xs)

  -- `object[key]`, none for undefined.
  abbrev pub property : String → Fields F → Option (Json F)
  property k Fields.closed = none
  property k (Fields.field j x xs) = if j == k then some x else property k xs
