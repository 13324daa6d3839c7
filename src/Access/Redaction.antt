-- ===== src/Access/Redaction.antt =====
-- What a caller sees of an entity: src/compliance/pii-redact.ts and the record of
-- src/compliance/entity-pii.ts. Names are lists of UTF-16 code units.
use ranking.Prelude.{
  ℕ, zero, suc, ◌-◌, ◌≡◌, refl, ap, Bool, true, false, ◌||◌, not, Option, some, List, [], ◌∷◌, ◌++◌,
  map, arith, length, leb, min, take, if◌then◌else◌, or_else,
}
use ranking.Prelude.Texts.{Text, codes}
use ranking.Prelude.Json.{Json, Fields, elements, to_elements}
use ranking.Access.{Scope, has_scope}

pub data PiiLevel : Type 0 where
  none low high : PiiLevel

abbrev pub is_high : PiiLevel → Bool
is_high PiiLevel.high = true
is_high _ = false

unfoldable pub can_view_high_pii : List Scope → Bool
can_view_high_pii scopes = has_scope scopes Scope.admin

-- `c.repeat(n)`, and n times an element in a list.
abbrev pub replicate {ℓ} : {A : Type ℓ} → ℕ → A → List A
replicate zero c = []
replicate (suc n) c = c ∷ replicate n c

unfoldable pub redact_canonical_name : Text → PiiLevel → List Scope → Text
unfolding can_view_high_pii
redact_canonical_name name pii scopes =
    if not (is_high pii) || can_view_high_pii scopes
    then name
    else if leb (length name) 2
    then codes "**"
    else take 1 name ++ replicate (min (length name - 1) 8) b'*'

module _ {F : Type 0} where
  abbrev pub redacted : Json F
  redacted = Json.text "[redacted]"

  abbrev pub redact_value : Json F → Json F
  redact_value Json.null = Json.null
  redact_value (Json.array xs) = Json.array (to_elements (map (λ x. redacted) (elements xs)))
  redact_value _ = redacted

  -- None is undefined.
  unfoldable pub redact_aliases : Option (Json F) → PiiLevel → List Scope → Option (Json F)
  unfolding can_view_high_pii
  redact_aliases aliases pii scopes =
      if not (is_high pii) || can_view_high_pii scopes
      then aliases
      else elim aliases [ Option.none ↦ Option.none | some x ↦ some (redact_value x) ]

-- A row of an entity: the fields that `redactEntityRecord` reads, and the others, which `...row` copies.
pub record EntityRow (F : Type 0) : Type 0 where
  pub canonical_name : Text
  pub pii_level : Option PiiLevel
  pub aliases : Option (Json F)
  pub others : Fields F

-- What redacted aliases still show.
pub data Shape : Type 0 where
  missing empty single : Shape
  several : ℕ → Shape

redact_name_blind :
    (a b : Text) (scopes : List Scope)
    → can_view_high_pii scopes ≡ false
    → take 1 a ≡ take 1 b
    → min (length a) 9 ≡ min (length b) 9
    → redact_canonical_name a PiiLevel.high scopes ≡ redact_canonical_name b PiiLevel.high scopes
unfolding redact_canonical_name
redact_name_blind a b scopes v t m = ground (arith, e)
  where
    e : min (length a - 1) 8 ≡ min (length b - 1) 8
    e = omega arith

module _ {F : Type 0} where
  unfoldable pub redact_entity_record : EntityRow F → List Scope → EntityRow F
  unfolding redact_canonical_name redact_aliases
  redact_entity_record row scopes =
      let pii = or_else row.pii_level PiiLevel.none in
      record row {
        canonical_name = redact_canonical_name row.canonical_name pii scopes;
        aliases = redact_aliases row.aliases pii scopes;
      }

  abbrev pub shape_of : Option (Json F) → Shape
  shape_of Option.none = Shape.missing
  shape_of (some Json.null) = Shape.empty
  shape_of (some (Json.array xs)) = Shape.several (length (elements xs))
  shape_of (some _) = Shape.single

  -- The redacted aliases, from their shape alone.
  abbrev shown : Shape → Option (Json F)
  shown Shape.missing = Option.none
  shown Shape.empty = some Json.null
  shown Shape.single = some redacted
  shown (Shape.several n) = some (Json.array (to_elements (replicate n redacted)))

  map-redacted :
      (xs : List (Json F)) → map (λ x. redacted {F = F}) xs ≡ replicate (length xs) redacted
  map-redacted [] = refl
  map-redacted (x ∷ xs) = ap (λ zs. redacted ∷ zs) (map-redacted xs)

  redact_aliases-shown :
      (x : Option (Json F)) (scopes : List Scope)
      → can_view_high_pii scopes ≡ false
      → redact_aliases x PiiLevel.high scopes ≡ shown (shape_of x)
  unfolding redact_aliases
  redact_aliases-shown Option.none scopes v = rw v refl
  redact_aliases-shown (some Json.null) scopes v = rw v refl
  redact_aliases-shown (some (Json.array xs)) scopes v = rw (v, map-redacted (elements xs)) refl
  redact_aliases-shown (some (Json.flag b)) scopes v = rw v refl
  redact_aliases-shown (some (Json.number n)) scopes v = rw v refl
  redact_aliases-shown (some (Json.text t)) scopes v = rw v refl
  redact_aliases-shown (some (Json.object o)) scopes v = rw v refl

  -- To a caller without the scope `admin`, two entities of the level HIGH look the same if their names
  -- have the same first character and the same length up to 9, their aliases have the same shape (a
  -- list of as many, some other value, null or nothing), and all their other fields are equal. The other
  -- fields are shown as they are.
  pub redact_entity_record_blind :
      (a b : EntityRow F) (scopes : List Scope)
      → can_view_high_pii scopes ≡ false
      → a.pii_level ≡ some PiiLevel.high
      → b.pii_level ≡ some PiiLevel.high
      → take 1 a.canonical_name ≡ take 1 b.canonical_name
      → min (length a.canonical_name) 9 ≡ min (length b.canonical_name) 9
      → shape_of a.aliases ≡ shape_of b.aliases
      → a.others ≡ b.others
      → (redact_entity_record a scopes ≡ redact_entity_record b scopes)
        × ((redact_entity_record a scopes).others ≡ a.others)
  unfolding redact_entity_record
  redact_entity_record_blind a b scopes v ha hb t m s o = (
    grind (
      arith,
      redact_name_blind a.canonical_name b.canonical_name scopes v t m,
      redact_aliases-shown a.aliases scopes v,
      redact_aliases-shown b.aliases scopes v,
    ),
    refl,
  )
