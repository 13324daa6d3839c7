-- ===== src/Policy/Parse.antt =====
-- `parseRankingPolicyJson` of src/domain/policy-json.ts. The conversions `Number(x)` and `String(x)` of
-- values that are no number and no string are arguments. The fields of an object stand in the order in
-- which `Object.entries` gives them.
use Prim.Native.Char.{code}
use ranking.Prelude.{
  Bool, true, false, ◌&&◌, ◌||◌, not, Option, none, some, List, [], ◌∷◌, map, String, any, filter,
  leb, if◌then◌else◌,
}
use ranking.Prelude.Keys.{string_key, ◌==◌}
use ranking.Prelude.Dict.{Dict, set, has}
use ranking.Prelude.Texts.{is_space}
use ranking.Prelude.Json.{Json, Fields, elements, fields, property}
use ranking.Prelude.Number.{Number, le}
use ranking.Scoring.{Breakpoint, DecayParams}
use ranking.Policy.{MetricDefinition}

-- The texts of the errors.
pub data PolicyError : Type 0 where
  not_an_object weights_not_an_object weights_empty : PolicyError
  bad_weight bad_entity_id unknown_required_key unknown_metric incomplete_metric :
      String → PolicyError
  bad_source_hints : String → PolicyError
  entity_ids_not_an_array required_keys_not_an_array metrics_not_an_array : PolicyError
  metric_not_an_object duplicate_metrics : PolicyError
  decay_not_an_object bad_half_life breakpoints_not_an_array breakpoint_not_an_object : PolicyError
  bad_age bad_breakpoint_weight decay_empty : PolicyError

pub data Parsed {ℓ} (A : Type ℓ) : Type ℓ where
  ok : A → Parsed A
  err : PolicyError → Parsed A

-- The rest of the code after a part that may throw.
abbrev pub and_then {ℓ κ} : {A : Type ℓ} {B : Type κ} → Parsed A → (A → Parsed B) → Parsed B
and_then (ok a) f = f a
and_then (err e) f = err e

-- A loop over a list whose body may throw.
abbrev pub each {ℓ κ} : {A : Type ℓ} {B : Type κ} → (A → Parsed B) → List A → Parsed (List B)
each f [] = ok []
each f (x ∷ xs) = and_then (f x) (λ y. and_then (each f xs) (λ ys. ok (y ∷ ys)))

-- `s.trim()`.
unfoldable pub trim_start : String → String
trim_start String.[] = String.[]
trim_start (String.◌∷◌ c s) = if is_space (code c) then trim_start s else String.◌∷◌ c s

abbrev put : Prim.Native.Char.Char → String → String
put c String.[] = if is_space (code c) then String.[] else String.◌∷◌ c String.[]
put c (String.◌∷◌ d s) = String.◌∷◌ c (String.◌∷◌ d s)

unfoldable pub trim_end : String → String
trim_end String.[] = String.[]
trim_end (String.◌∷◌ c s) = put c (trim_end s)

abbrev pub trim : String → String
trim s = trim_end (trim_start s)

abbrev pub is_blank : String → Bool
is_blank String.[] = true
is_blank (String.◌∷◌ c s) = false

abbrev all_digits : String → Bool
all_digits String.[] = true
all_digits (String.◌∷◌ c s) = leb 48 (code c) && leb (code c) 57 && all_digits s

-- `/^\d+$/`.
unfoldable pub is_number : String → Bool
is_number s = not (is_blank s) && all_digits s

-- The names that `in` finds in every object.
abbrev pub inherited : List String
inherited =
    "constructor" ∷ "__defineGetter__" ∷ "__defineSetter__" ∷ "hasOwnProperty" ∷ "__lookupGetter__"
    ∷ "__lookupSetter__" ∷ "isPrototypeOf" ∷ "propertyIsEnumerable" ∷ "toString" ∷ "valueOf"
    ∷ "__proto__" ∷ "toLocaleString" ∷ []

module _ {F : Type 0} where
  -- `key in weights`.
  unfoldable pub in_weights : String → Dict String F → Bool
  in_weights key weights = has key weights || any (λ i. i == key) inherited

  -- `weights[key] = n`: a number is no prototype, and then nothing is set.
  abbrev pub set_weight : String → F → Dict String F → Dict String F
  set_weight key n weights = if key == "__proto__" then weights else set key n weights

-- `RankingPolicyJson`, with the entity ids as they are written.
pub record RankingPolicyJson (F : Type 0) : Type 0 where
  pub weights : Dict String F
  pub entity_ids : Option (List String)
  pub required_signal_keys : Option (List String)
  pub metric_definitions : Option (List MetricDefinition)
  pub decay : Option (DecayParams F)

-- `Number(x)` and `String(x)`; none is undefined.
pub record Conversions (F : Type 0) : Type 0 where
  pub number_of : Option (Json F) → F
  pub string_of : Json F → String

module _ {F : Type 0} ⦃num : Number F⦄ (js : Conversions F) where
  -- `typeof v === 'number' ? v : Number(v)`.
  abbrev pub as_number : Option (Json F) → F
  as_number (some (Json.number n)) = n
  as_number v = js.number_of v

  -- `String(v)`.
  abbrev pub as_string : Json F → String
  as_string (Json.text s) = s
  as_string v = js.string_of v

  -- `String(v ?? '').trim()`.
  abbrev pub trimmed : Option (Json F) → String
  trimmed none = ""
  trimmed (some Json.null) = ""
  trimmed (some v) = trim (as_string v)

  abbrev pub is_negative : F → Bool
  is_negative n = not (num.is_finite n) || num.lt n (num.lit 0 1)

  unfoldable pub parse_weights : Dict String F → List (String × Json F) → Parsed (Dict String F)
  unfolding trim_start trim_end
  parse_weights weights [] = ok weights
  parse_weights weights ((k, v) ∷ entries) =
      let key = trim k in
      let n = as_number (some v) in
      let skipped = parse_weights weights entries in
      let rest = parse_weights (set_weight key n weights) entries in
      if is_blank key then skipped else if is_negative n then err (bad_weight key) else rest

  abbrev pub unless_no_weights : Dict String F → Parsed (Dict String F)
  unless_no_weights [] = err weights_empty
  unless_no_weights (e ∷ weights) = ok (e ∷ weights)

  unfoldable pub parse_weights_field : Option (Json F) → Parsed (Dict String F)
  unfolding parse_weights
  parse_weights_field (some (Json.object xs)) =
      and_then (parse_weights [] (fields xs)) unless_no_weights
  parse_weights_field _ = err weights_not_an_object

  abbrev pub parse_entity_id : Json F → Parsed String
  parse_entity_id x =
      let s = trim (as_string x) in if is_number s then ok s else err (bad_entity_id s)

  unfoldable pub parse_entity_ids : Option (Json F) → Parsed (Option (List String))
  unfolding is_number trim_start trim_end
  parse_entity_ids none = ok none
  parse_entity_ids (some (Json.array xs)) =
      and_then (each parse_entity_id (elements xs)) (λ ids. ok (some ids))
  parse_entity_ids (some _) = err entity_ids_not_an_array

  abbrev pub require_weight : Dict String F → String → Parsed String
  require_weight weights key =
      if in_weights key weights then ok key else err (unknown_required_key key)

  unfoldable pub parse_required : Dict String F → Option (Json F) → Parsed (Option (List String))
  unfolding in_weights
  parse_required weights none = ok none
  parse_required weights (some (Json.array xs)) =
      and_then (each (require_weight weights) (map as_string (elements xs))) (λ ks. ok (some ks))
  parse_required weights (some _) = err required_keys_not_an_array

  abbrev pub hints_of : List (Json F) → List String
  hints_of xs = filter (λ s. not (is_blank s)) (map (λ x. trim (as_string x)) xs)

  abbrev pub metric_hinted : MetricDefinition → Option (Json F) → Parsed MetricDefinition
  metric_hinted m (some (Json.array xs)) = ok (record m { source_hints = hints_of (elements xs) })
  metric_hinted m _ = err (bad_source_hints m.key)

  -- The metric, its hints aside.
  abbrev pub metric_with :
      Dict String F → MetricDefinition → Option (Json F) → Parsed MetricDefinition
  metric_with weights m hints =
      if is_blank m.key || not (in_weights m.key weights)
      then err (unknown_metric m.key)
      else if is_blank m.label || (is_blank m.description || is_blank m.normalization_guide)
      then err (incomplete_metric m.key)
      else metric_hinted m hints

  abbrev pub metric_of : Fields F → MetricDefinition
  metric_of xs = record {
    key = trimmed (property "key" xs);
    label = trimmed (property "label" xs);
    description = trimmed (property "description" xs);
    normalization_guide = trimmed (property "normalizationGuide" xs);
    source_hints = [];
  }

  abbrev pub parse_metric : Dict String F → Json F → Parsed MetricDefinition
  parse_metric weights (Json.object xs) =
      metric_with weights (metric_of xs) (property "sourceHints" xs)
  parse_metric weights _ = err metric_not_an_object

  -- As many keys as entries.
  abbrev pub are_distinct : List MetricDefinition → Bool
  are_distinct [] = true
  are_distinct (m ∷ ms) = not (any (λ n. n.key == m.key) ms) && are_distinct ms

  unfoldable pub parse_metrics :
      Dict String F → Option (Json F) → Parsed (Option (List MetricDefinition))
  unfolding in_weights trim_start trim_end
  parse_metrics weights none = ok none
  parse_metrics weights (some (Json.array xs)) =
      and_then (each (parse_metric weights) (elements xs))
        (λ ms. if are_distinct ms then ok (some ms) else err duplicate_metrics)
  parse_metrics weights (some _) = err metrics_not_an_array

  abbrev pub parse_half_life : Option (Json F) → Parsed (Option F)
  parse_half_life none = ok none
  parse_half_life (some v) =
      let hl = as_number (some v) in
      if not (num.is_finite hl) || le hl (num.lit 0 1) then err bad_half_life else ok (some hl)

  abbrev pub breakpoint_with : F → F → Parsed (Breakpoint F)
  breakpoint_with age weight =
      if is_negative age
      then err bad_age
      else if is_negative weight || num.lt (num.lit 1 1) weight
      then err bad_breakpoint_weight
      else ok (record { max_age_days = age; weight = weight })

  abbrev pub parse_breakpoint : Json F → Parsed (Breakpoint F)
  parse_breakpoint (Json.object xs) =
      breakpoint_with (as_number (property "maxAgeDays" xs)) (as_number (property "weight" xs))
  parse_breakpoint _ = err breakpoint_not_an_object

  abbrev pub parse_breakpoints : Option (Json F) → Parsed (Option (List (Breakpoint F)))
  parse_breakpoints none = ok none
  parse_breakpoints (some (Json.array xs)) =
      and_then (each parse_breakpoint (elements xs)) (λ bs. ok (some bs))
  parse_breakpoints (some _) = err breakpoints_not_an_array

  abbrev pub decay_with : Option F → Option (List (Breakpoint F)) → Parsed (Option (DecayParams F))
  decay_with none none = err decay_empty
  decay_with none (some []) = err decay_empty
  decay_with half_life breakpoints =
      ok (some (record { half_life_days = half_life; breakpoints = breakpoints }))

  unfoldable pub parse_decay : Option (Json F) → Parsed (Option (DecayParams F))
  parse_decay none = ok none
  parse_decay (some (Json.object xs)) =
      and_then (parse_half_life (property "halfLifeDays" xs))
        (λ hl. and_then (parse_breakpoints (property "breakpoints" xs)) (decay_with hl))
  parse_decay (some _) = err decay_not_an_object

  unfoldable pub parse_ranking_policy_json : Json F → Parsed (RankingPolicyJson F)
  unfolding parse_weights_field parse_entity_ids parse_required parse_metrics parse_decay
  parse_ranking_policy_json (Json.object o) =
      and_then (parse_weights_field (property "weights" o)) (λ weights.
        and_then (parse_entity_ids (property "entityIds" o)) (λ ids.
          and_then (parse_required weights (property "requiredSignalKeys" o)) (λ required.
            and_then (parse_metrics weights (property "metricDefinitions" o)) (λ metrics.
              and_then (parse_decay (property "decay" o)) (λ decay. ok (record {
                weights = weights;
                entity_ids = ids;
                required_signal_keys = required;
                metric_definitions = metrics;
                decay = decay;
              }))))))
  parse_ranking_policy_json _ = err not_an_object
