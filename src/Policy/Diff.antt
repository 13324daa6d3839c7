-- ===== src/Policy/Diff.antt =====
-- `diffTopicVersionPolicies` of src/domain/topic-version-diff.ts. Texts are ordered by their characters'
-- codes. The texts that `stableJson` compares are those of a decay, which are the same exactly if its
-- fields are, since the parser writes them in one order and numbers are finite.
use Prim.Native.Char.{code}
use ranking.Prelude.{
  is_empty, Bool, true, false, ◌&&◌, ◌||◌, not, Option, none, some, List, [], ◌∷◌, ◌++◌, String,
  ltb, nat_beq, any, filter, if◌then◌else◌, or_else,
}
use ranking.Prelude.Keys.{string_key, ◌==◌}
use ranking.Prelude.Dict.{Dict, get, keys}
use ranking.Prelude.Sorting.{sort_by}
use ranking.Prelude.Number.{Number, eq}
use ranking.Scoring.{Breakpoint, DecayParams}
use ranking.Policy.Parse.{RankingPolicyJson}

-- The order of `sort()`.
unfoldable pub text_before : String → String → Bool
text_before String.[] String.[] = false
text_before String.[] (String.◌∷◌ d t) = true
text_before (String.◌∷◌ c s) String.[] = false
text_before (String.◌∷◌ c s) (String.◌∷◌ d t) =
    ltb (code c) (code d) || (nat_beq (code c) (code d) && text_before s t)

abbrev pub is_in : String → List String → Bool
is_in k ks = any (λ j. j == k) ks

-- `[...new Set(ks)]`, with what is already in the set.
abbrev pub unique_from : List String → List String → List String
unique_from seen [] = []
unique_from seen (k ∷ ks) =
    if is_in k seen then unique_from seen ks else k ∷ unique_from (k ∷ seen) ks

-- The elements of the second list that the first has not, sorted.
unfoldable pub added : List String → List String → List String
unfolding text_before
added from to = sort_by text_before (filter (λ k. not (is_in k from)) (unique_from [] to))

-- A change of a weight: its kind with what it was and what it is.
pub data WeightChange (F : Type 0) : Type 0 where
  removed : String → F → WeightChange F
  changed : String → F → F → WeightChange F
  created : String → F → WeightChange F

abbrev pub collect :
    {F : Type 0} → (String → Option (WeightChange F)) → List String → List (WeightChange F)
collect f [] = []
collect f (k ∷ ks) = elim (f k) [ none ↦ collect f ks | some c ↦ c ∷ collect f ks ]

module _ {F : Type 0} ⦃num : Number F⦄ where
  -- The two tests on a key that was there.
  abbrev pub change_with : String → Option F → Option F → Option (WeightChange F)
  change_with k none v = none
  change_with k (some u) none = some (WeightChange.removed k u)
  change_with k (some u) (some v) = if eq u v then none else some (WeightChange.changed k u v)

  -- The test on a key that is there.
  abbrev pub creation_with : String → Option F → Option F → Option (WeightChange F)
  creation_with k none (some v) = some (WeightChange.created k v)
  creation_with k u v = none

  unfoldable pub weight_changes : Dict String F → Dict String F → List (WeightChange F)
  unfolding text_before
  weight_changes from to =
      collect (λ k. change_with k (get k from) (get k to)) (sort_by text_before (keys from))
      ++ collect (λ k. creation_with k (get k from) (get k to)) (sort_by text_before (keys to))

  abbrev pub same_option : Option F → Option F → Bool
  same_option none none = true
  same_option (some u) (some v) = eq u v
  same_option _ _ = false

  abbrev pub same_breakpoints : List (Breakpoint F) → List (Breakpoint F) → Bool
  same_breakpoints [] [] = true
  same_breakpoints (a ∷ xs) (b ∷ ys) =
      eq a.max_age_days b.max_age_days && (eq a.weight b.weight && same_breakpoints xs ys)
  same_breakpoints _ _ = false

  abbrev pub same_optional_breakpoints :
      Option (List (Breakpoint F)) → Option (List (Breakpoint F)) → Bool
  same_optional_breakpoints none none = true
  same_optional_breakpoints (some xs) (some ys) = same_breakpoints xs ys
  same_optional_breakpoints _ _ = false

  -- `stableJson(decayFrom) === stableJson(decayTo)`.
  unfoldable pub same_decay : Option (DecayParams F) → Option (DecayParams F) → Bool
  same_decay none none = true
  same_decay (some d) (some e) =
      same_option d.half_life_days e.half_life_days
      && same_optional_breakpoints d.breakpoints e.breakpoints
  same_decay _ _ = false

  abbrev pub ids_of : RankingPolicyJson F → List String
  ids_of p = or_else p.entity_ids []

  abbrev pub required_keys_of : RankingPolicyJson F → List String
  required_keys_of p = or_else p.required_signal_keys (keys p.weights)

pub record TopicVersionPolicyDiff (F : Type 0) : Type 0 where
  pub weight_changes : List (WeightChange F)
  pub entity_ids_added : List String
  pub entity_ids_removed : List String
  pub required_signal_keys_added : List String
  pub required_signal_keys_removed : List String
  pub decay_changed : Bool
  pub decay_from : Option (DecayParams F)
  pub decay_to : Option (DecayParams F)
  pub unchanged : Bool

module _ {F : Type 0} ⦃num : Number F⦄ (from to : RankingPolicyJson F) where
  abbrev pub is_unchanged : Bool
  is_unchanged =
      is_empty (weight_changes from.weights to.weights)
      && (is_empty (added (ids_of from) (ids_of to))
          && (is_empty (added (ids_of to) (ids_of from))
              && (is_empty (added (required_keys_of from) (required_keys_of to))
                  && (is_empty (added (required_keys_of to) (required_keys_of from))
                      && same_decay from.decay to.decay))))

  unfoldable pub diff_topic_version_policies : TopicVersionPolicyDiff F
  unfolding weight_changes added same_decay
  diff_topic_version_policies = record {
    weight_changes = weight_changes from.weights to.weights;
    entity_ids_added = added (ids_of from) (ids_of to);
    entity_ids_removed = added (ids_of to) (ids_of from);
    required_signal_keys_added = added (required_keys_of from) (required_keys_of to);
    required_signal_keys_removed = added (required_keys_of to) (required_keys_of from);
    decay_changed = not (same_decay from.decay to.decay);
    decay_from = from.decay;
    decay_to = to.decay;
    unchanged = is_unchanged;
  }
