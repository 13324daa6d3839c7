-- ===== src/Policy/Tests.antt =====
-- Examples for the policy of a topic version.
use ranking.Prelude.{◌≡◌, ◌↔◌, String, refl, true, none, some, [], ◌∷◌}
use ranking.Prelude.Int.{ℤ, pos}
use ranking.Prelude.Dict.{get}
use ranking.Prelude.Keys.{string_key}
use ranking.Scoring.Fixed.{fixed}
use ranking.Prelude.Json.{Json, Elements, Fields}
use ranking.Policy.Parse.{Conversions, RankingPolicyJson, in_weights, parse_ranking_policy_json}
use ranking.Policy.Diff.{
  diff_topic_version_policies,
  text_before,
  WeightChange.{removed, changed, created},
  same_option,
  same_decay,
  ids_of,
  required_keys_of,
}
use ranking.Policy.Unchanged.{HaveSameElements, unchanged_iff}
use ranking.Policy.Accepted.{IsAccepted, parse_ranking_policy_json-IsAccepted}
use ranking.Policy.{TopicKind, below, min_coverage_to_rank}

-- Two of three required signals are not enough for 0.67.
two_of_three : below (2, 3) (min_coverage_to_rank TopicKind.semi_objective) ≡ true
unfolding min_coverage_to_rank
two_of_three = refl

-- A body with two weights, one of them written as a text, which `Number` reads.
abbrev js : Conversions ℤ
js = record { number_of = λ v. pos 2_000_000_000; string_of = λ v. "?" }

abbrev body : Json ℤ
body = Json.object (
    Fields.field "weights"
      (Json.object (
        Fields.field " stars " (Json.number (pos 1_000_000_000))
          (Fields.field "forks" (Json.text "2") Fields.closed)))
      (Fields.field "requiredSignalKeys"
        (Json.array (Elements.element (Json.text "stars") Elements.done))
        (Fields.field "decay"
          (Json.object
            (Fields.field "halfLifeDays" (Json.number (pos 14_000_000_000)) Fields.closed))
          Fields.closed)))

abbrev parsed : RankingPolicyJson ℤ
parsed = record {
  weights = ("stars", pos 1_000_000_000) ∷ ("forks", pos 2_000_000_000) ∷ [];
  entity_ids = none;
  required_signal_keys = some ("stars" ∷ []);
  metric_definitions = none;
  decay = some (record { half_life_days = some (pos 14_000_000_000); breakpoints = none });
}

parse_ranking_policy_json-IsAccepted_example : IsAccepted js parsed
unfolding parse_ranking_policy_json ranking.Prelude.Texts.is_space ranking.Prelude.Dict.set
    ranking.Prelude.Dict.get
parse_ranking_policy_json-IsAccepted_example =
    parse_ranking_policy_json-IsAccepted js body parsed refl

-- Names that every object inherits pass for keys of the weights.
inherited_key : in_weights {F = ℤ} "toString" [] ≡ true
unfolding in_weights ranking.Prelude.Dict.get
inherited_key = refl

-- The same policy with its weights in another order and its required keys repeated.
abbrev rewritten : RankingPolicyJson ℤ
rewritten = record {
  weights = ("forks", pos 2_000_000_000) ∷ ("stars", pos 1_000_000_000) ∷ [];
  entity_ids = some [];
  required_signal_keys = some ("stars" ∷ "stars" ∷ []);
  metric_definitions = none;
  decay = some (record { half_life_days = some (pos 14_000_000_000); breakpoints = none });
}

unchanged_iff_example : ((diff_topic_version_policies parsed rewritten).unchanged ≡ true) ↔ (
    ((k : String) → same_option (get k parsed.weights) (get k rewritten.weights) ≡ true)
    × (HaveSameElements (ids_of parsed) (ids_of rewritten)
        × (HaveSameElements (required_keys_of parsed) (required_keys_of rewritten)
            × (same_decay parsed.decay rewritten.decay ≡ true))))
unchanged_iff_example = unchanged_iff parsed rewritten

-- The order of the weights and repeated keys are no change, another weight is one.
rewritten_unchanged : (diff_topic_version_policies parsed rewritten).unchanged ≡ true
unfolding diff_topic_version_policies ranking.Prelude.Sorting.sort_by ranking.Prelude.Sorting.insert
    text_before ranking.Prelude.Dict.get ranking.Policy.Diff.weight_changes
    ranking.Policy.Diff.added ranking.Policy.Diff.same_decay
rewritten_unchanged = refl

abbrev heavier : RankingPolicyJson ℤ
heavier = record rewritten {
  weights = ("stars", pos 5_000_000_000) ∷ ("issues", pos 1_000_000_000) ∷ [];
}

heavier_changes :
    (diff_topic_version_policies parsed heavier).weight_changes
    ≡ removed "forks" (pos 2_000_000_000)
      ∷ changed "stars" (pos 1_000_000_000) (pos 5_000_000_000)
      ∷ created "issues" (pos 1_000_000_000)
      ∷ []
unfolding diff_topic_version_policies ranking.Prelude.Sorting.sort_by ranking.Prelude.Sorting.insert
    text_before ranking.Prelude.Dict.get ranking.Policy.Diff.weight_changes
heavier_changes = refl
