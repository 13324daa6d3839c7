-- ===== src/Policy/Unchanged.antt =====
-- When `diffTopicVersionPolicies` of src/domain/topic-version-diff.ts reports no change.
use ranking.Prelude.{
  ◌≡◌, refl, sym, ap, ◌∙◌, ◌↔◌, Bool, true, false, ◌&&◌, ◌||◌, not, Option, none, some, List, [],
  ◌∷◌, ◌++◌, String, filter, is_empty, is_some, arith, Bool-cases, inl, inr,
}
use ranking.Prelude.Keys.{string_key, ◌==◌}
use ranking.Prelude.Dict.{Dict, get, keys}
use ranking.Prelude.Sorting.{sort_by, insert}
use ranking.Prelude.Number.{Number}
use ranking.Policy.Parse.{RankingPolicyJson}
use ranking.Policy.Diff.{
  text_before, is_in, unique_from, added, WeightChange, collect, change_with, creation_with,
  weight_changes, same_option, same_decay, required_keys_of, ids_of, diff_topic_version_policies,
}

is_empty-insert : (k : String) (ks : List String) → is_empty (insert text_before k ks) ≡ false
unfolding insert
is_empty-insert k [] = refl
is_empty-insert k (j ∷ ks) = ground arith

is_empty-sort : (ks : List String) → is_empty (sort_by text_before ks) ≡ is_empty ks
unfolding sort_by
is_empty-sort [] = refl
is_empty-sort (k ∷ ks) = is_empty-insert k (sort_by text_before ks)

-- A list adds nothing to another if all its elements are in it or were seen before.
abbrev is_within : List String → List String → List String → Bool
is_within from seen [] = true
is_within from seen (k ∷ ks) = (is_in k from || is_in k seen) && is_within from seen ks

is_within-seen :
    (from seen ks : List String) (k : String)
    → is_in k from ≡ true
    → is_within from (k ∷ seen) ks ≡ is_within from seen ks
is_within-seen from seen [] k h = refl
is_within-seen from seen (j ∷ ks) k h =
    ground (arith, string_key.same_iff k j, is_within-seen from seen ks k h)

unique-is_within :
    (from seen ks : List String)
    → is_empty (filter (λ k. not (is_in k from)) (unique_from seen ks)) ≡ is_within from seen ks
unique-is_within from seen [] = refl
unique-is_within from seen (k ∷ ks) = ground (
  arith,
  unique-is_within from seen ks,
  unique-is_within from (k ∷ seen) ks,
  is_within-seen from seen ks k,
)

within-is_in :
    (from ks : List String)
    → is_within from [] ks ≡ true
    → (k : String) → is_in k ks ≡ true
    → is_in k from ≡ true
within-is_in from [] h k c = ground arith
within-is_in from (j ∷ ks) h k c = elim (Bool-cases (j == k)) [
  | inl e ↦ let l : is_in j from ≡ true = ground arith in rw (sym ((string_key.same_iff j k).0 e)) l
  | inr e ↦ within-is_in from ks (ground arith) k (ground arith)
]

is_in-within :
    (from ks : List String)
    → ((k : String) → is_in k ks ≡ true → is_in k from ≡ true)
    → is_within from [] ks ≡ true
is_in-within from [] h = refl
is_in-within from (j ∷ ks) h =
    let l : is_in j from ≡ true = h j (ground (arith, string_key.same_iff j j)) in
    let rest = is_in-within from ks (λ k c. h k (ground arith)) in ground arith

is_empty-added : (from to : List String) → is_empty (added from to) ≡ is_within from [] to
unfolding added
is_empty-added from to =
    is_empty-sort (filter (λ k. not (is_in k from)) (unique_from [] to))
    ∙ unique-is_within from [] to

-- Two lists have the same elements.
abbrev pub HaveSameElements : List String → List String → Type 0
HaveSameElements from to = (k : String) → (is_in k from ≡ true) ↔ (is_in k to ≡ true)

both_within :
    (from to : List String)
    → (is_empty (added from to) ≡ true × is_empty (added to from) ≡ true) ↔ HaveSameElements from to
both_within from to = (
  (λ (a, b). λ k. (
    within-is_in to from (sym (is_empty-added to from) ∙ b) k,
    within-is_in from to (sym (is_empty-added from to) ∙ a) k,
  )),
  (λ h. (
    is_empty-added from to ∙ is_in-within from to (λ k. (h k).1),
    is_empty-added to from ∙ is_in-within to from (λ k. (h k).0),
  )),
)

is_in-insert :
    (k j : String) (ks : List String) → is_in k (insert text_before j ks) ≡ ((j == k) || is_in k ks)
unfolding insert
is_in-insert k j [] = refl
is_in-insert k j (i ∷ ks) = ground (arith, is_in-insert k j ks)

is_in-sort : (k : String) (ks : List String) → is_in k (sort_by text_before ks) ≡ is_in k ks
unfolding sort_by
is_in-sort k [] = refl
is_in-sort k (j ∷ ks) =
    is_in-insert k j (sort_by text_before ks) ∙ ap (λ b. (j == k) || b) (is_in-sort k ks)

module _ {F : Type 0} ⦃num : Number F⦄ where
  collect-none :
      (f : String → Option (WeightChange F)) (ks : List String)
      → is_empty (collect f ks) ≡ true
      → (k : String) → is_in k ks ≡ true
      → is_some (f k) ≡ false
  collect-none f [] h k c = ground arith
  collect-none f (j ∷ ks) h k c = elim (Bool-cases (j == k)) [
    | inl e ↦
        let l : is_some (f j) ≡ false = ground arith in rw (sym ((string_key.same_iff j k).0 e)) l
    | inr e ↦ collect-none f ks (ground arith) k (ground arith)
  ]

  none-collect :
      (f : String → Option (WeightChange F)) (ks : List String)
      → ((k : String) → is_in k ks ≡ true → is_some (f k) ≡ false)
      → is_empty (collect f ks) ≡ true
  none-collect f [] h = refl
  none-collect f (j ∷ ks) h =
      let l : is_some (f j) ≡ false = h j (ground (arith, string_key.same_iff j j)) in
      let rest = none-collect f ks (λ k c. h k (ground arith)) in ground arith

  is_in-keys : (k : String) (m : Dict String F) → is_in k (keys m) ≡ is_some (get k m)
  unfolding get
  is_in-keys k [] = refl
  is_in-keys k ((j, v) ∷ m) = ground (arith, is_in-keys k m)

  is_empty-append :
      (xs ys : List (WeightChange F)) → is_empty (xs ++ ys) ≡ (is_empty xs && is_empty ys)
  is_empty-append [] ys = refl
  is_empty-append (x ∷ xs) ys = refl

  same_option_iff :
      (k : String) (u v : Option F)
      → same_option u v ≡ (
          (not (is_some u) || not (is_some (change_with k u v)))
          && (not (is_some v) || not (is_some (creation_with k u v))))
  same_option_iff k none none = refl
  same_option_iff k none (some v) = refl
  same_option_iff k (some u) none = refl
  same_option_iff k (some u) (some v) = ground arith

  weight_changes_iff :
      (from to : Dict String F)
      → (is_empty (weight_changes from to) ≡ true)
        ↔ ((k : String) → same_option (get k from) (get k to) ≡ true)
  unfolding weight_changes
  weight_changes_iff from to =
      let f : String → Option (WeightChange F) = λ k. change_with k (get k from) (get k to) in
      let g : String → Option (WeightChange F) = λ k. creation_with k (get k from) (get k to) in
      let split =
        is_empty-append (collect f (sort_by text_before (keys from)))
          (collect g (sort_by text_before (keys to))) in
      (
        (λ h k.
            let a = collect-none f (sort_by text_before (keys from)) (ground (arith, split)) k in
            let b = collect-none g (sort_by text_before (keys to)) (ground (arith, split)) k in
            ground (
              arith,
              same_option_iff k (get k from) (get k to),
              is_in-sort k (keys from),
              is_in-sort k (keys to),
              is_in-keys k from,
              is_in-keys k to,
              a,
              b,
            )),
        (λ h.
            let a = none-collect f (sort_by text_before (keys from)) (λ k c. ground (
              arith,
              h k,
              same_option_iff k (get k from) (get k to),
              is_in-sort k (keys from),
              is_in-keys k from,
            )) in
            let b = none-collect g (sort_by text_before (keys to)) (λ k c. ground (
              arith,
              h k,
              same_option_iff k (get k from) (get k to),
              is_in-sort k (keys to),
              is_in-keys k to,
            )) in
            ground (arith, split, a, b)),
      )

  -- The comparison of two policies reports no change exactly if every key has an equal weight, or
  -- none, in both, both have the same entity ids and the same required keys as sets, and equal
  -- decays.
  pub unchanged_iff :
      (from to : RankingPolicyJson F)
      → ((diff_topic_version_policies from to).unchanged ≡ true) ↔ (
          ((k : String) → same_option (get k from.weights) (get k to.weights) ≡ true)
          × (HaveSameElements (ids_of from) (ids_of to)
              × (HaveSameElements (required_keys_of from) (required_keys_of to)
                  × (same_decay from.decay to.decay ≡ true))))
  unfolding diff_topic_version_policies
  unchanged_iff from to =
      let weights = weight_changes_iff from.weights to.weights in
      let ids = both_within (ids_of from) (ids_of to) in
      let required = both_within (required_keys_of from) (required_keys_of to) in
      (
        (λ h. (
          weights.0 (ground arith),
          (
            ids.0 (ground arith, ground arith),
            (required.0 (ground arith, ground arith), ground arith),
          ),
        )),
        (λ (w, (i, (r, d))).
            let w' = weights.1 w in let i' = ids.1 i in let r' = required.1 r in ground arith),
      )
