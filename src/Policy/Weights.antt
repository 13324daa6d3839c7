-- ===== src/Policy/Weights.antt =====
-- The weights that `parseRankingPolicyJson` of src/domain/policy-json.ts accepts, and lemmas on parts that
-- may throw.
use ranking.Prelude.{
  ◌≡◌, refl, ap, ◌≢◌, false, Option, none, some, List, [], ◌∷◌, String, All, Bool-cases, inl, inr,
}
use ranking.Prelude.Keys.{string_key, ◌==◌}
use ranking.Prelude.Dict.{Dict, set}
use ranking.Prelude.Json.{Json, fields}
use ranking.Prelude.Number.{Number}
use ranking.Policy.{MetricDefinition}
use ranking.Policy.Parse.{
  Parsed, and_then, each, trim, is_blank, is_number, in_weights, set_weight, RankingPolicyJson,
  Conversions, as_number, as_string, is_negative, parse_weights, unless_no_weights,
  parse_weights_field, parse_entity_id, parse_entity_ids, require_weight, parse_required,
  metric_with, parse_metric, are_distinct, parse_metrics, parse_half_life, breakpoint_with,
  parse_breakpoint, parse_breakpoints, decay_with, parse_decay, parse_ranking_policy_json, hints_of,
}

abbrev value_or {ℓ} : {A : Type ℓ} → A → Parsed A → A
value_or d (Parsed.ok a) = a
value_or d (Parsed.err e) = d

pub ok_inj {ℓ} : {A : Type ℓ} {a b : A} → Parsed.ok a ≡ Parsed.ok b → a ≡ b
ok_inj {a} e = ap (value_or a) e

pub err_not_ok {ℓ} :
    {A : Type ℓ} (e : ranking.Policy.Parse.PolicyError) (a : A)
    → ◌≢◌ {A = Parsed A} (Parsed.err e) (Parsed.ok a)
err_not_ok e a h = absurd (cc)

-- A part that did not throw has a value.
pub and_then-ok {ℓ κ} :
    {A : Type ℓ} {B : Type κ} (r : Parsed A) (f : A → Parsed B) (b : B)
    → and_then r f ≡ Parsed.ok b
    → (a : A) × (r ≡ Parsed.ok a) × (f a ≡ Parsed.ok b)
and_then-ok (Parsed.ok a) f b h = (a, refl, h)
and_then-ok (Parsed.err e) f b h = absurd (cc)

pub each-All {ℓ κ λ'} :
    {A : Type ℓ} {B : Type κ} (P : B → Type λ') (f : A → Parsed B)
    → ((x : A) (y : B) → f x ≡ Parsed.ok y → P y)
    → (xs : List A) (ys : List B) → each f xs ≡ Parsed.ok ys
    → All P ys
each-All P f h [] ys e = rw (← ok_inj e) tt
each-All P f h (x ∷ xs) ys e =
    let (y, p, q) = and_then-ok (f x) (λ z. and_then (each f xs) (λ zs. Parsed.ok (z ∷ zs))) ys e in
    let (zs, r, s) = and_then-ok (each f xs) (λ zs. Parsed.ok (y ∷ zs)) ys q in
    rw (← ok_inj s) (h x y p, each-All P f h xs zs r)

-- A value that is given satisfies the predicate.
abbrev pub IfGiven {ℓ κ} : {A : Type ℓ} → (A → Type κ) → Option A → Type κ
IfGiven P none = Unit
IfGiven P (some a) = P a

module _ {F : Type 0} ⦃num : Number F⦄ (js : Conversions F) where
  -- Finite and not below zero.
  abbrev pub IsWeight : String × F → Type 0
  IsWeight e = is_negative js e.1 ≡ false

  set-All :
      (k : String) (n : F) (m : Dict String F)
      → is_negative js n ≡ false
      → All IsWeight m
      → All IsWeight (set k n m)
  unfolding set
  set-All k n [] h a = (h, tt)
  set-All k n ((j, v) ∷ m) h a = elim (Bool-cases (j == k)) [
    | inl e ↦ rw e (h, a.1)
    | inr e ↦ rw e (a.0, set-All k n m h a.1)
  ]

  set_weight-All :
      (k : String) (n : F) (m : Dict String F)
      → is_negative js n ≡ false
      → All IsWeight m
      → All IsWeight (set_weight k n m)
  set_weight-All k n m h a = elim (Bool-cases (k == "__proto__")) [
    | inl e ↦ rw e a
    | inr e ↦ rw e (set-All k n m h a)
  ]

  parse_weights-All :
      (weights : Dict String F) (entries : List (String × Json F)) (result : Dict String F)
      → parse_weights js weights entries ≡ Parsed.ok result
      → All IsWeight weights
      → All IsWeight result
  unfolding parse_weights
  parse_weights-All weights [] result e a = rw (← ok_inj e) a
  parse_weights-All weights ((k, v) ∷ entries) result e a = elim (Bool-cases (is_blank (trim k))) [
    | inl b ↦ parse_weights-All weights entries result (rw b at e) a
    | inr b ↦ elim (Bool-cases (is_negative js (as_number js (some v)))) [
      | inl n ↦ absurd (err_not_ok _ result (rw (b, n) at e))
      | inr n ↦
          parse_weights-All (set_weight (trim k) (as_number js (some v)) weights) entries result
            (rw (b, n) at e) (set_weight-All (trim k) (as_number js (some v)) weights n a)
    ]
  ]

  -- The weights of an accepted policy.
  abbrev pub AreWeights : Dict String F → Type 0
  AreWeights weights = (◌≢◌ {A = Dict String F} weights []) × All IsWeight weights

  unless_no_weights-ok :
      (w result : Dict String F)
      → unless_no_weights js w ≡ Parsed.ok result
      → (w ≡ result) × ◌≢◌ {A = Dict String F} w []
  unless_no_weights-ok [] result e = absurd (cc)
  unless_no_weights-ok (x ∷ w) result e = (ok_inj e, (λ h. absurd (cc)))

  pub parse_weights_field-AreWeights :
      (x : Option (Json F)) (weights : Dict String F)
      → parse_weights_field js x ≡ Parsed.ok weights
      → AreWeights weights
  unfolding parse_weights_field
  parse_weights_field-AreWeights none weights e = absurd (cc)
  parse_weights_field-AreWeights (some (Json.object xs)) weights e =
      let (w, p, q) =
        and_then-ok (parse_weights js [] (fields xs)) (unless_no_weights js) weights e in
      let (same, given) = unless_no_weights-ok w weights q in
      rw (← same) (given, parse_weights-All [] (fields xs) w p tt)
  parse_weights_field-AreWeights (some Json.null) weights e = absurd (cc)
  parse_weights_field-AreWeights (some (Json.flag b)) weights e = absurd (cc)
  parse_weights_field-AreWeights (some (Json.number n)) weights e = absurd (cc)
  parse_weights_field-AreWeights (some (Json.text s)) weights e = absurd (cc)
  parse_weights_field-AreWeights (some (Json.array xs)) weights e = absurd (cc)
