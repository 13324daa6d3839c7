-- ===== src/Policy/Accepted.antt =====
-- What `parseRankingPolicyJson` of src/domain/policy-json.ts guarantees of the policies that it accepts.
use ranking.Prelude.{
  ◌≡◌, true, false, ◌||◌, not, Option, none, some, List, map, String, if◌then◌else◌, arith, All,
  Bool-cases, inl, inr,
}
use ranking.Prelude.Dict.{Dict}
use ranking.Prelude.Json.{Json, elements, property}
use ranking.Prelude.Number.{Number}
use ranking.Policy.{MetricDefinition}
use ranking.Policy.Parse.{
  Parsed, and_then, each, trim, is_blank, is_number, in_weights, RankingPolicyJson, Conversions,
  as_number, as_string, trimmed, is_negative, parse_weights_field, parse_entity_id,
  parse_entity_ids, require_weight, parse_required, metric_with, metric_hinted, metric_of,
  parse_metric, are_distinct, parse_metrics, parse_half_life, breakpoint_with, parse_breakpoint,
  parse_breakpoints, decay_with, parse_decay, parse_ranking_policy_json, hints_of,
}
use ranking.Policy.Decay.{IsDecay, parse_decay-IsDecay}
use ranking.Policy.Weights.{
  ok_inj, err_not_ok, and_then-ok, each-All, IfGiven, AreWeights, parse_weights_field-AreWeights,
}

module _ {F : Type 0} ⦃num : Number F⦄ (js : Conversions F) where
  abbrev pub IsEntityId : String → Type 0
  IsEntityId s = is_number s ≡ true

  parse_entity_id-IsEntityId :
      (x : Json F) (s : String) → parse_entity_id js x ≡ Parsed.ok s → IsEntityId s
  parse_entity_id-IsEntityId x s e = elim (Bool-cases (is_number (trim (as_string js x)))) [
    | inl n ↦ rw (← ok_inj (rw n at e)) n
    | inr n ↦ absurd (err_not_ok _ s (rw n at e))
  ]

  parse_entity_ids-All :
      (x : Option (Json F)) (ids : Option (List String))
      → parse_entity_ids js x ≡ Parsed.ok ids
      → IfGiven (All IsEntityId) ids
  unfolding parse_entity_ids
  parse_entity_ids-All none ids e = rw (← ok_inj e) tt
  parse_entity_ids-All (some (Json.array xs)) ids e =
      let (ys, p, q) =
        and_then-ok (each (parse_entity_id js) (elements xs)) (λ zs. Parsed.ok (some zs)) ids e in
      rw (← ok_inj q)
        (each-All IsEntityId (parse_entity_id js) parse_entity_id-IsEntityId (elements xs) ys p)
  parse_entity_ids-All (some Json.null) ids e = absurd (cc)
  parse_entity_ids-All (some (Json.flag b)) ids e = absurd (cc)
  parse_entity_ids-All (some (Json.number n)) ids e = absurd (cc)
  parse_entity_ids-All (some (Json.text s)) ids e = absurd (cc)
  parse_entity_ids-All (some (Json.object o)) ids e = absurd (cc)

  module _ (weights : Dict String F) where
    abbrev pub IsWeighted : String → Type 0
    IsWeighted key = in_weights key weights ≡ true

    require_weight-IsWeighted :
        (x y : String) → require_weight js weights x ≡ Parsed.ok y → IsWeighted y
    require_weight-IsWeighted x y e = elim (Bool-cases (in_weights x weights)) [
      | inl n ↦ rw (← ok_inj (rw n at e)) n
      | inr n ↦ absurd (err_not_ok _ y (rw n at e))
    ]

    parse_required-All :
        (x : Option (Json F)) (ks : Option (List String))
        → parse_required js weights x ≡ Parsed.ok ks
        → IfGiven (All IsWeighted) ks
    unfolding parse_required
    parse_required-All none ks e = rw (← ok_inj e) tt
    parse_required-All (some (Json.array xs)) ks e =
        let names = map (as_string js) (elements xs) in
        let (ys, p, q) =
          and_then-ok (each (require_weight js weights) names) (λ zs. Parsed.ok (some zs)) ks e in
        rw (← ok_inj q)
          (each-All IsWeighted (require_weight js weights) require_weight-IsWeighted names ys p)
    parse_required-All (some Json.null) ks e = absurd (cc)
    parse_required-All (some (Json.flag b)) ks e = absurd (cc)
    parse_required-All (some (Json.number n)) ks e = absurd (cc)
    parse_required-All (some (Json.text s)) ks e = absurd (cc)
    parse_required-All (some (Json.object o)) ks e = absurd (cc)

    -- A metric of a weight, described.
    abbrev pub IsMetric : MetricDefinition → Type 0
    IsMetric m =
        IsWeighted m.key
        × (is_blank m.key ≡ false)
        × (is_blank m.label ≡ false)
        × (is_blank m.description ≡ false)
        × (is_blank m.normalization_guide ≡ false)

    metric_hinted-IsMetric :
        (m n : MetricDefinition) (hints : Option (Json F))
        → metric_hinted js m hints ≡ Parsed.ok n
        → IsMetric m
        → IsMetric n
    metric_hinted-IsMetric m n (some (Json.array xs)) e h = rw (← ok_inj e) h
    metric_hinted-IsMetric m n none e h = absurd (cc)
    metric_hinted-IsMetric m n (some Json.null) e h = absurd (cc)
    metric_hinted-IsMetric m n (some (Json.flag b)) e h = absurd (cc)
    metric_hinted-IsMetric m n (some (Json.number x)) e h = absurd (cc)
    metric_hinted-IsMetric m n (some (Json.text s)) e h = absurd (cc)
    metric_hinted-IsMetric m n (some (Json.object o)) e h = absurd (cc)

    metric_with-IsMetric :
        (m n : MetricDefinition) (hints : Option (Json F))
        → metric_with js weights m hints ≡ Parsed.ok n
        → IsMetric n
    metric_with-IsMetric m n hints e =
        elim (Bool-cases (is_blank m.key || not (in_weights m.key weights))) [
          | inl b ↦ absurd (err_not_ok _ n (rw b at e))
          | inr b ↦
              elim (Bool-cases
                (is_blank m.label || (is_blank m.description || is_blank m.normalization_guide))) [
                  | inl c ↦ absurd (err_not_ok _ n (rw (b, c) at e))
                  | inr c ↦
                      metric_hinted-IsMetric m n hints (rw (b, c) at e)
                        (ground arith, ground arith, ground arith, ground arith, ground arith)
                ]
        ]

    parse_metric-IsMetric :
        (x : Json F) (m : MetricDefinition) → parse_metric js weights x ≡ Parsed.ok m → IsMetric m
    parse_metric-IsMetric (Json.object xs) m e =
        metric_with-IsMetric (metric_of js xs) m (property "sourceHints" xs) e
    parse_metric-IsMetric Json.null m e = absurd (cc)
    parse_metric-IsMetric (Json.flag b) m e = absurd (cc)
    parse_metric-IsMetric (Json.number n) m e = absurd (cc)
    parse_metric-IsMetric (Json.text s) m e = absurd (cc)
    parse_metric-IsMetric (Json.array xs) m e = absurd (cc)

    abbrev pub AreMetrics : List MetricDefinition → Type 0
    AreMetrics ms = All IsMetric ms × (are_distinct js ms ≡ true)

    parse_metrics-AreMetrics :
        (x : Option (Json F)) (ms : Option (List MetricDefinition))
        → parse_metrics js weights x ≡ Parsed.ok ms
        → IfGiven AreMetrics ms
    unfolding parse_metrics
    parse_metrics-AreMetrics none ms e = rw (← ok_inj e) tt
    parse_metrics-AreMetrics (some (Json.array xs)) ms e =
        let (ys, p, q) =
          and_then-ok (each (parse_metric js weights) (elements xs))
            (λ zs.
              if are_distinct js zs
              then Parsed.ok (some zs)
              else Parsed.err ranking.Policy.Parse.PolicyError.duplicate_metrics)
            ms e in
        elim (Bool-cases (are_distinct js ys)) [
          | inl d ↦ rw (← ok_inj (rw d at q)) (
            each-All IsMetric (parse_metric js weights) parse_metric-IsMetric (elements xs) ys p,
            d,
          )
          | inr d ↦ absurd (err_not_ok _ ms (rw d at q))
        ]
    parse_metrics-AreMetrics (some Json.null) ms e = absurd (cc)
    parse_metrics-AreMetrics (some (Json.flag b)) ms e = absurd (cc)
    parse_metrics-AreMetrics (some (Json.number n)) ms e = absurd (cc)
    parse_metrics-AreMetrics (some (Json.text s)) ms e = absurd (cc)
    parse_metrics-AreMetrics (some (Json.object o)) ms e = absurd (cc)

  -- What is known of the fields of an accepted policy.
  pub record IsAccepted (p : RankingPolicyJson F) : Type 0 where
    pub weights_given : AreWeights js p.weights
    pub ids_numeric : IfGiven (All IsEntityId) p.entity_ids
    pub required_weighted : IfGiven (All (IsWeighted p.weights)) p.required_signal_keys
    pub metrics_described : IfGiven (AreMetrics p.weights) p.metric_definitions
    pub decay_sensible : IfGiven (IsDecay js) p.decay

  -- A policy that is accepted has a weight, and all its weights are finite and not negative; its entity
  -- ids are digits; the required keys are keys of the weights or names that every object inherits; the
  -- metrics are described, of such keys, each once; and the decay has a half-life that is finite and above
  -- zero or breakpoints whose ages are finite and not negative and whose weights are between 0 and 1.
  pub parse_ranking_policy_json-IsAccepted :
      (raw : Json F) (p : RankingPolicyJson F)
      → parse_ranking_policy_json js raw ≡ Parsed.ok p
      → IsAccepted p
  unfolding parse_ranking_policy_json
  parse_ranking_policy_json-IsAccepted (Json.object o) p e =
      let (w, w1, e1) = and_then-ok (parse_weights_field js (property "weights" o)) _ p e in
      let (ids, i1, e2) = and_then-ok (parse_entity_ids js (property "entityIds" o)) _ p e1 in
      let (req, r1, e3) =
        and_then-ok (parse_required js w (property "requiredSignalKeys" o)) _ p e2 in
      let (ms, m1, e4) = and_then-ok (parse_metrics js w (property "metricDefinitions" o)) _ p e3 in
      let (d, d1, e5) = and_then-ok (parse_decay js (property "decay" o)) _ p e4 in
      rw (← ok_inj e5) (record {
        weights_given = parse_weights_field-AreWeights js (property "weights" o) w w1;
        ids_numeric = parse_entity_ids-All (property "entityIds" o) ids i1;
        required_weighted = parse_required-All w (property "requiredSignalKeys" o) req r1;
        metrics_described = parse_metrics-AreMetrics w (property "metricDefinitions" o) ms m1;
        decay_sensible = parse_decay-IsDecay js (property "decay" o) d d1;
      })
  parse_ranking_policy_json-IsAccepted Json.null p e = absurd (cc)
  parse_ranking_policy_json-IsAccepted (Json.flag b) p e = absurd (cc)
  parse_ranking_policy_json-IsAccepted (Json.number n) p e = absurd (cc)
  parse_ranking_policy_json-IsAccepted (Json.text s) p e = absurd (cc)
  parse_ranking_policy_json-IsAccepted (Json.array xs) p e = absurd (cc)
