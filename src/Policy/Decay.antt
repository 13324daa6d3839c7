-- ===== src/Policy/Decay.antt =====
-- The decay that `parseRankingPolicyJson` of src/domain/policy-json.ts accepts.
use ranking.Prelude.{
  ◌≡◌, refl, Bool, true, false, ◌||◌, not, Option, none, some, List, [], ◌∷◌, arith, All,
  Bool-cases, inl, inr,
}
use ranking.Prelude.Json.{Json, elements, property}
use ranking.Prelude.Number.{Number, le}
use ranking.Scoring.{Breakpoint, DecayParams}
use ranking.Policy.Parse.{
  Parsed, and_then, each, Conversions, as_number, is_negative, parse_half_life, breakpoint_with,
  parse_breakpoint, parse_breakpoints, decay_with, parse_decay,
}
use ranking.Policy.Weights.{ok_inj, err_not_ok, and_then-ok, each-All, IfGiven}

module _ {F : Type 0} ⦃num : Number F⦄ (js : Conversions F) where
  abbrev pub IsHalfLife : F → Type 0
  IsHalfLife hl = (num.is_finite hl ≡ true) × (le hl (num.lit 0 1) ≡ false)

  -- The age is not negative, and the weight is between 0 and 1.
  abbrev pub IsBreakpoint : Breakpoint F → Type 0
  IsBreakpoint b =
      (is_negative js b.max_age_days ≡ false)
      × (is_negative js b.weight ≡ false)
      × (num.lt (num.lit 1 1) b.weight ≡ false)

  abbrev is_empty_decay : DecayParams F → Bool
  is_empty_decay d = elim d.half_life_days [
    | some hl ↦ false
    | none ↦ elim d.breakpoints [ none ↦ true | some bs ↦ elim bs [ [] ↦ true | ◌∷◌ x xs ↦ false ] ]
  ]

  abbrev pub IsDecay : DecayParams F → Type 0
  IsDecay d =
      IfGiven IsHalfLife d.half_life_days
      × IfGiven (All IsBreakpoint) d.breakpoints
      × (is_empty_decay d ≡ false)

  parse_half_life-IsHalfLife :
      (x : Option (Json F)) (hl : Option F)
      → parse_half_life js x ≡ Parsed.ok hl
      → IfGiven IsHalfLife hl
  parse_half_life-IsHalfLife none hl e = rw (← ok_inj e) tt
  parse_half_life-IsHalfLife (some v) hl e =
      elim (Bool-cases
        (not (num.is_finite (as_number js (some v))) || le (as_number js (some v)) (num.lit 0 1))) [
          | inl b ↦ absurd (err_not_ok _ hl (rw b at e))
          | inr b ↦ rw (← ok_inj (rw b at e)) (ground arith, ground arith)
        ]

  breakpoint_with-IsBreakpoint :
      (age weight : F) (b : Breakpoint F)
      → breakpoint_with js age weight ≡ Parsed.ok b
      → IsBreakpoint b
  breakpoint_with-IsBreakpoint age weight b e = elim (Bool-cases (is_negative js age)) [
    | inl a ↦ absurd (err_not_ok _ b (rw a at e))
    | inr a ↦ elim (Bool-cases (is_negative js weight || num.lt (num.lit 1 1) weight)) [
      | inl w ↦ absurd (err_not_ok _ b (rw (a, w) at e))
      | inr w ↦ rw (← ok_inj (rw (a, w) at e)) (a, ground arith, ground arith)
    ]
  ]

  parse_breakpoint-IsBreakpoint :
      (x : Json F) (b : Breakpoint F) → parse_breakpoint js x ≡ Parsed.ok b → IsBreakpoint b
  parse_breakpoint-IsBreakpoint (Json.object xs) b e =
      breakpoint_with-IsBreakpoint (as_number js (property "maxAgeDays" xs))
        (as_number js (property "weight" xs)) b e
  parse_breakpoint-IsBreakpoint Json.null b e = absurd (cc)
  parse_breakpoint-IsBreakpoint (Json.flag x) b e = absurd (cc)
  parse_breakpoint-IsBreakpoint (Json.number n) b e = absurd (cc)
  parse_breakpoint-IsBreakpoint (Json.text s) b e = absurd (cc)
  parse_breakpoint-IsBreakpoint (Json.array xs) b e = absurd (cc)

  parse_breakpoints-All :
      (x : Option (Json F)) (bs : Option (List (Breakpoint F)))
      → parse_breakpoints js x ≡ Parsed.ok bs
      → IfGiven (All IsBreakpoint) bs
  parse_breakpoints-All none bs e = rw (← ok_inj e) tt
  parse_breakpoints-All (some (Json.array xs)) bs e =
      let (ys, p, q) =
        and_then-ok (each (parse_breakpoint js) (elements xs)) (λ zs. Parsed.ok (some zs)) bs e in
      rw (← ok_inj q) (
        each-All IsBreakpoint (parse_breakpoint js) parse_breakpoint-IsBreakpoint (elements xs) ys
          p)
  parse_breakpoints-All (some Json.null) bs e = absurd (cc)
  parse_breakpoints-All (some (Json.flag b)) bs e = absurd (cc)
  parse_breakpoints-All (some (Json.number n)) bs e = absurd (cc)
  parse_breakpoints-All (some (Json.text s)) bs e = absurd (cc)
  parse_breakpoints-All (some (Json.object o)) bs e = absurd (cc)

  decay_with-IsDecay :
      (hl : Option F) (bs : Option (List (Breakpoint F))) (d : Option (DecayParams F))
      → decay_with js hl bs ≡ Parsed.ok d
      → IfGiven IsHalfLife hl
      → IfGiven (All IsBreakpoint) bs
      → IfGiven IsDecay d
  decay_with-IsDecay none none d e h b = absurd (cc)
  decay_with-IsDecay none (some []) d e h b = absurd (cc)
  decay_with-IsDecay none (some (x ∷ xs)) d e h b = rw (← ok_inj e) (h, b, refl)
  decay_with-IsDecay (some hl) none d e h b = rw (← ok_inj e) (h, b, refl)
  decay_with-IsDecay (some hl) (some xs) d e h b = rw (← ok_inj e) (h, b, refl)

  pub parse_decay-IsDecay :
      (x : Option (Json F)) (d : Option (DecayParams F))
      → parse_decay js x ≡ Parsed.ok d
      → IfGiven IsDecay d
  unfolding parse_decay
  parse_decay-IsDecay none d e = rw (← ok_inj e) tt
  parse_decay-IsDecay (some (Json.object xs)) d e =
      let (hl, p, q) =
        and_then-ok (parse_half_life js (property "halfLifeDays" xs))
          (λ hl. and_then (parse_breakpoints js (property "breakpoints" xs)) (decay_with js hl)) d
          e in
      let (bs, r, s) =
        and_then-ok (parse_breakpoints js (property "breakpoints" xs)) (decay_with js hl) d q in
      decay_with-IsDecay hl bs d s (parse_half_life-IsHalfLife (property "halfLifeDays" xs) hl p)
        (parse_breakpoints-All (property "breakpoints" xs) bs r)
  parse_decay-IsDecay (some Json.null) d e = absurd (cc)
  parse_decay-IsDecay (some (Json.flag b)) d e = absurd (cc)
  parse_decay-IsDecay (some (Json.number n)) d e = absurd (cc)
  parse_decay-IsDecay (some (Json.text s)) d e = absurd (cc)
  parse_decay-IsDecay (some (Json.array xs)) d e = absurd (cc)
