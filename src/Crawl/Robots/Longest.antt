-- ===== src/Crawl/Robots/Longest.antt =====
-- `isPathAllowedByRobots` of src/ingestion/crawl-robots.ts: the longest rule decides.
use ranking.Prelude.{
  ℕ, ◌≤◌, ◌≡◌, refl, ◌↔◌, Bool, true, false, Option, none, some, List, [], ◌∷◌, Option-cases, inl,
  inr, arith, length, All, ◌⊎◌,
}
use mathlib.Core.List.{Memᴰ}
use ranking.Prelude.Texts.{Text, starts_with}
use ranking.Crawl.Robots.{
  RobotsRules, longest, next_best, or_root, outweighs, is_path_allowed_by_robots,
}

-- The rule is not empty and is a prefix of the path.
abbrev pub is_match : Text → Text → Bool
is_match path [] = false
is_match path (c ∷ p) = starts_with path (c ∷ p)

-- `best`, and the lengths of the matching rules, are at most `n`.
abbrev IsBound : Text → ℕ → List Text → Type 0
IsBound path n rules = All (λ p. is_match path p ≡ true → length p ≤ n) rules

next-none :
    (path : Text) (best : Option ℕ) (p : Text)
    → next_best path best p ≡ none
    → (best ≡ none) × (is_match path p ≡ false)
next-none path best [] h = ground arith
next-none path none (c ∷ p) h = ground arith
next-none path (some b) (c ∷ p) h = ground arith

longest-none :
    (path : Text) (best : Option ℕ) (rules : List Text)
    → longest path best rules ≡ none
    → (best ≡ none) × All (λ p. is_match path p ≡ false) rules
unfolding longest
longest-none path best [] h = (h, tt)
longest-none path best (p ∷ ps) h =
    let below = longest-none path (next_best path best p) ps h in
    let first = next-none path best p below.0 in (first.0, (first.1, below.1))

-- The best length does not fall, and is at least that of the rule if it matches.
next-bound :
    (path : Text) (best : Option ℕ) (p : Text) (n : ℕ)
    → ((b : ℕ) → next_best path best p ≡ some b → b ≤ n)
    → ((b : ℕ) → best ≡ some b → b ≤ n) × (is_match path p ≡ true → length p ≤ n)
next-bound path best p n h = (old best p h, new best p h)
  where
    old :
        (best : Option ℕ) (p : Text)
        → ((b : ℕ) → next_best path best p ≡ some b → b ≤ n)
        → (b : ℕ) → best ≡ some b
        → b ≤ n
    old best [] h b e = h b e
    old none (c ∷ p) h b e = absurd (cc)
    old (some a) (c ∷ p) h b e = ground (arith, h b, h (length (c ∷ p)))

    new :
        (best : Option ℕ) (p : Text)
        → ((b : ℕ) → next_best path best p ≡ some b → b ≤ n)
        → is_match path p ≡ true
        → length p ≤ n
    new best [] h e = absurd (cc)
    new none (c ∷ p) h e = ground (arith, h (length (c ∷ p)))
    new (some a) (c ∷ p) h e = ground (arith, h a, h (length (c ∷ p)))

longest-IsBound :
    (path : Text) (best : Option ℕ) (rules : List Text) (n : ℕ)
    → longest path best rules ≡ some n
    → ((b : ℕ) → best ≡ some b → b ≤ n) × IsBound path n rules
unfolding longest
longest-IsBound path best [] n h = ((λ b e. ground (arith, e)), tt)
longest-IsBound path best (p ∷ ps) n h =
    let below = longest-IsBound path (next_best path best p) ps n h in
    let first = next-bound path best p n below.0 in (first.0, (first.1, below.1))

next-attained :
    (path : Text) (best : Option ℕ) (p : Text) (n : ℕ)
    → next_best path best p ≡ some n
    → (best ≡ some n) ⊎ ((is_match path p ≡ true) × (length p ≡ n))
next-attained path best [] n h = inl h
next-attained path none (c ∷ p) n h = ground arith
next-attained path (some b) (c ∷ p) n h = ground arith

-- The length is the one of a matching rule.
abbrev IsAttained : Text → ℕ → List Text → Type 0
IsAttained path n rules = (p : Text) × Memᴰ p rules × (is_match path p ≡ true) × (length p ≡ n)

longest-IsAttained :
    (path : Text) (best : Option ℕ) (rules : List Text) (n : ℕ)
    → longest path best rules ≡ some n
    → (best ≡ some n) ⊎ IsAttained path n rules
unfolding longest
longest-IsAttained path best [] n h = inl h
longest-IsAttained path best (p ∷ ps) n h =
    elim (longest-IsAttained path (next_best path best p) ps n h) [
      | inl e ↦ elim (next-attained path best p n e) [
        | inl f ↦ inl f
        | inr (f, l) ↦ inr (p, Memᴰ.head refl, f, l)
      ]
      | inr (q, i, f, l) ↦ inr (q, Memᴰ.tail i, f, l)
    ]

All-Mem : (P : Text → Type 0) (p : Text) (rules : List Text) → All P rules → Memᴰ p rules → P p
All-Mem P p [] h i = elim i [ ]
All-Mem P p (q ∷ rules) h (Memᴰ.head e) = rw e h.0
All-Mem P p (q ∷ rules) h (Memᴰ.tail i) = All-Mem P p rules h.1 i

outweighs-none : (a : Option ℕ) → outweighs a none ≡ true
outweighs-none none = refl
outweighs-none (some a) = refl

module _ (path : Text) (rules : RobotsRules) where
  -- Some rule of `Allow` matches and is at least that long.
  abbrev pub IsOutweighed : Text → Type 0
  IsOutweighed p =
      (q : Text) × Memᴰ q rules.allow × (is_match path q ≡ true) × (length p ≤ length q)

  abbrev verdict : Bool
  verdict = outweighs (longest path none rules.allow) (longest path none rules.disallow)

  not_attained :
      (p : Text) (ps : List Text)
      → longest path none ps ≡ none
      → Memᴰ p ps
      → is_match path p ≡ false
  not_attained p ps h i =
      All-Mem (λ q. is_match path q ≡ false) p ps (longest-none path none ps h).1 i

  bounded :
      (p : Text) (ps : List Text) (n : ℕ)
      → longest path none ps ≡ some n
      → Memᴰ p ps
      → is_match path p ≡ true
      → length p ≤ n
  bounded p ps n h i =
      All-Mem (λ q. is_match path q ≡ true → length q ≤ n) p ps (longest-IsBound path none ps n h).1
        i

  attained : (ps : List Text) (n : ℕ) → longest path none ps ≡ some n → IsAttained path n ps
  attained ps n h = elim (longest-IsAttained path none ps n h) [ inl e ↦ absurd (cc) | inr w ↦ w ]

  allowed-IsOutweighed :
      verdict ≡ true → (p : Text) → Memᴰ p rules.disallow → is_match path p ≡ true → IsOutweighed p
  allowed-IsOutweighed v p i m = elim (Option-cases (longest path none rules.disallow)) [
    | inl e ↦ absurd (ground (arith, not_attained p rules.disallow e i))
    | inr (d, e) ↦ elim (Option-cases (longest path none rules.allow)) [
      | inl f ↦ absurd (ground arith)
      | inr (n, f) ↦
          let (q, j, k, l) = attained rules.allow n f in
          (q, j, k, ground (arith, bounded p rules.disallow d e i m))
    ]
  ]

  outweighed_allowed :
      ((p : Text) → Memᴰ p rules.disallow → is_match path p ≡ true → IsOutweighed p)
      → verdict ≡ true
  outweighed_allowed h = elim (Option-cases (longest path none rules.disallow)) [
    | inl e ↦ rw e (outweighs-none (longest path none rules.allow))
    | inr (d, e) ↦
        let (p, i, m, l) = attained rules.disallow d e in
        let (q, j, k, n) = h p i m in
        elim (Option-cases (longest path none rules.allow)) [
          | inl f ↦ absurd (ground (arith, not_attained q rules.allow f j))
          | inr (a, f) ↦ ground (arith, bounded q rules.allow a f j k)
        ]
  ]

-- A path is allowed exactly if every rule of `Disallow` that is a prefix of it, an empty rule not
-- counted, is outweighed by a rule of `Allow` that is a prefix of it and not shorter. The empty path
-- counts as `/`.
pub is_path_allowed_iff :
    (pathname : Text) (rules : RobotsRules)
    → (is_path_allowed_by_robots pathname rules ≡ true) ↔ (
        (p : Text)
        → Memᴰ p rules.disallow
        → is_match (or_root pathname) p ≡ true
        → IsOutweighed (or_root pathname) rules p)
unfolding is_path_allowed_by_robots
is_path_allowed_iff pathname rules =
    (allowed-IsOutweighed (or_root pathname) rules, outweighed_allowed (or_root pathname) rules)
