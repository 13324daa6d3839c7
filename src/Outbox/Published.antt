-- ===== src/Outbox/Published.antt =====
-- Which rows have a publication time, before and after claims, flushes and writes.
use ranking.Prelude.{
  ℕ, zero, suc, ◌≡◌, refl, ap, Bool, true, false, ◌&&◌, ◌||◌, not, List, [], ◌∷◌, ◌++◌, map, Option,
  All, Bool-cases, inl, inr, arith, holds, Unique, nat_beq, nat_beq_iff,
}
use ranking.Outbox.{OutboxType, OutboxRow, is_claimable, claim, is_null}
use ranking.Outbox.Claims.{ids, holds-claimed}
use ranking.Outbox.{Sending}
use ranking.Outbox.Flush.{publication, published_view, sent_ids, recorded, is_recorded}

-- The row with this id has a publication time.
abbrev pub is_published : ℕ → List (ℕ × Option ℕ) → Bool
is_published id [] = false
is_published id ((j, time) ∷ rows) = (nat_beq j id && not (is_null time)) || is_published id rows

holds_weaken :
    (x : ℕ) (xs ys : List ℕ)
    → All (λ y. holds xs y ≡ true) ys
    → All (λ y. holds (x ∷ xs) y ≡ true) ys
holds_weaken x xs [] h = tt
holds_weaken x xs (y ∷ ys) h = (ground (arith, h.0), holds_weaken x xs ys h.1)

pub holds_self : (xs : List ℕ) → All (λ x. holds xs x ≡ true) xs
holds_self [] = tt
holds_self (x ∷ xs) = (ground (arith, nat_beq_iff x x), holds_weaken x xs xs (holds_self xs))

-- What is published is not among what is not.
pub published-fresh :
    (table : List (ℕ × Option ℕ)) (x : ℕ) (fresh : List ℕ)
    → All (λ y. is_published y table ≡ false) fresh
    → is_published x table ≡ true
    → holds fresh x ≡ false
published-fresh table x [] h p = refl
published-fresh table x (y ∷ fresh) h p =
    ground (arith, h.0, published-fresh table x fresh h.1 p, nat_beq_iff y x)

pub recorded-All :
    (Q : ℕ → Type 0) (log : List Sending) → All Q (sent_ids log) → All Q (recorded log)
recorded-All Q [] h = tt
recorded-All Q (e ∷ log) h = elim (Bool-cases (is_recorded e)) [
  | inl r ↦ rw r (h.0, recorded-All Q log h.1)
  | inr r ↦ rw r (recorded-All Q log h.1)
]

module _ {P : Type 0} where
  pub is_published-absent :
      (id : ℕ) (rows : List (OutboxRow P))
      → holds (ids rows) id ≡ false
      → is_published id (map publication rows) ≡ false
  is_published-absent id [] h = refl
  is_published-absent id (row ∷ rows) h = ground (arith, is_published-absent id rows)

  is_published-cons :
      (row : OutboxRow P) (rows : List (OutboxRow P)) (xs : List ℕ)
      → holds xs row.id ≡ false
      → All (λ id. is_published id (map publication rows) ≡ false) xs
      → All (λ id. is_published id (map publication (row ∷ rows)) ≡ false) xs
  is_published-cons row rows [] h a = tt
  is_published-cons row rows (x ∷ xs) h a = (
    ground (arith, a.0, nat_beq_iff x row.id, nat_beq_iff row.id x),
    is_published-cons row rows xs (ground arith) a.1,
  )

  claimable-null :
      (types : OutboxType → Bool) (locked : ℕ → Bool) (now : ℕ) (row : OutboxRow P)
      → is_claimable types locked now row ≡ true
      → is_null row.kafka_published_at ≡ true
  unfolding is_claimable
  claimable-null types locked now row h = ground arith

  null_fresh :
      (row : OutboxRow P) (rows : List (OutboxRow P))
      → is_null row.kafka_published_at ≡ true
      → holds (ids rows) row.id ≡ false
      → is_published row.id (map publication (row ∷ rows)) ≡ false
  null_fresh row rows n h = ground (arith, is_published-absent row.id rows)

  -- A claim takes rows that are not published.
  pub claimed_fresh :
      (types : OutboxType → Bool) (locked : ℕ → Bool) (now until limit : ℕ)
      (rows : List (OutboxRow P))
      → Unique (ids rows)
      → All
          (λ id. is_published id (map publication rows) ≡ false)
          (ids (claim (is_claimable types locked now) until limit rows).1)
  unfolding claim
  claimed_fresh types locked now until limit [] u = tt
  claimed_fresh types locked now until zero (row ∷ rows) u = tt
  claimed_fresh types locked now until (suc limit) (row ∷ rows) u =
      let test = is_claimable types locked now in
      elim (Bool-cases (test row)) [
        | inl e ↦ rw e (
          null_fresh row rows (claimable-null types locked now row e) u.0,
          is_published-cons row rows _ (holds-claimed test until limit rows row.id u.0)
              (claimed_fresh types locked now until limit rows u.1),
        )
        | inr e ↦ rw e (
            is_published-cons row rows _ (holds-claimed test until (suc limit) rows row.id u.0)
              (claimed_fresh types locked now until (suc limit) rows u.1))
      ]

  pub claimed_listed :
      (test : OutboxRow P → Bool) (until limit : ℕ) (rows : List (OutboxRow P))
      → All (λ id. holds (ids rows) id ≡ true) (ids (claim test until limit rows).1)
  unfolding claim
  claimed_listed test until limit [] = tt
  claimed_listed test until zero (row ∷ rows) = tt
  claimed_listed test until (suc limit) (row ∷ rows) = elim (Bool-cases (test row)) [
    | inl e ↦
        rw e (ground arith, holds_weaken row.id (ids rows) _ (claimed_listed test until limit rows))
    | inr e ↦ rw e (holds_weaken row.id (ids rows) _ (claimed_listed test until (suc limit) rows))
  ]

  -- A row is published after a flush exactly if it was before, or was sent.
  pub is_published-view :
      (now id : ℕ) (sent : List ℕ) (rows : List (OutboxRow P))
      → is_published id (map (published_view now sent) rows)
        ≡ (is_published id (map publication rows) || (holds sent id && holds (ids rows) id))
  is_published-view now id sent [] = ground arith
  is_published-view now id sent (row ∷ rows) =
      ground (arith, is_published-view now id sent rows, nat_beq_iff row.id id)

  pub ids-publication :
      (rows : List (OutboxRow P)) → ids rows ≡ map (λ p. p.0) (map publication rows)
  ids-publication [] = refl
  ids-publication (row ∷ rows) = ap (◌∷◌ row.id) (ids-publication rows)

  pub ids-view :
      (now : ℕ) (sent : List ℕ) (rows : List (OutboxRow P))
      → map (λ p. p.0) (map (published_view now sent) rows) ≡ ids rows
  ids-view now sent [] = refl
  ids-view now sent (row ∷ rows) = ap (◌∷◌ row.id) (ids-view now sent rows)

  pub old-published :
      (now : ℕ) (sent : List ℕ) (rows : List (OutboxRow P)) (log : List ℕ)
      → All (λ id. is_published id (map publication rows) ≡ true) log
      → All (λ id. is_published id (map (published_view now sent) rows) ≡ true) log
  old-published now sent rows [] h = tt
  old-published now sent rows (id ∷ log) h =
      (ground (arith, h.0, is_published-view now id sent rows), old-published now sent rows log h.1)

  pub new-published :
      (now : ℕ) (sent : List ℕ) (rows : List (OutboxRow P)) (some_sent : List ℕ)
      → All (λ id. holds sent id ≡ true) some_sent
      → All (λ id. holds (ids rows) id ≡ true) some_sent
      → All (λ id. is_published id (map (published_view now sent) rows) ≡ true) some_sent
  new-published now sent rows [] h k = tt
  new-published now sent rows (id ∷ later) h k = (
    ground (arith, h.0, k.0, is_published-view now id sent rows),
    new-published now sent rows later h.1 k.1,
  )

  -- A new row leaves the publication of the others.
  is_published-append :
      (row : OutboxRow P) (rows : List (OutboxRow P)) (id : ℕ)
      → is_published id (map publication rows) ≡ true
      → is_published id (map publication (rows ++ row ∷ [])) ≡ true
  is_published-append row [] id h = absurd (cc)
  is_published-append row (r ∷ rows) id h = ground (arith, is_published-append row rows id)

  pub All-published_append :
      (row : OutboxRow P) (rows : List (OutboxRow P)) (log : List ℕ)
      → All (λ id. is_published id (map publication rows) ≡ true) log
      → All (λ id. is_published id (map publication (rows ++ row ∷ [])) ≡ true) log
  All-published_append row rows [] h = tt
  All-published_append row rows (x ∷ log) h =
      (is_published-append row rows x h.0, All-published_append row rows log h.1)

  pub ids-append : (xs ys : List (OutboxRow P)) → ids (xs ++ ys) ≡ ids xs ++ ids ys
  ids-append [] ys = refl
  ids-append (x ∷ xs) ys = ap (◌∷◌ x.id) (ids-append xs ys)
