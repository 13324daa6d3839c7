-- ===== src/Outbox/Claims.antt =====
-- What a claim takes, and that two claims do not take the same row while a lease runs.
use ranking.Prelude.{
  ℕ, zero, suc, ◌+◌, ◌*◌, ◌≤◌, ◌≡◌, refl, Bool, true, false, List, [], ◌∷◌, map, All, Bool-cases,
  inl, inr, arith, length, holds, Unique,
}
use ranking.Outbox.{OutboxType, OutboxRow, is_claimable, lease, claim, claim_for_kafka}

abbrev pub ids : {P : Type 0} → List (OutboxRow P) → List ℕ
ids rows = map (λ r. r.id) rows

module _ {P : Type 0} (test : OutboxRow P → Bool) (until : ℕ) where
  -- A claim changes no id.
  pub ids-claim :
      (limit : ℕ) (rows : List (OutboxRow P)) → ids (claim test until limit rows).0 ≡ ids rows
  unfolding claim
  ids-claim limit [] = refl
  ids-claim zero (row ∷ rows) = refl
  ids-claim (suc limit) (row ∷ rows) =
      ground (arith, ids-claim limit rows, ids-claim (suc limit) rows)

  pub holds-claimed :
      (limit : ℕ) (rows : List (OutboxRow P)) (x : ℕ)
      → holds (ids rows) x ≡ false
      → holds (ids (claim test until limit rows).1) x ≡ false
  unfolding claim
  holds-claimed limit [] x h = refl
  holds-claimed zero (row ∷ rows) x h = refl
  holds-claimed (suc limit) (row ∷ rows) x h =
      ground (arith, holds-claimed limit rows x, holds-claimed (suc limit) rows x)

  pub Unique-claimed :
      (limit : ℕ) (rows : List (OutboxRow P))
      → Unique (ids rows)
      → Unique (ids (claim test until limit rows).1)
  unfolding claim
  Unique-claimed limit [] u = tt
  Unique-claimed zero (row ∷ rows) u = tt
  Unique-claimed (suc limit) (row ∷ rows) u = elim (Bool-cases (test row)) [
    | inl e ↦ rw e (holds-claimed limit rows row.id u.0, Unique-claimed limit rows u.1)
    | inr e ↦ rw e (Unique-claimed (suc limit) rows u.1)
  ]

  -- At most `limit` rows are claimed.
  length-claimed :
      (limit : ℕ) (rows : List (OutboxRow P)) → length (claim test until limit rows).1 ≤ limit
  unfolding claim
  length-claimed limit [] = omega arith
  length-claimed zero (row ∷ rows) = omega arith
  length-claimed (suc limit) (row ∷ rows) =
      ground (arith, length-claimed limit rows, length-claimed (suc limit) rows)

  -- What the claimed rows have in common, if it holds of each row that passes the test, once leased.
  claimed-All :
      (Q : OutboxRow P → Type 0)
      → ((row : OutboxRow P) → test row ≡ true → Q (lease until row))
      → (limit : ℕ) (rows : List (OutboxRow P)) → All Q (claim test until limit rows).1
  unfolding claim
  claimed-All Q h limit [] = tt
  claimed-All Q h zero (row ∷ rows) = tt
  claimed-All Q h (suc limit) (row ∷ rows) = elim (Bool-cases (test row)) [
    | inl e ↦ rw e (h row e, claimed-All Q h limit rows)
    | inr e ↦ rw e (claimed-All Q h (suc limit) rows)
  ]

abbrev pub IsDisjoint : {P : Type 0} → List (OutboxRow P) → List (OutboxRow P) → Type 0
IsDisjoint xs ys = All (λ x. holds (ids xs) x ≡ false) (ids ys)

module _ {P : Type 0} (test₁ test₂ : OutboxRow P → Bool) (until₁ until₂ : ℕ) where
  cons-IsDisjoint :
      (x : OutboxRow P) (xs ys : List (OutboxRow P))
      → holds (ids ys) x.id ≡ false
      → IsDisjoint xs ys
      → IsDisjoint (x ∷ xs) ys
  cons-IsDisjoint x xs [] h d = tt
  cons-IsDisjoint x xs (y ∷ ys) h d =
      (ground (arith, d.0), cons-IsDisjoint x xs ys (ground arith) d.1)

  nil-IsDisjoint : (ys : List (OutboxRow P)) → IsDisjoint [] ys
  nil-IsDisjoint [] = tt
  nil-IsDisjoint (y ∷ ys) = (refl, nil-IsDisjoint ys)

  claim-IsDisjoint :
      ((row : OutboxRow P) → test₂ (lease until₁ row) ≡ false)
      → (limit₁ limit₂ : ℕ) (rows : List (OutboxRow P)) → Unique (ids rows)
      → let first = claim test₁ until₁ limit₁ rows in
        IsDisjoint first.1 (claim test₂ until₂ limit₂ first.0).1
  unfolding claim
  claim-IsDisjoint h limit₁ limit₂ [] u = tt
  claim-IsDisjoint h zero limit₂ (row ∷ rows) u = nil-IsDisjoint _
  claim-IsDisjoint h (suc limit₁) zero (row ∷ rows) u = elim (Bool-cases (test₁ row)) [
    | inl e ↦ rw e tt
    | inr e ↦ rw e tt
  ]
  claim-IsDisjoint h (suc limit₁) (suc limit₂) (row ∷ rows) u = elim (Bool-cases (test₁ row)) [
    | inl e ↦
        rw (e, h row)
          (cons-IsDisjoint (lease until₁ row) _ _
            (holds-claimed test₂ until₂ (suc limit₂) _ row.id
              (rw (ids-claim test₁ until₁ limit₁ rows) u.0))
            (claim-IsDisjoint h limit₁ (suc limit₂) rows u.1))
    | inr e ↦ elim (Bool-cases (test₂ row)) [
      | inl e₂ ↦
          rw (e, e₂)
            (
              holds-claimed test₁ until₁ (suc limit₁) rows row.id u.0,
              claim-IsDisjoint h (suc limit₁) limit₂ rows u.1,
            )
      | inr e₂ ↦ rw (e, e₂) (claim-IsDisjoint h (suc limit₁) (suc limit₂) rows u.1)
    ]
  ]

-- Two workers that claim one after the other take no row twice, as long as the second claims before
-- the leases of the first have run out: whatever types, locks and batch sizes they ask for.
pub claims-IsDisjoint :
    {P : Type 0} (types₁ types₂ : OutboxType → Bool) (locked₁ locked₂ : ℕ → Bool)
    (now₁ now₂ seconds₁ seconds₂ limit₁ limit₂ : ℕ) (table : List (OutboxRow P))
    → Unique (ids table)
    → now₂ ≤ now₁ + seconds₁ * 1000
    → let first = claim_for_kafka types₁ locked₁ now₁ seconds₁ limit₁ table in
      IsDisjoint first.1 (claim_for_kafka types₂ locked₂ now₂ seconds₂ limit₂ first.0).1
unfolding claim_for_kafka is_claimable
claims-IsDisjoint types₁ types₂ locked₁ locked₂ now₁ now₂ seconds₁ seconds₂ limit₁ limit₂ table u
      h =
    claim-IsDisjoint _ _ _ _ (λ row. ground arith) limit₁ limit₂ table u
